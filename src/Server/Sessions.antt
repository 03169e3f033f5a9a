-- ===== src/Server/Sessions.antt =====
-- The transactions that a connection leaves open, by the calls that it makes.
use wisdb.Parser.Monad.{ok, err, Result, no_fuel, invalid_stat, unexpected_token}
use wisdb.Parser.Statement.{begin, commit, abort, show, drop, create, update, delete, insert, read}
use wisdb.Parser.Statement.{Statement}
use wisdb.Parser.Parse.{parse}
use wisdb.Server
use wisdb.Server.{
  TableManager, Executor, Reply, execute, execute2, execute_statement, execute_all, close,
  end_temporary, replied, unparsed,
}
use wisdb.Base.{ℕ, List, some, none, [], ◌∷◌, Bool, ◌≡◌, ◌||◌, ◌&&◌, not, ◌≢◌, false, true, All}
use wisdb.Base.{◌==◌, Option, arith, refl, Bool-cases, inr, inl}
use wisdb.Server.{parse_failed}

-- A call of the table manager that begins or ends a transaction.
pub data Call : Type 0 where
  begun : ℕ → Call
  ended : ℕ → Call

-- A table manager whose Begin, Commit and Abort are recorded, the last call first. A Commit is a call
-- whatever it answers.
abbrev pub recorded : {S : Type 0} → TableManager S → TableManager (S × List Call)
recorded tbm = record {
  begin = λ (s, calls) r. let (x, l, s') = tbm.begin s r in (x, l, (s', begun x ∷ calls));
  commit = λ (s, calls) x. let (l, s') = tbm.commit s x in (l, (s', ended x ∷ calls));
  abort = λ (s, calls) x. let (l, s') = tbm.abort s x in (l, (s', ended x ∷ calls));
  run = λ (s, calls) x stat. let (l, s') = tbm.run s x stat in (l, (s', calls));
}

-- The transaction was begun, and no call has ended it since.
abbrev pub left_open : List Call → ℕ → Bool
left_open [] y = false
left_open (begun x ∷ calls) y = left_open calls y || x == y
left_open (ended x ∷ calls) y = left_open calls y && not (x == y)

abbrev ending : Result Statement → Bool
ending (ok stat) = true
ending (err no_fuel) = false
ending (err invalid_stat) = true
ending (err (unexpected_token t)) = true

-- The parse of the text ends.
unfoldable pub ends : List ℕ → Bool
ends sql = ending (parse sql)

module _ {S : Type 0} (tbm : TableManager S) where
  -- All but the connection's own transaction are ended.
  abbrev IsSession : Executor (recorded tbm) → Type 0
  IsSession e = (y : ℕ) → y ≢ 0 → y ≢ e.xid → left_open e.st.1 y ≡ false

  end_temporary-IsSession :
      (x : ℕ) (calls : List Call) (r : Option (List ℕ) × (S × List Call))
      → r.1.1 ≡ begun x ∷ calls
      → ((y : ℕ) → y ≢ 0 → left_open calls y ≡ false)
      → IsSession (end_temporary (recorded tbm) x r)
  end_temporary-IsSession x calls (none, (s, cs)) h v y some_y other =
      rw h (ground (arith, v y some_y))
  end_temporary-IsSession x calls (some l, (s, cs)) h v y some_y other =
      rw h (ground (arith, v y some_y))

  execute2-IsSession :
      (e : Executor (recorded tbm)) (stat : Statement)
      → IsSession e
      → IsSession (execute2 (recorded tbm) e stat).1
  unfolding execute2
  execute2-IsSession e stat v = elim (Bool-cases (e.xid == 0)) [
    | inr busy ↦ rw busy v
    | inl idle ↦
        let b = (recorded tbm).begin e.st false in
        let clear : (y : ℕ) → y ≢ 0 → left_open e.st.1 y ≡ false =
          λ y some_y. v y some_y (ground arith) in
        elim (Bool-cases (b.0 == 0)) [
          | inl nil ↦ rw (idle, nil) (λ y some_y other. ground (arith, clear y some_y))
          | inr given ↦
              rw (idle, given)
                (end_temporary-IsSession b.0 e.st.1 ((recorded tbm).run b.2 b.0 stat) refl clear)
        ]
  ]

  committed-IsSession :
      (e : Executor (recorded tbm)) (r : Option (List ℕ) × (S × List Call))
      → r.1.1 ≡ ended e.xid ∷ e.st.1
      → IsSession e
      → IsSession (Server.committed (recorded tbm) e r).1
  committed-IsSession e (none, (s, cs)) h v y some_y other = rw h (ground (arith, v y some_y))
  committed-IsSession e (some l, (s, cs)) h v y some_y other = rw h (ground (arith, v y some_y))

  execute_statement-IsSession :
      (e : Executor (recorded tbm)) (stat : Statement)
      → IsSession e
      → IsSession (execute_statement (recorded tbm) e stat).1
  unfolding execute_statement
  execute_statement-IsSession e (begin r) v = elim (Bool-cases (e.xid == 0)) [
    | inr busy ↦ rw busy v
    | inl idle ↦ rw idle (λ y some_y other. ground (arith, v y some_y))
  ]
  execute_statement-IsSession e commit v = elim (Bool-cases (e.xid == 0)) [
    | inl idle ↦ rw idle v
    | inr busy ↦ rw busy (committed-IsSession e ((recorded tbm).commit e.st e.xid) refl v)
  ]
  execute_statement-IsSession e abort v = elim (Bool-cases (e.xid == 0)) [
    | inl idle ↦ rw idle v
    | inr busy ↦ rw busy (λ y some_y other. ground (arith, v y some_y))
  ]
  execute_statement-IsSession e show v = execute2-IsSession e show v
  execute_statement-IsSession e (drop n) v = execute2-IsSession e (drop n) v
  execute_statement-IsSession e (create c) v = execute2-IsSession e (create c) v
  execute_statement-IsSession e (update c) v = execute2-IsSession e (update c) v
  execute_statement-IsSession e (delete c) v = execute2-IsSession e (delete c) v
  execute_statement-IsSession e (insert c) v = execute2-IsSession e (insert c) v
  execute_statement-IsSession e (read c) v = execute2-IsSession e (read c) v

  abbrev Answered : Executor (recorded tbm) → List ℕ → Type 0
  Answered e sql =
      (r : Reply) × (e' : Executor (recorded tbm)) × (execute (recorded tbm) e sql ≡ some (r, e'))
      × IsSession e'

  execute-IsSession :
      (e : Executor (recorded tbm)) (sql : List ℕ) → ends sql ≡ true → IsSession e → Answered e sql
  unfolding execute ends
  execute-IsSession e sql sure v = go (parse sql) sure
    where
      go :
          (p : Result Statement)
          → ending p ≡ true
          → (r : Reply) × (e' : Executor (recorded tbm)) × ((elim p
                as (λ _. Option (Reply × Executor (recorded tbm))) [
                  | ok stat ↦ some (execute_statement (recorded tbm) e stat)
                  | err x ↦ unparsed (recorded tbm) x e
                ])
              ≡ some (r, e'))
            × IsSession e'
      go (ok stat) h =
          let r = execute_statement (recorded tbm) e stat in
          (r.0, r.1, refl, execute_statement-IsSession e stat v)
      go (err no_fuel) h = absurd (cc h)
      go (err invalid_stat) h = (parse_failed, e, refl, v)
      go (err (unexpected_token t)) h = (parse_failed, e, refl, v)

  execute_all-IsSession :
      (e : Executor (recorded tbm)) (sqls : List (List ℕ))
      → All (λ sql. ends sql ≡ true) sqls
      → IsSession e
      → (e' : Executor (recorded tbm)) × (execute_all (recorded tbm) e sqls ≡ some e')
        × IsSession e'
  unfolding execute_all
  execute_all-IsSession e [] sure v = (e, refl, v)
  execute_all-IsSession e (sql ∷ sqls) (one, sure) v =
      let (r, e1, done, v1) = execute-IsSession e sql one v in
      let (e', rest, v') = execute_all-IsSession e1 sqls sure v1 in (e', rw (done, rest) refl, v')

  -- Whatever texts a new connection sends whose parse ends, statements or not, and whatever the table manager answers,
  -- errors of Commit included: all the texts are answered, and when the connection is closed there is no transaction but the id 0 that it
  -- began and for which it did not call Commit or Abort afterwards.
  pub close-execute_all :
      (st : S) (sqls : List (List ℕ))
      → All (λ sql. ends sql ≡ true) sqls
      → (e' : Executor (recorded tbm)) × (execute_all
            (recorded tbm)
            (record { xid = 0; st = (st, []) })
            sqls
          ≡ some e')
        × ((y : ℕ) → y ≢ 0 → left_open (close (recorded tbm) e').1 y ≡ false)
  unfolding close
  close-execute_all st sqls sure =
      let (e', done, v) =
        execute_all-IsSession (record { xid = 0; st = (st, []) }) sqls sure
          (λ y some_y other. refl) in
      (
        e',
        done,
        elim (Bool-cases (e'.xid == 0)) [
          | inl idle ↦ rw idle (λ y some_y. v y some_y (ground arith))
          | inr busy ↦ rw busy (λ y some_y. ground (arith, v y some_y))
        ],
      )
