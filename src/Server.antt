-- ===== src/Server.antt =====
-- main/backend/server/executor.go: one connection's transaction, over the table manager, which is an
-- interface here. The texts that Execute logs are not modelled.
pub mod Sessions
use wisdb.Parser.Monad.{ok, err, ParseError, no_fuel, invalid_stat, unexpected_token}
use wisdb.Parser.Statement.{begin, commit, abort}
use wisdb.Parser.Statement.{begin, commit, abort, Statement}
use wisdb.Base.{ℕ, List, Bool, Option, if◌then◌else◌, some, ◌==◌, not, false, none}
use wisdb.Parser.Parse.{parse}
use wisdb.Base.{◌∷◌, [], ◌>>=◌, ◌>>◌}

-- What Execute returns; `failed` is any error of the table manager.
pub data Reply : Type 0 where
  reply : List ℕ → Reply
  failed : Reply
  no_nested_transaction not_in_any_transaction parse_failed no_xid : Reply

-- tbm.TableManager on a state; Commit gives an error or its text. `run` is Show, Create, Drop, Read,
-- Insert, Delete or Update.
pub record TableManager (S : Type 0) : Type 0 where
  pub begin : S → Bool → ℕ × List ℕ × S
  pub commit : S → ℕ → Option (List ℕ) × S
  pub abort : S → ℕ → List ℕ × S
  pub run : S → ℕ → Statement → Option (List ℕ) × S

module _ {S : Type 0} (tbm : TableManager S) where
  pub record Executor : Type 0 where
    pub xid : ℕ
    pub st : S

  abbrev pub replied : Option (List ℕ) → Reply
  replied none = failed
  replied (some l) = reply l

  -- The deferred function of execute2. The results of execute2 have no names, so an error of the
  -- commit is not returned.
  abbrev pub end_temporary : ℕ → Option (List ℕ) × S → Executor
  end_temporary xid (none, s) = record { xid = 0; st = (tbm.abort s xid).1 }
  end_temporary xid (some l, s) = record { xid = 0; st = (tbm.commit s xid).1 }

  unfoldable pub execute2 : Executor → Statement → Reply × Executor
  execute2 e stat =
      if e.xid == 0
      then (let (xid, l, s) = tbm.begin e.st false in
          let r = tbm.run s xid stat in
          if xid == 0 then (no_xid, record e { st = s }) else (replied r.0, end_temporary xid r))
      else (let r = tbm.run e.st e.xid stat in (replied r.0, record e { st = r.1 }))

  abbrev pub committed : Executor → Option (List ℕ) × S → Reply × Executor
  committed e (none, s) = (failed, record e { st = s })
  committed e (some l, s) = (reply l, record { xid = 0; st = s })

  -- Execute behind the parser.
  unfoldable pub execute_statement : Executor → Statement → Reply × Executor
  unfolding execute2
  execute_statement e stat = elim stat [
    | begin repeatable ↦
        if not (e.xid == 0)
        then (no_nested_transaction, e)
        else (let (xid, l, s) = tbm.begin e.st repeatable in
            (reply l, record { xid = xid; st = s }))
    | commit ↦
        if e.xid == 0 then (not_in_any_transaction, e) else committed e (tbm.commit e.st e.xid)
    | abort ↦
        if e.xid == 0
        then (not_in_any_transaction, e)
        else (let r = tbm.abort e.st e.xid in (reply r.0, record { xid = 0; st = r.1 }))
    | other ↦ execute2 e other
  ]

  -- A parse that takes more rounds than its fuel does not come back, and nor does Execute.
  abbrev pub unparsed : ParseError → Executor → Option (Reply × Executor)
  unparsed no_fuel e = none
  unparsed invalid_stat e = some (parse_failed, e)
  unparsed (unexpected_token t) e = some (parse_failed, e)

  unfoldable pub execute : Executor → List ℕ → Option (Reply × Executor)
  unfolding execute_statement
  execute e sql = elim (parse sql) [
    | ok stat ↦ some (execute_statement e stat)
    | err x ↦ unparsed x e
  ]

  unfoldable pub close : Executor → S
  close e = if not (e.xid == 0) then (tbm.abort e.st e.xid).1 else e.st

  -- What a connection sends, one text behind the other.
  unfoldable pub execute_all : Executor → List (List ℕ) → Option Executor
  unfolding execute
  execute_all e [] = some e
  execute_all e (sql ∷ sqls) = do (r, e') ← execute e sql; execute_all e' sqls
