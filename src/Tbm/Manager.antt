-- ===== src/Tbm/Manager.antt =====
-- main/backend/tbm/table_manager.go: the tables by name, the chain of their entries, whose head the
-- booter holds, and the tables that each transaction created. The texts that Show and the answers
-- print are not modelled. The tables of `xtc` are named, since only Show looks at them.
pub mod Head
use wisdb.Im.Store.{Step, Result, ok, failed, pure, fail, lift, ◌>>=◌, ◌>>◌}
use wisdb.Tbm.Access
use wisdb.Tbm.Access.{Storage, Table, read_rows, or_fail}
use wisdb.Tbm.Creation.{create_table, persist_self, load_table}
use wisdb.Tbm.Table.{Row}
use wisdb.Parser.Statement
use wisdb.Parser.Tokener.{Token}
use wisdb.Base
use mathlib.Core.List.{reverse}
use wisdb.Base.{ℕ, List, Map, bytes_equal, Option, ◌∷◌, lookup, none, if◌then◌else◌}
use wisdb.Base.{[], ◌++◌, some, ◌==◌, suc, zero}

pub record TableManager : Type 0 where
  pub booter : ℕ
  pub tc : List (Token × Table)
  pub xtc : Map (List Token)

-- tc[name]
unfoldable pub find_table : Token → List (Token × Table) → Option Table
find_table name [] = none
find_table name ((n, t) ∷ tc) = if bytes_equal n name then some t else find_table name tc

-- delete(tc, name)
unfoldable pub without : Token → List (Token × Table) → List (Token × Table)
without name [] = []
without name ((n, t) ∷ tc) =
    let rest = without name tc in if bytes_equal n name then rest else (n, t) ∷ rest

-- Drop's filter of the names of a transaction's tables.
unfoldable pub without_name : Token → List Token → List Token
without_name name [] = []
without_name name (n ∷ ns) =
    let rest = without_name name ns in if bytes_equal n name then rest else n ∷ rest

abbrev pub created_by : ℕ → Map (List Token) → List Token
created_by xid xtc = elim (lookup xid xtc) [ none ↦ [] | some names ↦ names ]

abbrev pub filtered : Token → Map (List Token) → Map (List Token)
filtered name [] = []
filtered name ((xid, names) ∷ xtc) = (xid, without_name name names) ∷ filtered name xtc

-- `sorted` is sort.Slice with the tables' names.
module _ {S : Type 0} (db : Storage S) (runes : List ℕ → List ℕ)
    (parse_uint : List ℕ → ℕ → Option ℕ) (sorted : List (Token × Table) → List Table) where
  -- loadTables: a round for each table of the chain.
  unfoldable pub load_tables : ℕ → ℕ → List (Token × Table) → Step S (List (Token × Table))
  unfolding load_table without
  load_tables zero uuid tc = if uuid == 0 then pure tc else lift none
  load_tables (suc fuel) uuid tc =
      if uuid == 0
      then pure tc
      else (do t ← load_table db uuid; load_tables fuel t.next ((t.name, t) ∷ without t.name tc))

  -- newTableManager, as Open and Create call it, with the booter's id.
  unfoldable pub new_table_manager : ℕ → ℕ → Step S TableManager
  unfolding load_tables
  new_table_manager fuel booter = do
    tc ← load_tables fuel booter []
    pure (record { booter = booter; tc = tc; xtc = [] })

  -- A call of a table under the name of a statement.
  unfoldable pub read : TableManager → ℕ → Statement.Read → Step S (List Row)
  unfolding find_table read_rows
  read tbm xid st = do
    t ← or_fail (find_table st.table_name tbm.tc)
    read_rows db runes parse_uint xid t st.condition

  unfoldable pub update : TableManager → ℕ → Statement.Update → Step S ℕ
  unfolding find_table Access.update
  update tbm xid st = do
    t ← or_fail (find_table st.table_name tbm.tc)
    Access.update db runes parse_uint xid t st

  unfoldable pub delete : TableManager → ℕ → Statement.Delete → Step S ℕ
  unfolding find_table Access.delete
  delete tbm xid st = do
    t ← or_fail (find_table st.table_name tbm.tc)
    Access.delete db runes parse_uint xid t (some st.condition)

  unfoldable pub insert : TableManager → ℕ → Statement.Insert → Step S (Unit {0})
  unfolding find_table Access.insert
  insert tbm xid st = do
    t ← or_fail (find_table st.table_name tbm.tc)
    Access.insert db runes parse_uint xid t st

  -- Create behind the check of the name.
  unfoldable pub create_new : TableManager → ℕ → Statement.Create → Step S TableManager
  unfolding create_table
  create_new tbm xid st = do
    t ← create_table db tbm.booter st
    pure (record {
      booter = t.self_uuid;
      tc = (st.table_name, t) ∷ tbm.tc;
      xtc = Base.insert xid (created_by xid tbm.xtc ++ (st.table_name ∷ [])) tbm.xtc;
    })

  -- A table that is there already is an error.
  abbrev pub unless_there : Option Table → Step S TableManager → Step S TableManager
  unless_there none m = m
  unless_there (some t) m = fail

  unfoldable pub create : TableManager → ℕ → Statement.Create → Step S TableManager
  unfolding find_table create_new
  create tbm xid st = unless_there (find_table st.table_name tbm.tc) (create_new tbm xid st)

  -- The loop of rebuildTableChain, over the tables from the last on: the tables of `tc` as it leaves them, where it ended, and
  -- whether it got through.
  unfoldable pub rebuild_from :
      ℕ → ℕ → List Table → List (Token × Table) → S → Option ((Result ℕ × List (Token × Table)) × S)
  unfolding persist_self without
  rebuild_from xid next [] tc st = some ((ok next, tc), st)
  rebuild_from xid next (t ∷ ts) tc st =
      let tc' : ℕ → List (Token × Table) =
        λ self. (t.name, record t { next = next; self_uuid = self }) ∷ without t.name tc in
      elim (persist_self db xid (record t { next = next }) st) [
        | none ↦ none
        | some (failed, st') ↦ some ((failed, tc' t.self_uuid), st')
        | some (ok t', st') ↦ rebuild_from xid t'.self_uuid ts (tc' t'.self_uuid) st'
      ]

  abbrev pub rebuilt :
      TableManager → (Result ℕ × List (Token × Table)) × S → Result (Unit {0}) × TableManager × S
  rebuilt tbm ((ok next, tc), st) = (ok tt, record tbm { booter = next; tc = tc }, st)
  rebuilt tbm ((failed, tc), st) = (failed, record tbm { tc = tc }, st)

  -- rebuildTableChain; the manager is changed also where it fails.
  unfoldable pub rebuild_table_chain :
      TableManager → ℕ → S → Option (Result (Unit {0}) × TableManager × S)
  unfolding rebuild_from
  rebuild_table_chain tbm xid st =
      Base.◌>>=◌ (rebuild_from xid 0 (reverse (sorted tbm.tc)) tbm.tc st)
        (λ r. some (rebuilt tbm r))

  unfoldable pub drop : TableManager → ℕ → Token → S → Option (Result (Unit {0}) × TableManager × S)
  unfolding find_table without without_name rebuild_table_chain
  drop tbm xid name s = elim (find_table name tbm.tc) [
    | none ↦ some (failed, tbm, s)
    | some t ↦
        rebuild_table_chain (record tbm { tc = without name tbm.tc; xtc = filtered name tbm.xtc })
          xid s
  ]
