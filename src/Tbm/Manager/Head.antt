-- ===== src/Tbm/Manager/Head.antt =====
-- A table that is created stands at the head of the chain that is loaded.
use mathlib.Core.Path.{subst}
use wisdb.Im.Store.{ok, returned}
use wisdb.Tbm.Access.{Storage, Table}
use wisdb.Tbm.Creation.Reload.{Journal, Holds, recorded, Short, create_table_lem, pure_ok}
use wisdb.Tbm.Manager.{
  TableManager, create, create_new, find_table, load_tables, without, created_by,
}
use wisdb.Tbm.Creation.{create_table}
use wisdb.Parser.Statement.{Create}
use wisdb.Parser.Tokener.{Token}
use wisdb.Base
use wisdb.Base.{ℕ, List, Option, ◌<◌, ◌^◌, length, ◌≡◌, some, suc, ◌∷◌, bytes_equal_refl}
use wisdb.Base.{◌++◌, refl, [], ◌==◌, false, arith, none}
use wisdb.Tbm.Manager.{unless_there}

module _ {S : Type 0} (db : Storage S) (runes : List ℕ → List ℕ)
    (parse_uint : List ℕ → ℕ → Option ℕ) (sorted : List (Token × Table) → List Table) where
  name_was_free :
      (o : Option Table) (tbm tbm' : TableManager) (xid : ℕ) (st : Create) (s s' : S × Journal)
      → unless_there
          (recorded db)
          runes
          parse_uint
          sorted
          o
          (create_new (recorded db) runes parse_uint sorted tbm xid st)
          s
        ≡ some (ok tbm', s')
      → create_new (recorded db) runes parse_uint sorted tbm xid st s ≡ some (ok tbm', s')
  name_was_free none tbm tbm' xid st s s' h = h
  name_was_free (some t) tbm tbm' xid st s s' h = absurd (cc h)

  found_first :
      (name : Token) (t : Table) (tc : List (Token × Table))
      → find_table name ((name, t) ∷ tc) ≡ some t
  unfolding find_table
  found_first name t tc = rw (bytes_equal_refl name) refl

  abbrev Headed : S → TableManager → Create → TableManager → S × Journal → Type 0
  Headed s tbm st tbm' s' =
      Holds db s s'.1
      → (t : Table) × (find_table st.table_name tbm'.tc ≡ some t)
        × ((fuel : ℕ) (tc : List (Token × Table))
            → load_tables db runes parse_uint sorted (suc fuel) tbm'.booter tc s
              ≡ load_tables db runes parse_uint sorted fuel tbm.booter
                  ((st.table_name, t) ∷ without st.table_name tc) s)

  -- After a Create that succeeded the table is found under its name. In every state in which the
  -- super transaction reads the entries that this Create inserted and the indices that it created
  -- are loaded, with ids other than 0 and below 2^64, loadTables from the booter's new id loads the
  -- table first, as it was created, and goes on with the chain from the old id; for names and types
  -- of less than 2^32 bytes, at most 255 fields, and an old id below 2^64.
  pub load_tables-create :
      (tbm tbm' : TableManager) (xid : ℕ) (st : Create) (s0 s : S) (s' : S × Journal)
      → tbm.booter < 2 ^ 64
      → length st.table_name < 2 ^ 32
      → length st.field_name < 256
      → Short db st.field_name
      → Short db st.field_type
      → create (recorded db) runes parse_uint sorted tbm xid st (s0, ([], [])) ≡ some (ok tbm', s')
      → Holds db s s'.1
      → (t : Table) × (find_table st.table_name tbm'.tc ≡ some t)
        × ((fuel : ℕ) (tc : List (Token × Table))
            → load_tables db runes parse_uint sorted (suc fuel) tbm'.booter tc s
              ≡ load_tables db runes parse_uint sorted fuel tbm.booter
                  ((st.table_name, t) ∷ without st.table_name tc)
                  s)
  unfolding create create_new find_table load_tables
  load_tables-create tbm tbm' xid st s0 s s' id name_size few short short_types h =
      let start : S × Journal = (s0, ([], [])) in
      let h0 = name_was_free (find_table st.table_name tbm.tc) tbm tbm' xid st start s' h in
      let (t, s1, done, h1) =
        returned _ (create_table (recorded db) tbm.booter st start) tbm' s' h0 in
      let (loads, named, next) =
        create_table_lem db tbm.booter st start s1 t id name_size few short short_types done in
      let made : TableManager = record {
        booter = t.self_uuid;
        tc = (st.table_name, t) ∷ tbm.tc;
        xtc = Base.insert xid (created_by xid tbm.xtc ++ (st.table_name ∷ [])) tbm.xtc;
      } in
      let (same, still) = pure_ok made tbm' s1 s' h1 in
      subst (λ m. Headed s tbm st m s') same
        (subst (Headed s tbm st made) still (λ holds.
          let (loaded, there) = loads s holds in
          let more : (t.self_uuid == 0) ≡ false = ground arith in
          (t, found_first st.table_name t tbm.tc, λ fuel tc. rw (more, loaded, named, next) refl)))
