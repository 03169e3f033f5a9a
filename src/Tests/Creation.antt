-- ===== src/Tests/Creation.antt =====
-- A table that is created and loaded.
use wisdb.Tests.Index.{Cells, cells, read_cell}
use wisdb.Im.Store.{Store, Reading, Result, found, missing, no_page, ok, pure}
use wisdb.Tbm.Access.{Storage, Table}
use wisdb.Tbm.Creation.{
  create_table, load_table, create_fields, create_field, persist_self, is_listed,
}
use wisdb.Tbm.Creation.Reload.{Holds, Journal, recorded, load_table-create_table}
use wisdb.Tbm.Field.{type_check, uint32, text}
use wisdb.Tbm.Manager.{TableManager, create, create_new, find_table, load_tables, without}
use wisdb.Tbm.Manager.Head.{load_tables-create}
use wisdb.Base.{lookup, insert}
use wisdb.Parser.Tokener.{Token}
use wisdb.Parser.Statement.{Create}
use wisdb.Parser.Words.{codes}
use wisdb.Base.{ℕ, List, bytes_equal, Option, some, ◌≡◌, ◌∷◌, [], none, true}
use wisdb.Base.{arith, refl, suc}

abbrev item : Reading → Option (List ℕ)
item (found raw) = some raw
item missing = none
item no_page = none

abbrev rows : Storage Cells
rows = record {
  sm_read = λ xid u st. some (ok (item (read_cell u st)), st);
  sm_insert = λ xid raw st. Store.insert cells raw st;
  sm_delete = λ xid u. pure true;
  im_create = λ st. Store.insert cells [] st;
  im_load = λ index. pure tt;
  im_insert = λ index key u. pure tt;
  im_search_range = λ index left right. pure [];
}

abbrev people_statement : Create
people_statement = record {
  table_name = codes "people";
  field_name = codes "id" ∷ (codes "name" ∷ []);
  field_type = codes "uint32" ∷ (codes "string" ∷ []);
  index = codes "id" ∷ [];
}

abbrev no_cells : Cells
no_cells = (0, λ v. [])

abbrev Created : Type 0
Created = Cells × Journal

abbrev state_after : Option (Result Table × Created) → Created
state_after none = (no_cells, ([], []))
state_after (some (r, st)) = st

abbrev people_made : Created
unfolding create_table
people_made = state_after (create_table (recorded rows) 12 people_statement (no_cells, ([], [])))

abbrev people_table : Table
people_table = record {
  self_uuid = 5;
  name = codes "people";
  status = 0;
  next = 12;
  fields =
      record { fname = codes "id"; ftype = uint32; index = 1 }
      ∷ (record { fname = codes "name"; ftype = text; index = 0 } ∷ []);
  field_uuids = 2 ∷ (3 ∷ []);
  row_index = 4;
}

people_created :
    create_table (recorded rows) 12 people_statement (no_cells, ([], []))
    ≡ some (ok people_table, people_made)
unfolding people_made create_table create_fields create_field persist_self is_listed type_check
    bytes_equal
people_created = refl

-- The state after is one in which all of it is read.
people_hold : Holds rows people_made.0 people_made.1
unfolding people_made create_table create_fields create_field persist_self is_listed type_check
    bytes_equal
people_hold = (
  (
    (refl, (λ q. absurd (omega arith)), omega arith),
    (
      (refl, (λ q. absurd (omega arith)), omega arith),
      ((refl, (λ q. absurd (omega arith)), omega arith), tt),
    ),
  ),
  (
    (refl, (λ q. absurd (omega arith)), omega arith),
    ((refl, (λ q. absurd (omega arith)), omega arith), tt),
  ),
)

load_table-create_table_example :
    load_table rows 5 people_made.0 ≡ some (ok people_table, people_made.0)
load_table-create_table_example =
    load_table-create_table rows 12 people_statement no_cells people_made.0 people_made people_table
      (omega arith) (omega arith) (omega arith) (omega arith, (omega arith, tt))
      (omega arith, (omega arith, tt)) people_created people_hold

abbrev same_runes : List ℕ → List ℕ
same_runes s = s

abbrev no_number : List ℕ → ℕ → Option ℕ
no_number s bits = none

abbrev as_listed : List (Token × Table) → List Table
as_listed [] = []
as_listed ((n, t) ∷ tc) = t ∷ as_listed tc

abbrev no_tables : TableManager
no_tables = record { booter = 12; tc = []; xtc = [] }

abbrev one_table : TableManager
one_table = record {
  booter = 5;
  tc = (codes "people", people_table) ∷ [];
  xtc = (1, codes "people" ∷ []) ∷ [];
}

one_created :
    create
      (recorded rows)
      same_runes
      no_number
      as_listed
      no_tables
      1
      people_statement
      (no_cells, ([], []))
    ≡ some (ok one_table, people_made)
unfolding create create_new find_table lookup insert people_made create_table create_fields
    create_field persist_self is_listed type_check bytes_equal
one_created = refl

load_tables-create_example :
    (t : Table) × (find_table (codes "people") one_table.tc ≡ some t)
    × ((fuel : ℕ) (tc : List (Token × Table))
        → load_tables rows same_runes no_number as_listed (suc fuel) 5 tc people_made.0
          ≡ load_tables rows same_runes no_number as_listed fuel 12
              ((codes "people", t) ∷ without (codes "people") tc)
              people_made.0)
load_tables-create_example =
    load_tables-create rows same_runes no_number as_listed no_tables one_table 1 people_statement
      no_cells people_made.0 people_made (omega arith) (omega arith) (omega arith)
      (omega arith, (omega arith, tt)) (omega arith, (omega arith, tt)) one_created people_hold
