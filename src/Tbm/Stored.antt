-- ===== src/Tbm/Stored.antt =====
-- main/backend/tbm/table.go, field.go: the entries that persistSelf writes for a table and a field,
-- and parseSelf reads. A table names its fields and the next table by the ids of their entries.
pub mod RoundTrip
use wisdb.Utils.StrEncoding.{var_str_to_raw, parse_var_str}
use wisdb.Utils.IntEncoding.{uuid_to_raw, parse_uuid, len_uuid}
use wisdb.Base.{ℕ, List, Option, ◌++◌, ◌∷◌, some, ◌>>=◌, ◌>>◌, drop, length, []}
use wisdb.Base.{◌%◌, suc, get_elem?, if◌then◌else◌, zero, leb}

pub record StoredField : Type 0 where
  pub fname : List ℕ
  pub ftype : List ℕ
  pub index : ℕ

pub record StoredTable : Type 0 where
  pub name : List ℕ
  pub status : ℕ
  pub next : ℕ
  pub fields : List ℕ
  pub row_index : ℕ

-- field.persistSelf, as the bytes that it inserts.
unfoldable pub field_to_raw : StoredField → List ℕ
unfolding var_str_to_raw uuid_to_raw
field_to_raw f = var_str_to_raw f.fname ++ (var_str_to_raw f.ftype ++ uuid_to_raw f.index)

-- field.parseSelf
unfoldable pub parse_field : List ℕ → Option StoredField
unfolding parse_var_str parse_uuid
parse_field raw = do
  (fname, shift) ← parse_var_str raw
  let raw = drop shift raw
  (ftype, shift) ← parse_var_str raw
  index ← parse_uuid (drop shift raw)
  some (record { fname = fname; ftype = ftype; index = index })

unfoldable pub uuids_to_raw : List ℕ → List ℕ
unfolding uuid_to_raw
uuids_to_raw [] = []
uuids_to_raw (u ∷ us) = uuid_to_raw u ++ uuids_to_raw us

-- table.persistSelf; the number of fields is one byte.
unfoldable pub table_to_raw : StoredTable → List ℕ
unfolding var_str_to_raw uuid_to_raw uuids_to_raw
table_to_raw t =
    var_str_to_raw t.name
    ++ (t.status
        ∷ (uuid_to_raw t.next
            ++ ((length t.fields % 256) ∷ (uuids_to_raw t.fields ++ uuid_to_raw t.row_index))))

-- The loop of table.parseSelf, with what is behind the ids.
unfoldable pub parse_uuids : ℕ → List ℕ → Option (List ℕ × List ℕ)
unfolding parse_uuid
parse_uuids zero raw = some ([], raw)
parse_uuids (suc n) raw = do
  u ← parse_uuid raw
  (us, rest) ← parse_uuids n (drop len_uuid raw)
  some (u ∷ us, rest)

-- table.parseSelf
unfoldable pub parse_table : List ℕ → Option StoredTable
unfolding parse_var_str parse_uuid parse_uuids
parse_table raw = do
  (name, shift) ← parse_var_str raw
  let raw = drop shift raw
  status ← get_elem? raw 0
  let raw = drop 1 raw
  next ← parse_uuid raw
  let raw = drop len_uuid raw
  count ← get_elem? raw 0
  (fields, rest) ← parse_uuids count (drop 1 raw)
  row_index ← (if leb len_uuid (length rest) then parse_uuid rest else some 0)
  some
      (record { name = name; status = status; next = next; fields = fields; row_index = row_index })
