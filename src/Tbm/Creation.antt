-- ===== src/Tbm/Creation.antt =====
-- main/backend/tbm/table.go, field.go: how tables and fields are created and loaded. A field's type is
-- one that typeCheck lets through.
pub mod Reload
use wisdb.Im.Store.{Step, pure, lift, ◌>>=◌, ◌>>◌}
use wisdb.Tbm.Field.{Field, FieldType, type_check}
use wisdb.Tbm.Stored.{
  StoredTable, StoredField, table_to_raw, field_to_raw, parse_table, parse_field,
}
use wisdb.Tbm.Access.{Storage, Table, or_fail, or_panic}
use wisdb.Parser.Statement
use wisdb.Parser.Tokener.{Token}
use wisdb.Tm.{super_xid}
use wisdb.Base.{ℕ, List, bytes_equal, Bool, ◌∷◌, true, Option, if◌then◌else◌, false}
use wisdb.Base.{none, ◌==◌, []}

-- The loop over the index fields of CREATE TABLE.
unfoldable pub is_listed : Token → List Token → Bool
unfolding bytes_equal
is_listed fname [] = false
is_listed fname (i ∷ index) = if bytes_equal i fname then true else is_listed fname index

module _ {S : Type 0} (db : Storage S) where
  abbrev pub new_index : Bool → Step S ℕ
  new_index true = do index ← Storage.im_create db; Storage.im_load db index; pure index
  new_index false = pure 0

  -- CreateField: the field, and the id of its entry.
  unfoldable pub create_field : ℕ → Token → Token → Bool → Step S (Field × ℕ)
  unfolding type_check field_to_raw
  create_field xid fname ftype indexed = do
    kind ← or_fail (type_check ftype)
    index ← new_index indexed
    self ←
        Storage.sm_insert db xid
          (field_to_raw (record { fname = fname; ftype = ftype; index = index }))
    pure (record { fname = fname; ftype = kind; index = index }, self)

  -- The loop of CreateTable; there is a type for each name.
  unfoldable pub create_fields : List Token → List Token → List Token → Step S (List Field × List ℕ)
  unfolding create_field is_listed
  create_fields [] types index = pure ([], [])
  create_fields (fname ∷ names) [] index = lift none
  create_fields (fname ∷ names) (ftype ∷ types) index = do
    (f, self) ← create_field super_xid fname ftype (is_listed fname index)
    (fs, selves) ← create_fields names types index
    pure (f ∷ fs, self ∷ selves)

  abbrev pub stored_of : Table → StoredTable
  stored_of t = record {
    name = t.name;
    status = t.status;
    next = t.next;
    fields = t.field_uuids;
    row_index = t.row_index;
  }

  -- table.persistSelf
  unfoldable pub persist_self : ℕ → Table → Step S Table
  unfolding table_to_raw
  persist_self xid t = do
    self ← Storage.sm_insert db xid (table_to_raw (stored_of t))
    pure (record t { self_uuid = self })

  unfoldable pub create_table : ℕ → Statement.Create → Step S Table
  unfolding create_fields persist_self
  create_table next st = do
    (fs, selves) ← create_fields st.field_name st.field_type st.index
    row_index ← new_index true
    persist_self super_xid (record {
      self_uuid = 0;
      name = st.table_name;
      status = 0;
      next = next;
      fields = fs;
      field_uuids = selves;
      row_index = row_index;
    })

  abbrev pub must : Option (List ℕ) → Step S (List ℕ)
  must r = lift r

  -- SM.Read, whose failures are panics.
  abbrev pub must_read : ℕ → Step S (List ℕ)
  must_read uuid = do r ← or_panic (Storage.sm_read db super_xid uuid); must r

  unfoldable pub load_field : ℕ → Step S Field
  unfolding parse_field type_check
  load_field uuid = do
    raw ← must_read uuid
    f ← lift (parse_field raw)
    kind ← lift (type_check f.ftype)
    (if f.index == 0 then pure tt else or_panic (Storage.im_load db f.index))
    pure (record { fname = f.fname; ftype = kind; index = f.index })

  unfoldable pub load_fields : List ℕ → Step S (List Field)
  unfolding load_field
  load_fields [] = pure []
  load_fields (uuid ∷ uuids) = do f ← load_field uuid; fs ← load_fields uuids; pure (f ∷ fs)

  -- A table of before the row index gets one, and a new entry.
  abbrev pub indexed_rows : Table → Step S Table
  indexed_rows t =
      if t.row_index == 0
      then (do
        row_index ← or_panic (Storage.im_create db)
        or_panic (persist_self super_xid (record t { row_index = row_index })))
      else pure t

  unfoldable pub load_table : ℕ → Step S Table
  unfolding parse_table load_fields persist_self
  load_table uuid = do
    raw ← must_read uuid
    s ← lift (parse_table raw)
    fs ← load_fields s.fields
    t ← indexed_rows (record {
      self_uuid = uuid;
      name = s.name;
      status = s.status;
      next = s.next;
      fields = fs;
      field_uuids = s.fields;
      row_index = s.row_index;
    })
    or_panic (Storage.im_load db t.row_index)
    pure t
