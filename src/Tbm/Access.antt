-- ===== src/Tbm/Access.antt =====
-- main/backend/tbm/table.go, field.go: what a table does through the serializability manager and its
-- indices, which are an interface. A failed result is any error, and `none` is a panic. The printed
-- texts are not modelled, nor the order that ORDER BY gives, which is sort.Slice's.
pub mod Scan
use wisdb.Im.Store.{Step, Result, ok, failed, pure, fail, lift, ◌>>=◌, ◌>>◌}
use wisdb.Tbm.Field.{Field, FieldType, Value, is_indexed, value_to_uuid, str_to_value, type_check}
use wisdb.Tbm.Stored.{
  StoredTable, StoredField, table_to_raw, field_to_raw, parse_table, parse_field,
}
use wisdb.Tbm.Table.{
  Row, find_field, get_value, entry_to_raw, parse_entry, str_to_entry, evaluate_where, cal_where,
  limit_entries,
}
use wisdb.Parser.Statement.{Where, Create, SingleExp}
use wisdb.Parser.Statement
use wisdb.Parser.Tokener.{Token}
use wisdb.Utils.IntEncoding.{inf}
use wisdb.Base.{ℕ, List, Option, Bool, some, ◌∷◌, none, ◌++◌, if◌then◌else◌, []}
use wisdb.Base.{not, ◌+◌, false, true, bytes_equal, ◌||◌}
use wisdb.Tbm.Field.{cal_exp}
use wisdb.Parser.Words.{is}

pub record Storage (S : Type 0) : Type 0 where
  pub sm_read : ℕ → ℕ → Step S (Option (List ℕ))
  pub sm_insert : ℕ → List ℕ → Step S ℕ
  pub sm_delete : ℕ → ℕ → Step S Bool
  pub im_create : Step S ℕ
  pub im_load : ℕ → Step S (Unit {0})
  pub im_insert : ℕ → ℕ → ℕ → Step S (Unit {0})
  pub im_search_range : ℕ → ℕ → ℕ → Step S (List ℕ)

-- A table; `field_uuids` are the fields' own ids.
pub record Table : Type 0 where
  pub self_uuid : ℕ
  pub name : Token
  pub status : ℕ
  pub next : ℕ
  pub fields : List Field
  pub field_uuids : List ℕ
  pub row_index : ℕ

module _ {S : Type 0} {A : Type 0} where
  -- A call whose `none` is an error.
  abbrev pub or_fail : Option A → Step S A
  or_fail none = fail
  or_fail (some a) = pure a

  abbrev pub panicked : Option (Result A × S) → Option (Result A × S)
  panicked (some (failed, st)) = none
  panicked r = r

  -- A call whose error is a panic.
  abbrev pub or_panic : Step S A → Step S A
  or_panic m st = panicked (m st)

module _ {S : Type 0} (db : Storage S) (runes : List ℕ → List ℕ)
    (parse_uint : List ℕ → ℕ → Option ℕ) where
  -- field.Insert
  unfoldable pub field_insert : Field → Value → ℕ → Step S (Unit {0})
  unfolding value_to_uuid
  field_insert f key uuid = do
    ukey ← lift (value_to_uuid runes parse_uint f.ftype key)
    Storage.im_insert db f.index ukey uuid

  -- field.Search
  unfoldable pub field_search : Field → ℕ → ℕ → Step S (List ℕ)
  field_search f left right = Storage.im_search_range db f.index left right

  -- The loop of fullScanFilter.
  unfoldable pub filter_rows : ℕ → List Field → Where → List ℕ → Step S (List ℕ)
  unfolding parse_entry evaluate_where
  filter_rows xid fs w [] = pure []
  filter_rows xid fs w (uuid ∷ uuids) = do
    r ← Storage.sm_read db xid uuid
    elim r [
      | none ↦ filter_rows xid fs w uuids
      | some raw ↦ do
        e ← lift (parse_entry fs raw)
        fits ← lift (evaluate_where runes parse_uint fs e w)
        result ← filter_rows xid fs w uuids
        pure (if fits then uuid ∷ result else result)
    ]

  unfoldable pub full_scan_filter : ℕ → Table → Where → Step S (List ℕ)
  unfolding filter_rows
  full_scan_filter xid t w = do
    all_uuids ← Storage.im_search_range db t.row_index 0 inf
    filter_rows xid t.fields w all_uuids

  abbrev pub search_ranges : Field → (ℕ × ℕ) × Option (ℕ × ℕ) → Step S (List ℕ)
  search_ranges fd ((l0, r0), none) = Storage.im_search_range db fd.index l0 r0
  search_ranges fd ((l0, r0), some (l1, r1)) = do
    uuids ← Storage.im_search_range db fd.index l0 r0
    tmp ← Storage.im_search_range db fd.index l1 r1
    pure (uuids ++ tmp)

  -- A condition with a second comparison, which CalExp dereferences.
  abbrev pub needs_second : Where → Bool
  needs_second w = if is w.logic_op "" then false else is w.logic_op "or" || is w.logic_op "and"

  -- The second comparison, where there has to be one: a nil one is a panic.
  abbrev pub second_exp : Bool → Option SingleExp → Step S (Unit {0})
  second_exp false exp2 = pure tt
  second_exp true none = lift none
  second_exp true (some exp2) = pure tt

  -- calWhere with its panic, which comes behind the range of the first comparison.
  abbrev pub where_ranges : FieldType → Where → Step S ((ℕ × ℕ) × Option (ℕ × ℕ))
  where_ranges f w = do
    r0 ← or_fail (cal_exp runes parse_uint f w.single_exp1)
    second_exp (needs_second w) w.single_exp2
    or_fail (cal_where runes parse_uint f w)

  unfoldable pub parse_where : ℕ → Table → Option Where → Step S (List ℕ)
  unfolding find_field is_indexed full_scan_filter cal_where cal_exp bytes_equal
  parse_where xid t none = Storage.im_search_range db t.row_index 0 inf
  parse_where xid t (some w) = do
    fd ← or_fail (find_field w.single_exp1.field t.fields)
    (if not (is_indexed fd)
        then full_scan_filter xid t w
        else (do ranges ← where_ranges fd.ftype w; search_ranges fd ranges))

  -- Delete: the number of rows that it deleted.
  unfoldable pub delete_rows : ℕ → List ℕ → ℕ → Step S ℕ
  delete_rows xid [] count = pure count
  delete_rows xid (uuid ∷ uuids) count = do
    deleted ← Storage.sm_delete db xid uuid
    delete_rows xid uuids (if deleted then count + 1 else count)

  unfoldable pub delete : ℕ → Table → Option Where → Step S ℕ
  unfolding parse_where delete_rows
  delete xid t w = do uuids ← parse_where xid t w; delete_rows xid uuids 0

  -- The row's key in each index of the table.
  unfoldable pub insert_keys : List Field → Row → ℕ → Step S (Unit {0})
  unfolding is_indexed get_value field_insert
  insert_keys [] e uuid = pure tt
  insert_keys (f ∷ fs) e uuid =
      if is_indexed f
      then (do v ← lift (get_value f.fname e); field_insert f v uuid; insert_keys fs e uuid)
      else insert_keys fs e uuid

  -- Insert, one list of values after the other.
  unfoldable pub insert_rows : ℕ → Table → List (List Token) → Step S (Unit {0})
  unfolding str_to_entry entry_to_raw insert_keys
  insert_rows xid t [] = pure tt
  insert_rows xid t (values ∷ rows) = do
    e ← or_fail (str_to_entry runes parse_uint t.fields values)
    raw ← lift (entry_to_raw t.fields e)
    uuid ← Storage.sm_insert db xid raw
    insert_keys t.fields e uuid
    Storage.im_insert db t.row_index uuid uuid
    insert_rows xid t rows

  -- The rows of a statement: its lists of values, or its one list.
  abbrev pub rows_of : List (List Token) → List Token → List (List Token)
  rows_of [] [] = []
  rows_of [] (v ∷ values) = (v ∷ values) ∷ []
  rows_of (r ∷ rows) values = r ∷ rows

  unfoldable pub insert : ℕ → Table → Statement.Insert → Step S (Unit {0})
  unfolding insert_rows
  insert xid t st = insert_rows xid t (rows_of st.values_list st.values)

  -- One row of Update: whether it was there.
  unfoldable pub update_row : ℕ → Table → Field → Value → ℕ → Step S Bool
  unfolding parse_entry entry_to_raw insert_keys
  update_row xid t fd v uuid = do
    r ← Storage.sm_read db xid uuid
    elim r [
      | none ↦ pure false
      | some raw ↦ do
        deleted ← Storage.sm_delete db xid uuid
        e ← lift (parse_entry t.fields raw)
        let e = (fd.fname, v) ∷ e
        raw' ← lift (entry_to_raw t.fields e)
        uuid' ← Storage.sm_insert db xid raw'
        Storage.im_insert db t.row_index uuid' uuid'
        insert_keys t.fields e uuid'
        pure true
    ]

  unfoldable pub update_rows : ℕ → Table → Field → Value → List ℕ → ℕ → Step S ℕ
  unfolding update_row
  update_rows xid t fd v [] count = pure count
  update_rows xid t fd v (uuid ∷ uuids) count = do
    done ← update_row xid t fd v uuid
    update_rows xid t fd v uuids (if done then count + 1 else count)

  unfoldable pub update : ℕ → Table → Statement.Update → Step S ℕ
  unfolding parse_where find_field str_to_value update_rows
  update xid t st = do
    uuids ← parse_where xid t st.condition
    fd ← or_fail (find_field st.field_name t.fields)
    v ← or_fail (str_to_value runes parse_uint fd.ftype st.value)
    update_rows xid t fd v uuids 0

  -- The rows that Read works on, before their order and limit.
  unfoldable pub read_entries : ℕ → List Field → List ℕ → Step S (List Row)
  unfolding parse_entry
  read_entries xid fs [] = pure []
  read_entries xid fs (uuid ∷ uuids) = do
    r ← Storage.sm_read db xid uuid
    elim r [
      | none ↦ read_entries xid fs uuids
      | some raw ↦ do
        e ← lift (parse_entry fs raw)
        entries ← read_entries xid fs uuids
        pure (e ∷ entries)
    ]

  unfoldable pub read_rows : ℕ → Table → Option Where → Step S (List Row)
  unfolding parse_where read_entries
  read_rows xid t w = do uuids ← parse_where xid t w; read_entries xid t.fields uuids
