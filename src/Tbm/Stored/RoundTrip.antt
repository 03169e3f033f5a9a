-- ===== src/Tbm/Stored/RoundTrip.antt =====
-- The entries of tables and fields are read back.
use wisdb.Tbm.Stored.{
  StoredField, StoredTable, field_to_raw, parse_field, table_to_raw, parse_table, parse_uuids,
  uuids_to_raw,
}
use mathlib.Core.List.{append-nil}
use wisdb.Tbm.Table.Rows.{var_str-round}
use wisdb.Utils.IntEncoding.{
  uuid_to_raw, parse_uuid, parse_uint64, get_uint64, uint64_to_raw, to_bytes,
}
use wisdb.Utils.IntEncoding.RoundTrip.{of_bytes-to_bytes, length-to_bytes}
use wisdb.Base.{ℕ, List, ◌<◌, drop, All, length, ◌^◌, ◌≡◌, some, ◌++◌, arith, ◌∷◌}
use wisdb.Utils.StrEncoding.{var_str_to_raw}
use wisdb.Base.{drop-length_append, refl, ◌%◌, [], ap, sym, ◌∙◌}
use mathlib.Core.List.{append_assoc}
use native.Mathlib.Nat.{mod-eq_of_lt}

parse_uuid-uuid_to_raw :
    (u : ℕ) (rest : List ℕ) → u < 2 ^ 64 → parse_uuid (uuid_to_raw u ++ rest) ≡ some u
unfolding parse_uuid parse_uint64 get_uint64 uuid_to_raw uint64_to_raw
parse_uuid-uuid_to_raw u rest small = of_bytes-to_bytes 8 u rest (omega arith)

parse_uuid_last : (u : ℕ) → u < 2 ^ 64 → parse_uuid (uuid_to_raw u) ≡ some u
parse_uuid_last u small =
    ap parse_uuid (sym (append-nil (uuid_to_raw u))) ∙ parse_uuid-uuid_to_raw u [] small

length-uuid_to_raw : (u : ℕ) → length (uuid_to_raw u) ≡ 8
unfolding uuid_to_raw uint64_to_raw
length-uuid_to_raw u = length-to_bytes 8 u

drop-uuid_to_raw : (u : ℕ) (rest : List ℕ) → drop 8 (uuid_to_raw u ++ rest) ≡ rest
unfolding uuid_to_raw uint64_to_raw to_bytes
drop-uuid_to_raw u rest = refl

parse_uuids-uuids_to_raw :
    (us rest : List ℕ)
    → All (λ u. u < 2 ^ 64) us
    → parse_uuids (length us) (uuids_to_raw us ++ rest) ≡ some (us, rest)
unfolding parse_uuids uuids_to_raw
parse_uuids-uuids_to_raw [] rest all = refl
parse_uuids-uuids_to_raw (u ∷ us) rest (small, all) =
    rw
      (
        append_assoc (uuid_to_raw u) (uuids_to_raw us) rest,
        parse_uuid-uuid_to_raw u (uuids_to_raw us ++ rest) small,
        drop-uuid_to_raw u (uuids_to_raw us ++ rest),
        parse_uuids-uuids_to_raw us rest all,
      )
      refl

-- A field whose name and type have less than 2^32 bytes, and whose index is an id, is read back from its entry.
pub parse_field-field_to_raw :
    (f : StoredField)
    → length f.fname < 2 ^ 32
    → length f.ftype < 2 ^ 32
    → f.index < 2 ^ 64
    → parse_field (field_to_raw f) ≡ some f
unfolding parse_field field_to_raw
parse_field-field_to_raw f h k small =
    rw
      (
        var_str-round f.fname (var_str_to_raw f.ftype ++ uuid_to_raw f.index) h,
        drop-length_append (var_str_to_raw f.fname) (var_str_to_raw f.ftype ++ uuid_to_raw f.index),
        var_str-round f.ftype (uuid_to_raw f.index) k,
        drop-length_append (var_str_to_raw f.ftype) (uuid_to_raw f.index),
      )
      (rw (parse_uuid_last f.index small) refl)

-- A table with at most 255 fields, whose name has less than 2^32 bytes and whose ids are ids, is read back from its entry.
pub parse_table-table_to_raw :
    (t : StoredTable)
    → length t.name < 2 ^ 32
    → t.next < 2 ^ 64
    → length t.fields < 256
    → All (λ u. u < 2 ^ 64) t.fields
    → t.row_index < 2 ^ 64
    → parse_table (table_to_raw t) ≡ some t
unfolding parse_table table_to_raw
parse_table-table_to_raw t name_size next_id few ids index_id =
    let index_raw : List ℕ = uuid_to_raw t.row_index in
    let ids_raw : List ℕ = uuids_to_raw t.fields ++ index_raw in
    let rest : List ℕ = t.status ∷ (uuid_to_raw t.next ++ ((length t.fields % 256) ∷ ids_raw)) in
    let count : length t.fields % 256 ≡ length t.fields =
      mod-eq_of_lt {n = length t.fields} {m = 256} few in
    rw
      (
        var_str-round t.name rest name_size,
        drop-length_append (var_str_to_raw t.name) rest,
        parse_uuid-uuid_to_raw t.next ((length t.fields % 256) ∷ ids_raw) next_id,
        drop-uuid_to_raw t.next ((length t.fields % 256) ∷ ids_raw),
        count,
        parse_uuids-uuids_to_raw t.fields index_raw ids,
      )
      (rw (length-uuid_to_raw t.row_index, parse_uuid_last t.row_index index_id) refl)
