-- ===== src/Tests/Tables.antt =====
-- Tables at concrete inputs.
use Prim.Native.String.{String}
use wisdb.Tbm.Field.{uint32, text, u32, str, Field, str_to_value, cal_exp, value_to_uuid}
use wisdb.Base.{ℕ, List, ◌∷◌, [], none, some, inl, inr, Option, ◌≡◌, bytes_equal}
use wisdb.Base.{if◌then◌else◌, ◌<◌, ltb, ◌^◌, arith, true, refl, false, ◌==◌}
use wisdb.Parser.Words.{str_to_int, codes}
use wisdb.Parser.Tokener.{Token}
use wisdb.Tbm.Table.{Row, find_field, get_value, cal_where, evaluate_where, str_to_entry}
use wisdb.Parser.Statement.{Where, SingleExp}
use wisdb.Utils.StrEncoding.{str_to_uint32, parse_var_str}
use wisdb.Tbm.Table.Rows.{Distinct, parse_entry-entry_to_raw}
use wisdb.Tbm.Table.{entry_to_raw, parse_values, parse_entry, match_single_exp, parse_fields}
use wisdb.Tbm.Field.{key_of, is_indexed, parse_value, value_compare}
use wisdb.Tbm.Table.Ranges.{Ranged, some_injective, in_range}
use wisdb.Tbm.Table.Conditions.{cal_where-evaluate_where}
use wisdb.Tbm.Table.Ranges.{cal_exp_misses}
use wisdb.Tbm.Table.Conditions.{cal_where-evaluate_where}
use wisdb.Tbm.Access.{Storage, Table, read_rows}
use wisdb.Tbm.Access.Scan.{read_rows-matching, read_rows-scanned, matching}
use wisdb.Im.Store.{ok, pure}
use wisdb.Im.Tree.Walk
use wisdb.Utils.IntEncoding.{parse_uint32, get_uint32, of_bytes}
use wisdb.Tbm.Table.{holds}
use wisdb.Tbm.Stored.{parse_table, table_to_raw}
use wisdb.Tbm.Stored.RoundTrip.{parse_table-table_to_raw}

abbrev runes : List ℕ → List ℕ
runes s = s

abbrev in_bits : ℕ → Option ℕ → Option ℕ
in_bits bits none = none
in_bits bits (some n) = if ltb n (2 ^ bits) then some n else none

abbrev parse_uint : List ℕ → ℕ → Option ℕ
parse_uint s bits = in_bits bits (str_to_int 0 s)

bounded : (s : List ℕ) (bits n : ℕ) → parse_uint s bits ≡ some n → n < 2 ^ bits
bounded s bits n h = go (str_to_int 0 s) h
  where
    go : (o : Option ℕ) → in_bits bits o ≡ some n → n < 2 ^ bits
    go none e = cc
    go (some m) e = ground arith

-- A table of an indexed number and a text, and a row of it.
abbrev columns : List Field
columns =
    record { fname = codes "id"; ftype = uint32; index = 9 }
    ∷ (record { fname = codes "name"; ftype = text; index = 0 } ∷ [])

abbrev typed : List Token
typed = codes "5" ∷ (codes "ab" ∷ [])

abbrev row : Row
row = (codes "name", str (codes "ab")) ∷ ((codes "id", u32 5) ∷ [])

abbrev compared : String → String → SingleExp
compared op value = record { field = codes "id"; cmp_op = codes op; value = codes value }

-- id > 3 and id < 9
abbrev condition : Where
condition = record {
  single_exp1 = compared ">" "3";
  logic_op = codes "and";
  single_exp2 = some (compared "<" "9");
}

found_id :
    find_field (codes "id") columns
    ≡ some (record { fname = codes "id"; ftype = uint32; index = 9 })
unfolding find_field bytes_equal
found_id = refl

has_id : get_value (codes "id") row ≡ some (u32 5)
unfolding get_value bytes_equal
has_id = refl

four_to_eight : cal_where runes parse_uint uint32 condition ≡ some ((4, 8), none)
unfolding cal_where cal_exp str_to_value value_to_uuid str_to_uint32 str_to_int bytes_equal
four_to_eight = refl

second_exp :
    (exp2 : SingleExp) → condition.single_exp2 ≡ some exp2 → (exp2.field ≡ codes "id") × Ranged exp2
second_exp exp2 h =
    let same : compared "<" "9" ≡ exp2 = some_injective (compared "<" "9") exp2 h in
    rw (← same) (refl, inl refl)

cal_where-evaluate_where_example : evaluate_where runes parse_uint columns row condition ≡ some true
cal_where-evaluate_where_example =
    cal_where-evaluate_where runes parse_uint bounded columns row condition
      (record { fname = codes "id"; ftype = uint32; index = 9 }) (u32 5) 5 found_id has_id refl
      (omega arith) (inr (inr refl)) second_exp ((4, 8), none) four_to_eight

three_key : key_of runes parse_uint uint32 (codes "3") ≡ some 3
unfolding str_to_value value_to_uuid str_to_uint32 str_to_int
three_key = refl

cal_exp_misses_example :
    (cal_exp runes parse_uint uint32 (compared ">=" "3") ≡ some (0, 0))
    × (in_range 5 (0, 0) ≡ false)
    × (match_single_exp runes parse_uint columns row (compared ">=" "3") ≡ some true)
cal_exp_misses_example =
    cal_exp_misses runes parse_uint bounded columns row (compared ">=" "3")
      (record { fname = codes "id"; ftype = uint32; index = 9 }) (u32 5) 5 3 found_id has_id refl
      (omega arith) three_key (inl (refl, omega arith))

row_parsed : str_to_entry runes parse_uint columns typed ≡ some row
unfolding str_to_entry parse_values str_to_value str_to_uint32 str_to_int
row_parsed = refl

names_differ : Distinct columns
unfolding bytes_equal
names_differ = ((refl, tt), (tt, tt))

parse_entry-entry_to_raw_example :
    (raw : List ℕ) × (entry_to_raw columns row ≡ some raw) × (parse_entry columns raw ≡ some row)
parse_entry-entry_to_raw_example =
    parse_entry-entry_to_raw runes parse_uint bounded columns typed row names_differ
      (omega arith, (omega arith, tt)) row_parsed

-- A table of one row, with the number 5, and a deleted row under the number 6, as a transaction sees it.
abbrev row_raw : List ℕ
row_raw = 0 ∷ (0 ∷ (0 ∷ (5 ∷ (0 ∷ (0 ∷ (0 ∷ (2 ∷ codes "ab")))))))

abbrev seen : ℕ → Option (List ℕ)
seen u = if u == 7 then some row_raw else none

abbrev id_pairs : List (ℕ × ℕ)
id_pairs = (7, 5) ∷ ((8, 6) ∷ [])

abbrev found_in : ℕ → ℕ → ℕ → List ℕ
found_in index left right = if index == 9 then Walk.in_range left right id_pairs else 7 ∷ (8 ∷ [])

abbrev one_row : Storage (Unit {0})
one_row = record {
  sm_read = λ xid u. pure (seen u);
  sm_insert = λ xid raw. pure 10;
  sm_delete = λ xid u. pure (u == 7);
  im_create = pure 11;
  im_load = λ u. pure tt;
  im_insert = λ index key u. pure tt;
  im_search_range = λ index left right. pure (found_in index left right);
}

abbrev people : Table
people = record {
  self_uuid = 2;
  name = codes "people";
  status = 0;
  next = 0;
  fields = columns;
  field_uuids = 3 ∷ (4 ∷ []);
  row_index = 5;
}

raw_parsed : parse_entry columns row_raw ≡ some row
unfolding parse_entry parse_fields parse_value parse_uint32 get_uint32 of_bytes parse_var_str
raw_parsed = refl

id_indexed : is_indexed (record { fname = codes "id"; ftype = uint32; index = 9 }) ≡ true
unfolding is_indexed
id_indexed = refl

parsed_as : (raw : List ℕ) → seen 7 ≡ some raw → parse_entry columns raw ≡ some row
parsed_as raw h = let same : row_raw ≡ raw = some_injective row_raw raw h in rw (← same) raw_parsed

-- name = 'ab'
abbrev named : Where
named = record {
  single_exp1 = record { field = codes "name"; cmp_op = codes "="; value = codes "ab" };
  logic_op = codes "";
  single_exp2 = none;
}

found_name :
    find_field (codes "name") columns
    ≡ some (record { fname = codes "name"; ftype = text; index = 0 })
unfolding find_field bytes_equal
found_name = refl

name_plain : is_indexed (record { fname = codes "name"; ftype = text; index = 0 }) ≡ false
unfolding is_indexed
name_plain = refl

name_holds : evaluate_where runes parse_uint columns row named ≡ some true
unfolding evaluate_where match_single_exp get_value find_field str_to_value value_compare holds
    bytes_equal
name_holds = refl

read_rows-scanned_example :
    read_rows one_row runes parse_uint 1 people (some named) tt
    ≡ some (ok (matching one_row runes parse_uint 1 people named tt seen (7 ∷ (8 ∷ []))), tt)
read_rows-scanned_example =
    read_rows-scanned one_row runes parse_uint 1 people named tt seen
      (record { fname = codes "name"; ftype = text; index = 0 }) (7 ∷ (8 ∷ [])) found_name
      name_plain refl (refl, (refl, tt))
      (
        (true, (λ raw h. (row, parsed_as raw h, name_holds))),
        ((false, (λ raw h. absurd (cc h))), tt),
      )

read_rows-matching_example :
    read_rows one_row runes parse_uint 1 people (some condition) tt
    ≡ some (ok (matching one_row runes parse_uint 1 people condition tt seen (7 ∷ (8 ∷ []))), tt)
read_rows-matching_example =
    read_rows-matching one_row runes parse_uint 1 people condition tt seen bounded
      (record { fname = codes "id"; ftype = uint32; index = 9 }) 4 8 id_pairs found_id id_indexed
      (inr (inr refl)) second_exp four_to_eight refl (refl, (refl, tt))
      (
        (λ raw h. (row, u32 5, parsed_as raw h, has_id, refl, omega arith)),
        ((λ raw h. absurd (cc h)), tt),
      )

parse_table-table_to_raw_example :
    parse_table (
      table_to_raw (record {
        name = codes "people";
        status = 0;
        next = 12;
        fields = 3 ∷ (4 ∷ []);
        row_index = 5;
      }))
    ≡ some (record {
      name = codes "people";
      status = 0;
      next = 12;
      fields = 3 ∷ (4 ∷ []);
      row_index = 5;
    })
parse_table-table_to_raw_example =
    parse_table-table_to_raw
      (record {
        name = codes "people";
        status = 0;
        next = 12;
        fields = 3 ∷ (4 ∷ []);
        row_index = 5;
      })
      (omega arith) (omega arith) (omega arith) (omega arith, (omega arith, tt)) (omega arith)
