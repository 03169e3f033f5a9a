-- ===== src/Tbm/Table.antt =====
-- main/backend/tbm/table.go: rows as bytes, and the conditions on them. A row is a map from field
-- names to values. `none` is an error, or a panic.
pub mod Ranges
pub mod Conditions
pub mod Rows
use wisdb.Tbm.Field.{less, equal, greater}
use wisdb.Base.{ℕ, List, Option, ◌∷◌, [], bytes_equal, if◌then◌else◌, ◌+◌, leb, ◌%◌}
use wisdb.Base.{ltb, length, ◌^◌, slice, ◌-◌, none, some, ◌==◌, Bool, ◌>>=◌, ◌>>◌}
use wisdb.Parser.Tokener.{Token}
use wisdb.Tbm.Field.{Field, str_to_value, cal_exp, Value, Cmp, value_compare, FieldType}
use wisdb.Parser.Statement.{Aggregate, Where, SingleExp}
use wisdb.Tbm.Field.{u32, value_to_raw, parse_value, u64, str}
use wisdb.Base.{false, ◌++◌, drop, ◌/◌, ◌&&◌, ◌||◌, true}
use wisdb.Parser.Words.{is}

abbrev pub Row : Type 0
Row = List (Token × Value)

-- e[name]
unfoldable pub get_value : Token → Row → Option Value
get_value name [] = none
get_value name ((n, v) ∷ e) = if bytes_equal n name then some v else get_value name e

-- The first field of a name.
unfoldable pub find_field : Token → List Field → Option Field
find_field name [] = none
find_field name (f ∷ fs) = if bytes_equal f.fname name then some f else find_field name fs

-- entryToRaw
unfoldable pub entry_to_raw : List Field → Row → Option (List ℕ)
unfolding get_value
entry_to_raw [] e = some []
entry_to_raw (f ∷ fs) e = do
  v ← get_value f.fname e
  raw ← value_to_raw f.ftype v
  rest ← entry_to_raw fs e
  some (raw ++ rest)

-- The loop of parseEntry.
unfoldable pub parse_fields : List Field → List ℕ → Row → Option Row
parse_fields [] raw e = some e
parse_fields (f ∷ fs) raw e = do
  (v, shift) ← parse_value f.ftype raw
  parse_fields fs (drop shift raw) ((f.fname, v) ∷ e)

unfoldable pub parse_entry : List Field → List ℕ → Option Row
unfolding parse_fields
parse_entry fs raw = parse_fields fs raw []

-- How a comparison's operator reads the outcome.
unfoldable pub holds : Token → Cmp → Bool
unfolding bytes_equal
holds op c =
    if is op "="
    then elim c [ less ↦ false | equal ↦ true | greater ↦ false ]
    else if is op "!="
    then elim c [ less ↦ true | equal ↦ false | greater ↦ true ]
    else if is op "<"
    then elim c [ less ↦ true | equal ↦ false | greater ↦ false ]
    else if is op "<="
    then elim c [ less ↦ true | equal ↦ true | greater ↦ false ]
    else if is op ">"
    then elim c [ less ↦ false | equal ↦ false | greater ↦ true ]
    else if is op ">="
    then elim c [ less ↦ false | equal ↦ true | greater ↦ true ]
    else false

-- limitEntries
unfoldable pub limit_entries : List Row → ℕ → ℕ → List Row
limit_entries entries limit offset =
    if leb (length entries) offset
    then []
    else let end = offset + limit in
      let end' = if ltb (length entries) end then length entries else end in
      slice offset (end' - offset) entries

-- The number in a row's field, if it has one.
unfoldable pub number_at : Token → Row → Option ℕ
unfolding get_value
number_at name e = elim (get_value name e) [
  | none ↦ none
  | some (u32 n) ↦ some n
  | some (u64 n) ↦ some n
  | some (str s) ↦ none
]

abbrev pub numbers : Token → List Row → List ℕ
numbers name [] = []
numbers name (e ∷ es) =
    let rest = numbers name es in elim (number_at name e) [ none ↦ rest | some n ↦ n ∷ rest ]

abbrev pub total_from : ℕ → List ℕ → ℕ
total_from total [] = total
total_from total (n ∷ ns) = total_from ((total + n) % 2 ^ 64) ns

abbrev pub min_from : ℕ → List ℕ → ℕ
min_from m [] = m
min_from m (n ∷ ns) = min_from (if ltb n m then n else m) ns

abbrev pub max_from : ℕ → List ℕ → ℕ
max_from m [] = m
max_from m (n ∷ ns) = max_from (if ltb m n then n else m) ns

abbrev pub over_rows : List Row → ℕ → ℕ
over_rows [] n = 0
over_rows (e ∷ es) n = n

-- The number that computeAggregates prints for an aggregate, if it prints one.
unfoldable pub aggregate : List Row → Aggregate → Option ℕ
unfolding bytes_equal number_at
aggregate entries agg =
    let ns = numbers agg.field entries in
    if is agg.func "count"
    then (if is agg.field "*" then some (length entries) else none)
    else if is agg.func "sum"
    then some (total_from 0 ns)
    else if is agg.func "avg"
    then some (over_rows entries (total_from 0 ns / length entries))
    else if is agg.func "min"
    then some (over_rows entries (min_from (2 ^ 64 - 1) ns))
    else if is agg.func "max"
    then some (over_rows entries (max_from 0 ns))
    else none

module _ (runes : List ℕ → List ℕ) (parse_uint : List ℕ → ℕ → Option ℕ) where
  -- The loop of strToEntry.
  unfoldable pub parse_values : List Field → List Token → Row → Option Row
  unfolding str_to_value
  parse_values [] values e = some e
  parse_values (f ∷ fs) [] e = none
  parse_values (f ∷ fs) (s ∷ values) e = do
    v ← str_to_value runes parse_uint f.ftype s
    parse_values fs values ((f.fname, v) ∷ e)

  unfoldable pub str_to_entry : List Field → List Token → Option Row
  unfolding parse_values
  str_to_entry fs values = if length values == length fs then parse_values fs values [] else none

  -- matchSingleExp; a value that is not of its field's type is a panic.
  unfoldable pub match_single_exp : List Field → Row → SingleExp → Option Bool
  unfolding get_value find_field str_to_value value_compare holds
  match_single_exp fs e exp = elim (get_value exp.field e) [
    | none ↦ some false
    | some v ↦ elim (find_field exp.field fs) [
      | none ↦ some false
      | some fd ↦ elim (str_to_value runes parse_uint fd.ftype exp.value) [
        | none ↦ some false
        | some target ↦ do c ← value_compare fd.ftype v target; some (holds exp.cmp_op c)
      ]
    ]
  ]

  -- evaluateWhere
  unfoldable pub evaluate_where : List Field → Row → Where → Option Bool
  unfolding match_single_exp bytes_equal
  evaluate_where fs e w = do
    ok1 ← match_single_exp fs e w.single_exp1
    (if is w.logic_op "" then some ok1 else (do
      exp2 ← w.single_exp2
      ok2 ← match_single_exp fs e exp2
      some (if is w.logic_op "and" then ok1 && ok2 else ok1 || ok2)))

  -- calWhere: one range, or two.
  unfoldable pub cal_where : FieldType → Where → Option ((ℕ × ℕ) × Option (ℕ × ℕ))
  unfolding cal_exp bytes_equal
  cal_where f w =
      if is w.logic_op ""
      then (do r ← cal_exp runes parse_uint f w.single_exp1; some (r, none))
      else if is w.logic_op "or"
      then (do
        r0 ← cal_exp runes parse_uint f w.single_exp1
        exp2 ← w.single_exp2
        r1 ← cal_exp runes parse_uint f exp2
        some (r0, some r1))
      else if is w.logic_op "and"
      then (do
        (l0, r0) ← cal_exp runes parse_uint f w.single_exp1
        exp2 ← w.single_exp2
        (l1, r1) ← cal_exp runes parse_uint f exp2
        some ((if ltb l0 l1 then l1 else l0, if ltb r1 r0 then r1 else r0), none))
      else none
