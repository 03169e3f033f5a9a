-- ===== src/Tbm/Field.antt =====
-- main/backend/tbm/field.go: the values of a field, and the ranges of keys that a comparison selects
-- in the field's index. `none` is an error from a value that is not of the field's type, or a panic.
use wisdb.Base.{ℕ, List, Option, bytes_equal, Bool, if◌then◌else◌, some, not, ltb}
use wisdb.Base.{false, none, ◌==◌, ◌∷◌, true, [], ◌>>=◌, ◌-◌, ◌+◌, ◌%◌, ◌^◌}
use wisdb.Parser.Tokener.{Token}
use wisdb.Utils.IntEncoding.{uint32_to_raw, parse_uint32, uint64_to_raw, parse_uint64}
use wisdb.Utils.StrEncoding.{str_to_uint32, str_to_uuid, str_to_uint64, var_str_to_raw}
use wisdb.Parser.Statement.{SingleExp}
use wisdb.Utils.StrEncoding.{parse_var_str}
use wisdb.Parser.Words.{is}
use wisdb.Utils.IntEncoding.{inf}

-- The declared types that the type check lets through.
pub data FieldType : Type 0 where
  uint32 uint64 text : FieldType

-- A field; its index is 0 where it has none.
pub record Field : Type 0 where
  pub fname : Token
  pub ftype : FieldType
  pub index : ℕ

-- A value, by its dynamic type.
pub data Value : Type 0 where
  u32 u64 : ℕ → Value
  str : List ℕ → Value

-- typeCheck
unfoldable pub type_check : Token → Option FieldType
unfolding bytes_equal
type_check ftype =
    if is ftype "uint32"
    then some uint32
    else if is ftype "uint64"
    then some uint64
    else if is ftype "string"
    then some text
    else none

unfoldable pub is_indexed : Field → Bool
is_indexed f = not (f.index == 0)

unfoldable pub value_to_raw : FieldType → Value → Option (List ℕ)
unfolding uint32_to_raw uint64_to_raw var_str_to_raw
value_to_raw uint32 (u32 n) = some (uint32_to_raw n)
value_to_raw uint64 (u64 n) = some (uint64_to_raw n)
value_to_raw text (str s) = some (var_str_to_raw s)
value_to_raw f v = none

-- The value at the front of the bytes, and the size that it takes.
unfoldable pub parse_value : FieldType → List ℕ → Option (Value × ℕ)
unfolding parse_uint32 parse_uint64 parse_var_str
parse_value uint32 raw = do n ← parse_uint32 raw; some (u32 n, 4)
parse_value uint64 raw = do n ← parse_uint64 raw; some (u64 n, 8)
parse_value text raw = do (s, shift) ← parse_var_str raw; some (str s, shift)

pub data Cmp : Type 0 where
  less equal greater : Cmp

abbrev pub compare_numbers : ℕ → ℕ → Cmp
compare_numbers a b = if ltb a b then less else if ltb b a then greater else equal

-- a < b on texts: by bytes.
abbrev pub text_less : List ℕ → List ℕ → Bool
text_less a [] = false
text_less [] (c ∷ cs) = true
text_less (b ∷ bs) (c ∷ cs) =
    let rest = text_less bs cs in if ltb b c then true else if ltb c b then false else rest

unfoldable pub value_compare : FieldType → Value → Value → Option Cmp
value_compare uint32 (u32 a) (u32 b) = some (compare_numbers a b)
value_compare uint64 (u64 a) (u64 b) = some (compare_numbers a b)
value_compare text (str a) (str b) =
    some (if text_less a b then less else if text_less b a then greater else equal)
value_compare f a b = none

module _ (runes : List ℕ → List ℕ) (parse_uint : List ℕ → ℕ → Option ℕ) where
  unfoldable pub str_to_value : FieldType → Token → Option Value
  unfolding str_to_uint32 str_to_uint64
  str_to_value uint32 s = do n ← str_to_uint32 runes parse_uint s; some (u32 n)
  str_to_value uint64 s = do n ← str_to_uint64 runes parse_uint s; some (u64 n)
  str_to_value text s = some (str s)

  unfoldable pub value_to_uuid : FieldType → Value → Option ℕ
  unfolding str_to_uuid
  value_to_uuid uint32 (u32 n) = some n
  value_to_uuid uint64 (u64 n) = some n
  value_to_uuid text (str s) = some (str_to_uuid runes parse_uint s)
  value_to_uuid f v = none

  -- The key of the value that a comparison names.
  abbrev pub key_of : FieldType → Token → Option ℕ
  key_of f s = str_to_value f s >>= value_to_uuid f

  -- The range of keys, empty where its left end is above its right one.
  unfoldable pub cal_exp : FieldType → SingleExp → Option (ℕ × ℕ)
  unfolding str_to_value value_to_uuid bytes_equal
  cal_exp f exp =
      if is exp.cmp_op "<"
      then (do right ← key_of f exp.value; some (if ltb 0 right then (0, right - 1) else (1, 0)))
      else if is exp.cmp_op "="
      then (do left ← key_of f exp.value; some (left, left))
      else if is exp.cmp_op ">"
      then (do
        key ← key_of f exp.value
        let left = (key + 1) % 2 ^ 64
        some (if left == 0 then (1, 0) else (left, inf)))
      else some (0, 0)
