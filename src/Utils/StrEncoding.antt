-- ===== src/Utils/StrEncoding.antt =====
-- main/backend/utils/str_encoding.go: texts as bytes with their length in front, and as numbers.
use wisdb.Utils.IntEncoding.{uint32_to_raw, get_uint32}
use wisdb.Base.{ℕ, List, Option, ◌++◌, length, ◌∷◌, ◌>>=◌, ◌>>◌, ◌%◌, bounds, ◌*◌}
use wisdb.Base.{◌^◌, leb, ◌+◌, take, [], some, drop}

unfoldable pub var_str_to_raw : List ℕ → List ℕ
unfolding uint32_to_raw
var_str_to_raw str = uint32_to_raw (length str % 2 ^ 32) ++ str

-- The text and the size that it takes; `none` is a slice out of range.
unfoldable pub parse_var_str : List ℕ → Option (List ℕ × ℕ)
unfolding get_uint32
parse_var_str raw = do
  bounds (leb 4 (length raw))
  l ← get_uint32 (take 4 raw)
  bounds (leb (4 + l) (length raw))
  some (take l (drop 4 raw), 4 + l)

-- The loop of StrToUUID over the runes of a text.
unfoldable pub hash_from : ℕ → List ℕ → ℕ
hash_from result [] = result
hash_from result (b ∷ bs) = hash_from ((result * 13331 + b) % 2 ^ 64) bs

-- `runes` is Go's decoding of a text, `parse_uint` is strconv.ParseUint at base ten for a number of bits.
module _ (runes : List ℕ → List ℕ) (parse_uint : List ℕ → ℕ → Option ℕ) where
  unfoldable pub str_to_uuid : List ℕ → ℕ
  unfolding hash_from
  str_to_uuid str = hash_from 0 (runes str)

  unfoldable pub str_to_uint64 : List ℕ → Option ℕ
  str_to_uint64 s = parse_uint s 64

  unfoldable pub str_to_uint32 : List ℕ → Option ℕ
  str_to_uint32 s = parse_uint s 32
