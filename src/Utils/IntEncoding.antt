-- ===== src/Utils/IntEncoding.antt =====
-- main/backend/utils/int_encoding.go and types.go: big-endian integers in byte slices, and UUIDs.
-- A `Put` writes through `bytes.NewBuffer(buf[:0])`: where the slice is too short, the buffer moves
-- to fresh memory and the slice stays as it was. A read of too short a slice panics: `none`.
pub mod RoundTrip
use wisdb.Base.{ℕ, zero, suc, ◌+◌, ◌-◌, ◌*◌, ◌/◌, ◌%◌, ◌^◌, List, [], ◌∷◌, Option, none, some}
use wisdb.Base.{leb, if◌then◌else◌, length, copy_at}

-- The `w` lowest bytes of a number, most significant first.
unfoldable pub to_bytes : ℕ → ℕ → List ℕ
to_bytes zero n = []
to_bytes (suc w) n = n / 256 ^ w % 256 ∷ to_bytes w n

-- The first `w` bytes as a number, behind the digits read so far.
unfoldable pub of_bytes : ℕ → ℕ → List ℕ → Option ℕ
of_bytes zero acc bs = some acc
of_bytes (suc w) acc [] = none
of_bytes (suc w) acc (b ∷ bs) = of_bytes w (acc * 256 + b) bs

-- binary.Write into buf[off:] of an integer of `w` bytes
unfoldable pub put_int : ℕ → List ℕ → ℕ → ℕ → List ℕ
put_int w buf off num = if leb (off + w) (length buf) then copy_at buf off (to_bytes w num) else buf

unfoldable pub put_uint16 : List ℕ → ℕ → ℕ → List ℕ
put_uint16 buf off num = put_int 2 buf off num

unfoldable pub get_uint16 : List ℕ → Option ℕ
get_uint16 buf = of_bytes 2 0 buf

unfoldable pub parse_uint16 : List ℕ → Option ℕ
unfolding get_uint16
parse_uint16 raw = get_uint16 raw

unfoldable pub uint16_to_raw : ℕ → List ℕ
uint16_to_raw num = to_bytes 2 num

unfoldable pub put_uint32 : List ℕ → ℕ → ℕ → List ℕ
put_uint32 buf off num = put_int 4 buf off num

unfoldable pub get_uint32 : List ℕ → Option ℕ
get_uint32 buf = of_bytes 4 0 buf

unfoldable pub parse_uint32 : List ℕ → Option ℕ
unfolding get_uint32
parse_uint32 raw = get_uint32 raw

unfoldable pub uint32_to_raw : ℕ → List ℕ
uint32_to_raw num = to_bytes 4 num

unfoldable pub put_uint64 : List ℕ → ℕ → ℕ → List ℕ
put_uint64 buf off num = put_int 8 buf off num

unfoldable pub get_uint64 : List ℕ → Option ℕ
get_uint64 buf = of_bytes 8 0 buf

unfoldable pub parse_uint64 : List ℕ → Option ℕ
unfolding get_uint64
parse_uint64 raw = get_uint64 raw

unfoldable pub uint64_to_raw : ℕ → List ℕ
uint64_to_raw num = to_bytes 8 num

unfoldable pub put_uuid : List ℕ → ℕ → ℕ → List ℕ
unfolding put_uint64
put_uuid buf off uuid = put_uint64 buf off uuid

unfoldable pub parse_uuid : List ℕ → Option ℕ
unfolding parse_uint64
parse_uuid raw = parse_uint64 raw

unfoldable pub uuid_to_raw : ℕ → List ℕ
unfolding uint64_to_raw
uuid_to_raw uuid = uint64_to_raw uuid

abbrev pub len_uuid : ℕ
len_uuid = 8

-- utils.INF
abbrev pub inf : ℕ
inf = 2 ^ 64 - 1
