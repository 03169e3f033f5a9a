-- ===== src/Dm/Address.antt =====
-- main/backend/dm/types.go: the address of a data item as one 64-bit UUID.
pub mod RoundTrip
use Prim.Native.Nat.{bit_and, bit_or}
use wisdb.Base.{ℕ, ◌+◌, ◌-◌, ◌*◌, ◌/◌, ◌%◌, ◌^◌, List, Option}
use wisdb.Utils.IntEncoding.{put_uint16, parse_uint16}

-- The conversions `Offset(..)` and `pcacher.Pgno(..)` cut to 16 and 32 bits.
unfoldable pub uuid_to_address : ℕ → ℕ × ℕ
uuid_to_address u =
    let offset = bit_and u (2 ^ 16 - 1) % 2 ^ 16 in
    let pgno = bit_and (u / 2 ^ 32) (2 ^ 32 - 1) % 2 ^ 32 in (pgno, offset)

unfoldable pub address_to_uuid : ℕ → ℕ → ℕ
address_to_uuid pgno offset = bit_or (pgno * 2 ^ 32 % 2 ^ 64) offset

abbrev pub len_offset : ℕ
len_offset = 2

unfoldable pub put_offset : List ℕ → ℕ → ℕ → List ℕ
unfolding put_uint16
put_offset buf off offset = put_uint16 buf off offset

unfoldable pub parse_offset : List ℕ → Option ℕ
unfolding parse_uint16
parse_offset raw = parse_uint16 raw
