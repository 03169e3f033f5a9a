-- ===== src/Dm/Address/RoundTrip.antt =====
-- An address survives its packing, and packing is injective on the addresses.
use native.Mathlib.Nat.{mod-eq_of_lt}
use wisdb.Base.Bits.{bit_and_mask, bit_or_disjoint}
use Prim.Native.Nat.{bit_or}
use wisdb.Dm.Address.{uuid_to_address, address_to_uuid}
use wisdb.Base.{◌<◌, ◌≡◌, ◌^◌, ◌*◌, ◌/◌, arith, ◌+◌, ◌%◌, ap, ◌∙◌, ◌-◌, ℕ, refl}

abbrev pub IsPgno : ℕ → Type 0
IsPgno n = n < 2 ^ 32

abbrev pub IsOffset : ℕ → Type 0
IsOffset n = n < 2 ^ 16

pub address_to_uuid_sum :
    (pgno offset : ℕ)
    → IsPgno pgno
    → IsOffset offset
    → address_to_uuid pgno offset ≡ pgno * 2 ^ 32 + offset
unfolding address_to_uuid
address_to_uuid_sum pgno offset hp ho =
    ap (λ (t : ℕ). bit_or t offset) (mod-eq_of_lt {n = pgno * 2 ^ 32} {m = 2 ^ 64} (omega arith))
    ∙ bit_or_disjoint 32 pgno offset (omega arith)

uuid_to_address_parts : (u : ℕ) → uuid_to_address u ≡ (u / 2 ^ 32 % 2 ^ 32, u % 2 ^ 16)
unfolding uuid_to_address
uuid_to_address_parts u =
    ground
      (arith, bit_and_mask 16 (2 ^ 16 - 1) u refl, bit_and_mask 32 (2 ^ 32 - 1) (u / 2 ^ 32) refl)

-- For every 32-bit page number and 16-bit offset, unpacking the packed UUID returns both, and the
-- UUID is below 2^64.
pub uuid_to_address-address_to_uuid :
    (pgno offset : ℕ)
    → IsPgno pgno
    → IsOffset offset
    → (uuid_to_address (address_to_uuid pgno offset) ≡ (pgno, offset))
      × (address_to_uuid pgno offset < 2 ^ 64)
uuid_to_address-address_to_uuid pgno offset hp ho =
    rw (address_to_uuid_sum pgno offset hp ho, uuid_to_address_parts) (ground arith, omega arith)

-- A UUID below 2^64 whose bits 16 to 31 are zero is packed again from its parts.
pub address_to_uuid-uuid_to_address :
    (u : ℕ)
    → u < 2 ^ 64
    → u / 2 ^ 16 % 2 ^ 16 ≡ 0
    → address_to_uuid (uuid_to_address u).0 (uuid_to_address u).1 ≡ u
address_to_uuid-uuid_to_address u h gap = rw uuid_to_address_parts (
    address_to_uuid_sum (u / 2 ^ 32 % 2 ^ 32) (u % 2 ^ 16) (omega arith) (omega arith)
    ∙ omega arith)
