-- ===== src/Base/Bits.antt =====
-- Masks, shifts and disjoint unions of bits as arithmetic, for every width.
use Prim.Native.Nat.{min, max, digits, bit_and, bit_or, bit_and-bitwise, bit_or-bitwise}
use Prim.Native.Nat.{ℕ, zero, suc, ◌+◌, ◌*◌, ◌/◌, ◌%◌, ◌^◌, ◌≤◌, ◌<◌}
use mathlib.Core.Path.{◌≡◌, refl, ap, ◌∙◌}
use native.Mathlib.Omega.{arith}
use native.Mathlib.Decide.{dec_le}
use native.Mathlib.Nat.{pow-succ', one-le-pow, div-add-mod, mod-lt, mod-eq_of_lt}
use native.Mathlib.Nat.{mul-add-mod_self_left}

-- One more unit of fuel than the first number needs makes no difference, so no amount does.
module _ (z : ℕ → ℕ) (f : ℕ → ℕ → ℕ) where
  spare_digit : (n a b : ℕ) → a ≤ n → digits z f (suc n) a b ≡ digits z f n a b
  spare_digit zero zero b h = refl
  spare_digit zero (suc a) b h = absurd (omega arith)
  spare_digit (suc n) zero b h = refl
  spare_digit (suc n) (suc a) b h =
      ap (λ (t : ℕ). t * 2 + f (suc a % 2) (b % 2))
        (spare_digit n (suc a / 2) (b / 2) (omega arith))

  -- The number itself is fuel enough.
  enough_digits : (k a b : ℕ) → a ≤ k → digits z f k a b ≡ digits z f a a b
  enough_digits zero a b h = let e : a ≡ 0 = omega arith in rw e
  enough_digits (suc k) a b h = elim (dec_le a k) [
    | yes l ↦ spare_digit k a b l ∙ enough_digits k a b l
    | no l ↦ let e : a ≡ suc k = omega arith in rw e
  ]

  digit_step :
      (a b : ℕ)
      → digits z f (suc a) (suc a) b
        ≡ digits z f (suc a / 2) (suc a / 2) (b / 2) * 2 + f (suc a % 2) (b % 2)
  digit_step a b =
      ap (λ (t : ℕ). t * 2 + f (suc a % 2) (b % 2))
        (enough_digits a (suc a / 2) (b / 2) (omega arith))

bit_and_digit : (a b : ℕ) → bit_and a b ≡ bit_and (a / 2) (b / 2) * 2 + min (a % 2) (b % 2)
bit_and_digit zero b = simp bit_and-bitwise (omega arith)
bit_and_digit (suc a) b = simp bit_and-bitwise (digit_step (λ y. 0) min a b)

bit_or_digit : (a b : ℕ) → bit_or a b ≡ bit_or (a / 2) (b / 2) * 2 + max (a % 2) (b % 2)
bit_or_digit zero b = simp bit_or-bitwise (omega arith)
bit_or_digit (suc a) b = simp bit_or-bitwise (digit_step (λ y. y) max a b)

-- n % 2p, from the lowest bit and the rest
mod_double : (n p : ℕ) → 0 < p → n % (2 * p) ≡ n / 2 % p * 2 + n % 2
mod_double n p h =
    ap (λ (t : ℕ). t % (2 * p)) halves
    ∙ mul-add-mod_self_left (2 * p) (n / 2 / p) (n / 2 % p * 2 + n % 2)
    ∙ mod-eq_of_lt (omega (arith, mod-lt (n / 2) h))
  where
    halves : n ≡ 2 * p * (n / 2 / p) + (n / 2 % p * 2 + n % 2)
    halves = omega (arith, div-add-mod (n / 2) p)

zero_and_fuel : (n a : ℕ) → a ≤ n → bit_and a 0 ≡ 0
zero_and_fuel zero a h = let e : a ≡ 0 = omega arith in rw e
zero_and_fuel (suc n) zero h = refl
zero_and_fuel (suc n) (suc a) h =
    omega (arith, bit_and_digit (suc a) 0, zero_and_fuel n (suc a / 2) (omega arith))

-- a & (2^w - 1)
pub bit_and_mask : (w m a : ℕ) → m + 1 ≡ 2 ^ w → bit_and a m ≡ a % 2 ^ w
bit_and_mask zero m a h =
    let e : m ≡ 0 = omega arith in rw e (omega (arith, zero_and_fuel a a (omega arith)))
bit_and_mask (suc w) m a h = omega (
  arith,
  pow-succ' 2 w,
  bit_and_digit a m,
  bit_and_mask w (m / 2) (a / 2) (omega (arith, pow-succ' 2 w, h)),
  ap (λ (t : ℕ). a % t) (pow-succ' 2 w),
  mod_double a (2 ^ w) (one-le-pow w 2 (omega arith)),
)

or_zero_fuel : (n a : ℕ) → a ≤ n → bit_or a 0 ≡ a
or_zero_fuel zero a h = let e : a ≡ 0 = omega arith in rw e
or_zero_fuel (suc n) zero h = refl
or_zero_fuel (suc n) (suc a) h =
    omega (arith, bit_or_digit (suc a) 0, or_zero_fuel n (suc a / 2) (omega arith))

-- a << w | b, where b has at most w bits
pub bit_or_disjoint : (w a b : ℕ) → b < 2 ^ w → bit_or (a * 2 ^ w) b ≡ a * 2 ^ w + b
bit_or_disjoint zero a b h =
    let e : b ≡ 0 = omega arith in
    rw e (omega (arith, or_zero_fuel (a * 2 ^ 0) (a * 2 ^ 0) (omega arith)))
bit_or_disjoint (suc w) a b h = omega (
  arith,
  double,
  ap (λ (t : ℕ). bit_or t b) double,
  bit_or_digit (a * 2 ^ w * 2) b,
  ap (λ (t : ℕ). bit_or t (b / 2)) half,
  bit_or_disjoint w a (b / 2) (omega (arith, pow-succ' 2 w)),
)
  where
    double : a * 2 ^ suc w ≡ a * 2 ^ w * 2
    double = omega (arith, ap (λ (t : ℕ). a * t) (pow-succ' 2 w))

    half : a * 2 ^ w * 2 / 2 ≡ a * 2 ^ w
    half = omega arith
