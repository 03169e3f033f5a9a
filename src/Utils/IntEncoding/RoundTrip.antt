-- ===== src/Utils/IntEncoding/RoundTrip.antt =====
-- Integers written to a slice are read back, and the rest of the slice is left alone.
use native.Mathlib.Nat.{pow-succ' as pow-suc', one-le-pow, div-add-mod, mod-lt, mod-eq_of_lt}
use native.Mathlib.Nat.{mul-add-mod_self_left}
use wisdb.Base.{ℕ, zero, suc, ◌+◌, ◌*◌, ◌/◌, ◌%◌, ◌^◌, ◌≤◌, ◌<◌, ◌≡◌, refl, ap, ◌∙◌, arith}
use wisdb.Base.{List, [], ◌∷◌, ◌++◌, some, All, le→leb, length, length-append, sym}
use wisdb.Base.{copy_at, drop, drop-copy_at, copy_at_mid, drop-length_append}
use wisdb.Base.{length-copy_at, take}
use wisdb.Utils.IntEncoding.{to_bytes, of_bytes, put_int}

pub length-to_bytes : (w n : ℕ) → length (to_bytes w n) ≡ w
unfolding to_bytes
length-to_bytes zero n = refl
length-to_bytes (suc w) n = ap suc (length-to_bytes w n)

pub to_bytes-IsByte : (w n : ℕ) → All (λ b. b < 256) (to_bytes w n)
unfolding to_bytes
to_bytes-IsByte zero n = tt
to_bytes-IsByte (suc w) n = (omega arith, to_bytes-IsByte w n)

-- Any number is a multiple of 256 * p, a digit at p, and a remainder.
digit_sum : (n p : ℕ) → n ≡ 256 * p * (n / p / 256) + (n / p % 256 * p + n % p)
digit_sum n p = omega (arith, div-add-mod n p, ap (λ (t : ℕ). p * t) (div-add-mod (n / p) 256))

digit_fits : (d r p : ℕ) → d < 256 → r < p → d * p + r < 256 * p
digit_fits d r p hd hr = grind arith

digit_split : (n p : ℕ) → 0 < p → n % (256 * p) ≡ n / p % 256 * p + n % p
digit_split n p h =
    ap (λ (t : ℕ). t % (256 * p)) (digit_sum n p)
    ∙ mul-add-mod_self_left (256 * p) (n / p / 256) (n / p % 256 * p + n % p)
    ∙ mod-eq_of_lt (digit_fits (n / p % 256) (n % p) p (omega arith) (mod-lt n h))

digit_step :
    (w acc n : ℕ)
    → (acc * 256 + n / 256 ^ w % 256) * 256 ^ w + n % 256 ^ w ≡ acc * 256 ^ suc w + n % 256 ^ suc w
digit_step w acc n =
    rw pow-suc' (omega (arith, digit_split n (256 ^ w) (one-le-pow w 256 (omega arith))))

pub of_bytes-to_bytes_acc :
    (w acc n : ℕ) (rest : List ℕ)
    → of_bytes w acc (to_bytes w n ++ rest) ≡ some (acc * 256 ^ w + n % 256 ^ w)
unfolding of_bytes to_bytes
of_bytes-to_bytes_acc zero acc n rest = ap some (omega arith)
of_bytes-to_bytes_acc (suc w) acc n rest =
    of_bytes-to_bytes_acc w (acc * 256 + n / 256 ^ w % 256) n rest ∙ ap some (digit_step w acc n)

pub of_bytes-to_bytes :
    (w n : ℕ) (rest : List ℕ) → n < 256 ^ w → of_bytes w 0 (to_bytes w n ++ rest) ≡ some n
of_bytes-to_bytes w n rest h = of_bytes-to_bytes_acc w 0 n rest ∙ ap some (grind arith)

-- A read looks at the first `w` bytes only.
pub of_bytes-take : (w acc : ℕ) (bs : List ℕ) → of_bytes w acc bs ≡ of_bytes w acc (take w bs)
unfolding of_bytes
of_bytes-take zero acc bs = refl
of_bytes-take (suc w) acc [] = refl
of_bytes-take (suc w) acc (b ∷ bs) = of_bytes-take w (acc * 256 + b) bs

pub length-put_int : (w : ℕ) (buf : List ℕ) (off n : ℕ) → length (put_int w buf off n) ≡ length buf
unfolding put_int
length-put_int w buf off n = ground (arith, length-copy_at buf off (to_bytes w n))

-- Within the slice a put is a copy of the integer's bytes.
pub put_int_fits :
    (w : ℕ) (buf : List ℕ) (off n : ℕ)
    → off + w ≤ length buf
    → put_int w buf off n ≡ copy_at buf off (to_bytes w n)
unfolding put_int
put_int_fits w buf off n h = rw (le→leb (off + w) (length buf) h)

-- The integer that was put at an offset is read there.
pub of_bytes-put_int :
    (w : ℕ) (buf : List ℕ) (off n : ℕ)
    → off + w ≤ length buf
    → n < 256 ^ w
    → of_bytes w 0 (drop off (put_int w buf off n)) ≡ some n
of_bytes-put_int w buf off n h small =
    ap (λ l. of_bytes w 0 (drop off l)) (put_int_fits w buf off n h)
    ∙ ap (of_bytes w 0) (drop-copy_at buf off (to_bytes w n) (omega (arith, length-to_bytes w n)))
    ∙ of_bytes-to_bytes w n _ small

-- An integer that is put into the middle part of a buffer, of its width, replaces that part.
pub put_int_mid :
    (w : ℕ) (a z rest : List ℕ) (off n : ℕ)
    → length a ≡ off
    → length z ≡ w
    → put_int w (a ++ (z ++ rest)) off n ≡ a ++ (to_bytes w n ++ rest)
put_int_mid w a z rest off n ha hz =
    put_int_fits w (a ++ (z ++ rest)) off n
      (omega (arith, length-append a (z ++ rest), length-append z rest))
    ∙ ap (λ k. copy_at (a ++ (z ++ rest)) k (to_bytes w n)) (sym ha)
    ∙ copy_at_mid a z (to_bytes w n) rest (hz ∙ sym (length-to_bytes w n))

-- An integer is read from the front of what follows a prefix.
pub of_bytes_mid :
    (w : ℕ) (a rest : List ℕ) (off n : ℕ)
    → length a ≡ off
    → n < 256 ^ w
    → of_bytes w 0 (drop off (a ++ (to_bytes w n ++ rest))) ≡ some n
of_bytes_mid w a rest off n ha small =
    ap (λ k. of_bytes w 0 (drop k (a ++ (to_bytes w n ++ rest)))) (sym ha)
    ∙ ap (of_bytes w 0) (drop-length_append a (to_bytes w n ++ rest))
    ∙ of_bytes-to_bytes w n rest small
