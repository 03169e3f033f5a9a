-- ===== src/Dm/Logger/Frame.antt =====
-- The bytes of a record, and those of a log file.
use wisdb.Dm.Logger.{wrap_log, cal_checksum}
use wisdb.Utils.IntEncoding.RoundTrip.{put_int_fits}
use wisdb.Base.{List, ℕ, ◌<◌, length, ◌++◌, ◌∷◌, ◌≡◌, ◌^◌, ◌+◌, arith, suc, replicate}
use wisdb.Dm.Logger.{checksum_step}
use wisdb.Utils.IntEncoding.{to_bytes, put_uint32, put_int}
use wisdb.Base.{◌≤◌, copy_at, [], copy_nil, refl, copy_all, ◌∙◌, sym, length-replicate}
use native.Mathlib.Nat.{mod-eq_of_lt}
use wisdb.Base.{ap}

abbrev pub IsRecord : List ℕ → Type 0
IsRecord bs = (0 < length bs) × (length bs < 2 ^ 32)

abbrev pub frame : List ℕ → List ℕ
frame bs = to_bytes 4 (length bs) ++ (to_bytes 4 (cal_checksum 0 bs) ++ bs)

pub length-frame : (bs : List ℕ) → length (frame bs) ≡ 8 + length bs
unfolding to_bytes
length-frame bs = omega arith

eight_more : (n : ℕ) → n + 8 ≡ suc (suc (suc (suc (suc (suc (suc (suc n)))))))
eight_more n = omega arith

abbrev zeros : ℕ → List ℕ
zeros n = 0 ∷ 0 ∷ 0 ∷ 0 ∷ 0 ∷ 0 ∷ 0 ∷ 0 ∷ replicate n 0

half_filled :
    (bs : List ℕ)
    → 8 ≤ length (copy_at (copy_at (zeros (length bs)) 0 (to_bytes 4 (length bs))) 8 bs)
unfolding to_bytes
half_filled bs = omega arith

filled :
    (n size sum : ℕ) (bs : List ℕ)
    → length bs ≡ n
    → copy_at (copy_at (copy_at (zeros n) 0 (to_bytes 4 size)) 8 bs) 4 (to_bytes 4 sum)
      ≡ to_bytes 4 size ++ (to_bytes 4 sum ++ bs)
unfolding to_bytes
filled n size sum bs e =
    rw (copy_nil, copy_all (replicate n 0) bs (e ∙ sym (length-replicate {A = ℕ} n 0)))

pub wrap_log-frame : (bs : List ℕ) → length bs < 2 ^ 32 → wrap_log bs ≡ frame bs
unfolding wrap_log put_uint32
wrap_log-frame bs small =
    rw (eight_more, mod-eq_of_lt {n = length bs} {m = 2 ^ 32} small)
      (ap (λ l. put_int 4 (copy_at l 8 bs) 4 (cal_checksum 0 bs))
          (put_int_fits 4 (zeros (length bs)) 0 (length bs) (omega arith))
        ∙ put_int_fits 4 (copy_at (copy_at (zeros (length bs)) 0 (to_bytes 4 (length bs))) 8 bs) 4
            (cal_checksum 0 bs) (omega (arith, half_filled bs))
        ∙ filled (length bs) (length bs) (cal_checksum 0 bs) bs refl)

pub cal_checksum-append :
    (x : ℕ) (as' bs : List ℕ) → cal_checksum x (as' ++ bs) ≡ cal_checksum (cal_checksum x as') bs
unfolding cal_checksum
cal_checksum-append x [] bs = refl
cal_checksum-append x (a ∷ as') bs = cal_checksum-append (checksum_step x a) as' bs

pub cal_checksum_small : (x : ℕ) (bs : List ℕ) → x < 2 ^ 32 → cal_checksum x bs < 2 ^ 32
unfolding cal_checksum
cal_checksum_small x [] h = h
cal_checksum_small x (b ∷ bs) h = cal_checksum_small (checksum_step x b) bs (omega arith)

-- The records of a log, one behind the other.
abbrev pub frames : List (List ℕ) → List ℕ
frames [] = []
frames (bs ∷ ds) = frame bs ++ frames ds

-- The running checksum of the records.
abbrev pub checksum_of : ℕ → List (List ℕ) → ℕ
checksum_of x [] = x
checksum_of x (bs ∷ ds) = checksum_of (cal_checksum x (frame bs)) ds
