-- ===== src/Base/Memory.antt =====
-- Go's `copy` into a byte slice, and reads of a window of a slice. A slice is the list of its
-- elements, and its capacity is its length.
use Prim.Native.Nat.{ℕ, zero, suc, ◌+◌, ◌≤◌}
use mathlib.Core.Path.{◌≡◌, refl, sym, ap, ◌∙◌}
use mathlib.Core.List.{List, [], ◌∷◌, ◌++◌}
use native.Mathlib.Omega.{arith}
use wisdb.Base.Lists.{
  length-drop, length-take, length, take, drop, take-length_append, drop-nil, suc-add,
}

module _ {ℓ} {A : Type ℓ} where
  -- copy(buf, src): as many elements as both have.
  abbrev pub copy : List A → List A → List A
  copy [] src = []
  copy (x ∷ xs) [] = x ∷ xs
  copy (x ∷ xs) (y ∷ ys) = y ∷ copy xs ys

  -- copy(buf[off:], src), at an offset within the slice.
  abbrev pub copy_at : List A → ℕ → List A → List A
  copy_at buf zero src = copy buf src
  copy_at [] (suc off) src = []
  copy_at (x ∷ xs) (suc off) src = x ∷ copy_at xs off src

  -- buf[off : off+len]
  abbrev pub slice : ℕ → ℕ → List A → List A
  slice off len buf = take len (drop off buf)

  pub length-copy : (buf src : List A) → length (copy buf src) ≡ length buf
  length-copy [] src = refl
  length-copy (x ∷ xs) [] = refl
  length-copy (x ∷ xs) (y ∷ ys) = ap suc (length-copy xs ys)

  pub length-copy_at :
      (buf : List A) (off : ℕ) (src : List A) → length (copy_at buf off src) ≡ length buf
  length-copy_at buf zero src = length-copy buf src
  length-copy_at [] (suc off) src = refl
  length-copy_at (x ∷ xs) (suc off) src = ap suc (length-copy_at xs off src)

  -- A copy that fits puts `src` in front of what lay behind it.
  pub copy_fits :
      (buf src : List A) → length src ≤ length buf → copy buf src ≡ src ++ drop (length src) buf
  copy_fits [] [] h = refl
  copy_fits [] (y ∷ ys) h = absurd (omega arith)
  copy_fits (x ∷ xs) [] h = refl
  copy_fits (x ∷ xs) (y ∷ ys) h = ap (λ l. y ∷ l) (copy_fits xs ys (omega arith))

  pub drop-copy_at :
      (buf : List A) (off : ℕ) (src : List A)
      → off + length src ≤ length buf
      → drop off (copy_at buf off src) ≡ src ++ drop (off + length src) buf
  drop-copy_at buf zero src h =
      copy_fits buf src (omega arith) ∙ ap (λ k. src ++ drop k buf) (omega arith)
  drop-copy_at [] (suc off) [] h = sym (drop-nil (suc off + 0))
  drop-copy_at [] (suc off) (y ∷ ys) h = absurd (omega arith)
  drop-copy_at (x ∷ xs) (suc off) src h =
      drop-copy_at xs off src (omega arith)
      ∙ ap (λ k. src ++ drop k (x ∷ xs)) (suc-add off (length src))

  -- What was written is read back.
  pub slice-copy_at_self :
      (buf : List A) (off : ℕ) (src : List A)
      → off + length src ≤ length buf
      → slice off (length src) (copy_at buf off src) ≡ src
  slice-copy_at_self buf off src h =
      ap (take (length src)) (drop-copy_at buf off src h) ∙ take-length_append src _

  take-copy_at :
      (buf : List A) (n off : ℕ) (src : List A)
      → n ≤ off
      → take n (copy_at buf off src) ≡ take n buf
  take-copy_at buf zero off src h = refl
  take-copy_at buf (suc n) zero src h = absurd (omega arith)
  take-copy_at [] (suc n) (suc off) src h = refl
  take-copy_at (x ∷ xs) (suc n) (suc off) src h =
      ap (λ l. x ∷ l) (take-copy_at xs n off src (omega arith))

  -- A window in front of the write is unchanged.
  pub slice-copy_at_before :
      (buf : List A) (m w off : ℕ) (src : List A)
      → m + w ≤ off
      → slice m w (copy_at buf off src) ≡ slice m w buf
  slice-copy_at_before buf zero w off src h = take-copy_at buf w off src (omega arith)
  slice-copy_at_before buf (suc m) zero zero src h = refl
  slice-copy_at_before buf (suc m) (suc w) zero src h = absurd (omega arith)
  slice-copy_at_before [] (suc m) w (suc off) src h = refl
  slice-copy_at_before (x ∷ xs) (suc m) w (suc off) src h =
      slice-copy_at_before xs m w off src (omega arith)

  drop-copy : (buf src : List A) (m : ℕ) → length src ≤ m → drop m (copy buf src) ≡ drop m buf
  drop-copy [] src m h = refl
  drop-copy (x ∷ xs) [] m h = refl
  drop-copy (x ∷ xs) (y ∷ ys) zero h = absurd (omega arith)
  drop-copy (x ∷ xs) (y ∷ ys) (suc m) h = drop-copy xs ys m (omega arith)

  -- What lies behind the write is unchanged.
  pub drop-copy_at_after :
      (buf : List A) (m off : ℕ) (src : List A)
      → off + length src ≤ m
      → drop m (copy_at buf off src) ≡ drop m buf
  drop-copy_at_after buf m zero src h = drop-copy buf src m (omega arith)
  drop-copy_at_after [] m (suc off) src h = refl
  drop-copy_at_after (x ∷ xs) zero (suc off) src h = absurd (omega arith)
  drop-copy_at_after (x ∷ xs) (suc m) (suc off) src h =
      drop-copy_at_after xs m off src (omega arith)

  copy_idem : (buf src : List A) → copy (copy buf src) src ≡ copy buf src
  copy_idem [] src = refl
  copy_idem (x ∷ xs) [] = refl
  copy_idem (x ∷ xs) (y ∷ ys) = ap (λ l. y ∷ l) (copy_idem xs ys)

  copy_absorb : (buf a b : List A) → length a ≡ length b → copy (copy buf a) b ≡ copy buf b
  copy_absorb [] a b h = refl
  copy_absorb (x ∷ xs) [] [] h = refl
  copy_absorb (x ∷ xs) [] (b ∷ bs) h = absurd (omega arith)
  copy_absorb (x ∷ xs) (a ∷ as') [] h = absurd (omega arith)
  copy_absorb (x ∷ xs) (a ∷ as') (b ∷ bs) h = ap (λ l. b ∷ l) (copy_absorb xs as' bs (omega arith))

  -- A second write of the same length at the same place hides the first.
  pub copy_at_absorb :
      (buf : List A) (off : ℕ) (a b : List A)
      → length a ≡ length b
      → copy_at (copy_at buf off a) off b ≡ copy_at buf off b
  copy_at_absorb buf zero a b h = copy_absorb buf a b h
  copy_at_absorb [] (suc off) a b h = refl
  copy_at_absorb (x ∷ xs) (suc off) a b h = ap (λ l. x ∷ l) (copy_at_absorb xs off a b h)

  copy-copy_at :
      (buf : List A) (a b : List A) (off : ℕ)
      → length a ≤ off
      → copy_at (copy buf a) off b ≡ copy (copy_at buf off b) a
  copy-copy_at [] a b zero h = refl
  copy-copy_at [] a b (suc off) h = refl
  copy-copy_at (x ∷ xs) [] [] zero h = refl
  copy-copy_at (x ∷ xs) [] (b ∷ bs) zero h = refl
  copy-copy_at (x ∷ xs) [] b (suc off) h = refl
  copy-copy_at (x ∷ xs) (a ∷ as') b zero h = absurd (omega arith)
  copy-copy_at (x ∷ xs) (a ∷ as') b (suc off) h =
      ap (λ l. a ∷ l) (copy-copy_at xs as' b off (omega arith))

  -- Writes to disjoint places commute.
  pub copy_at_comm :
      (buf : List A) (i : ℕ) (a : List A) (j : ℕ) (b : List A)
      → i + length a ≤ j
      → copy_at (copy_at buf i a) j b ≡ copy_at (copy_at buf j b) i a
  copy_at_comm buf zero a j b h = copy-copy_at buf a b j (omega arith)
  copy_at_comm buf (suc i) a zero b h = absurd (omega arith)
  copy_at_comm [] (suc i) a (suc j) b h = refl
  copy_at_comm (x ∷ xs) (suc i) a (suc j) b h =
      ap (λ l. x ∷ l) (copy_at_comm xs i a j b (omega arith))

  -- A write of what is there changes nothing.
  pub copy_at-slice : (buf : List A) (off len : ℕ) → copy_at buf off (slice off len buf) ≡ buf
  copy_at-slice [] zero zero = refl
  copy_at-slice [] zero (suc len) = refl
  copy_at-slice (x ∷ xs) zero zero = refl
  copy_at-slice (x ∷ xs) zero (suc len) = ap (λ l. x ∷ l) (copy_at-slice xs zero len)
  copy_at-slice [] (suc off) len = refl
  copy_at-slice (x ∷ xs) (suc off) len = ap (λ l. x ∷ l) (copy_at-slice xs off len)

  pub slice-copy_at :
      (buf : List A) (off len : ℕ) (src : List A)
      → length src ≡ len
      → off + len ≤ length buf
      → slice off len (copy_at buf off src) ≡ src
  slice-copy_at buf off len src e h =
      ap (λ k. slice off k (copy_at buf off src)) (sym e)
      ∙ slice-copy_at_self buf off src (omega arith)

  pub slice-copy_at_after :
      (buf : List A) (m w off : ℕ) (src : List A)
      → off + length src ≤ m
      → slice m w (copy_at buf off src) ≡ slice m w buf
  slice-copy_at_after buf m w off src h = ap (take w) (drop-copy_at_after buf m off src h)

  pub length-slice :
      (off len : ℕ) (buf : List A) → off + len ≤ length buf → length (slice off len buf) ≡ len
  length-slice off len buf h = omega (arith, length-take len (drop off buf), length-drop off buf)

  -- A copy over the whole slice replaces it.
  pub copy_all : (buf src : List A) → length src ≡ length buf → copy buf src ≡ src
  copy_all [] [] h = refl
  copy_all [] (y ∷ ys) h = absurd (omega arith)
  copy_all (x ∷ xs) [] h = absurd (omega arith)
  copy_all (x ∷ xs) (y ∷ ys) h = ap (λ l. y ∷ l) (copy_all xs ys (omega arith))

  pub copy_nil : (buf : List A) → copy buf [] ≡ buf
  copy_nil [] = refl
  copy_nil (x ∷ xs) = refl

  -- A copy of a prefix's length replaces the prefix.
  pub copy_prefix : (a b rest : List A) → length a ≡ length b → copy (a ++ rest) b ≡ b ++ rest
  copy_prefix [] [] rest h = copy_nil rest
  copy_prefix [] (b ∷ bs) rest h = absurd (omega arith)
  copy_prefix (a ∷ as') [] rest h = absurd (omega arith)
  copy_prefix (a ∷ as') (b ∷ bs) rest h = ap (λ l. b ∷ l) (copy_prefix as' bs rest (omega arith))

  -- A copy into the middle part of a slice, of that part's length.
  pub copy_at_mid :
      (a z b rest : List A)
      → length z ≡ length b
      → copy_at (a ++ (z ++ rest)) (length a) b ≡ a ++ (b ++ rest)
  copy_at_mid [] z b rest h = copy_prefix z b rest h
  copy_at_mid (x ∷ a) z b rest h = ap (λ l. x ∷ l) (copy_at_mid a z b rest h)

  -- A copy behind a prefix leaves the prefix.
  pub copy_at-append :
      (a rest : List A) (off : ℕ) (src : List A)
      → copy_at (a ++ rest) (length a + off) src ≡ a ++ copy_at rest off src
  copy_at-append [] rest off src = ap (λ k. copy_at rest k src) (omega arith)
  copy_at-append (x ∷ a) rest off src =
      ap (λ k. copy_at (x ∷ (a ++ rest)) k src) (sym (suc-add (length a) off))
      ∙ ap (λ l. x ∷ l) (copy_at-append a rest off src)
