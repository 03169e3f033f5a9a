-- ===== src/Base/Disk.antt =====
-- Files as byte lists: `os.File`'s ReadAt, WriteAt, Truncate and Stat. A read past the end is the
-- only failure; a write past the end fills the gap with zeros.
use Prim.Native.Nat.{ℕ, zero, suc, ◌+◌, ◌-◌, ◌≤◌, ◌<◌}
use mathlib.Core.Path.{◌≡◌, refl, ap, ◌∙◌, sym}
use mathlib.Core.Option.{Option, none, some}
use mathlib.Core.List.{List, [], ◌∷◌, ◌++◌, append-nil}
use native.Mathlib.Omega.{arith}
use wisdb.Base.Tests.{leb, if◌then◌else◌, le→leb, lt→leb}
use wisdb.Base.Lists.{
  length-append, drop-length_append, take-length_append, length, take, replicate,
}
use wisdb.Base.Memory.{copy_at, slice}

abbrev pub File : Type 0
File = List ℕ

abbrev overlay : File → ℕ → List ℕ → File
overlay [] zero bs = bs
overlay [] (suc off) bs = 0 ∷ overlay [] off bs
overlay (x ∷ f) zero [] = x ∷ f
overlay (x ∷ f) zero (b ∷ bs) = b ∷ overlay f zero bs
overlay (x ∷ f) (suc off) bs = x ∷ overlay f off bs

-- file.WriteAt(bs, off); a write of nothing does not extend the file.
abbrev pub write_at : File → ℕ → List ℕ → File
write_at f off [] = f
write_at f off (b ∷ bs) = overlay f off (b ∷ bs)

-- file.ReadAt(buf, off) with a buffer of `len` bytes: io.EOF where the file is too short.
abbrev pub read_at : File → ℕ → ℕ → Option (List ℕ)
read_at f off len = if leb (off + len) (length f) then some (slice off len f) else none

-- file.Truncate(size): cuts, or extends by zeros.
abbrev pub truncate : File → ℕ → File
truncate f size = take size f ++ replicate (size - length f) 0

overlay_inside :
    (f : File) (off : ℕ) (bs : List ℕ)
    → off + length bs ≤ length f
    → overlay f off bs ≡ copy_at f off bs
overlay_inside [] zero [] h = refl
overlay_inside [] zero (b ∷ bs) h = absurd (omega arith)
overlay_inside [] (suc off) bs h = absurd (omega arith)
overlay_inside (x ∷ f) zero [] h = refl
overlay_inside (x ∷ f) zero (b ∷ bs) h =
    ap (λ l. b ∷ l) (overlay_inside f zero bs (omega arith) ∙ refl)
overlay_inside (x ∷ f) (suc off) bs h = ap (λ l. x ∷ l) (overlay_inside f off bs (omega arith))

overlay_end : (f : File) (bs : List ℕ) → overlay f (length f) bs ≡ f ++ bs
overlay_end [] bs = refl
overlay_end (x ∷ f) bs = ap (λ l. x ∷ l) (overlay_end f bs)

copy_at_nil : (f : File) (off : ℕ) → copy_at f off [] ≡ f
copy_at_nil [] zero = refl
copy_at_nil [] (suc off) = refl
copy_at_nil (x ∷ f) zero = refl
copy_at_nil (x ∷ f) (suc off) = ap (λ l. x ∷ l) (copy_at_nil f off)

-- Inside the file a write is a copy.
pub write_at_inside :
    (f : File) (off : ℕ) (bs : List ℕ)
    → off + length bs ≤ length f
    → write_at f off bs ≡ copy_at f off bs
write_at_inside f off [] h = sym (copy_at_nil f off)
write_at_inside f off (b ∷ bs) h = overlay_inside f off (b ∷ bs) h

-- At the end it appends.
pub write_at_end : (f : File) (bs : List ℕ) → write_at f (length f) bs ≡ f ++ bs
write_at_end f [] = sym (append-nil f)
write_at_end f (b ∷ bs) = overlay_end f (b ∷ bs)

pub read_at_inside :
    (f : File) (off len : ℕ) → off + len ≤ length f → read_at f off len ≡ some (slice off len f)
read_at_inside f off len h = rw (le→leb (off + len) (length f) h)

pub read_at_outside : (f : File) (off len : ℕ) → length f < off + len → read_at f off len ≡ none
read_at_outside f off len h = rw (lt→leb (off + len) (length f) h)

-- A cut inside the file.
pub truncate_inside : (f : File) (size : ℕ) → size ≤ length f → truncate f size ≡ take size f
truncate_inside f size h =
    let e : size - length f ≡ 0 = omega arith in rw e (append-nil (take size f))

-- A read of exactly the middle of three parts.
pub read_at-append :
    (pre mid rest : List ℕ) → read_at (pre ++ (mid ++ rest)) (length pre) (length mid) ≡ some mid
read_at-append pre mid rest =
    read_at_inside (pre ++ (mid ++ rest)) (length pre) (length mid)
      (omega (arith, length-append pre (mid ++ rest), length-append mid rest))
    ∙ ap (λ l. some (take (length mid) l)) (drop-length_append pre (mid ++ rest))
    ∙ ap some (take-length_append mid rest)
