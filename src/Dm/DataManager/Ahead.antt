-- ===== src/Dm/DataManager/Ahead.antt =====
-- What the file may hold of each page while inserts go on: one of the page's versions.
use mathlib.Core.Path.{ap₂, subst}
use wisdb.Dm.Recovery.{Pages}
use wisdb.Dm.PageX.Fso.{IsPage}
use wisdb.Dm.PageX.Replay.{page, Fit, IsVersion}
use wisdb.Base.{ℕ, List, ◌∷◌, [], ◌<◌, some, ◌==◌, if◌then◌else◌, ◌≡◌, ◌+◌}
use wisdb.Base.{false, get_elem?, set, refl, arith, suc, zero, true}
use wisdb.Base.{sym}

-- An insert: the transaction, the page's number and the item's bytes.
abbrev pub Op : Type 0
Op = ℕ × ℕ × List ℕ

-- What is still to be inserted into a page.
abbrev pub raws_of : ℕ → List Op → List (List ℕ)
raws_of n [] = []
raws_of n ((xid, pgno, raw) ∷ ops) =
    let rest = raws_of n ops in if pgno == n then raw ∷ rest else rest

-- `d` is what the file holds of page `n`, whose bytes are `b` before the inserts of `raws`: a page
-- without inserts is as it was, any other is a version.
abbrev pub Ahead : ℕ → List ℕ → List (List ℕ) → List ℕ → Type 0
Ahead n b [] d = d ≡ b
Ahead n b (raw ∷ raws) d =
    (fso : ℕ) × IsPage (page n b) fso × Fit fso (raw ∷ raws) × IsVersion b fso (raw ∷ raws) d

-- The same of all pages, from number `n` on.
abbrev pub AllAhead : ℕ → List Op → Pages → Pages → Type 0
AllAhead n ops [] [] = Unit {0}
AllAhead n ops [] (d ∷ ds) = ⊥
AllAhead n ops (b ∷ bs) [] = ⊥
AllAhead n ops (b ∷ bs) (d ∷ ds) = Ahead n b (raws_of n ops) d × AllAhead (n + 1) ops bs ds

pub Ahead-version :
    (n : ℕ) (b : List ℕ) (fso : ℕ) (raws : List (List ℕ)) (d : List ℕ)
    → IsPage (page n b) fso
    → Fit fso raws
    → IsVersion b fso raws d
    → Ahead n b raws d
Ahead-version n b fso [] d v fit same = same
Ahead-version n b fso (raw ∷ raws) d v fit ver = (fso, v, fit, ver)

-- Without inserts left, the file holds the pages.
pub AllAhead-done : (n : ℕ) (bs ds : Pages) → AllAhead n [] bs ds → ds ≡ bs
AllAhead-done n [] [] a = refl
AllAhead-done n [] (d ∷ ds) a = absurd a
AllAhead-done n (b ∷ bs) [] a = absurd a
AllAhead-done n (b ∷ bs) (d ∷ ds) a = ap₂ (λ x xs. x ∷ xs) a.0 (AllAhead-done (n + 1) bs ds a.1)

-- Pages of other numbers do not see an insert.
AllAhead-other :
    (n xid pgno : ℕ) (raw : List ℕ) (ops : List Op) (bs ds : Pages)
    → pgno < n
    → AllAhead n ((xid, pgno, raw) ∷ ops) bs ds
    → AllAhead n ops bs ds
AllAhead-other n xid pgno raw ops [] [] h a = tt
AllAhead-other n xid pgno raw ops [] (d ∷ ds) h a = a
AllAhead-other n xid pgno raw ops (b ∷ bs) [] h a = a
AllAhead-other n xid pgno raw ops (b ∷ bs) (d ∷ ds) h a =
    let other : (pgno == n) ≡ false = ground arith in
    (rw other at a.0, AllAhead-other (n + 1) xid pgno raw ops bs ds (omega arith) a.1)

-- The page that an insert goes to, before it, and the pages behind it.
module _ (xid pgno : ℕ) (raw : List ℕ) (ops : List Op) where
  abbrev all : List Op
  all = (xid, pgno, raw) ∷ ops

  here_first :
      (n : ℕ) (b d : List ℕ)
      → pgno ≡ n
      → Ahead n b (raws_of n all) d
      → Ahead pgno b (raw ∷ raws_of pgno ops) d
  here_first n b d e a =
      let same : (pgno == n) ≡ true = ground arith in
      subst (λ k. Ahead k b (raw ∷ raws_of k ops) d) (sym e) (rw same at a)

  pub target :
      (n i : ℕ) (bs ds : Pages) (b : List ℕ)
      → pgno ≡ n + i
      → AllAhead n all bs ds
      → get_elem? bs i ≡ some b
      → (d : List ℕ) × (get_elem? ds i ≡ some d) × Ahead pgno b (raw ∷ raws_of pgno ops) d
  target n i [] ds b h a e = cc
  target n i (b' ∷ bs) [] b h a e = absurd a
  target n zero (b' ∷ bs) (d ∷ ds) b h a e =
      let same : b' ≡ b = ground arith in (d, refl, here_first n b d (omega arith) (rw same at a.0))
  target n (suc i) (b' ∷ bs) (d ∷ ds) b h a e = target (n + 1) i bs ds b (omega arith) a.1 e

  pub advance :
      (n i : ℕ) (bs ds : Pages) (b d : List ℕ)
      → pgno ≡ n + i
      → AllAhead n all bs ds
      → Ahead pgno b (raws_of pgno ops) d
      → AllAhead n ops (set bs i b) (set ds i d)
  advance n i [] [] b d e a h = tt
  advance n i [] (d' ∷ ds) b d e a h = absurd a
  advance n i (b' ∷ bs) [] b d e a h = absurd a
  advance n zero (b' ∷ bs) (d' ∷ ds) b d e a h =
      let same : pgno ≡ n = omega arith in
      (
        subst (λ k. Ahead k b (raws_of k ops) d) same h,
        AllAhead-other (n + 1) xid pgno raw ops bs ds (omega arith) a.1,
      )
  advance n (suc i) (b' ∷ bs) (d' ∷ ds) b d e a h =
      let other : (pgno == n) ≡ false = ground arith in
      (rw other at a.0, advance (n + 1) i bs ds b d (omega arith) a.1 h)
