-- ===== src/Dm/PageX/Replay.antt =====
-- The redo of a page's inserts from any version of the page that the disk may hold.
use wisdb.Dm.Page.{Page, page_size}
use wisdb.Dm.PageX.{px_recover_insert}
use wisdb.Dm.PageX.Fso.{IsPage}
use wisdb.Dm.PageX.Insert.{inserted, inserted-IsPage, slice-inserted, slice-inserted_before}
use wisdb.Dm.PageX.Recover.{patched, px_recover_insert_forward, px_recover_insert_kept}
use wisdb.Base.{ℕ, List, false, ◌∷◌, ◌≡◌, ◌≤◌, ◌<◌, ◌⊎◌, inl, some, length, [], ◌+◌}
use wisdb.Base.{slice, arith, refl, inr, ◌∙◌, copy_at, ap, sym, copy_at-slice}

abbrev pub page : ℕ → List ℕ → Page
page n b = record { pgno = n; bytes = b; is_dirty = false }

-- The bytes of a page after an insert at its free space offset.
abbrev pub after : List ℕ → ℕ → List ℕ → List ℕ
after b fso raw = (inserted (page 0 b) fso raw).bytes

-- Items that are not empty and fit one behind the other.
abbrev pub Fit : ℕ → List (List ℕ) → Type 0
Fit fso [] = Unit {0}
Fit fso (raw ∷ raws) =
    (0 < length raw) × (fso + length raw ≤ page_size) × Fit (fso + length raw) raws

-- `d` is the page `b`, or what it is after some of the inserts of `raws`.
abbrev pub IsVersion : List ℕ → ℕ → List (List ℕ) → List ℕ → Type 0
IsVersion b fso [] d = d ≡ b
IsVersion b fso (raw ∷ raws) d = (d ≡ b) ⊎ IsVersion (after b fso raw) (fso + length raw) raws d

pub IsVersion-now : (b : List ℕ) (fso : ℕ) (raws : List (List ℕ)) → IsVersion b fso raws b
IsVersion-now b fso [] = refl
IsVersion-now b fso (raw ∷ raws) = inl refl

pub after-IsPage :
    (n : ℕ) (b : List ℕ) (fso : ℕ) (raw : List ℕ)
    → IsPage (page n b) fso
    → fso + length raw ≤ page_size
    → IsPage (page n (after b fso raw)) (fso + length raw)
after-IsPage n b fso raw v fits =
    let w = inserted-IsPage (page n b) fso raw v fits in
    record { full = w.full; at_fso = w.at_fso; past_header = w.past_header; in_page = w.in_page }

-- A version is a page with an offset that is as far on, and has the same bytes in front of the
-- first offset.
version_page :
    (n : ℕ) (b : List ℕ) (fso : ℕ) (raws : List (List ℕ)) (d : List ℕ)
    → IsPage (page n b) fso
    → Fit fso raws
    → IsVersion b fso raws d
    → (f : ℕ) × IsPage (page n d) f
      × (fso ≤ f)
      × ((m w : ℕ) → 2 ≤ m → m + w ≤ fso → slice m w d ≡ slice m w b)
version_page n b fso [] d v fit same = (fso, rw same v, omega arith, λ m w h k. rw same refl)
version_page n b fso (raw ∷ raws) d v fit (inl same) =
    (fso, rw same v, omega arith, λ m w h k. rw same refl)
version_page n b fso (raw ∷ raws) d v fit (inr ver) =
    let r =
      version_page n (after b fso raw) (fso + length raw) raws d (after-IsPage n b fso raw v fit.1)
        fit.2 ver in
    (
      r.0,
      r.1,
      omega (arith, r.2),
      λ m w h k. r.3 m w h (omega arith) ∙ slice-inserted_before (page n b) fso raw v fit.1 m w h k,
    )

-- The recovery insert of the first item leads from a version to a version of the page with it.
pub replay_step :
    (n : ℕ) (b : List ℕ) (fso : ℕ) (raw : List ℕ) (raws : List (List ℕ)) (d : List ℕ)
    → IsPage (page n b) fso
    → Fit fso (raw ∷ raws)
    → IsVersion b fso (raw ∷ raws) d
    → (pg' : Page) × (px_recover_insert (page n d) fso raw ≡ some pg')
      × (pg'.pgno ≡ n)
      × IsVersion (after b fso raw) (fso + length raw) raws pg'.bytes
replay_step n b fso raw raws d v fit (inl same) = rw same (
  inserted (page n b) fso raw,
  px_recover_insert_forward (page n b) fso fso raw v v.past_header fit.1 (omega (arith, fit.0)),
  refl,
  IsVersion-now (after b fso raw) (fso + length raw) raws,
)
replay_step n b fso raw raws d v fit (inr ver) =
    let r =
      version_page n (after b fso raw) (fso + length raw) raws d (after-IsPage n b fso raw v fit.1)
        fit.2 ver in
    let held : slice fso (length raw) d ≡ raw =
      r.3 fso (length raw) v.past_header (omega arith)
      ∙ slice-inserted (page n b) fso raw v fit.1 in
    let unchanged : copy_at d fso raw ≡ d =
      ap (copy_at d fso) (sym held) ∙ copy_at-slice d fso (length raw) in
    (
      patched (page n d) fso raw,
      px_recover_insert_kept (page n d) r.0 fso raw r.1 v.past_header fit.1 r.2,
      refl,
      rw unchanged ver,
    )
