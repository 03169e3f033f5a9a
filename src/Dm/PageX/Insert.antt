-- ===== src/Dm/PageX/Insert.antt =====
-- PXInsert: what an insert that fits writes, and what it leaves alone.
use wisdb.Dm.PageX.Fso.{IsPage, length-px_raw_update_fso, px_raw_fso-px_raw_update_fso}
use wisdb.Dm.Page.{Page, page_size}
use wisdb.Base.{ℕ, List, ◌+◌, length, ◌≤◌, drop, slice, ◌∙◌, ◌≡◌, length-copy_at}
use wisdb.Base.{copy_at, ap, take, arith, slice-copy_at_self, slice-copy_at_before}
use wisdb.Dm.PageX.Fso.{drop-px_raw_update_fso}
use wisdb.Dm.PageX.{px_raw_update_fso, px_insert, add_offset, px_free_space}
use wisdb.Base.{true, some, ◌%◌, ◌^◌, pos, ◌-◌, refl}

-- The page after an insert of `raw` at `fso`.
abbrev pub inserted : Page → ℕ → List ℕ → Page
inserted pg fso raw = record {
  pgno = pg.pgno;
  bytes = px_raw_update_fso (copy_at pg.bytes fso raw) (fso + length raw);
  is_dirty = true;
}

module _ (pg : Page) (fso : ℕ) (raw : List ℕ) (v : IsPage pg fso)
    (fits : fso + length raw ≤ page_size) where
  no_wrap : add_offset fso (length raw % 2 ^ 16) ≡ fso + length raw
  no_wrap = omega arith

  pub px_insert-eq : px_insert pg raw ≡ some (inserted pg fso raw, fso)
  unfolding px_insert
  px_insert-eq = ground (arith, v.at_fso, v.full, v.in_page, no_wrap)

  pub inserted-IsPage : IsPage (inserted pg fso raw) (fso + length raw)
  inserted-IsPage = record {
    full = length-px_raw_update_fso _ _ ∙ length-copy_at pg.bytes fso raw ∙ v.full;
    at_fso =
        px_raw_fso-px_raw_update_fso (copy_at pg.bytes fso raw) (fso + length raw)
          (omega (arith, length-copy_at pg.bytes fso raw, v.full)) (omega arith);
    past_header = omega (arith, v.past_header);
    in_page = fits;
  }

  pub drop-inserted :
      (m : ℕ) → 2 ≤ m → drop m (inserted pg fso raw).bytes ≡ drop m (copy_at pg.bytes fso raw)
  drop-inserted m h =
      drop-px_raw_update_fso (copy_at pg.bytes fso raw) (fso + length raw) m
        (omega (arith, length-copy_at pg.bytes fso raw, v.full)) h

  -- The item is readable at the offset that was returned.
  pub slice-inserted : slice fso (length raw) (inserted pg fso raw).bytes ≡ raw
  slice-inserted =
      ap (take (length raw)) (drop-inserted fso v.past_header)
      ∙ slice-copy_at_self pg.bytes fso raw (omega (arith, v.full))

  -- Items in front of it are as they were.
  pub slice-inserted_before :
      (m w : ℕ) → 2 ≤ m → m + w ≤ fso → slice m w (inserted pg fso raw).bytes ≡ slice m w pg.bytes
  slice-inserted_before m w hm h =
      ap (take w) (drop-inserted m hm) ∙ slice-copy_at_before pg.bytes m w fso raw h

pub px_free_space-IsPage :
    (pg : Page) (fso : ℕ) → IsPage pg fso → px_free_space pg ≡ some (pos (page_size - fso))
unfolding px_free_space
px_free_space-IsPage pg fso v = ground (arith, v.at_fso, v.in_page)

-- On a well-formed page with room for `raw`, an insert succeeds and returns the old free space
-- offset. The page stays well formed with the offset moved by exactly the length of `raw`, `raw` is
-- read back at the returned offset, and the free space is what is left of the page behind it.
pub px_insert_lem :
    (pg : Page) (fso : ℕ) (raw : List ℕ)
    → IsPage pg fso
    → fso + length raw ≤ page_size
    → (pg' : Page) × (px_insert pg raw ≡ some (pg', fso))
      × IsPage pg' (fso + length raw)
      × (slice fso (length raw) pg'.bytes ≡ raw)
      × (px_free_space pg' ≡ some (pos (page_size - (fso + length raw))))
      × (pg'.pgno ≡ pg.pgno)
      × (pg'.is_dirty ≡ true)
px_insert_lem pg fso raw v fits = (
  inserted pg fso raw,
  px_insert-eq pg fso raw v fits,
  inserted-IsPage pg fso raw v fits,
  slice-inserted pg fso raw v fits,
  px_free_space-IsPage _ _ (inserted-IsPage pg fso raw v fits),
  refl,
  refl,
)

-- An insert that fits leaves every window of the page between its header and the old free space
-- offset as it was.
px_insert_frame :
    (pg : Page) (fso : ℕ) (raw : List ℕ) (m w : ℕ) (pg' : Page)
    → IsPage pg fso
    → fso + length raw ≤ page_size
    → 2 ≤ m
    → m + w ≤ fso
    → px_insert pg raw ≡ some (pg', fso)
    → slice m w pg'.bytes ≡ slice m w pg.bytes
px_insert_frame pg fso raw m w pg' v fits hm h e =
    ap (λ (p : Page). slice m w p.bytes) same ∙ slice-inserted_before pg fso raw v fits m w hm h
  where
    same : pg' ≡ inserted pg fso raw
    same = cc (px_insert-eq pg fso raw v fits, e)
