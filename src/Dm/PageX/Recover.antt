-- ===== src/Dm/PageX/Recover.antt =====
-- PXRecoverInsert and PXRecoverUpdate: what redo and undo make of a page.
use wisdb.Dm.PageX.Fso.{
  IsPage, length-px_raw_update_fso, px_raw_fso-copy_at, px_raw_fso-px_raw_update_fso,
}
use wisdb.Dm.Page.{Page, page_size}
use wisdb.Base.{ℕ, List, ◌<◌, ◌≡◌, copy_at, ◌≤◌, arith, length, true, length-copy_at}
use wisdb.Dm.PageX.{checked_fso, px_recover_insert, px_raw_update_fso, px_of_data}
use wisdb.Base.{◌⊎◌, ◌∙◌, some, ◌+◌, ◌%◌, ◌^◌}
use wisdb.Dm.PageX.{px_raw_fso, add_offset}

-- The page with `raw` copied to `off`.
abbrev pub patched : Page → ℕ → List ℕ → Page
patched pg off raw = record { pgno = pg.pgno; bytes = copy_at pg.bytes off raw; is_dirty = true }

-- ... and its free space offset set.
abbrev pub patched_to : Page → ℕ → List ℕ → ℕ → Page
patched_to pg off raw fso = record {
  pgno = pg.pgno;
  bytes = px_raw_update_fso (copy_at pg.bytes off raw) fso;
  is_dirty = true;
}

pub patched-IsPage :
    (pg : Page) (fso off : ℕ) (raw : List ℕ)
    → IsPage pg fso
    → 2 ≤ off
    → IsPage (patched pg off raw) fso
patched-IsPage pg fso off raw v h = record {
  full = length-copy_at pg.bytes off raw ∙ v.full;
  at_fso = px_raw_fso-copy_at pg.bytes off raw h ∙ v.at_fso;
  past_header = v.past_header;
  in_page = v.in_page;
}

pub patched_to-IsPage :
    (pg : Page) (fso fso' off : ℕ) (raw : List ℕ)
    → IsPage pg fso
    → 2 ≤ fso'
    → fso' ≤ page_size
    → IsPage (patched_to pg off raw fso') fso'
patched_to-IsPage pg fso fso' off raw v h l = record {
  full = length-px_raw_update_fso _ _ ∙ length-copy_at pg.bytes off raw ∙ v.full;
  at_fso =
      px_raw_fso-px_raw_update_fso (copy_at pg.bytes off raw) fso'
        (omega (arith, length-copy_at pg.bytes off raw, v.full)) (omega arith);
  past_header = h;
  in_page = l;
}

module _ (pg : Page) (fso off : ℕ) (raw : List ℕ) (v : IsPage pg fso) (behind : 2 ≤ off)
    (fits : off + length raw ≤ page_size) where
  no_wrap : add_offset off (length raw % 2 ^ 16) ≡ off + length raw
  no_wrap = omega arith

  -- The redo of an insert moves the offset forward, never back.
  pub px_recover_insert_forward :
      fso < off + length raw
      → px_recover_insert pg off raw ≡ some (patched_to pg off raw (off + length raw))
  unfolding px_recover_insert checked_fso
  px_recover_insert_forward h = ground (
    arith,
    no_wrap,
    v.at_fso,
    v.full,
    v.in_page,
    v.past_header,
    px_raw_fso-copy_at pg.bytes off raw behind,
  )

  pub px_recover_insert_kept :
      off + length raw ≤ fso → px_recover_insert pg off raw ≡ some (patched pg off raw)
  unfolding px_recover_insert checked_fso
  px_recover_insert_kept h = ground (
    arith,
    no_wrap,
    v.at_fso,
    v.full,
    v.in_page,
    v.past_header,
    px_raw_fso-copy_at pg.bytes off raw behind,
  )

-- A free space offset that no page can have.
abbrev pub IsGarbage : ℕ → Type 0
IsGarbage g = (g < px_of_data) ⊎ (page_size < g)

garbage_test : (g log_fso : ℕ) → IsGarbage g → checked_fso g log_fso ≡ log_fso
unfolding checked_fso
garbage_test g log_fso h = ground arith

-- On a page of full size whose free space offset is out of range, a recovery insert at an offset
-- from 2 to the page's size succeeds and leaves the free space offset as it is.
pub px_recover_insert_garbage :
    (pg : Page) (g off : ℕ) (raw : List ℕ)
    → length pg.bytes ≡ page_size
    → px_raw_fso pg.bytes ≡ some g
    → IsGarbage g
    → 2 ≤ off
    → off ≤ page_size
    → (pg' : Page) × (px_recover_insert pg off raw ≡ some pg') × (px_raw_fso pg'.bytes ≡ some g)
unfolding px_recover_insert
px_recover_insert_garbage pg g off raw full at_g bad behind inside = (
  patched pg off raw,
  ground (
    arith,
    px_raw_fso-copy_at pg.bytes off raw behind,
    garbage_test g (add_offset off (length raw % 2 ^ 16)) bad,
  ),
  px_raw_fso-copy_at pg.bytes off raw behind ∙ at_g,
)
