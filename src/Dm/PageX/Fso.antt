-- ===== src/Dm/PageX/Fso.antt =====
-- The free space offset as a field of the page: read back after an update, and untouched by writes
-- behind it.
use wisdb.Utils.IntEncoding.RoundTrip.{length-to_bytes, of_bytes-put_int, of_bytes-take}
use wisdb.Utils.IntEncoding.RoundTrip.{length-put_int, put_int_fits}
use wisdb.Dm.Page.{Page, page_size}
use wisdb.Dm.PageX.{px_raw_fso, px_raw_update_fso, px_init_raw, px_of_data}
use wisdb.Base.{List, ℕ, length, ◌≤◌, Bool, ◌≡◌, ◌<◌, drop, copy_at, ap, ◌∙◌, replicate}
use wisdb.Base.{some, drop-copy_at_after, length-replicate, arith, ◌^◌, slice-copy_at_before}
use wisdb.Utils.IntEncoding.{to_bytes, of_bytes}
use wisdb.Base.{sym}

-- A page of full size whose free space offset is `fso`, within the page.
pub record IsPage (pg : Page) (fso : ℕ) : Type 0 where
  pub full : length pg.bytes ≡ page_size
  pub at_fso : px_raw_fso pg.bytes ≡ some fso
  pub past_header : px_of_data ≤ fso
  pub in_page : fso ≤ page_size

pub px_raw_fso-px_raw_update_fso :
    (raw : List ℕ) (offset : ℕ)
    → 2 ≤ length raw
    → offset < 2 ^ 16
    → px_raw_fso (px_raw_update_fso raw offset) ≡ some offset
unfolding px_raw_fso px_raw_update_fso
px_raw_fso-px_raw_update_fso raw offset h small =
    of_bytes-put_int 2 raw 0 offset (omega arith) (omega arith)

pub length-px_raw_update_fso :
    (raw : List ℕ) (offset : ℕ) → length (px_raw_update_fso raw offset) ≡ length raw
unfolding px_raw_update_fso
length-px_raw_update_fso raw offset = length-put_int 2 raw 0 offset

-- An update of the offset is a copy of two bytes to the front.
pub px_raw_update_fso_copy :
    (raw : List ℕ) (offset : ℕ)
    → 2 ≤ length raw
    → px_raw_update_fso raw offset ≡ copy_at raw 0 (to_bytes 2 offset)
unfolding px_raw_update_fso
px_raw_update_fso_copy raw offset h = put_int_fits 2 raw 0 offset (omega arith)

pub drop-px_raw_update_fso :
    (raw : List ℕ) (offset m : ℕ)
    → 2 ≤ length raw
    → 2 ≤ m
    → drop m (px_raw_update_fso raw offset) ≡ drop m raw
drop-px_raw_update_fso raw offset m h hm =
    ap (drop m) (px_raw_update_fso_copy raw offset h)
    ∙ drop-copy_at_after raw m 0 (to_bytes 2 offset) (omega (arith, length-to_bytes 2 offset))

pub px_raw_fso-copy_at :
    (raw : List ℕ) (off : ℕ) (src : List ℕ)
    → 2 ≤ off
    → px_raw_fso (copy_at raw off src) ≡ px_raw_fso raw
unfolding px_raw_fso
px_raw_fso-copy_at raw off src h =
    of_bytes-take 2 0 (copy_at raw off src)
    ∙ ap (of_bytes 2 0) (slice-copy_at_before raw 0 2 off src (omega arith))
    ∙ sym (of_bytes-take 2 0 raw)

px_init_raw_long : length px_init_raw ≡ page_size
unfolding px_init_raw
px_init_raw_long =
    length-px_raw_update_fso (replicate page_size 0) px_of_data
    ∙ length-replicate {A = ℕ} page_size 0

-- A fresh page is well formed and has all its space free.
pub px_init_raw-IsPage :
    (pgno : ℕ) (d : Bool)
    → IsPage (record { pgno = pgno; bytes = px_init_raw; is_dirty = d }) px_of_data
px_init_raw-IsPage pgno d = record {
  full = px_init_raw_long;
  at_fso =
      unfold px_init_raw in
      px_raw_fso-px_raw_update_fso (replicate page_size 0) px_of_data
        (omega (arith, length-replicate {A = ℕ} page_size 0)) (omega arith);
  past_header = omega arith;
  in_page = omega arith;
}
