-- ===== src/Dm/Page1/ValidCheck.antt =====
-- The check of the first page tells an orderly close from a crash.
use wisdb.Dm.Page1.{p1_set_vc_open, p1_set_vc_close, p1_check_vc}
use wisdb.Dm.Page.{Page, page_size}
use wisdb.Base.{List, ℕ, slice, length, ◌≡◌, true, false, ◌↔◌, ◌≢◌, bytes_equal}
use wisdb.Dm.Page1.{p1_raw_set_vc_open, p1_raw_set_vc_close, p1_raw_check_vc}
use wisdb.Base.{copy_at, ap, slice-copy_at_before, slice-copy_at, bytes_equal_refl}
use wisdb.Base.{take-all, ◌∙◌, arith, length-slice, length-copy_at, slice-copy_at_after}
use wisdb.Base.{sym, bytes_equal_ne}
use mathlib.Core.Bool.{false≢true}

-- The window that a close fills.
abbrev pub close_mark : Page → List ℕ
close_mark pg = slice 108 8 pg.bytes

module _ (fresh raw : List ℕ) (n : length fresh ≡ 8) (full : length raw ≡ page_size) where
  opened : p1_raw_set_vc_open fresh raw ≡ copy_at raw 100 fresh
  unfolding p1_raw_set_vc_open
  opened = ap (copy_at raw 100) (take-all 8 fresh (omega arith))

  length-opened : length (p1_raw_set_vc_open fresh raw) ≡ page_size
  length-opened = ap length opened ∙ length-copy_at raw 100 fresh ∙ full

  first_window : slice 100 8 (p1_raw_set_vc_open fresh raw) ≡ fresh
  first_window = ap (slice 100 8) opened ∙ slice-copy_at raw 100 8 fresh n (omega arith)

  second_window : slice 108 8 (p1_raw_set_vc_open fresh raw) ≡ slice 108 8 raw
  second_window = ap (slice 108 8) opened ∙ slice-copy_at_after raw 108 8 100 fresh (omega arith)

module _ (raw : List ℕ) (full : length raw ≡ page_size) where
  first_window_closed : slice 100 8 (p1_raw_set_vc_close raw) ≡ slice 100 8 raw
  unfolding p1_raw_set_vc_close
  first_window_closed = slice-copy_at_before raw 100 8 108 (slice 100 8 raw) (omega arith)

  second_window_closed : slice 108 8 (p1_raw_set_vc_close raw) ≡ slice 100 8 raw
  unfolding p1_raw_set_vc_close
  second_window_closed =
      slice-copy_at raw 108 8 (slice 100 8 raw) (length-slice 100 8 raw (omega arith)) (omega arith)

agree : (a b : List ℕ) → a ≡ b → bytes_equal a b ≡ true
agree a b e = rw e (bytes_equal_refl b)

-- After an open with fresh bytes and a close, whatever the page held, the check passes and both
-- windows hold the fresh bytes.
p1_check_vc_closed :
    (fresh : List ℕ) (pg : Page)
    → length fresh ≡ 8
    → length pg.bytes ≡ page_size
    → (p1_check_vc (p1_set_vc_close (p1_set_vc_open fresh pg)) ≡ true)
      × (close_mark (p1_set_vc_close (p1_set_vc_open fresh pg)) ≡ fresh)
unfolding p1_set_vc_close p1_set_vc_open p1_check_vc
p1_check_vc_closed fresh pg n full =
    let raw = p1_raw_set_vc_open fresh pg.bytes in
    let full' : length raw ≡ page_size = length-opened fresh pg.bytes n full in
    (
      unfold p1_raw_check_vc in
          agree _ _ (first_window_closed raw full' ∙ sym (second_window_closed raw full')),
      second_window_closed raw full' ∙ first_window fresh pg.bytes n full,
    )

-- After an open with fresh bytes and no close, the check fails exactly when the fresh bytes are not
-- those of the last close.
p1_check_vc_crashed :
    (fresh : List ℕ) (pg : Page)
    → length fresh ≡ 8
    → length pg.bytes ≡ page_size
    → (p1_check_vc (p1_set_vc_open fresh pg) ≡ false) ↔ (fresh ≢ close_mark pg)
unfolding p1_check_vc p1_set_vc_open
p1_check_vc_crashed fresh pg n full =
    rw (first_window fresh pg.bytes n full, second_window fresh pg.bytes n full)
      (λ differs same. false≢true (sym differs ∙ agree fresh _ same), bytes_equal_ne fresh _)
