-- ===== src/Dm/Dataitem/Undo.antt =====
-- Before and UnBefore: an update that is given up leaves the page as it was.
use wisdb.Dm.Dataitem.{before, un_before, raw_of, Dataitem}
use wisdb.Dm.Page.{Page}
use wisdb.Base.{List, ℕ, length, ◌≡◌, ◌+◌, ◌≤◌, copy_at, slice, length-slice, ap}
use wisdb.Base.{take, copy_all, arith, ◌∙◌, take-all, copy_at_absorb, copy_at-slice}

-- Whatever is written over the item's window between `before` and `un_before`, the page's bytes
-- are those from before, where the saved buffer has the item's length and the window lies in the
-- page.
un_before-before :
    (pg : Page) (di : Dataitem) (new : List ℕ)
    → length di.oldraw ≡ di.len
    → di.offset + di.len ≤ length pg.bytes
    → length new ≡ di.len
    → (un_before
        (record (before pg di).0 { bytes = copy_at (before pg di).0.bytes di.offset new })
        (before pg di).1).bytes
      ≡ pg.bytes
unfolding un_before before raw_of
un_before-before pg di new sized inside n =
    let w = slice di.offset di.len pg.bytes in
    let lw : length w ≡ di.len = length-slice di.offset di.len pg.bytes inside in
    ap (λ l. copy_at (copy_at pg.bytes di.offset new) di.offset (take di.len l))
      (copy_all di.oldraw w (omega arith))
    ∙ ap (copy_at (copy_at pg.bytes di.offset new) di.offset) (take-all di.len w (omega arith))
    ∙ copy_at_absorb pg.bytes di.offset new w (omega arith)
    ∙ copy_at-slice pg.bytes di.offset di.len
