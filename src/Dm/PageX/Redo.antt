-- ===== src/Dm/PageX/Redo.antt =====
-- The redo of an insert against the insert itself.
use Prim.Native.Nat.{max}
use wisdb.Dm.PageX.Fso.{IsPage, px_raw_update_fso_copy, drop-px_raw_update_fso}
use wisdb.Dm.PageX.Recover.{patched, patched_to, px_recover_insert_forward, px_recover_insert_kept}
use wisdb.Dm.Page.{Page, page_size}
use wisdb.Base.{List, ℕ, ◌≤◌, ◌<◌, length, copy_at, ◌+◌, ◌≡◌, some, slice}
use wisdb.Dm.PageX.{px_raw_update_fso, px_recover_insert, px_insert}
use wisdb.Base.{arith, length-copy_at, ap, ◌∙◌, copy_at_comm, true, copy_at_absorb}
use wisdb.Utils.IntEncoding.{to_bytes}
use wisdb.Dm.PageX.Insert.{inserted, px_insert-eq, inserted-IsPage}
use wisdb.Utils.IntEncoding.RoundTrip.{length-to_bytes}
use wisdb.Base.{sym, refl, take, slice-copy_at_self}
use native.Mathlib.Decide.{dec_lt}
use wisdb.Dm.PageX.Recover.{patched_to-IsPage, patched-IsPage}

-- A recovery insert of `raw` at an offset where it fits succeeds on a well-formed page. The page
-- stays well formed, its free space offset is the larger of the old one and the end of `raw`, and
-- `raw` is read back at the offset.
pub px_recover_insert_lem :
    (pg : Page) (fso off : ℕ) (raw : List ℕ)
    → IsPage pg fso
    → 2 ≤ off
    → off + length raw ≤ page_size
    → (pg' : Page) × (px_recover_insert pg off raw ≡ some pg')
      × IsPage pg' (max fso (off + length raw))
      × (slice off (length raw) pg'.bytes ≡ raw)
px_recover_insert_lem pg fso off raw v behind fits = elim (dec_lt fso (off + length raw)) [
  | yes h ↦ (
    patched_to pg off raw (off + length raw),
    px_recover_insert_forward pg fso off raw v behind fits h,
    (let e : max fso (off + length raw) ≡ off + length raw = omega arith in
        rw e (patched_to-IsPage pg fso (off + length raw) off raw v (omega arith) fits)),
    ap (take (length raw)) (drop-px_raw_update_fso _ _ off (long off raw) behind)
        ∙ slice-copy_at_self pg.bytes off raw (omega (arith, v.full)),
  )
  | no h ↦ (
    patched pg off raw,
    px_recover_insert_kept pg fso off raw v behind fits (omega arith),
    (let e : max fso (off + length raw) ≡ fso = omega arith in
        rw e (patched-IsPage pg fso off raw v behind)),
    slice-copy_at_self pg.bytes off raw (omega (arith, v.full)),
  )
]
  where
    long : (off : ℕ) (raw : List ℕ) → 2 ≤ length (copy_at pg.bytes off raw)
    long off raw = omega (arith, length-copy_at pg.bytes off raw, v.full)

same_bytes :
    (b : List ℕ) (fso n : ℕ) (raw : List ℕ)
    → 2 ≤ length b
    → 2 ≤ fso
    → copy_at (px_raw_update_fso (copy_at b fso raw) n) fso raw
      ≡ px_raw_update_fso (copy_at b fso raw) n
same_bytes b fso n raw h behind =
    ap (λ l. copy_at l fso raw) front
    ∙ copy_at_comm (copy_at b fso raw) 0 (to_bytes 2 n) fso raw (omega (arith, length-to_bytes 2 n))
    ∙ ap (λ l. copy_at l 0 (to_bytes 2 n)) (copy_at_absorb b fso raw raw refl)
    ∙ sym front
  where
    front : px_raw_update_fso (copy_at b fso raw) n ≡ copy_at (copy_at b fso raw) 0 (to_bytes 2 n)
    front = px_raw_update_fso_copy (copy_at b fso raw) n (omega (arith, length-copy_at b fso raw))

-- Redo is faithful and idempotent. Where an insert of a non-empty item fits, the recovery insert of
-- the same item at the offset that the insert returned gives the page that the insert gave, both
-- from the page before the insert (the write was lost) and from the page after it (it was not).
pub px_recover_insert-px_insert :
    (pg : Page) (fso : ℕ) (raw : List ℕ)
    → IsPage pg fso
    → 0 < length raw
    → fso + length raw ≤ page_size
    → (pg' : Page) × (px_insert pg raw ≡ some (pg', fso))
      × (px_recover_insert pg fso raw ≡ some pg')
      × (px_recover_insert pg' fso raw ≡ some pg')
px_recover_insert-px_insert pg fso raw v nonempty fits = (
  inserted pg fso raw,
  px_insert-eq pg fso raw v fits,
  px_recover_insert_forward pg fso fso raw v v.past_header fits (omega arith),
  px_recover_insert_kept (inserted pg fso raw) (fso + length raw) fso raw
        (inserted-IsPage pg fso raw v fits) v.past_header fits (omega arith)
      ∙ ap (λ l. some (record { pgno = pg.pgno; bytes = l; is_dirty = true }))
          (same_bytes pg.bytes fso (fso + length raw) raw (omega (arith, v.full)) v.past_header),
)
