-- ===== src/Dm/DataManager/ReadBack.antt =====
-- What a read gives after an insert, and after the undo of an insert.
use wisdb.Dm.DataManager.{DataManager, ok, insert_at, read, read_page}
use wisdb.Dm.DataManager.Replay.{insert_page-eq}
use wisdb.Dm.Recovery.{Pages, get_page, put_page, do_insert_log, do_log, is_insert_log, undo}
use wisdb.Dm.Recovery.Records.{insert_bytes, parse_insert_log-eq}
use wisdb.Dm.Logger
use wisdb.Dm.Page.{Page, page_size, dirty}
use wisdb.Dm.PageX.Fso.{IsPage}
use wisdb.Dm.PageX.{px_recover_insert, copy_into}
use wisdb.Dm.PageX.Insert.{inserted, inserted-IsPage, px_free_space-IsPage}
use wisdb.Dm.PageX.Redo.{px_recover_insert_lem}
use wisdb.Dm.PageX.Replay.{page, after}
use wisdb.Dm.Pindex.{add, Pindex}
use wisdb.Dm.Pindex.Room.{IsPindex, add-IsPindex}
use wisdb.Dm.Dataitem.{Dataitem, wrap_dataitem_raw, data_of}
use wisdb.Dm.Dataitem.RoundTrip.{
  item_bytes, wrap_dataitem_raw-eq, parse_dataitem-item_bytes, length-item_bytes, inserted_here,
  invalid_item,
}
use wisdb.Dm.Address.{address_to_uuid}
use wisdb.Dm.Address.RoundTrip.{uuid_to_address-address_to_uuid}
use wisdb.Base.{ℕ, List, suc, ℤ, ◌<◌, ◌^◌, length, get_elem?, ◌≡◌, some, drop, ◌++◌}
use wisdb.Base.{◌+◌, ◌≤◌, set, get_elem?-set, get_elem?_inside, ◌∙◌, arith, ==_refl}
use wisdb.Base.{◌-◌, if◌then◌else◌, ◌==◌, none, ap, refl, pos, slice, sym, take-append-drop}

get_page-found :
    (pc : Pages) (i : ℕ) (b : List ℕ)
    → get_elem? pc i ≡ some b
    → get_page pc (suc i) ≡ some (page (suc i) b)
unfolding get_page
get_page-found pc i b found = rw found refl

-- A read of an item's address where the page holds the bytes of an item.
pub read_item :
    (dm : DataManager) (i off flag : ℕ) (b bs rest : List ℕ)
    → suc i < 2 ^ 32
    → off < 2 ^ 16
    → length bs < 2 ^ 16
    → get_elem? dm.pc i ≡ some b
    → drop off b ≡ item_bytes flag bs ++ rest
    → (di : Dataitem) × (data_of (page (suc i) b) di ≡ some bs)
      × (di.offset ≡ off)
      × (read dm (address_to_uuid (suc i) off)
          ≡ some (ok (if flag == 0 then some (page (suc i) b, di) else none)))
unfolding read get_page
read_item dm i off flag b bs rest hi ho small found here =
    let (di, parsed, valid, held, uid, at, len) =
      parse_dataitem-item_bytes (page (suc i) b) off flag bs rest small here in
    (
      di,
      held,
      at,
      ap (λ a. read_page (get_page dm.pc a.0) a.1)
            (uuid_to_address-address_to_uuid (suc i) off hi ho).0
          ∙ ap (λ p. read_page p off) (get_page-found dm.pc i b found)
          ∙ rw (parsed, valid) refl,
    )

pub insert_at-eq :
    (dm : DataManager) (xid i fso : ℕ) (b raw : List ℕ) (free : ℤ) (pi : Pindex)
    → get_elem? dm.pc i ≡ some b
    → IsPage (page (suc i) b) fso
    → fso + length raw ≤ page_size
    → add dm.pidx (suc i) (pos (page_size - (fso + length raw))) ≡ some pi
    → insert_at dm xid raw (suc i, free)
      ≡ some (
        ok (address_to_uuid (suc i) fso),
        record {
          pc = set dm.pc i (after b fso raw);
          lg = Logger.log dm.lg (insert_bytes xid (suc i) fso raw);
          pidx = pi;
        },
      )
unfolding insert_at put_page
insert_at-eq dm xid i fso b raw free pi found v fits added =
    rw
      (
        get_page-found dm.pc i b found,
        insert_at,
        insert_page-eq dm.pc xid i fso b raw found v fits,
        px_free_space-IsPage (inserted (page (suc i) b) fso raw) (fso + length raw)
            (inserted-IsPage (page (suc i) b) fso raw v fits),
        added,
      )
      (ap
        (λ k. some (
          ok (address_to_uuid (suc i) fso),
          record {
            pc = set dm.pc k (after b fso raw);
            lg = Logger.log dm.lg (insert_bytes xid (suc i) fso raw);
            pidx = pi;
          },
        ))
        (omega arith))

pub set_found :
    (pc : Pages) (k : ℕ) (x y : List ℕ)
    → get_elem? pc k ≡ some x
    → get_elem? (set pc k y) k ≡ some y
set_found pc k x y e =
    get_elem?-set pc k k y (get_elem?_inside pc k x e) ∙ ground (arith, ==_refl k)

-- An insert of less than 2^16 bytes into a well-formed page with room for the item succeeds, a read
-- at the address that it returns gives a valid item with the data, the page index stays right, and
-- the log is the old one with the insert's record behind it: the transaction, the page, the old
-- free space offset and the item.
pub read-insert_at :
    (dm : DataManager) (xid i fso : ℕ) (b bs : List ℕ) (free : ℤ)
    → suc i < 2 ^ 32
    → get_elem? dm.pc i ≡ some b
    → IsPage (page (suc i) b) fso
    → length bs < 2 ^ 16
    → fso + (3 + length bs) ≤ page_size
    → IsPindex dm.pidx
    → (dm' : DataManager) × (pg : Page) × (di : Dataitem) × (insert_at dm xid
          (wrap_dataitem_raw bs)
          (suc i, free)
        ≡ some (ok (address_to_uuid (suc i) fso), dm'))
      × (read dm' (address_to_uuid (suc i) fso) ≡ some (ok (some (pg, di))))
      × (data_of pg di ≡ some bs)
      × IsPindex dm'.pidx
      × (dm'.lg ≡ Logger.log dm.lg (insert_bytes xid (suc i) fso (item_bytes 0 bs)))
read-insert_at dm xid i fso b bs free hi found v small fits index =
    let raw = item_bytes 0 bs in
    let fits' : fso + length raw ≤ page_size = omega (arith, length-item_bytes 0 bs) in
    let w = inserted-IsPage (page (suc i) b) fso raw v fits' in
    let (pi, added, index') =
      add-IsPindex dm.pidx (suc i) (page_size - (fso + length raw)) index (omega arith) in
    let b' = after b fso raw in
    let dm' : DataManager = record {
      pc = set dm.pc i b';
      lg = Logger.log dm.lg (insert_bytes xid (suc i) fso raw);
      pidx = pi;
    } in
    let (di, held, at, seen) =
      read_item dm' i fso 0 b' bs (drop (fso + length raw) b) hi (omega (arith, v.in_page)) small
        (set_found dm.pc i b b' found) (inserted_here (page (suc i) b) fso raw v fits') in
    (
      dm',
      page (suc i) b',
      di,
      ap (λ r. insert_at dm xid r (suc i, free)) (wrap_dataitem_raw-eq bs small)
          ∙ insert_at-eq dm xid i fso b raw free pi found v fits' added,
      seen,
      held,
      index',
      refl,
    )

px_recover_insert-pgno :
    (pg : Page) (off : ℕ) (raw : List ℕ) (pg' : Page)
    → px_recover_insert pg off raw ≡ some pg'
    → pg'.pgno ≡ pg.pgno
unfolding px_recover_insert copy_into dirty
px_recover_insert-pgno pg off raw pg' h = ground arith

do_log_undone :
    (pc : Pages) (xid i off : ℕ) (b bs : List ℕ) (pg' : Page)
    → xid < 2 ^ 64
    → suc i < 2 ^ 32
    → off < 2 ^ 16
    → get_elem? pc i ≡ some b
    → px_recover_insert (page (suc i) b) off (item_bytes 1 bs) ≡ some pg'
    → do_log pc (insert_bytes xid (suc i) off (item_bytes 0 bs)) undo ≡ some (set pc i pg'.bytes)
unfolding do_log do_insert_log is_insert_log put_page
do_log_undone pc xid i off b bs pg' hx hi ho found made =
    rw
      (
        parse_insert_log-eq xid (suc i) off (item_bytes 0 bs) hx hi ho,
        get_page-found pc i b found,
        invalid_item bs,
        made,
        px_recover_insert-pgno (page (suc i) b) off (item_bytes 1 bs) pg' made,
      )
      (ap (λ k. some (set pc k pg'.bytes)) (omega arith))

here :
    (off : ℕ) (raw b : List ℕ)
    → slice off (length raw) b ≡ raw
    → drop off b ≡ raw ++ drop (length raw) (drop off b)
here off raw b e =
    sym (take-append-drop (length raw) (drop off b))
    ∙ ap (λ l. l ++ drop (length raw) (drop off b)) e

-- The undo of an insert's record, on a page that has the room for the item, succeeds, and a read at
-- the address then gives no item.
pub undo_insert :
    (dm : DataManager) (xid i fso off : ℕ) (b bs : List ℕ)
    → xid < 2 ^ 64
    → suc i < 2 ^ 32
    → get_elem? dm.pc i ≡ some b
    → IsPage (page (suc i) b) fso
    → length bs < 2 ^ 16
    → 2 ≤ off
    → off + (3 + length bs) ≤ page_size
    → (pc : Pages) × (do_log dm.pc (insert_bytes xid (suc i) off (item_bytes 0 bs)) undo ≡ some pc)
      × (read (record dm { pc = pc }) (address_to_uuid (suc i) off) ≡ some (ok none))
undo_insert dm xid i fso off b bs hx hi found v small behind fits =
    let raw = item_bytes 1 bs in
    let (pg', made, w, held) =
      px_recover_insert_lem (page (suc i) b) fso off raw v behind
        (omega (arith, length-item_bytes 1 bs)) in
    (
      set dm.pc i pg'.bytes,
      do_log_undone dm.pc xid i off b bs pg' hx hi (omega arith) found made,
      (read_item (record dm { pc = set dm.pc i pg'.bytes }) i off 1 pg'.bytes bs
          (drop (length raw) (drop off pg'.bytes)) hi (omega arith) small
          (set_found dm.pc i b pg'.bytes found) (here off raw pg'.bytes held)).3,
    )
