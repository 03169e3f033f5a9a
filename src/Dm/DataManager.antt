-- ===== src/Dm/DataManager.antt =====
-- main/backend/dm/data_manager.go: pages, the log and the page index together. The pages are those
-- that the page cacher shows; `none` is a panic. The cache of data items is not modelled: an item is
-- parsed when it is read.
pub mod Ahead
pub mod Replay
pub mod ReadBack
use wisdb.Dm.Page.{Page}
use wisdb.Dm.PageX.{px_init_raw, px_max_free_space, px_insert, px_free_space}
use wisdb.Dm.Page1.{p1_init_raw, p1_set_vc_open, p1_set_vc_close, p1_check_vc}
use wisdb.Dm.Dataitem.{Dataitem, wrap_dataitem_raw, parse_dataitem, is_valid}
use wisdb.Dm.Address.{address_to_uuid, uuid_to_address}
use wisdb.Dm.Logger.{Logger}
use wisdb.Dm.Logger
use wisdb.Dm.Pindex.{Pindex, Pair, new_pindex, select, add}
use wisdb.Dm.Recovery.{Pages, get_page, put_page, insert_log, update_log, recovery}
use wisdb.Tm.{TransactionManager}
use wisdb.Base.{ℕ, Option, List, some, if◌then◌else◌, drop, ◌∷◌, Bool, ◌>>=◌, ◌>>◌}
use wisdb.Base.{none, suc, ltb, false, [], ◌++◌, length, ◌+◌, pos, zero}

pub record DataManager : Type 0 where
  pub pc : Pages
  pub lg : Logger
  pub pidx : Pindex

-- `no_page` is an error of GetPage.
pub data DmResult {ℓ} (A : Type ℓ) : Type ℓ where
  ok : A → DmResult A
  err_busy err_data_too_large no_page : DmResult A

-- Up to `tries` selections, each that fails followed by a new page.
unfoldable pub pick : ℕ → DataManager → ℕ → Option (Option Pair × DataManager)
unfolding select add
pick zero dm size = some (none, dm)
pick (suc tries) dm size =
    let grown = (λ (pi : Pindex).
      pick tries (record dm { pc = dm.pc ++ (px_init_raw ∷ []); pidx = pi }) size) in
    elim (select dm.pidx size) [
      | some (pr, pi) ↦ some (some pr, record dm { pidx = pi })
      | none ↦ add dm.pidx (length dm.pc + 1) (pos px_max_free_space) >>= grown
    ]

-- The record of the insert, its offset, and the pages with it.
unfoldable pub insert_page : Pages → ℕ → ℕ → List ℕ → Option (List ℕ × ℕ × Page)
unfolding get_page insert_log px_insert
insert_page pc xid pgno raw = do
  pg ← get_page pc pgno
  log ← insert_log xid pg raw
  (pg', offset) ← px_insert pg raw
  some (log, offset, pg')

-- Insert, behind the choice of the page, which goes back into the index with its free space.
unfoldable pub insert_at : DataManager → ℕ → List ℕ → Pair → Option (DmResult ℕ × DataManager)
unfolding insert_page get_page put_page add
insert_at dm xid raw (pgno, free_space) = elim (get_page dm.pc pgno) [
  | none ↦ do pi ← add dm.pidx pgno free_space; some (no_page, record dm { pidx = pi })
  | some pg ↦ do
    (log, offset, pg') ← insert_page dm.pc xid pgno raw
    free ← px_free_space pg'
    pi ← add dm.pidx pgno free
    some (
      ok (address_to_uuid pgno offset),
      record { pc = put_page dm.pc pg'; lg = Logger.log dm.lg log; pidx = pi },
    )
]

abbrev pub picked : ℕ → List ℕ → Option Pair × DataManager → Option (DmResult ℕ × DataManager)
picked xid raw (none, dm) = some (err_busy, dm)
picked xid raw (some pr, dm) = insert_at dm xid raw pr

unfoldable pub insert : DataManager → ℕ → List ℕ → Option (DmResult ℕ × DataManager)
unfolding pick insert_at
insert dm xid bs =
    let raw = wrap_dataitem_raw bs in
    if ltb px_max_free_space (length raw)
    then some (err_data_too_large, dm)
    else pick 5 dm (length raw) >>= picked xid raw

-- What the cache loads for an address, and the check of its flag.
abbrev pub checked : Page → ℕ → Option (DmResult (Option (Page × Dataitem)))
checked pg offset = do
  di ← parse_dataitem pg offset
  valid ← is_valid pg di
  some (ok (if valid then some (pg, di) else none))

abbrev pub read_page : Option Page → ℕ → Option (DmResult (Option (Page × Dataitem)))
read_page none offset = some no_page
read_page (some pg) offset = checked pg offset

-- Read: the page and the item, if the item is valid.
unfoldable pub read : DataManager → ℕ → Option (DmResult (Option (Page × Dataitem)))
unfolding get_page
read dm uid = let a = uuid_to_address uid in read_page (get_page dm.pc a.0) a.1

-- logDataitem, which an item's After calls.
unfoldable pub log_dataitem : DataManager → ℕ → Page → Dataitem → DataManager
log_dataitem dm xid pg di = record dm { lg = Logger.log dm.lg (update_log xid pg di) }

-- The loop of fillPindex over the pages from a number on.
unfoldable pub fill_from : Pages → ℕ → Pindex → Option Pindex
unfolding add
fill_from [] pgno pi = some pi
fill_from (b ∷ pc) pgno pi = do
  free ← px_free_space (record { pgno = pgno; bytes = b; is_dirty = false })
  pi' ← add pi pgno free
  fill_from pc (pgno + 1) pi'

unfoldable pub fill_pindex : Pages → Option Pindex
unfolding fill_from
fill_pindex pc = fill_from (drop 1 pc) 2 new_pindex

-- Create, with the random bytes of the first page.
unfoldable pub create : List ℕ → DataManager
create fresh = record { pc = p1_init_raw fresh ∷ []; lg = Logger.create; pidx = new_pindex }

-- loadAndCheckPage1
unfoldable pub load_and_check_page1 : Pages → Option Bool
unfolding get_page
load_and_check_page1 pc = do pg ← get_page pc 1; some (p1_check_vc pg)

-- Open behind the opening of the two files.
unfoldable pub open_dm :
    ℕ → List ℕ → TransactionManager → Logger → Pages → Option (TransactionManager × DataManager)
unfolding load_and_check_page1 recovery fill_pindex get_page put_page
open_dm fuel fresh tm lg pc = do
  good ← load_and_check_page1 pc
  (tm', pc') ← (if good then some (tm, pc) else recovery fuel tm lg pc)
  pi ← fill_pindex pc'
  pg ← get_page pc' 1
  some (tm', record { pc = put_page pc' (p1_set_vc_open fresh pg); lg = lg; pidx = pi })

-- Close, as it leaves the pages.
unfoldable pub close : DataManager → Option Pages
unfolding get_page put_page
close dm = do pg ← get_page dm.pc 1; some (put_page dm.pc (p1_set_vc_close pg))
