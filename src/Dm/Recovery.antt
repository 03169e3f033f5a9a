-- ===== src/Dm/Recovery.antt =====
-- main/backend/dm/recovery.go: the records of inserts and updates, and their redo and undo. The pages
-- are those that the page cacher shows, page 1 first; `none` is a panic.
pub mod Records
use wisdb.Dm.Page.{Page, page_size}
use wisdb.Dm.PageX.{px_fso, px_recover_insert, px_recover_update}
use wisdb.Dm.Dataitem.{Dataitem, raw_of, invalid_raw_dataitem}
use wisdb.Dm.Address.{uuid_to_address, put_offset, parse_offset, len_offset}
use wisdb.Dm.Logger.{Logger, rewind, remaining}
use wisdb.Dm.Logger
use wisdb.Tm.{TransactionManager, is_active, abort, len_xid}
use wisdb.Utils.IntEncoding.{put_uuid, parse_uuid, put_uint32, parse_uint32, len_uuid}
use wisdb.Base.{ℕ, List, set, Map, Option, ◌-◌, replicate, take, none, Bool, ◌+◌}
use wisdb.Base.{some, ◌++◌, ◌>>=◌, ◌>>◌, suc, get_elem?, length, drop, if◌then◌else◌}
use wisdb.Base.{◌∷◌, [], false, ◌==◌, copy_at, ◌*◌, ◌/◌, not, lookup, ltb, slice}
use wisdb.Base.{insert, zero}

abbrev pub log_type_insert : ℕ
log_type_insert = 0

abbrev pub log_type_update : ℕ
log_type_update = 1

-- _REDO and _UNDO
pub data Flag : Type 0 where
  redo undo : Flag

abbrev pub len_pgno : ℕ
len_pgno = 4

abbrev pub Pages : Type 0
Pages = List (List ℕ)

-- pc.GetPage(pgno)
unfoldable pub get_page : Pages → ℕ → Option Page
get_page pc zero = none
get_page pc (suc i) = do
  bytes ← get_elem? pc i
  some (record { pgno = suc i; bytes = bytes; is_dirty = false })

-- The page's bytes, which the cacher shares with every later GetPage.
unfoldable pub put_page : Pages → Page → Pages
put_page pc pg = set pc (pg.pgno - 1) pg.bytes

unfoldable pub is_insert_log : List ℕ → Option Bool
is_insert_log log = do type ← get_elem? log 0; some (type == log_type_insert)

unfoldable pub insert_log : ℕ → Page → List ℕ → Option (List ℕ)
unfolding put_uuid put_uint32 put_offset
insert_log xid pg raw = do
  fso ← px_fso pg
  let log =
      set (replicate (1 + (len_xid + (len_pgno + (len_offset + length raw)))) 0) 0 log_type_insert
  let log = put_offset (put_uint32 (put_uuid log 1 xid) 9 pg.pgno) 13 fso
  some (copy_at log 15 raw)

unfoldable pub parse_insert_log : List ℕ → Option (ℕ × ℕ × ℕ × List ℕ)
unfolding parse_uuid parse_uint32 parse_offset
parse_insert_log log = do
  xid ← parse_uuid (drop 1 log)
  pgno ← parse_uint32 (drop 9 log)
  offset ← parse_offset (drop 13 log)
  some (xid, pgno, offset, drop 15 log)

unfoldable pub update_log : ℕ → Page → Dataitem → List ℕ
unfolding put_uuid
update_log xid pg di =
    let raw = raw_of pg di in
    let log = set (replicate (1 + (len_xid + (len_uuid + length raw * 2))) 0) 0 log_type_update in
    let log = put_uuid (put_uuid log 1 xid) 9 di.uid in
    copy_at (copy_at log 17 di.oldraw) (17 + length di.oldraw) raw

unfoldable pub parse_update_log : List ℕ → Option (ℕ × ℕ × ℕ × List ℕ × List ℕ)
unfolding parse_uuid
parse_update_log log = do
  xid ← parse_uuid (drop 1 log)
  uuid ← parse_uuid (drop 9 log)
  let (pgno, offset) = uuid_to_address uuid
  let len = (length log - 17) / 2
  some (xid, pgno, offset, slice 17 len log, slice (17 + len) len log)

-- The bytes that an undo of an insert writes are marked as invalid.
abbrev pub flagged : Flag → List ℕ → Option (List ℕ)
flagged redo raw = some raw
flagged undo raw = invalid_raw_dataitem raw

unfoldable pub do_insert_log : Pages → List ℕ → Flag → Option Pages
unfolding parse_insert_log get_page put_page
do_insert_log pc log flag = do
  (xid, pgno, offset, raw) ← parse_insert_log log
  pg ← get_page pc pgno
  raw' ← flagged flag raw
  pg' ← px_recover_insert pg offset raw'
  some (put_page pc pg')

abbrev pub new_or_old : Flag → List ℕ → List ℕ → List ℕ
new_or_old redo old new = new
new_or_old undo old new = old

unfoldable pub do_update_log : Pages → List ℕ → Flag → Option Pages
unfolding parse_update_log get_page put_page
do_update_log pc log flag = do
  (xid, pgno, offset, old, new) ← parse_update_log log
  pg ← get_page pc pgno
  pg' ← px_recover_update pg offset (new_or_old flag old new)
  some (put_page pc pg')

-- The transaction and the page of a record.
unfoldable pub log_xid : List ℕ → Option ℕ
unfolding parse_insert_log parse_update_log
log_xid log = do
  insert ← is_insert_log log
  (if insert
      then (do (xid, pgno, offset, raw) ← parse_insert_log log; some xid)
      else (do (xid, pgno, offset, old, new) ← parse_update_log log; some xid))

unfoldable pub log_pgno : List ℕ → Option ℕ
unfolding parse_insert_log parse_update_log
log_pgno log = do
  insert ← is_insert_log log
  (if insert
      then (do (xid, pgno, offset, raw) ← parse_insert_log log; some pgno)
      else (do (xid, pgno, offset, old, new) ← parse_update_log log; some pgno))

unfoldable pub do_log : Pages → List ℕ → Flag → Option Pages
unfolding do_insert_log do_update_log
do_log pc log flag = do
  insert ← is_insert_log log
  (if insert then do_insert_log pc log flag else do_update_log pc log flag)

-- The loop of redoTransactions: the records of transactions that are not active.
unfoldable pub redo_logs : TransactionManager → List (List ℕ) → Pages → Option Pages
unfolding log_xid do_log
redo_logs tm [] pc = some pc
redo_logs tm (log ∷ logs) pc = do
  xid ← log_xid log
  pc' ← (if not (is_active tm xid) then do_log pc log redo else some pc)
  redo_logs tm logs pc'

-- logCache[xid]
abbrev pub cached : ℕ → Map (List (List ℕ)) → List (List ℕ)
cached xid cache = elim (lookup xid cache) [ none ↦ [] | some l ↦ l ]

-- The first loop of undoTransactions: the records of each active transaction, in their order.
unfoldable pub cache_logs :
    TransactionManager → List (List ℕ) → Map (List (List ℕ)) → Option (Map (List (List ℕ)))
unfolding log_xid
cache_logs tm [] cache = some cache
cache_logs tm (log ∷ logs) cache = do
  xid ← log_xid log
  cache_logs tm logs
      (if is_active tm xid then insert xid (cached xid cache ++ (log ∷ [])) cache else cache)

-- A transaction's records from the last to the first.
unfoldable pub undo_logs : List (List ℕ) → Pages → Option Pages
unfolding do_log
undo_logs [] pc = some pc
undo_logs (log ∷ logs) pc = do pc' ← undo_logs logs pc; do_log pc' log undo

-- The loop over the transactions of the cache; each is aborted behind its undo.
unfoldable pub undo_cache :
    Map (List (List ℕ)) → TransactionManager → Pages → Option (TransactionManager × Pages)
unfolding undo_logs
undo_cache [] tm pc = some (tm, pc)
undo_cache ((xid, logs) ∷ rest) tm pc = do
  pc' ← undo_logs logs pc
  undo_cache rest (abort tm xid) pc'

-- The records that the logger returns from its start; an error is a panic.
unfoldable pub all_logs : ℕ → Logger → Option (List (List ℕ))
all_logs fuel lg = elim (remaining fuel (rewind lg)) [
  | Logger.ok logs ↦ some logs
  | Logger.err e ↦ none
]

unfoldable pub redo_transactions : ℕ → TransactionManager → Logger → Pages → Option Pages
unfolding redo_logs all_logs
redo_transactions fuel tm lg pc = do logs ← all_logs fuel lg; redo_logs tm logs pc

unfoldable pub undo_transactions :
    ℕ → TransactionManager → Logger → Pages → Option (TransactionManager × Pages)
unfolding cache_logs undo_cache all_logs
undo_transactions fuel tm lg pc = do
  logs ← all_logs fuel lg
  cache ← cache_logs tm logs []
  undo_cache cache tm pc

unfoldable pub max_pgno : List (List ℕ) → Option ℕ
unfolding log_pgno
max_pgno [] = some 0
max_pgno (log ∷ logs) = do
  pgno ← log_pgno log
  rest ← max_pgno logs
  some (if ltb rest pgno then pgno else rest)

-- pc.TruncateByPgno: the file is cut, or grows by zero bytes.
unfoldable pub truncate_by_pgno : ℕ → Pages → Pages
truncate_by_pgno n pc = take n pc ++ replicate (n - length pc) (replicate page_size 0)

unfoldable pub recovery :
    ℕ → TransactionManager → Logger → Pages → Option (TransactionManager × Pages)
unfolding redo_transactions undo_transactions max_pgno truncate_by_pgno all_logs
recovery fuel tm lg pc = do
  logs ← all_logs fuel lg
  found ← max_pgno logs
  pc' ← redo_transactions fuel tm lg (truncate_by_pgno (if found == 0 then 1 else found) pc)
  undo_transactions fuel tm lg pc'
