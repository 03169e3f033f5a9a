-- ===== src/Sm/Manager.antt =====
-- main/backend/sm/serializability_manager.go: transactions over versions in the data manager. Each
-- part of a method that runs under the manager's mutex, and each call behind it, is one step. The
-- cache of entries is not modelled: an entry is loaded when it is used. `none` is a panic, or a call
-- of the lock table that does not return.
pub mod Entries
pub mod Isolated
pub mod OwnInsert
pub mod CommitRace
use wisdb.Tm
use wisdb.Dm.DataManager
use wisdb.Sm.LockTable
use wisdb.Dm.DataManager.{err_busy, err_data_too_large, no_page}
use wisdb.Sm.LockTable.{granted, waiting, deadlock}
use wisdb.Base.{◌∷◌, []}
use wisdb.Base.{ℕ, List, Option, Map, lookup, some, Bool, ◌>>=◌, ◌>>◌, [], if◌then◌else◌}
use wisdb.Base.{true, none, remove, insert, ◌==◌, false, bounds, leb, ◌+◌, length}
use wisdb.Tm.{TransactionManager, super_xid, is_committed}
use wisdb.Sm.Transaction.{SmError, Transaction, cannot_sr, new_transaction, nil_entry}
use wisdb.Dm.Page.{Page}
use wisdb.Dm.DataManager.{DmResult, DataManager, log_dataitem}
use wisdb.Sm.LockTable.{remove_xid, LockTable, Answer, new_lock_table}
use wisdb.Dm.Dataitem.{before, Dataitem, data_of, of_data}
use wisdb.Sm.Visibility.{Version, is_visible, is_version_skip}
use wisdb.Sm.Entry.{xmin_of, entry_data_of, xmax_of, entry_of_xmax, wrap_entry_raw}
use wisdb.Dm.Recovery.{put_page}
use wisdb.Utils.IntEncoding.{put_uuid}

pub record Sm : Type 0 where
  pub tm : TransactionManager
  pub dm : DataManager
  pub tc : Map Transaction
  pub lt : LockTable

-- `dm_failed` is any error of the data manager.
pub data SmResult {ℓ} (A : Type ℓ) : Type ℓ where
  ok : A → SmResult A
  err : SmError → SmResult A
  dm_failed : SmResult A

-- An entry: its page and data item, the item's data, and XMIN and XMAX.
pub record Entry : Type 0 where
  pub pg : Page
  pub di : Dataitem
  pub bytes : List ℕ
  pub version : Version

unfoldable pub new_serializability_manager : TransactionManager → DataManager → Sm
new_serializability_manager tm dm = record {
  tm = tm;
  dm = dm;
  tc = insert super_xid (new_transaction super_xid 0 []) [];
  lt = new_lock_table;
}

abbrev pub entry_of : Page → Dataitem → Option (SmResult Entry)
entry_of pg di = do
  bytes ← data_of pg di
  xmin ← xmin_of bytes
  xmax ← xmax_of bytes
  some (
      ok
        (record { pg = pg; di = di; bytes = bytes; version = record { xmin = xmin; xmax = xmax } }))

abbrev pub loaded : DmResult (Option (Page × Dataitem)) → Option (SmResult Entry)
loaded (DmResult.ok none) = some (err nil_entry)
loaded (DmResult.ok (some (pg, di))) = entry_of pg di
loaded err_busy = some dm_failed
loaded err_data_too_large = some dm_failed
loaded no_page = some dm_failed

-- ec.Get(uuid), by LoadEntry.
unfoldable pub get_entry : DataManager → ℕ → Option (SmResult Entry)
get_entry dm uuid = DataManager.read dm uuid >>= loaded

abbrev pub visible : Sm → Transaction → Entry → Bool
visible sm t e = is_visible (is_committed sm.tm) t e.version

abbrev pub shown : Sm → Transaction → SmResult Entry → SmResult (Option (List ℕ))
shown sm t (ok e) = ok (if visible sm t e then some (entry_data_of e.bytes) else none)
shown sm t (err x) = err x
shown sm t dm_failed = dm_failed

unfoldable pub read : Sm → ℕ → ℕ → Option (SmResult (Option (List ℕ)))
unfolding get_entry
read sm xid uuid = do
  t ← lookup xid sm.tc
  elim t.error [ some x ↦ some (err x) | none ↦ do r ← get_entry sm.dm uuid; some (shown sm t r) ]

abbrev pub inserted : Sm → DmResult ℕ × DataManager → SmResult ℕ × Sm
inserted sm (DmResult.ok uuid, dm) = (ok uuid, record sm { dm = dm })
inserted sm (err_busy, dm) = (dm_failed, record sm { dm = dm })
inserted sm (err_data_too_large, dm) = (dm_failed, record sm { dm = dm })
inserted sm (no_page, dm) = (dm_failed, record sm { dm = dm })

unfoldable pub insert_entry : Sm → ℕ → List ℕ → Option (SmResult ℕ × Sm)
insert_entry sm xid bs = do
  t ← lookup xid sm.tc
  elim t.error [
    | some x ↦ some (err x, sm)
    | none ↦ do r ← DataManager.insert sm.dm xid (wrap_entry_raw xid bs); some (inserted sm r)
  ]

unfoldable pub keys : Map Transaction → List ℕ
keys [] = []
keys ((xid, t) ∷ tc) = xid ∷ keys tc

unfoldable pub begin : Sm → ℕ → ℕ × Sm
unfolding keys
begin sm level =
    let (xid, tm) = Tm.begin sm.tm in
    (xid, record sm { tm = tm; tc = insert xid (new_transaction xid level (keys sm.tc)) sm.tc })

-- What Commit finds under the mutex.
pub data Taken : Type 0 where
  gone : Taken
  failed : SmError → Taken
  taken : Taken

unfoldable pub commit_take : Sm → ℕ → Taken × Sm
commit_take sm xid = elim (lookup xid sm.tc) [
  | none ↦ (gone, sm)
  | some t ↦ elim t.error [
    | some x ↦ (failed x, sm)
    | none ↦ (taken, record sm { tc = remove xid sm.tc })
  ]
]

-- sm.lt.Remove, with the transactions that it wakes.
unfoldable pub release : Sm → ℕ → Option (Sm × List ℕ)
release sm xid = do (lt, woke) ← remove_xid sm.lt xid; some (record sm { lt = lt }, woke)

unfoldable pub commit_mark : Sm → ℕ → Sm
commit_mark sm xid = record sm { tm = Tm.commit sm.tm xid }

abbrev pub commit_rest : ℕ → Taken × Sm → Option (SmResult (Unit {0}) × Sm × List ℕ)
commit_rest xid (gone, sm) = some (ok tt, sm, [])
commit_rest xid (failed x, sm) = some (err x, sm, [])
commit_rest xid (taken, sm) = do
  (sm', woke) ← release sm xid
  some (ok tt, commit_mark sm' xid, woke)

unfoldable pub commit : Sm → ℕ → Option (SmResult (Unit {0}) × Sm × List ℕ)
unfolding commit_take release commit_mark
commit sm xid = commit_rest xid (commit_take sm xid)

-- abort behind the look at the transaction.
abbrev pub abort_rest : Sm → ℕ → Bool → Option (Sm × List ℕ)
abort_rest sm xid true = some (sm, [])
abort_rest sm xid false = do
  (sm', woke) ← release sm xid
  some (record sm' { tm = Tm.abort sm'.tm xid }, woke)

unfoldable pub abort : Sm → ℕ → Bool → Option (Sm × List ℕ)
unfolding release
abort sm xid auto = do
  t ← lookup xid sm.tc
  abort_rest (if auto then sm else record sm { tc = remove xid sm.tc }) xid t.auto_abortted

-- t.Err = ErrCannotSR
abbrev pub refuse : Sm → ℕ → Transaction → Sm
refuse sm xid t = record sm { tc = insert xid (record t { error = some cannot_sr }) sm.tc }

-- abort(xid, true), and the mark of the transaction behind it.
unfoldable pub auto_abort : Sm → ℕ → Option (Sm × List ℕ)
unfolding abort
auto_abort sm xid = do
  (sm', woke) ← abort sm xid true
  t ← lookup xid sm'.tc
  some (record sm' { tc = insert xid (record t { auto_abortted = true }) sm'.tc }, woke)

-- How a part of Delete ends. `held` goes on with the write, `waits` when the channel has its answer;
-- `refused` goes on with the automatic abort and then returns ErrCannotSR.
pub data Step : Type 0 where
  answered : SmResult Bool → Step
  held waits refused : Step

abbrev pub after_lock : Sm → ℕ → Transaction → Answer × LockTable → Step × Sm
after_lock sm xid t (granted, lt) = (held, record sm { lt = lt })
after_lock sm xid t (waiting, lt) = (waits, record sm { lt = lt })
after_lock sm xid t (deadlock, lt) = (refused, refuse (record sm { lt = lt }) xid t)

-- The first part of Delete, up to the wait.
abbrev pub ask_entry : Sm → ℕ → ℕ → Transaction → SmResult Entry → Option (Step × Sm)
ask_entry sm xid uuid t (err x) = some (answered (err x), sm)
ask_entry sm xid uuid t dm_failed = some (answered dm_failed, sm)
ask_entry sm xid uuid t (ok e) =
    if visible sm t e
    then (do r ← LockTable.add sm.lt xid uuid; some (after_lock sm xid t r))
    else some (answered (ok false), sm)

unfoldable pub delete_ask : Sm → ℕ → ℕ → Option (Step × Sm)
unfolding get_entry
delete_ask sm xid uuid = do
  t ← lookup xid sm.tc
  elim t.error [
    | some x ↦ some (answered (err x), sm)
    | none ↦ do r ← get_entry sm.dm uuid; ask_entry sm xid uuid t r
  ]

-- e.SetXMAX(xid), on the page and in the log.
unfoldable pub set_entry_xmax : DataManager → ℕ → Entry → Option DataManager
unfolding before put_page log_dataitem
set_entry_xmax dm xid e = do
  let (pg, di) = before e.pg e.di
  bounds (leb (entry_of_xmax + 8) (length e.bytes))
  let pg' = record pg { bytes = put_uuid pg.bytes (di.offset + of_data + entry_of_xmax) xid }
  some (log_dataitem (record dm { pc = put_page dm.pc pg' }) xid pg' di)

-- The last part of Delete, behind the wait.
abbrev pub write_entry : Sm → ℕ → Transaction → SmResult Entry → Option (Step × Sm)
write_entry sm xid t (err x) = none
write_entry sm xid t dm_failed = none
write_entry sm xid t (ok e) =
    if e.version.xmax == xid
    then some (answered (ok false), sm)
    else if is_version_skip (is_committed sm.tm) t e.version
    then some (refused, refuse sm xid t)
    else (do dm ← set_entry_xmax sm.dm xid e; some (answered (ok true), record sm { dm = dm }))

unfoldable pub delete_write : Sm → ℕ → ℕ → Option (Step × Sm)
unfolding get_entry set_entry_xmax
delete_write sm xid uuid = do
  t ← lookup xid sm.tc
  elim t.error [
    | some x ↦ some (answered (err x), sm)
    | none ↦ do r ← get_entry sm.dm uuid; write_entry sm xid t r
  ]

abbrev pub end_refused : Sm × List ℕ → Step × Sm × List ℕ
end_refused (sm, woke) = (answered (err cannot_sr), sm, woke)

-- A part of Delete with the automatic abort.
abbrev pub ended : ℕ → Step × Sm → Option (Step × Sm × List ℕ)
ended xid (refused, sm) = do r ← auto_abort sm xid; some (end_refused r)
ended xid (s, sm) = some (s, sm, [])

unfoldable pub delete_wake : Sm → ℕ → ℕ → Option (Step × Sm × List ℕ)
unfolding delete_write auto_abort
delete_wake sm xid uuid = delete_write sm xid uuid >>= ended xid

abbrev pub go_on : ℕ → ℕ → Step × Sm → Option (Step × Sm × List ℕ)
go_on xid uuid (held, sm) = delete_wake sm xid uuid
go_on xid uuid (s, sm) = ended xid (s, sm)

-- Delete, up to its end or its wait; `delete_wake` is what follows a wait.
unfoldable pub delete : Sm → ℕ → ℕ → Option (Step × Sm × List ℕ)
unfolding delete_ask delete_wake auto_abort
delete sm xid uuid = delete_ask sm xid uuid >>= go_on xid uuid
