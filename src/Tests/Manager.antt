-- ===== src/Tests/Manager.antt =====
-- The serializability manager at concrete inputs.
use wisdb.Dm.Logger
use wisdb.Sm.Manager.{read}
use wisdb.Base.{ℕ, List, [], ◌∷◌, ◌<◌, lookup, ◌^◌, ◌≡◌, some, arith, false, none}
use wisdb.Tm.{TransactionManager, is_committed}
use wisdb.Tm.Status.{IsTm}
use wisdb.Dm.PageX.{px_init_raw}
use wisdb.Dm.PageX.Fso.{IsPage, px_init_raw-IsPage}
use wisdb.Dm.Dataitem.RoundTrip.{item_bytes, inserted_here, length-item_bytes}
use wisdb.Dm.DataManager.{DataManager, pick}
use wisdb.Sm.Manager.Entries.{IsStored, length-entry_bytes}
use wisdb.Sm.Transaction.{Transaction, in_snap_shot}
use wisdb.Sm.LockTable.{LockTable, remove_xid, release_all, new_lock_table, select_new_xid}
use wisdb.Sm.Manager.{Sm, delete_write, commit, insert_entry, SmResult, answered}
use wisdb.Dm.Pindex.{Pindex, new_pindex, select, select_from, first_interval}
use wisdb.Base.{true, replicate, refl, ◌++◌, pos, insert, remove, has_key, drop}
use wisdb.Sm.LockTable.{first_waiter}
use wisdb.Utils.IntEncoding.{to_bytes}
use wisdb.Tm.Restart.{queries-status}
use wisdb.Dm.PageX.Replay.{page, after}
use wisdb.Sm.Entry.RoundTrip.{entry_bytes}
use wisdb.Dm.Address.{address_to_uuid}
use wisdb.Dm.Pindex.Room.{IsPindex, new_pindex-IsPindex}
use wisdb.Sm.Manager.{refused, refuse, commit_take, taken, release}
use wisdb.Base.{◌+◌, ◌≢◌, length}
use wisdb.Sm.Manager.Isolated.{delete_write-read}
use wisdb.Sm.Manager.OwnInsert.{insert_entry-read}
use wisdb.Sm.Manager.CommitRace.{lost_update}

-- Transaction 1 has committed, 2 and 3 are active.
abbrev three : List ℕ
three = 1 ∷ 0 ∷ 0 ∷ []

abbrev tm3 : TransactionManager
tm3 = record { file = to_bytes 8 3 ++ three; xid_counter = 3 }

tm3-IsTm : IsTm tm3 three
tm3-IsTm = record { content = refl; counted = refl; in_range = omega arith }

open_two : is_committed tm3 2 ≡ false
open_two = (queries-status tm3 three 2 tm3-IsTm (omega arith)).1

abbrev text : List ℕ
text = 7 ∷ 8 ∷ 9 ∷ []

abbrev empty_page : List ℕ
empty_page = px_init_raw

empty_page-IsPage : IsPage (page 2 empty_page) 2
empty_page-IsPage = px_init_raw-IsPage 2 false

-- Page 2 holds one entry of transaction 1, with an XMAX.
abbrev row : ℕ → List ℕ
row xmax = item_bytes 0 (entry_bytes 1 xmax text)

abbrev store : ℕ → DataManager
store xmax = record {
  pc = empty_page ∷ after empty_page 2 (row xmax) ∷ [];
  lg = Logger.create;
  pidx = new_pindex;
}

store-IsStored : (xmax : ℕ) → xmax < 2 ^ 64 → IsStored (store xmax) 1 2 1 xmax text
store-IsStored xmax h = record {
  b = after empty_page 2 (row xmax);
  rest = drop (2 + length (row xmax)) empty_page;
  found = refl;
  here = inserted_here (page 2 empty_page) 2 (row xmax) empty_page-IsPage (
      omega (arith, length-item_bytes 0 (entry_bytes 1 xmax text), length-entry_bytes 1 xmax text));
  number = omega arith;
  place = omega arith;
  small = omega arith;
  creator = omega arith;
  deleter = h;
}

-- Transaction 3 at the repeatable level began while 2 was active.
abbrev second : Transaction
second = record { xid = 2; level = 1; snapshot = []; error = none; auto_abortted = false }

abbrev third : Transaction
third = record { xid = 3; level = 1; snapshot = 2 ∷ []; error = none; auto_abortted = false }

-- Transaction 2 holds the entry's lock and 3 waits for it.
abbrev lock_id : ℕ
lock_id = 8589934594

abbrev locks : LockTable
locks = record {
  x2u = (2, lock_id ∷ []) ∷ [];
  u2x = (lock_id, 2) ∷ [];
  wait = (lock_id, 3 ∷ []) ∷ [];
  wait_ch = (3, tt) ∷ [];
  xwaitu = (3, lock_id) ∷ [];
}

abbrev handed : LockTable
handed = record { x2u = []; u2x = (lock_id, 3) ∷ []; wait = []; wait_ch = []; xwaitu = [] }

handed_lem : remove_xid locks 2 ≡ some (handed, 3 ∷ [])
unfolding remove_xid release_all select_new_xid first_waiter lookup insert remove has_key
handed_lem = refl

abbrev sm : ℕ → Sm
sm xmax = record { tm = tm3; dm = store xmax; tc = (2, second) ∷ (3, third) ∷ []; lt = locks }

has_two : (xmax : ℕ) → lookup 2 (sm xmax).tc ≡ some second
unfolding lookup
has_two xmax = refl

has_three : (xmax : ℕ) → lookup 3 (sm xmax).tc ≡ some third
unfolding lookup
has_three xmax = refl

two_seen : in_snap_shot third 2 ≡ true
unfolding in_snap_shot
two_seen = refl

delete_write-read_example :
    (sm' : Sm) × (delete_write (sm 0) 2 (address_to_uuid 2 2)
      ≡ some (answered (SmResult.ok true), sm'))
    × (read sm' 2 (address_to_uuid 2 2) ≡ some (SmResult.ok none))
    × ((y : ℕ) (u : Transaction)
        → lookup y (sm 0).tc ≡ some u
        → u.error ≡ none
        → u.xid ≢ 2
        → u.xid ≢ 1
        → read sm' y (address_to_uuid 2 2) ≡ read (sm 0) y (address_to_uuid 2 2))
delete_write-read_example =
    delete_write-read (sm 0) 2 1 2 1 text second (store-IsStored 0 (omega arith)) (has_two 0) refl
      refl (omega arith) (omega arith) open_two

lost_update_example :
    (taken_sm sm1 sm2 : Sm) × (dm' : DataManager) × (commit (sm 2) 2
      ≡ some (SmResult.ok tt, sm2, 3 ∷ []))
    × (delete_write sm2 3 (address_to_uuid 2 2) ≡ some (refused, refuse sm2 3 third))
    × (commit_take (sm 2) 2 ≡ (taken, taken_sm))
    × (release taken_sm 2 ≡ some (sm1, 3 ∷ []))
    × (delete_write sm1 3 (address_to_uuid 2 2)
        ≡ some (answered (SmResult.ok true), record sm1 { dm = dm' }))
    × IsStored dm' 1 2 1 3 text
lost_update_example =
    lost_update (sm 2) three 3 2 1 2 1 text third second handed (3 ∷ []) tm3-IsTm (omega arith)
      (omega arith) open_two (has_two 2) refl (has_three 2) refl (omega arith) two_seen
      (omega arith) (omega arith) (store-IsStored 2 (omega arith)) handed_lem

-- A manager whose index holds page 2, which is empty.
abbrev index : Pindex
index = record { lists = replicate 40 [] ++ (((2, pos 8190) ∷ []) ∷ []) }

abbrev empty_sm : Sm
empty_sm = record {
  tm = tm3;
  dm = record { pc = empty_page ∷ empty_page ∷ []; lg = Logger.create; pidx = index };
  tc = (2, second) ∷ (3, third) ∷ [];
  lt = new_lock_table;
}

abbrev picked_dm : DataManager
picked_dm = record {
  pc = empty_page ∷ empty_page ∷ [];
  lg = Logger.create;
  pidx = record { lists = replicate 41 [] };
}

picks : pick 5 empty_sm.dm 22 ≡ some (some (2, pos 8190), picked_dm)
unfolding pick select select_from first_interval
picks = refl

none_left : IsPindex picked_dm.pidx
unfolding new_pindex
none_left = new_pindex-IsPindex

insert_entry-read_example :
    (sm' : Sm) × (insert_entry empty_sm 2 text ≡ some (SmResult.ok (address_to_uuid 2 2), sm'))
    × (read sm' 2 (address_to_uuid 2 2) ≡ some (SmResult.ok (some text)))
    × ((y : ℕ) (u : Transaction)
        → lookup y empty_sm.tc ≡ some u
        → u.error ≡ none
        → u.xid ≢ 2
        → read sm' y (address_to_uuid 2 2) ≡ some (SmResult.ok none))
insert_entry-read_example =
    insert_entry-read empty_sm 2 1 2 empty_page text (pos 8190) second picked_dm (has_two 0) refl
      refl (omega arith) open_two picks (omega arith) refl empty_page-IsPage (omega arith) none_left
