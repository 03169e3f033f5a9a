-- ===== src/Tests/Locks.antt =====
-- The lock table at concrete inputs.
use wisdb.Sm.LockTable.{
  LockTable, Answer, new_lock_table, add, remove_xid, select_new_xid, is_in_list,
}
use wisdb.Sm.LockTable.Exclusive.{IsExclusive, add-IsExclusive, remove_xid-IsExclusive}
use wisdb.Sm.LockTable.Hang.{add_hangs}
use wisdb.Sm.LockTable.Handover.{handed_never_released}
use wisdb.Sm.LockTable.{put_into_list, release_all, first_waiter, has_dead_lock}
use wisdb.Base.{arith, ◌∷◌, ◌≡◌, lookup, [], some, refl, none, has_key, remove, ◌≢◌}
use wisdb.Base.{insert, true, ℕ}
use wisdb.Sm.LockTable.{add_edge, search_from, dfs, resolve, remove_loop, list_at}

new-IsExclusive : IsExclusive new_lock_table
unfolding new_lock_table is_in_list lookup
new-IsExclusive xid uid h = ground arith

-- Transaction 1 holds resource 10.
abbrev held : LockTable
held = record { x2u = (1, 10 ∷ []) ∷ []; u2x = (10, 1) ∷ []; wait = []; wait_ch = []; xwaitu = [] }

held_added : add new_lock_table 1 10 ≡ some (Answer.granted, held)
unfolding add new_lock_table is_in_list put_into_list lookup has_key insert
held_added = refl

add-IsExclusive_example : IsExclusive held
add-IsExclusive_example =
    add-IsExclusive new_lock_table 1 10 Answer.granted held new-IsExclusive held_added

abbrev freed : LockTable
freed = record { x2u = []; u2x = []; wait = []; wait_ch = []; xwaitu = [] }

held-IsExclusive : IsExclusive held
held-IsExclusive =
    add-IsExclusive new_lock_table 1 10 Answer.granted held new-IsExclusive held_added

held_removed : remove_xid held 1 ≡ some (freed, [])
unfolding remove_xid select_new_xid release_all lookup remove
held_removed = refl

remove_xid-IsExclusive_example : IsExclusive freed
remove_xid-IsExclusive_example =
    remove_xid-IsExclusive held 1 freed [] held-IsExclusive held_removed

-- Transaction 2 waits for resource 10, which transaction 1 holds.
abbrev queued : LockTable
queued = record held { wait = (10, 2 ∷ []) ∷ []; wait_ch = (2, tt) ∷ []; xwaitu = (2, 10) ∷ [] }

queued-IsExclusive : IsExclusive queued
queued-IsExclusive = held-IsExclusive

-- Transaction 1 has ended, and then transaction 2.
abbrev given : LockTable
given = record { x2u = []; u2x = (10, 2) ∷ []; wait = []; wait_ch = []; xwaitu = [] }

queued_removed : remove_xid queued 1 ≡ some (given, 2 ∷ [])
unfolding remove_xid release_all select_new_xid first_waiter lookup has_key insert remove
queued_removed = refl

given_removed : remove_xid given 2 ≡ some (given, [])
unfolding remove_xid release_all lookup remove
given_removed = refl

abbrev stuck : LockTable
stuck = record given { wait = (10, 3 ∷ []) ∷ []; wait_ch = (3, tt) ∷ []; xwaitu = (3, 10) ∷ [] }

given_asked : add given 3 10 ≡ some (Answer.waiting, stuck)
unfolding add resolve has_dead_lock is_in_list put_into_list lookup has_key insert search_from dfs
given_asked = refl

handed_never_released_example : (lookup 10 given.u2x ≡ some 2) × (Answer.waiting ≢ Answer.granted)
unfolding lookup has_key
handed_never_released_example =
    handed_never_released queued given given stuck 10 2 1 3 [] (2 ∷ []) [] Answer.waiting
      queued-IsExclusive (omega arith) refl refl refl queued_removed given_removed given_asked

-- Transaction 1 holds 10 and transaction 2 holds 20 and waits for 10; then 3 waits for 20.
abbrev chained : LockTable
chained = record {
  x2u = (1, 10 ∷ []) ∷ (2, 20 ∷ []) ∷ [];
  u2x = (10, 1) ∷ (20, 2) ∷ [];
  wait = (10, 2 ∷ []) ∷ [];
  wait_ch = (2, tt) ∷ [];
  xwaitu = (2, 10) ∷ [];
}

abbrev knot : LockTable
knot = record chained {
  wait = (20, 3 ∷ []) ∷ (10, 2 ∷ []) ∷ [];
  wait_ch = (3, tt) ∷ (2, tt) ∷ [];
  xwaitu = (3, 20) ∷ (2, 10) ∷ [];
}

chained_waited : add chained 3 20 ≡ some (Answer.waiting, knot)
unfolding add resolve has_dead_lock is_in_list put_into_list lookup has_key insert search_from dfs
chained_waited = refl

knot_dead : has_dead_lock (add_edge knot 1 20) ≡ some true
unfolding has_dead_lock put_into_list lookup insert has_key remove search_from dfs
knot_dead = refl

add_hangs_example :
    (add knot 1 20 ≡ none)
    × ((rounds : ℕ) → remove_loop rounds (list_at (add_edge knot 1 20).wait 20) 1 ≡ none)
unfolding lookup has_key is_in_list
add_hangs_example = add_hangs chained knot 1 20 3 refl chained_waited (omega arith) refl knot_dead
