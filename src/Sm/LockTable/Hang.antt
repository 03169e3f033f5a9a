-- ===== src/Sm/LockTable/Hang.antt =====
-- The removal of an edge from a queue that another transaction heads.
use wisdb.Sm.LockTable.{
  LockTable, Answer, add, add_edge, resolve, has_dead_lock, is_in_list, remove_from_list,
  put_into_list, list_at, remove_loop,
}
use wisdb.Base.{ℕ, ◌>>=◌, List, lookup, ◌≡◌, some, false, has_key, true, ◌∷◌, ◌≢◌, none}
use wisdb.Base.{refl, arith, lookup-insert, ◌++◌, [], ==_refl, suc, Bool-cases, length}
use wisdb.Base.{inl, zero, inr, Option-cases, ap}
use wisdb.Sm.LockTable.{store_or_delete}

-- However many rounds it is given, the loop does not get past a front that is another's.
remove_loop_stays :
    (rounds y : ℕ) (l : List ℕ) (xid : ℕ) → y ≢ xid → remove_loop rounds (y ∷ l) xid ≡ none
unfolding remove_loop
remove_loop_stays zero y l xid differs = refl
remove_loop_stays (suc rounds) y l xid differs =
    ground (arith, remove_loop_stays rounds y l xid differs)

queue_of :
    (lt : LockTable) (xid uid y : ℕ) (l : List ℕ)
    → lookup uid lt.wait ≡ some (y ∷ l)
    → lookup uid (put_into_list lt.wait uid xid) ≡ some (y ∷ (l ++ (xid ∷ [])))
unfolding put_into_list
queue_of lt xid uid y l queue =
    ground (arith, lookup-insert uid uid (list_at lt.wait uid ++ (xid ∷ [])) lt.wait, ==_refl uid)

behind_another :
    (lt : LockTable) (xid uid y : ℕ) (l : List ℕ)
    → lookup uid lt.wait ≡ some (y ∷ l)
    → y ≢ xid
    → remove_from_list (put_into_list lt.wait uid xid) uid xid ≡ none
unfolding remove_from_list
behind_another lt xid uid y l queue differs =
    let long = suc (length (y ∷ (l ++ (xid ∷ [])))) in
    rw (queue_of lt xid uid y l queue) (
      ap (λ o. o >>= λ rest. some (store_or_delete (put_into_list lt.wait uid xid) uid rest))
        (remove_loop_stays long y (l ++ (xid ∷ [])) xid differs))

-- Who is told to wait for a resource is assigned elsewhere, and stands in its queue.
add_waited :
    (lt : LockTable) (y uid : ℕ) (lt1 : LockTable)
    → add lt y uid ≡ some (Answer.waiting, lt1)
    → lookup uid lt.wait ≡ none
    → (has_key uid lt1.u2x ≡ true) × (lookup uid lt1.wait ≡ some (y ∷ []))
unfolding add resolve put_into_list
add_waited lt y uid lt1 h none_waits = elim (Bool-cases (is_in_list lt.x2u y uid)) [
  | inl mine ↦ absurd (cc (rw mine at h))
  | inr other ↦ elim (Bool-cases (has_key uid lt.u2x)) [
    | inr free ↦ absurd (cc (rw (other, free) at h))
    | inl taken ↦ elim (Option-cases (has_dead_lock (add_edge lt y uid))) [
      | inl e ↦ absurd (cc (rw (other, taken, e) at h))
      | inr (true, e) ↦
          ground (arith, Option-cases (remove_from_list (add_edge lt y uid).wait uid y))
      | inr (false, e) ↦
          ground
            (arith, lookup-insert uid uid (list_at lt.wait uid ++ (y ∷ [])) lt.wait, ==_refl uid)
    ]
  ]
]

-- A transaction is told to wait for a resource that nobody else waits for. If now the wait of
-- another one for it, which does not hold it, would be a deadlock, the second `Add` does not
-- return: the loop that takes the edge back stays at the front of the queue, however many rounds it
-- takes.
pub add_hangs :
    (lt lt1 : LockTable) (xid uid y : ℕ)
    → lookup uid lt.wait ≡ none
    → add lt y uid ≡ some (Answer.waiting, lt1)
    → y ≢ xid
    → is_in_list lt1.x2u xid uid ≡ false
    → has_dead_lock (add_edge lt1 xid uid) ≡ some true
    → (add lt1 xid uid ≡ none)
      × ((rounds : ℕ) → remove_loop rounds (list_at (add_edge lt1 xid uid).wait uid) xid ≡ none)
unfolding add resolve
add_hangs lt lt1 xid uid y alone waits differs other dead =
    let (taken, queue) = add_waited lt y uid lt1 waits alone in
    (
      rw (other, taken, dead, behind_another lt1 xid uid y [] queue differs) refl,
      λ rounds.
          rw (list_at, queue_of lt1 xid uid y [] queue)
            (remove_loop_stays rounds y (xid ∷ []) xid differs),
    )
