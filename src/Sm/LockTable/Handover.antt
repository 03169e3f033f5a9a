-- ===== src/Sm/LockTable/Handover.antt =====
-- A resource that is handed to a waiting transaction is not entered in that transaction's list.
use wisdb.Sm.LockTable.{
  LockTable, select_new_xid, remove_xid, first_waiter, member, list_at, release_all, serve_queue,
}
use wisdb.Sm.LockTable.Exclusive.{
  release_all_frame, cleared_of, IsExclusive, remove_xid-IsExclusive,
}
use wisdb.Base.{ℕ, Map, List, lookup, ◌≡◌, some, ◌∷◌, has_key, true, [], false, remove}
use wisdb.Base.{Option-cases, arith, inl, lookup-insert, inr, ==_refl, ◌∙◌, ap, ◌≢◌}
use wisdb.Sm.LockTable.{is_in_list, add, Answer}
use wisdb.Base.{Bool-cases}
use wisdb.Sm.LockTable.Exclusive.{is_in_list-remove, waits-IsExclusive}

handed :
    (lt : LockTable) (uid x : ℕ) (l : List ℕ)
    → lookup uid lt.wait ≡ some (x ∷ l)
    → has_key x lt.wait_ch ≡ true
    → (lt' : LockTable) × (select_new_xid lt uid ≡ some (lt', x ∷ []))
      × (lookup uid lt'.u2x ≡ some x)
      × (lt'.x2u ≡ lt.x2u)
unfolding select_new_xid first_waiter
handed lt uid x l queue waits = (
  (serve_queue (record lt { u2x = remove uid lt.u2x }) uid (x ∷ l)).0,
  ground (arith),
  ground (arith, lookup-insert uid uid x (remove uid lt.u2x), ==_refl uid),
  ground (arith),
)

-- What Remove of the holder leaves: the resource is the waiting transaction's, in nobody's list.
remove_handed :
    (lt : LockTable) (uid x y : ℕ) (l : List ℕ) (lt1 : LockTable) (w : List ℕ)
    → list_at lt.x2u y ≡ uid ∷ []
    → lookup uid lt.wait ≡ some (x ∷ l)
    → has_key x lt.wait_ch ≡ true
    → remove_xid lt y ≡ some (lt1, w)
    → (lookup uid lt1.u2x ≡ some x) × (lt1.x2u ≡ remove y lt.x2u)
unfolding remove_xid release_all
remove_handed lt uid x y l lt1 w listed queue waits removed =
    let (lt', given, assigned, same) = handed lt uid x l queue waits in
    let done : cleared_of lt' y ≡ lt1 = ground (arith) in rw (← done) (assigned, ap (remove y) same)

unlisted :
    (lt lt1 : LockTable) (uid x y : ℕ)
    → IsExclusive lt
    → x ≢ y
    → list_at lt.x2u y ≡ uid ∷ []
    → lt1.x2u ≡ remove y lt.x2u
    → member (list_at lt1.x2u x) uid ≡ false
unfolding is_in_list
unlisted lt lt1 uid x y v differs listed lists =
    elim (Bool-cases (member (list_at lt1.x2u x) uid)) [
      | inr free ↦ free
      | inl m ↦
          let (apart, mine) = is_in_list-remove lt.x2u y x uid (rw lists at m) in
          ground (arith, v x uid mine, v y uid (rw listed (ground (arith, ==_refl uid))))
    ]

ended :
    (lt1 : LockTable) (uid x : ℕ) (lt2 : LockTable) (w' : List ℕ)
    → member (list_at lt1.x2u x) uid ≡ false
    → remove_xid lt1 x ≡ some (lt2, w')
    → (lookup uid lt2.u2x ≡ lookup uid lt1.u2x) × (lt2.x2u ≡ remove x lt1.x2u)
unfolding remove_xid
ended lt1 uid x lt2 w' free removed = elim (Option-cases (release_all (list_at lt1.x2u x) lt1)) [
  | inl e ↦ ground (arith)
  | inr ((ltr, wr), e) ↦
      let f = release_all_frame (list_at lt1.x2u x) lt1 uid ltr wr e in
      let done : cleared_of ltr x ≡ lt2 = ground (arith) in
      rw (← done) (f.1 free, ap (remove x) f.0)
]

has_lookup : (u : ℕ) (m : Map ℕ) (x : ℕ) → lookup u m ≡ some x → has_key u m ≡ true
unfolding has_key
has_lookup u m x h = ground (arith)

-- In a lock table whose assignment is exclusive, a transaction that holds one resource ends, and
-- the resource goes to the first transaction that waits for it. When that one has ended too, the
-- resource is still assigned to it, and `Add` grants it to nobody, wherever these calls return.
pub handed_never_released :
    (lt lt1 lt2 lt3 : LockTable) (uid x y z : ℕ) (l w w' : List ℕ) (a : Answer)
    → IsExclusive lt
    → x ≢ y
    → list_at lt.x2u y ≡ uid ∷ []
    → lookup uid lt.wait ≡ some (x ∷ l)
    → has_key x lt.wait_ch ≡ true
    → remove_xid lt y ≡ some (lt1, w)
    → remove_xid lt1 x ≡ some (lt2, w')
    → add lt2 z uid ≡ some (a, lt3)
    → (lookup uid lt2.u2x ≡ some x) × (a ≢ Answer.granted)
unfolding add
handed_never_released lt lt1 lt2 lt3 uid x y z l w w' a v differs listed queue waits first second
      asked =
    let (assigned, lists) = remove_handed lt uid x y l lt1 w listed queue waits first in
    let v1 = remove_xid-IsExclusive lt y lt1 w v first in
    let v2 = remove_xid-IsExclusive lt1 x lt2 w' v1 second in
    let (kept, lists2) =
      ended lt1 uid x lt2 w' (unlisted lt lt1 uid x y v differs listed lists) second in
    let still : lookup uid lt2.u2x ≡ some x = kept ∙ assigned in
    let nobody : is_in_list lt2.x2u z uid ≡ false = elim (Bool-cases (is_in_list lt2.x2u z uid)) [
      | inl m ↦
          let same : z ≡ x = ground (arith, v2 z uid m) in
          let gone = is_in_list-remove lt1.x2u x z uid (rw lists2 at m) in
          ground (arith, gone.0, ==_refl x)
      | inr free ↦ free
    ] in
    let taken = has_lookup uid lt2.u2x x still in
    (still, (waits-IsExclusive lt2 z uid v2 a lt3 (rw (nobody, taken) at asked)).1)
