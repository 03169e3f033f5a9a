-- ===== src/Sm/LockTable/Exclusive.antt =====
-- A resource in the list of a transaction is that transaction's: no two hold one resource.
use wisdb.Sm.LockTable.{
  LockTable, Answer, add, resolve, select_new_xid, release_all, remove_xid, is_in_list,
  put_into_list, first_waiter, member, list_at,
}
use wisdb.Base.{ℕ, List, Map, has_key, ◌≡◌, Bool, true, some, lookup, ◌≢◌, arith}
use wisdb.Base.{Option-cases, ◌++◌, if◌then◌else◌, ◌==◌, false, ◌∷◌, ◌||◌, [], lookup-insert}
use wisdb.Sm.LockTable.{remove_from_list, has_dead_lock, add_edge, hand_over, serve_queue}
use wisdb.Base.{none, insert, Bool-cases, ◌⊎◌, Option, remove, inl, inr, ==_refl}
use wisdb.Base.{lookup-remove, ◌∙◌, refl, ◌>>=◌}

-- Every resource in a transaction's list is assigned to it.
abbrev pub IsExclusive : LockTable → Type 0
IsExclusive lt = (xid uid : ℕ) → is_in_list lt.x2u xid uid ≡ true → lookup uid lt.u2x ≡ some xid

member-concat : (l : List ℕ) (u v : ℕ) → member (l ++ (u ∷ [])) v ≡ (member l v || u == v)
member-concat [] u v = ground arith
member-concat (x ∷ l) u v = ground (arith, member-concat l u v)

is_in_list-put_into_list :
    (m : Map (List ℕ)) (x u y v : ℕ)
    → is_in_list (put_into_list m x u) y v
      ≡ (if x == y then is_in_list m y v || u == v else is_in_list m y v)
unfolding is_in_list put_into_list
is_in_list-put_into_list m x u y v =
    ground (arith, lookup-insert x y (list_at m x ++ (u ∷ [])) m, member-concat (list_at m x) u v)

free_key : (u : ℕ) (m : Map ℕ) → has_key u m ≡ false → lookup u m ≡ none
unfolding has_key
free_key u m h = ground arith

resolve_same :
    (lt : LockTable) (xid uid : ℕ) (dead : Bool) (a : Answer) (lt' : LockTable)
    → resolve lt xid uid dead ≡ some (a, lt')
    → (lt'.x2u ≡ lt.x2u) × (lt'.u2x ≡ lt.u2x) × (a ≢ Answer.granted)
unfolding resolve
resolve_same lt xid uid true a lt' h =
    ground (arith, Option-cases (remove_from_list lt.wait uid xid))
resolve_same lt xid uid false a lt' h = ground arith

module _ (lt : LockTable) (xid uid : ℕ) (v : IsExclusive lt) where
  abbrev assigned : LockTable
  assigned = record lt { u2x = insert uid xid lt.u2x; x2u = put_into_list lt.x2u xid uid }

  assigned-IsExclusive : has_key uid lt.u2x ≡ false → IsExclusive assigned
  assigned-IsExclusive free y u h = ground (
    arith,
    is_in_list-put_into_list lt.x2u xid uid y u,
    lookup-insert uid u xid lt.u2x,
    v y u,
    free_key uid lt.u2x free,
  )

  pub waits-IsExclusive :
      (a : Answer) (lt' : LockTable)
      → (has_dead_lock (add_edge lt xid uid) >>= resolve (add_edge lt xid uid) xid uid)
        ≡ some (a, lt')
      → IsExclusive lt' × (a ≢ Answer.granted)
  waits-IsExclusive a lt' h = elim (Option-cases (has_dead_lock (add_edge lt xid uid))) [
    | inl e ↦ cc
    | inr (dead, e) ↦
        let r = resolve_same (add_edge lt xid uid) xid uid dead a lt' (rw e at h) in
        ((λ y u m. rw r.1 (v y u (rw r.0 at m))), r.2)
  ]

-- `Add` keeps the assignment exclusive on every path on which it returns.
pub add-IsExclusive :
    (lt : LockTable) (xid uid : ℕ) (a : Answer) (lt' : LockTable)
    → IsExclusive lt
    → add lt xid uid ≡ some (a, lt')
    → IsExclusive lt'
unfolding add
add-IsExclusive lt xid uid a lt' v h = elim (Bool-cases (is_in_list lt.x2u xid uid)) [
  | inl mine ↦ let e : lt ≡ lt' = ground (arith) in rw (← e) v
  | inr other ↦ elim (Bool-cases (has_key uid lt.u2x)) [
    | inl taken ↦ (waits-IsExclusive lt xid uid v a lt' (rw (other, taken) at h)).0
    | inr free ↦
        let e : assigned lt xid uid v ≡ lt' = ground (arith) in
        rw (← e) (assigned-IsExclusive lt xid uid v free)
  ]
]

-- Where `Add` grants a resource, it is assigned to the asker, and was so before or was free.
add_granted :
    (lt : LockTable) (xid uid : ℕ) (lt' : LockTable)
    → IsExclusive lt
    → add lt xid uid ≡ some (Answer.granted, lt')
    → (lookup uid lt'.u2x ≡ some xid)
      × ((lookup uid lt.u2x ≡ some xid) ⊎ (lookup uid lt.u2x ≡ none))
unfolding add
add_granted lt xid uid lt' v h = elim (Bool-cases (is_in_list lt.x2u xid uid)) [
  | inl mine ↦ ground (arith, v xid uid)
  | inr other ↦ elim (Bool-cases (has_key uid lt.u2x)) [
    | inl taken ↦
        absurd ((waits-IsExclusive lt xid uid v Answer.granted lt' (rw (other, taken) at h)).1 refl)
    | inr free ↦ ground (arith, free_key uid lt.u2x, lookup-insert uid uid xid lt.u2x, ==_refl uid)
  ]
]

hand_over_frame :
    (lt : LockTable) (uid u : ℕ) (w : Option ℕ)
    → ((hand_over lt uid w).x2u ≡ lt.x2u)
      × ((uid == u) ≡ false → lookup u (hand_over lt uid w).u2x ≡ lookup u lt.u2x)
hand_over_frame lt uid u none = (refl, λ _. refl)
hand_over_frame lt uid u (some x) = (refl, λ h. ground (arith, lookup-insert uid u x lt.u2x))

pub select_new_xid_frame :
    (lt : LockTable) (uid u : ℕ) (lt' : LockTable) (w : List ℕ)
    → select_new_xid lt uid ≡ some (lt', w)
    → (lt'.x2u ≡ lt.x2u) × ((uid == u) ≡ false → lookup u lt'.u2x ≡ lookup u lt.u2x)
unfolding select_new_xid
select_new_xid_frame lt uid u lt' w h = go (lookup uid lt.wait) h
  where
    cleared : LockTable
    cleared = record lt { u2x = remove uid lt.u2x }

    go :
        (q : Option (List ℕ))
        → elim q as (λ _. Option (LockTable × List ℕ)) [
          | none ↦ some (cleared, [])
          | some [] ↦ none
          | some (x ∷ l) ↦ some (serve_queue cleared uid (x ∷ l))
        ]
          ≡ some (lt', w)
        → (lt'.x2u ≡ lt.x2u) × ((uid == u) ≡ false → lookup u lt'.u2x ≡ lookup u lt.u2x)
    go none e =
        let same : cleared ≡ lt' = ground arith in
        rw (← same) (refl, λ d. ground (arith, lookup-remove uid u lt.u2x))
    go (some []) e = cc
    go (some (x ∷ l)) e =
        let w0 = (first_waiter cleared.wait_ch (x ∷ l)).0 in
        let f = hand_over_frame cleared uid u w0 in
        let same : (serve_queue cleared uid (x ∷ l)).0 ≡ lt' = ground arith in
        rw (← same) (f.0, λ d. f.1 d ∙ ground (arith, lookup-remove uid u lt.u2x))

pub release_all_frame :
    (uids : List ℕ) (lt : LockTable) (u : ℕ) (lt' : LockTable) (w : List ℕ)
    → release_all uids lt ≡ some (lt', w)
    → (lt'.x2u ≡ lt.x2u) × (member uids u ≡ false → lookup u lt'.u2x ≡ lookup u lt.u2x)
unfolding release_all
release_all_frame [] lt u lt' w h =
    let same : lt ≡ lt' = ground arith in rw (← same) (refl, λ _. refl)
release_all_frame (uid ∷ uids) lt u lt' w h = elim (Option-cases (select_new_xid lt uid)) [
  | inl e ↦ cc
  | inr ((lt1, w1), e) ↦ elim (Option-cases (release_all uids lt1)) [
    | inl e' ↦ ground (arith)
    | inr ((lt2, w2), e') ↦
        let one = select_new_xid_frame lt uid u lt1 w1 e in
        let two = release_all_frame uids lt1 u lt2 w2 e' in
        let same : lt2 ≡ lt' = ground (arith) in
        rw (← same) (two.0 ∙ one.0, λ d. two.1 (ground arith) ∙ one.1 (ground arith))
  ]
]

abbrev pub cleared_of : LockTable → ℕ → LockTable
cleared_of lt xid = record lt {
  xwaitu = remove xid lt.xwaitu;
  x2u = remove xid lt.x2u;
  wait_ch = remove xid lt.wait_ch;
}

pub is_in_list-remove :
    (m : Map (List ℕ)) (x y u : ℕ)
    → is_in_list (remove x m) y u ≡ true
    → ((x == y) ≡ false) × (is_in_list m y u ≡ true)
unfolding is_in_list
is_in_list-remove m x y u h = ground (arith, lookup-remove x y m)

not_mine :
    (lt : LockTable) (x y u : ℕ)
    → IsExclusive lt
    → (x == y) ≡ false
    → is_in_list lt.x2u y u ≡ true
    → member (list_at lt.x2u x) u ≡ false
not_mine lt x y u v differs h = elim (Bool-cases (member (list_at lt.x2u x) u)) [
  | inl both ↦ ground (arith, v y u h, v x u (unfold is_in_list in both))
  | inr free ↦ free
]

-- `Remove` keeps the assignment exclusive wherever it returns.
pub remove_xid-IsExclusive :
    (lt : LockTable) (xid : ℕ) (lt' : LockTable) (w : List ℕ)
    → IsExclusive lt
    → remove_xid lt xid ≡ some (lt', w)
    → IsExclusive lt'
unfolding remove_xid
remove_xid-IsExclusive lt xid lt' w v h y u m =
    elim (Option-cases (release_all (list_at lt.x2u xid) lt)) [
      | inl e ↦ ground (arith)
      | inr ((lt1, w1), e) ↦
          let f = release_all_frame (list_at lt.x2u xid) lt u lt1 w1 e in
          let same : cleared_of lt1 xid ≡ lt' = ground (arith) in
          let m' : is_in_list (remove xid lt1.x2u) y u ≡ true = rw (← same) at m in
          let old = rw f.0 at (is_in_list-remove lt1.x2u xid y u m') in
          rw (← same) (f.1 (not_mine lt xid y u v old.0 old.1) ∙ v y u old.1)
    ]
