-- ===== src/Sm/LockTable.antt =====
-- main/backend/sm/locktable/lock_table.go: which transaction (xid) holds or waits for which resource
-- (uid). The mutex makes Add and Remove steps. A channel is the fact that the transaction waits on
-- one; an answer sent on it is the transaction's id in a list. `none` is a run that ends in a failed
-- assertion or takes more rounds than its fuel.
pub mod Exclusive
pub mod Handover
pub mod Hang
use wisdb.Base.{Map, [], List, ℕ, Option, Bool, lookup, insert, some, remove, ◌∷◌}
use wisdb.Base.{if◌then◌else◌, none, ◌>>=◌, ◌>>◌, false, ◌++◌, ◌==◌, suc, ◌+◌, not}
use wisdb.Base.{has_key, true, ◌||◌, zero, length}

pub record LockTable : Type 0 where
  pub x2u : Map (List ℕ)
  pub u2x : Map ℕ
  pub wait : Map (List ℕ)
  pub wait_ch : Map (Unit {0})
  pub xwaitu : Map ℕ

pub data Answer : Type 0 where
  granted waiting deadlock : Answer

unfoldable pub new_lock_table : LockTable
new_lock_table = record { x2u = []; u2x = []; wait = []; wait_ch = []; xwaitu = [] }

abbrev pub member : List ℕ → ℕ → Bool
member [] uid1 = false
member (uid ∷ l) uid1 = uid == uid1 || member l uid1

abbrev pub list_at : Map (List ℕ) → ℕ → List ℕ
list_at m k = elim (lookup k m) [ none ↦ [] | some l ↦ l ]

unfoldable pub is_in_list : Map (List ℕ) → ℕ → ℕ → Bool
is_in_list m uid0 uid1 = member (list_at m uid0) uid1

unfoldable pub put_into_list : Map (List ℕ) → ℕ → ℕ → Map (List ℕ)
put_into_list m uid0 uid1 = insert uid0 (list_at m uid0 ++ (uid1 ∷ [])) m

-- The loop of removeFromList, which looks at the front of the list in each of its rounds.
unfoldable pub remove_loop : ℕ → List ℕ → ℕ → Option (List ℕ)
remove_loop zero l uid1 = none
remove_loop (suc rounds) [] uid1 = some []
remove_loop (suc rounds) (uid ∷ l) uid1 =
    let again = remove_loop rounds (uid ∷ l) uid1 in if uid == uid1 then some l else again

abbrev pub store_or_delete : Map (List ℕ) → ℕ → List ℕ → Map (List ℕ)
store_or_delete m k [] = remove k m
store_or_delete m k (x ∷ l) = insert k (x ∷ l) m

-- A round for each element and one more.
unfoldable pub remove_from_list : Map (List ℕ) → ℕ → ℕ → Option (Map (List ℕ))
unfolding remove_loop
remove_from_list m uid0 uid1 = do
  l ← lookup uid0 m
  rest ← remove_loop (suc (length l)) l uid1
  some (store_or_delete m uid0 rest)

-- `some (found, stamps)`; each further call stamps one more transaction.
unfoldable pub dfs : ℕ → LockTable → ℕ → Map ℕ → ℕ → Option (Bool × Map ℕ)
dfs zero lt xid stamps stamp = none
dfs (suc fuel) lt xid stamps stamp =
    let on = (λ (x : ℕ). dfs fuel lt x (insert xid stamp stamps) stamp) in
    elim (lookup xid stamps) [
      | some stp ↦ some (stp == stamp, stamps)
      | none ↦ elim (lookup xid lt.xwaitu) [
        | none ↦ some (false, insert xid stamp stamps)
        | some uid ↦ lookup uid lt.u2x >>= on
      ]
    ]

-- A stamp above 0 is any stamp: stamps count from 2.
unfoldable pub search_from : ℕ → LockTable → Map (List ℕ) → Map ℕ → ℕ → Option Bool
search_from fuel lt [] stamps stamp = some false
search_from fuel lt ((xid, l) ∷ rest) stamps stamp =
    let here = dfs fuel lt xid stamps (stamp + 1) in
    let skip = search_from fuel lt rest stamps stamp in
    let next = (λ (s : Map ℕ). search_from fuel lt rest s (stamp + 1)) in
    elim (has_key xid stamps) [
      | true ↦ skip
      | false ↦ elim here [ none ↦ none | some (found, s) ↦ if found then some true else next s ]
    ]

abbrev pub map_size {ℓ} : {V : Type ℓ} → Map V → ℕ
map_size [] = 0
map_size (p ∷ m) = suc (map_size m)

unfoldable pub has_dead_lock : LockTable → Option Bool
has_dead_lock lt = search_from (map_size lt.xwaitu + 2) lt lt.x2u [] 1

abbrev pub add_edge : LockTable → ℕ → ℕ → LockTable
add_edge lt xid uid = record lt {
  xwaitu = insert xid uid lt.xwaitu;
  wait = put_into_list lt.wait uid xid;
}

-- After the search: the edge is taken back, or the transaction waits.
unfoldable pub resolve : LockTable → ℕ → ℕ → Bool → Option (Answer × LockTable)
resolve lt xid uid true = do
  wait' ← remove_from_list lt.wait uid xid
  some (deadlock, record lt { xwaitu = remove xid lt.xwaitu; wait = wait' })
resolve lt xid uid false = some (waiting, record lt { wait_ch = insert xid tt lt.wait_ch })

unfoldable pub add : LockTable → ℕ → ℕ → Option (Answer × LockTable)
add lt xid uid =
    if is_in_list lt.x2u xid uid
    then some (granted, lt)
    else if not (has_key uid lt.u2x)
    then some
        (granted, record lt { u2x = insert uid xid lt.u2x; x2u = put_into_list lt.x2u xid uid })
    else has_dead_lock (add_edge lt xid uid) >>= resolve (add_edge lt xid uid) xid uid

-- The first of the queue that still waits on a channel, and what is left of the queue.
unfoldable pub first_waiter : Map (Unit {0}) → List ℕ → Option ℕ × List ℕ
first_waiter wait_ch [] = (none, [])
first_waiter wait_ch (xid ∷ l) =
    let rest = first_waiter wait_ch l in if has_key xid wait_ch then (some xid, l) else rest

abbrev pub hand_over : LockTable → ℕ → Option ℕ → LockTable
hand_over lt uid none = lt
hand_over lt uid (some xid) = record lt {
  u2x = insert uid xid lt.u2x;
  wait_ch = remove xid lt.wait_ch;
  xwaitu = remove xid lt.xwaitu;
}

abbrev pub woken : Option ℕ → List ℕ
woken none = []
woken (some xid) = xid ∷ []

abbrev pub serve_queue : LockTable → ℕ → List ℕ → LockTable × List ℕ
serve_queue lt uid l =
    let (w, rest) = first_waiter lt.wait_ch l in
    (record (hand_over lt uid w) { wait = store_or_delete lt.wait uid rest }, woken w)

unfoldable pub select_new_xid : LockTable → ℕ → Option (LockTable × List ℕ)
select_new_xid lt uid =
    let lt' = record lt { u2x = remove uid lt.u2x } in
    elim (lookup uid lt.wait) [
      | none ↦ some (lt', [])
      | some [] ↦ none
      | some (x ∷ l) ↦ some (serve_queue lt' uid (x ∷ l))
    ]

-- The loop of Remove over the resources of the transaction.
unfoldable pub release_all : List ℕ → LockTable → Option (LockTable × List ℕ)
release_all [] lt = some (lt, [])
release_all (uid ∷ uids) lt = do
  (lt', woke) ← select_new_xid lt uid
  (lt'', woke') ← release_all uids lt'
  some (lt'', woke ++ woke')

unfoldable pub remove_xid : LockTable → ℕ → Option (LockTable × List ℕ)
remove_xid lt xid = do
  (lt', woke) ← release_all (list_at lt.x2u xid) lt
  some (
    record lt' {
      xwaitu = remove xid lt'.xwaitu;
      x2u = remove xid lt'.x2u;
      wait_ch = remove xid lt'.wait_ch;
    },
    woke,
  )
