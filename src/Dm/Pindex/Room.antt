-- ===== src/Dm/Pindex/Room.antt =====
-- A selected page has room, and the intervals stay right.
use wisdb.Dm.Pindex.{
  Pindex, Pair, interval_of, add, first_interval, select_from, select, threshold, no_interval,
}
use wisdb.Base.{List, ℕ, length, All, get_elem?, ◌<◌, ◌≡◌, ◌++◌, some, ◌*◌, ◌∷◌}
use wisdb.Base.{set, ◌≤◌, [], arith, length-set, suc, ◌∙◌, zero, Bool-cases, ◌+◌}
use wisdb.Base.{◌==◌, inl, pos, inr, get_elem?-set, Option, negsuc, refl, ==_iff}
use wisdb.Dm.Page.{page_size}
use wisdb.Base.{none, ◌/◌, get_elem?_inside, get_elem?-some, replicate}
use wisdb.Dm.Pindex.{new_pindex}

-- Every page is in the interval of its free space.
pub record IsPindex (pi : Pindex) : Type 0 where
  pub intervals : length pi.lists ≡ no_interval + 1
  pub right :
      (i : ℕ) (l : List Pair)
      → get_elem? pi.lists i ≡ some l
      → All (λ pr. interval_of pr.1 ≡ some i) l

All-append_one :
    (P : Pair → Type 0) (l : List Pair) (pr : Pair) → All P l → P pr → All P (l ++ (pr ∷ []))
All-append_one P [] pr h k = (k, tt)
All-append_one P (x ∷ l) pr h k = (h.0, All-append_one P l pr h.1 k)

-- A change of one interval.
changed :
    (pi : Pindex) (k : ℕ) (old new : List Pair)
    → IsPindex pi
    → get_elem? pi.lists k ≡ some old
    → All (λ pr. interval_of pr.1 ≡ some k) new
    → IsPindex (record { lists = set pi.lists k new })
changed pi k old new v here h = record {
  intervals = length-set pi.lists k new ∙ v.intervals;
  right = λ i l e.
      let s = get_elem?-set pi.lists k i new (get_elem?_inside pi.lists k old here) in
      elim (Bool-cases (k == i)) [
        | inl same ↦
            let ei : k ≡ i = (==_iff k i).0 same in
            let el : new ≡ l = ground (arith) in rw (← el, ← ei) h
        | inr other ↦ v.right i l (ground (arith))
      ];
}

-- `Add` keeps the intervals right, and succeeds for every free space from 0 to a page.
pub add-IsPindex :
    (pi : Pindex) (pgno n : ℕ)
    → IsPindex pi
    → n ≤ page_size
    → (pi' : Pindex) × (add pi pgno (pos n) ≡ some pi') × IsPindex pi'
unfolding add interval_of
add-IsPindex pi pgno n v h =
    let l = get_elem?-some pi.lists (n / threshold) (omega (arith, v.intervals)) in
    (
      record { lists = set pi.lists (n / threshold) (l.0 ++ ((pgno, pos n) ∷ [])) },
      rw l.1 refl,
      changed pi (n / threshold) l.0 (l.0 ++ ((pgno, pos n) ∷ [])) v l.1 (
          All-append_one (λ pr. interval_of pr.1 ≡ some (n / threshold)) l.0 (pgno, pos n)
            (v.right (n / threshold) l.0 l.1) refl),
    )

get_elem?-replicate_nil : (n i : ℕ) (l : List Pair) → get_elem? (replicate n []) i ≡ some l → l ≡ []
get_elem?-replicate_nil zero i l e = cc
get_elem?-replicate_nil (suc n) zero l e = ground arith
get_elem?-replicate_nil (suc n) (suc i) l e = get_elem?-replicate_nil n i l e

pub new_pindex-IsPindex : IsPindex new_pindex
unfolding new_pindex
new_pindex-IsPindex = record {
  intervals = refl;
  right = λ i l e. rw (get_elem?-replicate_nil 41 i l e) tt;
}

pub add_kept :
    (pi : Pindex) (pgno n : ℕ) (pi' : Pindex)
    → IsPindex pi
    → n ≤ page_size
    → add pi pgno (pos n) ≡ some pi'
    → IsPindex pi'
add_kept pi pgno n pi' v h e =
    let (p, made, w) = add-IsPindex pi pgno n v h in
    let same : p ≡ pi' = ground (arith) in rw (← same) w

-- The page stands in an interval from `k` on.
abbrev Stands : ℕ → Pair → Type 0
Stands k pr = (i : ℕ) × (k ≤ i) × (interval_of pr.1 ≡ some i)

select_from-IsPindex :
    (fuel : ℕ) (pi : Pindex) (k : ℕ) (pr : Pair) (pi' : Pindex)
    → IsPindex pi
    → select_from fuel pi k ≡ some (pr, pi')
    → IsPindex pi' × Stands k pr
unfolding select_from
select_from-IsPindex zero pi k pr pi' v h = cc
select_from-IsPindex (suc fuel) pi k pr pi' v h =
    go (λ e. select_from-IsPindex fuel pi (k + 1) pr pi' v e) (get_elem? pi.lists k) refl h
  where
    go :
        (select_from fuel pi (k + 1) ≡ some (pr, pi') → IsPindex pi' × Stands (k + 1) pr)
        → (o : Option (List Pair)) → get_elem? pi.lists k ≡ o
        → elim o as (λ _. Option (Pair × Pindex)) [
          | none ↦ none
          | some [] ↦ select_from fuel pi (k + 1)
          | some (q ∷ l) ↦ some (q, record { lists = set pi.lists k l })
        ]
          ≡ some (pr, pi')
        → IsPindex pi' × Stands k pr
    go again none e e' = cc
    go again (some []) e e' = let r = again e' in (r.0, (r.1.0, omega (arith, r.1.1), r.1.2))
    go again (some (q ∷ l)) e e' =
        let all = v.right k (q ∷ l) e in
        let same : record { lists = set pi.lists k l } ≡ pi' = ground (arith) in
        let first : q ≡ pr = ground (arith) in
        (rw (← same) (changed pi k (q ∷ l) l v e all.1), (k, omega arith, rw (← first) all.0))

-- `Select` keeps the intervals right, and the page that it returns has at least the space that was
-- asked for, if that is less than 40 intervals.
pub select-IsPindex :
    (pi : Pindex) (space_size : ℕ) (pr : Pair) (pi' : Pindex)
    → IsPindex pi
    → space_size < threshold * no_interval
    → select pi space_size ≡ some (pr, pi')
    → IsPindex pi' × ((n : ℕ) × (pr.1 ≡ pos n) × (space_size ≤ n))
unfolding select first_interval interval_of
select-IsPindex pi space_size (pgno, pos n) pi' v small h =
    let r = select_from-IsPindex 41 pi (first_interval space_size) (pgno, pos n) pi' v h in
    (r.0, (n, refl, ground (arith, r.1.1, r.1.2)))
select-IsPindex pi space_size (pgno, negsuc n) pi' v small h =
    let r = select_from-IsPindex 41 pi (first_interval space_size) (pgno, negsuc n) pi' v h in
    absurd (ground (arith, r.1.1, r.1.2))
