-- ===== src/Dm/Pindex.antt =====
-- main/backend/dm/pindex/pindex.go: pages by their free space, in intervals. The mutex makes each
-- method one step; `none` is an index out of range.
pub mod Room
use wisdb.Dm.Page.{page_size}
use wisdb.Base.{ℕ, List, replicate, ℤ, ◌/◌, ◌+◌, Option, [], pos, if◌then◌else◌}
use wisdb.Base.{none, ◌>>=◌, ◌>>◌, some, ltb, suc, negsuc, get_elem?, ◌==◌, ◌∷◌}
use wisdb.Base.{set, ◌++◌, zero}

abbrev pub no_interval : ℕ
no_interval = 40

abbrev pub threshold : ℕ
threshold = page_size / no_interval

-- A page's number and its free space, a Go int.
abbrev pub Pair : Type 0
Pair = ℕ × ℤ

pub record Pindex : Type 0 where
  pub lists : List (List Pair)

unfoldable pub new_pindex : Pindex
new_pindex = record { lists = replicate (no_interval + 1) [] }

-- freeSpace / _THRESHOLD: Go's division rounds towards zero.
unfoldable pub interval_of : ℤ → Option ℕ
interval_of (pos n) = some (n / threshold)
interval_of (negsuc n) = if (n + 1) / threshold == 0 then some 0 else none

unfoldable pub add : Pindex → ℕ → ℤ → Option Pindex
unfolding interval_of
add pi pgno free_space = do
  k ← interval_of free_space
  l ← get_elem? pi.lists k
  some (record { lists = set pi.lists k (l ++ ((pgno, free_space) ∷ [])) })

-- The first interval that a selection looks at.
unfoldable pub first_interval : ℕ → ℕ
first_interval space_size = let k = space_size / threshold in if ltb k no_interval then k + 1 else k

-- The loop of Select: the first page of the first interval that has one.
unfoldable pub select_from : ℕ → Pindex → ℕ → Option (Pair × Pindex)
select_from zero pi k = none
select_from (suc fuel) pi k =
    let again = select_from fuel pi (k + 1) in
    elim (get_elem? pi.lists k) [
      | none ↦ none
      | some [] ↦ again
      | some (pr ∷ l) ↦ some (pr, record { lists = set pi.lists k l })
    ]

unfoldable pub select : Pindex → ℕ → Option (Pair × Pindex)
unfolding first_interval select_from
select pi space_size = select_from (no_interval + 1) pi (first_interval space_size)
