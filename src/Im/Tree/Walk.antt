-- ===== src/Im/Tree/Walk.antt =====
-- SearchRange's loop over the leaves.
use wisdb.Im.Tree.Chain.{Chain, entries, At, IsOrdered, last, next}
use wisdb.Im.Store.{Store, found, ok, Step, pure}
use wisdb.Im.Tree.{walk, load_node}
use wisdb.Im.Node.Bytes.{Pair, IsNode}
use wisdb.Im.Node.Search.{before, after, sons, sibling_after, leaf_search_range-run}
use wisdb.Base.{ℕ, List, ◌≡◌, ◌∷◌, ◌<◌, not, All, true, leb, ◌≤◌, [], ◌≢◌, ◌&&◌}
use wisdb.Base.{refl, false, arith, ◌++◌, if◌then◌else◌, Bool-cases, inl, inr, sym}
use wisdb.Base.{length, ap, some, ◌∙◌, suc, zero, ◌==◌}
use wisdb.Im.Store.{◌>>=◌}
use mathlib.Core.List.{append-nil}
use wisdb.Im.Node.Insert.{All-back, All-front}

-- The sons of the pairs whose key lies in a range.
abbrev pub in_range : ℕ → ℕ → List Pair → List ℕ
in_range left right [] = []
in_range left right ((son, key) ∷ es) =
    let rest = in_range left right es in if leb left key && leb key right then son ∷ rest else rest

in_range-append :
    (left right : ℕ) (es fs : List Pair)
    → in_range left right (es ++ fs) ≡ in_range left right es ++ in_range left right fs
in_range-append left right [] fs = refl
in_range-append left right ((son, key) ∷ es) fs =
    elim (Bool-cases (leb left key && leb key right)) [
      | inl h ↦ rw (h, in_range-append left right es fs) refl
      | inr h ↦ rw (h, in_range-append left right es fs) refl
    ]

-- No pair behind one above the range is in it.
above_range :
    (left right key : ℕ) (es : List Pair)
    → right < key
    → All (λ (e : Pair). key ≤ e.1) es
    → in_range left right es ≡ []
above_range left right key [] h all = refl
above_range left right key ((son, k) ∷ es) h (here, all) =
    let out : (leb left k && leb k right) ≡ false = ground arith in
    rw (out, above_range left right key es h all) refl

-- No pair in front that is below the range is in it.
pub in_range_low :
    (left right : ℕ) (low fs : List Pair)
    → All (λ (e : Pair). e.1 < left) low
    → in_range left right (low ++ fs) ≡ in_range left right fs
in_range_low left right [] fs tt = refl
in_range_low left right ((son, key) ∷ low) fs (here, all) =
    let out : (leb left key && leb key right) ≡ false = ground arith in
    rw (out, in_range_low left right low fs all) refl

-- Where all keys are above the left end, the run begins at the first pair.
after_low :
    (left key : ℕ) (es : List Pair)
    → left ≤ key
    → All (λ (e : Pair). key ≤ e.1) es
    → after (leb left) es ≡ es
after_low left key [] h all = refl
after_low left key ((son, k) ∷ es) h (here, all) =
    let low : leb left k ≡ true = ground arith in rw low refl

pub run-in_range :
    (left right : ℕ) (es : List Pair)
    → IsOrdered es
    → sons (before (λ ik. not (leb ik right)) (after (leb left) es)) ≡ in_range left right es
run-in_range left right [] o = refl
run-in_range left right ((son, key) ∷ es) (all, o) = elim (Bool-cases (leb left key)) [
  | inr h ↦ rw h (run-in_range left right es o)
  | inl h ↦ elim (Bool-cases (leb key right)) [
    | inr k ↦ rw (h, k) (sym (above_range left right key es (ground arith) all))
    | inl k ↦
        rw (h, k)
          (ap (λ l. son ∷ l)
            (ap (λ fs. sons (before (λ ik. not (leb ik right)) fs))
                (sym (after_low left key es (ground arith) all))
              ∙ run-in_range left right es o))
  ]
]

-- Where the run does not go to the end of a node, no later pair is in the range.
pub run_ends :
    (left right : ℕ) (es fs : List Pair)
    → IsOrdered (es ++ fs)
    → after (λ ik. not (leb ik right)) (after (leb left) es) ≢ []
    → in_range left right fs ≡ []
run_ends left right [] fs o some_left = absurd (some_left refl)
run_ends left right ((son, key) ∷ es) fs (all, o) some_left = elim (Bool-cases (leb key right)) [
  | inr k ↦
      above_range left right key fs (ground arith) (All-back (λ (e : Pair). key ≤ e.1) es fs all)
  | inl k ↦ run_ends left right es fs o (λ h. some_left (same k ∙ h))
]
  where
    same :
        leb key right ≡ true
        → after (λ ik. not (leb ik right)) (after (leb left) ((son, key) ∷ es))
          ≡ after (λ ik. not (leb ik right)) (after (leb left) es)
    same k = elim (Bool-cases (leb left key)) [
      | inr h ↦ rw h refl
      | inl h ↦
          rw (h, k)
            (ap (after (λ ik. not (leb ik right))) (
              sym (
                after_low left key es (ground arith)
                  (All-front (λ (e : Pair). key ≤ e.1) es fs all))))
    ]

sibling_after_zero : (es : List Pair) → sibling_after es 0 ≡ 0
sibling_after_zero [] = refl
sibling_after_zero (e ∷ es) = refl

IsOrdered-front : (es fs : List Pair) → IsOrdered (es ++ fs) → IsOrdered es
IsOrdered-front [] fs o = tt
IsOrdered-front ((son, key) ∷ es) fs (all, o) =
    (All-front (λ (e : Pair). key ≤ e.1) es fs all, IsOrdered-front es fs o)

IsOrdered-back : (es fs : List Pair) → IsOrdered (es ++ fs) → IsOrdered fs
IsOrdered-back [] fs o = o
IsOrdered-back ((son, key) ∷ es) fs (all, o) = IsOrdered-back es fs o

module _ {S : Type 0} (dm : Store S) where
  -- What the loop does behind a leaf's run.
  abbrev go_on : ℕ → ℕ → ℕ → ℕ → List ℕ → Step S (List ℕ)
  go_on fuel left right sibling tmp =
      if sibling == 0
      then pure tmp
      else (do uuids ← walk dm fuel sibling left right; pure (tmp ++ uuids))

  walk_leaf :
      (fuel uuid left right sibling : ℕ) (raw : List ℕ) (es : List Pair) (st : S)
      → Store.read dm uuid st ≡ found raw
      → IsNode raw true sibling es
      → IsOrdered es
      → walk dm (suc fuel) uuid left right st
        ≡ go_on fuel left right
            (sibling_after (after (λ ik. not (leb ik right)) (after (leb left) es)) sibling)
            (in_range left right es)
            st
  unfolding walk load_node
  walk_leaf fuel uuid left right sibling raw es st e node o =
      rw
        (e, leaf_search_range-run raw true sibling es left right node, run-in_range left right es o)
        refl

  -- Behind a leaf that has a sibling.
  behind :
      (fuel left right sibling : ℕ) (es more : List Pair) (st : S)
      → IsOrdered (es ++ more)
      → sibling ≢ 0
      → walk dm fuel sibling left right st ≡ some (ok (in_range left right more), st)
      → (run : List Pair) → after (λ ik. not (leb ik right)) (after (leb left) es) ≡ run
      → go_on fuel left right (sibling_after run sibling) (in_range left right es) st
        ≡ some (ok (in_range left right es ++ in_range left right more), st)
  behind fuel left right sibling es more st o other rest [] h =
      let has : (sibling == 0) ≡ false = ground arith in rw (has, rest) refl
  behind fuel left right sibling es more st o other rest (p ∷ run) h =
      let none_left = run_ends left right es more o (λ k. absurd (cc (sym h ∙ k))) in
      rw none_left (ap (λ l. some (ok l, st)) (sym (append-nil (in_range left right es))))

  -- SearchRange's loop over a chain of leaves whose pairs are in order gives the sons of exactly the pairs whose
  -- keys are in the range, in their order, if it has fuel for each leaf.
  pub walk-in_range :
      (fuel uuid left right : ℕ) (leaves : List At) (st : S)
      → Chain dm st true uuid leaves
      → IsOrdered (entries leaves)
      → length leaves ≤ fuel
      → walk dm fuel uuid left right st ≡ some (ok (in_range left right (entries leaves)), st)
  walk-in_range zero uuid left right leaves st (last e node) o room = absurd (omega arith)
  walk-in_range zero uuid left right leaves st (next e node other apart rest) o room =
      absurd (omega arith)
  walk-in_range (suc fuel) uuid left right leaves st (last {es = es} e node) o room =
      walk_leaf fuel uuid left right 0 _ es st e node (IsOrdered-front es [] o)
      ∙ rw (sibling_after_zero (after (λ ik. not (leb ik right)) (after (leb left) es))) (
          ap (λ l. some (ok l, st))
            (sym (in_range-append left right es [] ∙ append-nil (in_range left right es))))
  walk-in_range (suc fuel) uuid left right leaves st
        (next {sibling = sibling} {es = es} {rest = more} e node other apart rest) o room =
      walk_leaf fuel uuid left right sibling _ es st e node (IsOrdered-front es (entries more) o)
      ∙ behind fuel left right sibling es (entries more) st o other
          (walk-in_range fuel sibling left right more st rest (IsOrdered-back es (entries more) o)
            (omega arith))
          (after (λ ik. not (leb ik right)) (after (leb left) es)) refl
      ∙ ap (λ l. some (ok l, st)) (sym (in_range-append left right es (entries more)))
