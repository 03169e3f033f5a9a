-- ===== src/Im/Tree/Descend.antt =====
-- The way down a tree: searchNext along a level of inner nodes, and SearchRange over the whole tree.
use wisdb.Im.Store.{Store, ok, pure}
use wisdb.Im.Tree.{search_next, load_node, root_uuid, search_leaf, search_range, is_leaf}
use wisdb.Im.Tree.Chain.{Chain, entries, At, IsOrdered, last, next}
use wisdb.Im.Tree.Walk.{walk-in_range, in_range, in_range_low}
use wisdb.Im.Node.Bytes.{Pair, read_leaf}
use wisdb.Im.Node.Search.{after, search_next-first, next_of}
use wisdb.Im.Node.Cut.{cut_none, cut_some}
use wisdb.Base.{ℕ, List, Bool, ltb, ◌≡◌, ◌∷◌, All, ◌≢◌, length, ◌≤◌, some, arith}
use wisdb.Base.{suc, zero, [], false, true, ◌<◌, ◌+◌, ◌++◌, ◌∙◌, if◌then◌else◌, not}
use wisdb.Base.{◌==◌, sym, refl, ap}

module _ {S : Type 0} (dm : Store S) where
  -- What searchNext does behind the read of a node.
  next_step :
      (fuel sibling key son k : ℕ) (es fs post : List Pair) (st : S)
      → after (ltb key) (es ++ fs) ≡ (son, k) ∷ post
      → son ≢ 0
      → (after (ltb key) fs ≡ (son, k) ∷ post
          → search_next dm fuel sibling key st ≡ some (ok son, st))
      → (run : List Pair) → after (ltb key) es ≡ run
      → (if not ((next_of run sibling).0 == 0)
            then pure (next_of run sibling).0
            else search_next dm fuel (next_of run sibling).1 key)
          st
        ≡ some (ok son, st)
  next_step fuel sibling key son k es fs post st at there rest [] h =
      rest (sym ((cut_none (ltb key) es fs h).0) ∙ at)
  next_step fuel sibling key son k es fs post st at there rest ((son', k') ∷ run) h =
      let same : son' ≡ son = cc (sym ((cut_some (ltb key) es fs (son', k') run h).0) ∙ at) in
      let has : (son == 0) ≡ false = ground arith in rw (same, has) refl

  -- searchNext along a level gives the son of the level's first pair whose key is above the one asked for, whichever
  -- node of the level has it, if it has fuel for each node.
  pub search_next-chain :
      (fuel uuid key son k : ℕ) (nodes : List At) (post : List Pair) (l : Bool) (st : S)
      → Chain dm st l uuid nodes
      → after (ltb key) (entries nodes) ≡ (son, k) ∷ post
      → son ≢ 0
      → length nodes ≤ fuel
      → search_next dm fuel uuid key st ≡ some (ok son, st)
  unfolding search_next load_node
  search_next-chain zero uuid key son k nodes post l st (last e node) at there room =
      absurd (omega arith)
  search_next-chain zero uuid key son k nodes post l st (next e node other apart more) at there
        room =
      absurd (omega arith)
  search_next-chain (suc fuel) uuid key son k nodes post l st (last {es = es} e node) at there
        room =
      rw (e, search_next-first _ l 0 es key node)
        (next_step fuel 0 key son k es [] post st at there (λ h. absurd (cc h)) (after (ltb key) es)
          refl)
  search_next-chain (suc fuel) uuid key son k nodes post l st
        (next {sibling = sibling} {es = es} {rest = rest} e node other apart more) at there room =
      rw (e, search_next-first _ l sibling es key node)
        (next_step fuel sibling key son k es (entries rest) post st at there
          (λ h. search_next-chain fuel sibling key son k rest post l st more h there (omega arith))
          (after (ltb key) es) refl)

  leaf_bit :
      (uuid : ℕ) (nodes : List At) (l : Bool) (st : S)
      → Chain dm st l uuid nodes
      → is_leaf dm uuid st ≡ some (ok l, st)
  unfolding is_leaf load_node
  leaf_bit uuid nodes l st (last {es = es} e node) = rw (e, read_leaf _ l 0 es node) refl
  leaf_bit uuid nodes l st (next {sibling = sibling} {es = es} e node other apart more) =
      rw (e, read_leaf _ l sibling es node) refl

  -- In a tree of an inner level over leaves in the order of their pairs: where the pairs of the
  -- inner level send the left end to a leaf, and all pairs of the leaves before it are below that
  -- end, SearchRange gives the sons of exactly the pairs of the tree whose keys are in the range, in
  -- their order, if it has fuel for each node.
  pub search_range-in_range :
      (fuel boot root son k left right : ℕ) (inners leaves : List At) (low post : List Pair)
      (st : S)
      → root_uuid dm boot st ≡ some (ok root, st)
      → Chain dm st false root inners
      → after (ltb left) (entries inners) ≡ (son, k) ∷ post
      → son ≢ 0
      → Chain dm st true son leaves
      → All (λ (e : Pair). e.1 < left) low
      → IsOrdered (entries leaves)
      → length inners + length leaves + 2 ≤ fuel
      → search_range dm fuel boot left right st
        ≡ some (ok (in_range left right (low ++ entries leaves)), st)
  unfolding search_range search_leaf
  search_range-in_range (suc (suc fuel)) boot root son k left right inners leaves low post st
        root_read level at there chain lows o room =
      rw
        (
          root_read,
          leaf_bit root inners false st level,
          search_next-chain (suc fuel) root left son k inners post false st level at there
              (omega arith),
          leaf_bit son leaves true st chain,
        )
        (walk-in_range dm (suc (suc fuel)) son left right leaves st chain o (omega arith)
          ∙ ap (λ l. some (ok l, st)) (sym (in_range_low left right low (entries leaves) lows)))
  search_range-in_range (suc zero) boot root son k left right inners leaves low post st root_read
        level at there chain lows o room =
      absurd (omega arith)
  search_range-in_range zero boot root son k left right inners leaves low post st root_read level at
        there chain lows o room =
      absurd (omega arith)
