-- ===== src/Im/Tree/Insertion.antt =====
-- bPlusTree.insertAndSplit along a level of leaves, and the search behind it.
use mathlib.Core.Path.{subst}
use wisdb.Im.Tree.Walk.{in_range, walk-in_range}
use wisdb.Im.Store.{Store, found, ok}
use wisdb.Im.Tree.{insert_into, insert_and_split, load_node, walk}
use wisdb.Im.Tree.Chain.{Chain, entries, At, last, next, IsOrdered}
use wisdb.Im.Tree.Behind.{Behind, All-zip}
use wisdb.Im.Tree.Grow.{insert_into-Grown, Keeps}
use wisdb.Im.Node
use wisdb.Im.Node.Bytes.{Pair, IsNode, read_sib}
use wisdb.Im.Node.Search.{after, before, before-after}
use wisdb.Im.Node.Insert.{insert-next, not_below, with_pair, All-append, All-front}
use wisdb.Im.Node.Cut.{cut_none, cut_some}
use wisdb.Base.{ℕ, List, ◌≡◌, ◌<◌, ◌∷◌, [], ◌^◌, true, All, length, ◌≢◌, some, ◌≤◌}
use wisdb.Base.{arith, suc, inl, sym, ◌++◌, zero, refl, ◌⊎◌, ◌∙◌, ap, inr, ◌==◌}
use mathlib.Core.List.{append_assoc, append-nil}
use wisdb.Base.{false, ◌+◌, Bool-cases, ltb, ltb→lt}
use wisdb.Im.Node.Insert.{All-back}

nil_or_cons : (es : List Pair) → (es ≡ []) ⊎ ((p : Pair) × (post : List Pair) × (es ≡ p ∷ post))
nil_or_cons [] = inl refl
nil_or_cons (p ∷ post) = inr (p, post, refl)

with_pair_here :
    (uuid key : ℕ) (es fs : List Pair) (p : Pair) (post : List Pair)
    → after (not_below key) es ≡ p ∷ post
    → with_pair uuid key (es ++ fs) ≡ with_pair uuid key es ++ fs
with_pair_here uuid key es fs p post h =
    let (behind, front) = cut_some (not_below key) es fs p post h in
    rw (behind, front, h)
      (sym (append_assoc (before (not_below key) es) ((uuid, key) ∷ (p ∷ post)) fs))

with_pair_next :
    (uuid key : ℕ) (es fs : List Pair)
    → after (not_below key) es ≡ []
    → with_pair uuid key (es ++ fs) ≡ es ++ with_pair uuid key fs
with_pair_next uuid key es fs h =
    let (behind, front) = cut_none (not_below key) es fs h in
    rw (behind, front)
      (append_assoc es (before (not_below key) fs) ((uuid, key) ∷ after (not_below key) fs))

-- The pairs stay in order.
with_pair-IsOrdered :
    (uuid key : ℕ) (es : List Pair) → IsOrdered es → IsOrdered (with_pair uuid key es)
with_pair-IsOrdered uuid key [] o = (tt, tt)
with_pair-IsOrdered uuid key ((son, k) ∷ es) (all, o) = elim (Bool-cases (ltb k key)) [
  | inl h ↦
      let low : ℕ × ℕ → Type 0 = λ e. k ≤ e.1 in
      let cut : All low (before (not_below key) es ++ after (not_below key) es) =
        subst (All low) (before-after (not_below key) es) all in
      rw h (
        All-append low (before (not_below key) es) ((uuid, key) ∷ after (not_below key) es)
            (All-front low (before (not_below key) es) (after (not_below key) es) cut)
            (
              omega (arith, ltb→lt k key h),
              All-back low (before (not_below key) es) (after (not_below key) es) cut,
            ),
        with_pair-IsOrdered uuid key es o,
      )
  | inr h ↦
      let low : key ≤ k = ground (arith, h) in
      rw h ((low, All-zip es (λ e p q. omega arith) all all), (all, o))
]

module _ {S : Type 0} (dm : Store S) (Is : ℕ → Type 0) (uuid key : ℕ) (uuid_word : uuid < 2 ^ 64)
    (key_word : key < 2 ^ 64) where
  -- The level after the pair is inserted.
  pub record Inserted (st st' : S) (self : ℕ) (leaves : List At) : Type 0 where
    pub nodes : List At
    pub chain : Chain dm st' true self nodes
    pub same : entries nodes ≡ with_pair uuid key (entries leaves)
    pub few_more : length nodes ≤ length leaves + 1
    pub small : All (λ (n : At). length n.1 < 64) nodes
    pub kept :
        (v : ℕ)
        → Is v
        → All (λ (n : At). n.0 ≢ v) leaves
        → (Store.read dm v st' ≡ Store.read dm v st) × All (λ (n : At). n.0 ≢ v) nodes

  -- The addresses are of `Is`, and each of their nodes can be written and split in this state.
  abbrev pub AllKept : S → List At → Type 0
  AllKept st leaves = All (λ (n : At). Is n.0 × Keeps dm Is st n.0) leaves

  known_of : (st : S) (leaves : List At) → AllKept st leaves → All (λ (n : At). Is n.0) leaves
  known_of st leaves keeps = All-zip leaves (λ n k also. k.0) keeps keeps

  abbrev pub Done : ℕ → ℕ → List At → S → Type 0
  Done fuel self leaves st =
      (son : ℕ) × (new_key : ℕ) × (st' : S) × (insert_and_split dm fuel self uuid key st
        ≡ some (ok (son, new_key), st'))
      × Inserted st st' self leaves

  -- The leaf at `self` takes the pair.
  taken_here :
      (fuel self sibling : ℕ) (raw : List ℕ) (es : List Pair) (rest : List At) (st : S)
      → Store.read dm self st ≡ found raw
      → IsNode raw true sibling es
      → Behind dm st true self sibling rest
      → All (λ (n : At). length n.1 < 64) ((self, es) ∷ rest)
      → AllKept st ((self, es) ∷ rest)
      → (after (not_below key) es ≡ [] → sibling ≡ 0)
      → with_pair uuid key (es ++ entries rest) ≡ with_pair uuid key es ++ entries rest
      → Done (suc fuel) self ((self, es) ∷ rest) st
  unfolding insert_and_split
  taken_here fuel self sibling raw es rest st e node behind (few, small) ((known, keeps), others)
        guard same =
      let (son, new_key, st', done, grown) =
        insert_into-Grown dm Is st self sibling uuid key raw es rest e known
          (known_of st rest others) keeps node behind few uuid_word key_word guard in
      (
        son,
        new_key,
        st',
        rw done refl,
        record {
          nodes = grown.nodes;
          chain = grown.chain;
          same = grown.same ∙ sym same;
          few_more = omega (arith, grown.few_more);
          small = grown.small small;
          kept = λ v here (far, all). grown.kept v here (λ q. far (sym q)) all;
        },
      )

  -- The pair goes on to the sibling.
  taken_later :
      (fuel self sibling : ℕ) (raw : List ℕ) (es : List Pair) (rest : List At) (st : S)
      → Store.read dm self st ≡ found raw
      → IsNode raw true sibling es
      → sibling ≢ 0
      → length es < 64
      → All (λ (n : At). n.0 ≢ self) rest
      → Is self
      → after (not_below key) es ≡ []
      → Done fuel sibling rest st
      → Done (suc fuel) self ((self, es) ∷ rest) st
  unfolding insert_and_split insert_into load_node
  taken_later fuel self sibling raw es rest st e node other few apart known none_here
        (son, new_key, st', done, there) =
      let has : (sibling == 0) ≡ false = ground arith in
      let sib_read : Node.get_raw_sibling raw ≡ some sibling = read_sib raw true sibling es node in
      let (still, apart') = there.kept self known apart in
      (
        son,
        new_key,
        st',
        rw (e, insert-next raw true sibling es node uuid key other none_here, sib_read, has, done)
            refl,
        record {
          nodes = (self, es) ∷ there.nodes;
          chain = next (still ∙ e) node other apart' there.chain;
          same =
              ap (λ f. es ++ f) there.same
              ∙ sym (with_pair_next uuid key es (entries rest) none_here);
          few_more = omega (arith, there.few_more);
          small = (few, there.small);
          kept = λ v here (far, all). let (f', all') = there.kept v here all in (f', (far, all'));
        },
      )

  -- insertAndSplit along a level of leaves, with fuel for each of them, each with less than 64 pairs, where the nodes are kept: it ends, and leaves a level with the new pair in front of the first whose key is not below its own, again with less than
  -- 64 pairs in each leaf.
  pub insert_and_split-Inserted :
      (fuel self : ℕ) (leaves : List At) (st : S)
      → Chain dm st true self leaves
      → All (λ (n : At). length n.1 < 64) leaves
      → AllKept st leaves
      → length leaves ≤ fuel
      → Done fuel self leaves st
  insert_and_split-Inserted zero self leaves st (last e node) small stores room =
      absurd (omega arith)
  insert_and_split-Inserted zero self leaves st (next e node other apart more) small stores room =
      absurd (omega arith)
  insert_and_split-Inserted (suc fuel) self leaves st (last {raw = raw} {es = es} e node) small
        stores room =
      taken_here fuel self 0 raw es [] st e node (inl (refl, refl)) small stores (λ h. refl)
        (ap (with_pair uuid key) (append-nil es) ∙ sym (append-nil (with_pair uuid key es)))
  insert_and_split-Inserted (suc fuel) self leaves st
        (next {sibling = sibling} {raw = raw} {es = es} {rest = rest} e node other apart more)
        (few, small) stores room =
      elim (nil_or_cons (after (not_below key) es)) [
        | inl h ↦
            taken_later fuel self sibling raw es rest st e node other few apart stores.0.0 h
              (insert_and_split-Inserted fuel sibling rest st more small stores.1 (omega arith))
        | inr (p, post, h) ↦
            taken_here fuel self sibling raw es rest st e node (inr (other, apart, more))
              (few, small) stores (λ k. absurd (cc (sym h ∙ k)))
              (with_pair_here uuid key es (entries rest) p post h)
      ]

-- The address of one of the nodes.
abbrev pub AddressOf : List At → ℕ → Type 0
AddressOf [] v = ⊥
AddressOf ((self, es) ∷ nodes) v = (v ≡ self) ⊎ AddressOf nodes v

-- On a level of leaves in the order of its pairs, each with less than 64, with fuel for each leaf,
-- insertAndSplit of a pair of numbers below 2^64 ends, where the data manager does this in the
-- state at hand: a write of bytes of a node's size at a leaf is read back and leaves the other
-- leaves as they are, and such bytes are inserted at an address of their own, not 0, where they are
-- read behind such a write. After it the loop of SearchRange gives the sons of exactly the pairs in
-- its range among the old ones and the new one, which stands in front of the first whose key is not
-- below its own.
pub walk-insert_and_split :
    {S : Type 0} (dm : Store S) (fuel self uuid key : ℕ) (leaves : List At) (st : S)
    → uuid < 2 ^ 64
    → key < 2 ^ 64
    → Chain dm st true self leaves
    → IsOrdered (entries leaves)
    → All (λ (n : At). length n.1 < 64) leaves
    → All (λ (n : At). Keeps dm (AddressOf leaves) st n.0) leaves
    → length leaves ≤ fuel
    → (son : ℕ) × (new_key : ℕ) × (st' : S) × (insert_and_split dm fuel self uuid key st
        ≡ some (ok (son, new_key), st'))
      × ((left right : ℕ)
          → walk dm (fuel + 1) self left right st'
            ≡ some (ok (in_range left right (with_pair uuid key (entries leaves))), st'))
walk-insert_and_split dm fuel self uuid key leaves st uuid_word key_word chain o small keeps room =
    let known = all_addresses leaves (AddressOf leaves) (λ v h. h) in
    let (son, new_key, st', done, new) =
      insert_and_split-Inserted dm (AddressOf leaves) uuid key uuid_word key_word fuel self leaves
        st chain small (All-zip leaves (λ n here k. (here, k)) known keeps) room in
    (
      son,
      new_key,
      st',
      done,
      λ left right.
          walk-in_range dm (fuel + 1) self left right new.nodes st' new.chain
            (subst IsOrdered (sym new.same) (with_pair-IsOrdered uuid key (entries leaves) o))
            (omega (arith, new.few_more))
          ∙ ap (λ es. some (ok (in_range left right es), st')) new.same,
    )
  where
    all_addresses :
        (nodes : List At) (P : ℕ → Type 0)
        → ((v : ℕ) → AddressOf nodes v → P v)
        → All (λ (n : At). P n.0) nodes
    all_addresses [] P f = tt
    all_addresses ((a, es) ∷ nodes) P f =
        (f a (inl refl), all_addresses nodes P (λ v h. f v (inr h)))
