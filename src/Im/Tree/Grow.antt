-- ===== src/Im/Tree/Grow.antt =====
-- node.insertAndSplit on a node that takes the pair: what it writes, as the nodes in the place of the old one.
use mathlib.Core.Path.{subst}
use wisdb.Im.Store.{Store, found, ok}
use wisdb.Im.Tree.{insert_into, load_node, split}
use wisdb.Im.Tree.Chain.{Chain, entries, At}
use wisdb.Im.Tree.Behind.{Behind, attach, Behind-kept, Behind-moved}
use wisdb.Im.Node.Bytes.{Pair, IsNode, read_count}
use wisdb.Im.Node
use wisdb.Im.Node.{need_split, split_off, split_rest, get_raw_kth_key}
use wisdb.Im.Node.Search.{after, key_at}
use wisdb.Im.Node.Split.{split_off-IsNode, split_rest-IsNode}
use wisdb.Im.Node.Insert.{insert-IsLeaf, not_below, with_pair}
use wisdb.Base.{ℕ, List, Bool, ◌≡◌, length, ◌≢◌, ◌++◌, ◌∙◌, All, ◌∷◌, some, sym}
use wisdb.Base.{inr, refl, ap, true, ◌<◌, ◌^◌, [], arith, Bool-cases, ◌==◌, inl}
use mathlib.Core.List.{append_assoc}
use wisdb.Im.Tree.Behind.{Behind-apart, All-zip}
use wisdb.Base.{take, drop, take-append-drop, length-take, length-drop, ◌≤◌, ◌+◌}

-- A node with a pair has a first key.
first_read :
    (raw : List ℕ) (l : Bool) (s : ℕ) (es : List Pair)
    → 0 < length es
    → IsNode raw l s es
    → (key : ℕ) × (get_raw_kth_key raw 0 ≡ some key)
first_read raw l s [] some_there node = absurd (omega arith)
first_read raw l s ((son, key) ∷ es) some_there node =
    let ((small, word), words) = node.words in
    (key, rw node.content (key_at l (length ((son, key) ∷ es)) s node.junk [] son key es word))

-- What the data manager does in the state `st` for the node at `self` and the addresses of `Is`: a
-- write of a node at `self` is read back and changes none of the others, and a new node is stored at
-- an address that is none of them, behind which a write at `self` is the same.
module _ {S : Type 0} (dm : Store S) (Is : ℕ → Type 0) where
  pub record Placed (st : S) (self : ℕ) (node_raw : List ℕ) (son : ℕ) (st1 : S) : Type 0 where
    pub there : son ≢ 0
    pub word : son < 2 ^ 64
    pub apart : (v : ℕ) → Is v → v ≢ son
    pub here :
        (raw : List ℕ)
        → length raw ≡ Node.node_size
        → Store.read dm self (Store.write dm self raw st1) ≡ found raw
    pub held :
        (raw : List ℕ)
        → length raw ≡ Node.node_size
        → Store.read dm son (Store.write dm self raw st1) ≡ found node_raw
    pub kept :
        (raw : List ℕ) (v : ℕ)
        → length raw ≡ Node.node_size
        → Is v
        → v ≢ self
        → Store.read dm v (Store.write dm self raw st1) ≡ Store.read dm v st

  pub record Keeps (st : S) (self : ℕ) : Type 0 where
    pub here :
        (raw : List ℕ)
        → length raw ≡ Node.node_size
        → Store.read dm self (Store.write dm self raw st) ≡ found raw
    pub kept :
        (raw : List ℕ) (v : ℕ)
        → length raw ≡ Node.node_size
        → Is v
        → v ≢ self
        → Store.read dm v (Store.write dm self raw st) ≡ Store.read dm v st
    pub stored :
        (node_raw : List ℕ)
        → length node_raw ≡ Node.node_size
        → (son : ℕ) × (st1 : S) × (Store.insert dm node_raw st ≡ some (ok son, st1))
          × Placed st self node_raw son st1

  -- The state after the step on the node at `self`, with the chain that then starts there. What stood at other
  -- addresses is kept, and the chain does not come to it but by the old chain.
  pub record Grown (st st' : S) (l : Bool) (self : ℕ) (rest : List At) (fs : List Pair)
      : Type 0 where
    pub nodes : List At
    pub chain : Chain dm st' l self nodes
    pub same : entries nodes ≡ fs ++ entries rest
    pub few_more : length nodes ≤ length rest + 2
    pub small : All (λ (n : At). length n.1 < 64) rest → All (λ (n : At). length n.1 < 64) nodes
    pub kept :
        (v : ℕ)
        → Is v
        → v ≢ self
        → All (λ (n : At). n.0 ≢ v) rest
        → (Store.read dm v st' ≡ Store.read dm v st) × All (λ (n : At). n.0 ≢ v) nodes

  module _ (st : S) (l : Bool) (self sibling : ℕ) (raw' : List ℕ) (fs : List Pair) (rest : List At)
      (known : Is self) (all_known : All (λ (n : At). Is n.0) rest) (keeps : Keeps st self)
      (node : IsNode raw' l sibling fs) (behind : Behind dm st l self sibling rest) where
    -- A node that is written in its place.
    rewritten : length fs < 64 → Grown st (Store.write dm self raw' st) l self rest fs
    rewritten few =
        let st' : S = Store.write dm self raw' st in
        let other : (v : ℕ) → Is v → v ≢ self → Store.read dm v st' ≡ Store.read dm v st =
          λ v. keeps.kept raw' v node.full in
        record {
          nodes = (self, fs) ∷ rest;
          chain =
              attach dm st' l self sibling raw' fs rest (keeps.here raw' node.full) node
                (Behind-kept dm Is st st' l self sibling rest all_known other behind);
          same = refl;
          few_more = omega arith;
          small = λ all. (few, all);
          kept = λ v here far apart. (other v here far, ((λ q. far (sym q)), apart));
        }

    -- A node that is split: the right half at a new address.
    halves :
        (pre post : List Pair) (node_raw : List ℕ) (son : ℕ) (st1 : S)
        → fs ≡ pre ++ post
        → length pre ≡ 32
        → length post ≡ 32
        → IsNode node_raw l sibling post
        → Placed st self node_raw son st1
        → Grown st (Store.write dm self (split_rest raw' son) st1) l self rest fs
    halves pre post node_raw son st1 cut left right half placed =
        let left_half : IsNode (split_rest raw' son) l son pre =
          split_rest-IsNode raw' l sibling pre post left right son placed.word
            (subst (IsNode raw' l sibling) cut node) in
        let st' : S = Store.write dm self (split_rest raw' son) st1 in
        let other : (v : ℕ) → Is v → v ≢ self → Store.read dm v st' ≡ Store.read dm v st =
          λ v. placed.kept (split_rest raw' son) v left_half.full in
        let apart : self ≢ son = placed.apart self known in
        let new_chain =
          attach dm st' l son sibling node_raw post rest
            (placed.held (split_rest raw' son) left_half.full) half
            (Behind-moved dm st' l self son sibling rest
              (All-zip rest (λ n here also. placed.apart n.0 here) all_known all_known)
              (Behind-kept dm Is st st' l self sibling rest all_known other behind)) in
        record {
          nodes = (self, pre) ∷ ((son, post) ∷ rest);
          chain =
              attach dm st' l self son (split_rest raw' son) pre ((son, post) ∷ rest)
                (placed.here (split_rest raw' son) left_half.full) left_half
                (inr (
                  placed.there,
                  ((λ q. apart (sym q)), Behind-apart dm st l self sibling rest behind),
                  new_chain,
                ));
          same = sym (append_assoc pre post (entries rest)) ∙ ap (λ f. f ++ entries rest) (sym cut);
          few_more = omega arith;
          small = λ all. (omega arith, (omega arith, all));
          kept = λ v here far all.
              (other v here far, ((λ q. far (sym q)), ((λ q. placed.apart v here (sym q)), all)));
        }

  -- What insertAndSplit of a node does where the node takes the pair, with a data manager that keeps the nodes.
  pub insert_into-Grown :
      (st : S) (self sibling uuid key : ℕ) (raw : List ℕ) (es : List Pair) (rest : List At)
      → Store.read dm self st ≡ found raw
      → Is self
      → All (λ (n : At). Is n.0) rest
      → Keeps st self
      → IsNode raw true sibling es
      → Behind dm st true self sibling rest
      → length es < 64
      → uuid < 2 ^ 64
      → key < 2 ^ 64
      → (after (not_below key) es ≡ [] → sibling ≡ 0)
      → (son : ℕ) × (new_key : ℕ) × (st' : S) × (insert_into dm self uuid key st
          ≡ some (ok (0, son, new_key), st'))
        × Grown st st' true self rest (with_pair uuid key es)
  unfolding insert_into load_node need_split split
  insert_into-Grown st self sibling uuid key raw es rest here known all_known keeps node behind room
        uuid_word key_word guard =
      let (raw', done, node') =
        insert-IsLeaf raw sibling es uuid key uuid_word key_word room node guard in
      let fs : List Pair = with_pair uuid key es in
      let count : Node.get_raw_no_keys raw' ≡ some (length fs) =
        read_count raw' true sibling fs node' in
      elim (Bool-cases (64 == length fs)) [
        | inr h ↦ (
          0,
          0,
          Store.write dm self raw' st,
          rw (here, done, count, h) refl,
          rewritten st true self sibling raw' fs rest known all_known keeps node' behind
              (ground (arith, h, node'.few)),
        )
        | inl h ↦
            let cut : fs ≡ take 32 fs ++ drop 32 fs = sym (take-append-drop 32 fs) in
            let full : length fs ≡ 64 = ground (arith, h) in
            let left : length (take 32 fs) ≡ 32 = omega (arith, full, length-take {0} 32 fs) in
            let right : length (drop 32 fs) ≡ 32 = omega (arith, full, length-drop {0} 32 fs) in
            let (node_raw, made, half) =
              split_off-IsNode raw' true sibling (take 32 fs) (drop 32 fs) left right
                (subst (IsNode raw' true sibling) cut node') in
            let (son, st1, stored, placed) = keeps.stored node_raw half.full in
            let (new_key, key_read) =
              first_read node_raw true sibling (drop 32 fs) (omega arith) half in
            (
              son,
              new_key,
              Store.write dm self (split_rest raw' son) st1,
              rw (here, done, count, h, made, stored, key_read) refl,
              halves st true self sibling raw' fs rest known all_known keeps node' behind
                  (take 32 fs) (drop 32 fs) node_raw son st1 cut left right half placed,
            )
      ]
