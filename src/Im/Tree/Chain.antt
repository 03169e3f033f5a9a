-- ===== src/Im/Tree/Chain.antt =====
-- A level of a tree by its nodes' pairs.
use wisdb.Im.Store.{Store, found}
use wisdb.Im.Node.Bytes.{Pair, IsNode}
use wisdb.Base.{ℕ, List, Bool, ◌≡◌, All, ◌∷◌, ◌∙◌, ◌≤◌, [], ◌++◌, ◌≢◌}

-- The pairs, whose keys do not fall.
abbrev pub IsOrdered : List Pair → Type 0
IsOrdered [] = Unit
IsOrdered ((son, key) ∷ es) = All (λ (e : Pair). key ≤ e.1) es × IsOrdered es

-- A node by its address and its pairs.
abbrev pub At : Type 0
At = ℕ × List Pair

-- The nodes of one level from an address on, each next the sibling of the one before; the last has none.
pub data Chain {S : Type 0} (dm : Store S) (st : S) (l : Bool) : ℕ → List At → Type 0 where
  last :
      {uuid : ℕ} {raw : List ℕ} {es : List Pair}
      → Store.read dm uuid st ≡ found raw
      → IsNode raw l 0 es
      → Chain dm st l uuid ((uuid, es) ∷ [])
  next :
      {uuid sibling : ℕ} {raw : List ℕ} {es : List Pair} {rest : List At}
      → Store.read dm uuid st ≡ found raw
      → IsNode raw l sibling es
      → sibling ≢ 0
      → All (λ (n : At). n.0 ≢ uuid) rest
      → Chain dm st l sibling rest
      → Chain dm st l uuid ((uuid, es) ∷ rest)

abbrev pub entries : List At → List Pair
entries [] = []
entries ((uuid, es) ∷ rest) = es ++ entries rest

-- A chain stays where its nodes read the same.
pub chain_kept :
    {S : Type 0} (dm : Store S) (st st' : S) (l : Bool) (uuid : ℕ) (nodes : List At)
    → Chain dm st l uuid nodes
    → All (λ (n : At). Store.read dm n.0 st' ≡ Store.read dm n.0 st) nodes
    → Chain dm st' l uuid nodes
chain_kept dm st st' l uuid nodes (last e node) (same, tt) = last (same ∙ e) node
chain_kept dm st st' l uuid nodes (next {sibling = sibling} {rest = rest} e node other apart more)
      (same, all) =
    next (same ∙ e) node other apart (chain_kept dm st st' l sibling rest more all)
