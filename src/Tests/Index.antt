-- ===== src/Tests/Index.antt =====
-- Runs of the trees of the indices.
use wisdb.Im.Node
use wisdb.Im.Tree
use wisdb.Im.Node.Split.{split-halves}
use wisdb.Im.Tree.Forget.{insert_key-forgets}
use wisdb.Utils.IntEncoding.{put_int}
use wisdb.Im.Node.Search.{before}
use wisdb.Im.Tree.Walk.{walk-in_range, in_range}
use wisdb.Im.Tree.Chain.{next, last, entries}
use wisdb.Im.Tree.Descend.{search_range-in_range}
use wisdb.Im.Node.Insert.{insert-IsInner, not_below}
use wisdb.Utils.IntEncoding.{of_bytes}
use wisdb.Im.Store.{Store, Reading, found, missing, ok, failed, Result}
use wisdb.Base.{ℕ, List, if◌then◌else◌, ltb, ◌&&◌, ◌+◌, leb, ◌^◌, some, ◌==◌, ◌≡◌}
use wisdb.Base.{◌<◌, true, false, arith, refl}
use wisdb.Base.{Bool, ◌∷◌, [], replicate, ◌-◌, length, ◌*◌, ◌++◌, Option, All}
use wisdb.Utils.IntEncoding.{to_bytes, parse_uuid, parse_uint64, get_uint64, inf}
use wisdb.Im.Tree.Chain.{At, Chain, last}
use wisdb.Im.Tree.{root_uuid, walk, insert_and_split, search_range, load_node, is_leaf}
use wisdb.Im.Node.Bytes.{IsNode, Pair, node_bytes, IsPair}
use wisdb.Im.Node.{search_next, split_off, split_rest}
use wisdb.Base.{none, suc, zero}

-- A data manager with numbered items.
abbrev pub Cells : Type 0
Cells = ℕ × (ℕ → List ℕ)

abbrev pub read_cell : ℕ → Cells → Reading
read_cell uuid (n, f) = if ltb 0 uuid && leb uuid n then found (f uuid) else missing

abbrev pub cells : Store Cells
cells = record {
  read = read_cell;
  insert = λ raw st.
      let (n, f) = st in
      if ltb (n + 1) (2 ^ 64)
      then some (ok (n + 1), (n + 1, λ v. if v == n + 1 then raw else f v))
      else some (failed, (n, f));
  write = λ uuid raw st. let (n, f) = st in (n, λ v. if v == uuid then raw else f v);
}

-- A root with two leaves.
abbrev root_pairs : List Pair
root_pairs = (3, 5) ∷ ((4, inf) ∷ [])

abbrev left_pairs : List Pair
left_pairs = (101, 3) ∷ []

abbrev pub right_pairs : List Pair
right_pairs = (102, 5) ∷ ((103, 9) ∷ [])

abbrev pub raw_of : Bool → ℕ → List Pair → List ℕ
raw_of l s es = node_bytes l s es (replicate (1056 - length es * 16) 0)

abbrev small_tree : Cells
small_tree = (
  4,
  λ v.
      if v == 1
      then to_bytes 8 2
      else if v == 2
      then raw_of false 0 root_pairs
      else if v == 3
      then raw_of true 4 left_pairs
      else raw_of true 0 right_pairs,
)

root-IsNode : IsNode (raw_of false 0 root_pairs) false 0 root_pairs
unfolding to_bytes
root-IsNode = record {
  junk = replicate 1024 0;
  content = refl;
  full = refl;
  few = omega arith;
  words = ((omega arith, omega arith), ((omega arith, omega arith), tt));
  sibling_word = omega arith;
}

left-IsNode : IsNode (raw_of true 4 left_pairs) true 4 left_pairs
unfolding to_bytes
left-IsNode = record {
  junk = replicate 1040 0;
  content = refl;
  full = refl;
  few = omega arith;
  words = ((omega arith, omega arith), tt);
  sibling_word = omega arith;
}

pub right-IsNode : IsNode (raw_of true 0 right_pairs) true 0 right_pairs
unfolding to_bytes
right-IsNode = record {
  junk = replicate 1024 0;
  content = refl;
  full = refl;
  few = omega arith;
  words = ((omega arith, omega arith), ((omega arith, omega arith), tt));
  sibling_word = omega arith;
}

abbrev leaves : List At
leaves = (3, left_pairs) ∷ ((4, right_pairs) ∷ [])

abbrev right_leaves : List At
right_leaves = (4, right_pairs) ∷ []

right_chain : Chain cells small_tree true 4 right_leaves
right_chain = last refl right-IsNode

leaf_chain : Chain cells small_tree true 3 leaves
leaf_chain =
    next refl left-IsNode (λ q. absurd (omega arith)) ((λ q. absurd (omega arith)), tt) right_chain

root_chain : Chain cells small_tree false 2 ((2, root_pairs) ∷ [])
root_chain = last refl root-IsNode

root_read : root_uuid cells 1 small_tree ≡ some (ok 2, small_tree)
unfolding root_uuid load_node parse_uuid parse_uint64 get_uint64 to_bytes of_bytes
root_read = refl

walk-in_range_example :
    walk cells 2 3 3 5 small_tree ≡ some (ok (in_range 3 5 (entries leaves)), small_tree)
walk-in_range_example =
    walk-in_range cells 2 3 3 5 leaves small_tree leaf_chain
      ((omega arith, (omega arith, tt)), ((omega arith, tt), (tt, tt))) (omega arith)

search_range-in_range_example :
    search_range cells 5 1 5 8 small_tree
    ≡ some (ok (in_range 5 8 (left_pairs ++ entries right_leaves)), small_tree)
search_range-in_range_example =
    search_range-in_range cells 5 1 2 4 inf 5 8 ((2, root_pairs) ∷ []) right_leaves left_pairs []
      small_tree root_read root_chain refl (λ q. absurd (omega arith)) right_chain (omega arith, tt)
      ((omega arith, tt), (tt, tt)) (omega arith)

insert-IsInner_example :
    (raw' : List ℕ) × (Node.insert (raw_of false 0 root_pairs) 9 4 ≡ some (true, raw'))
    × IsNode raw' false 0 (before (not_below 4) root_pairs ++ ((3, 4) ∷ ((9, 5) ∷ ((4, inf) ∷ []))))
insert-IsInner_example =
    insert-IsInner (raw_of false 0 root_pairs) 0 root_pairs 9 4 (omega arith) (omega arith)
      (omega arith) 3 5 ((4, inf) ∷ []) root-IsNode refl

-- A tree whose root and whose last leaf have room for one pair more.
abbrev full_tree : Cells
full_tree = (
  4,
  λ v.
      if v == 1
      then to_bytes 8 2
      else if v == 2
      then raw_of false 0 (replicate 62 (3, 1) ++ ((4, inf) ∷ []))
      else if v == 3
      then raw_of true 4 left_pairs
      else raw_of true 0 (replicate 63 (102, 5)),
)

abbrev state_of : Option (Result (ℕ × ℕ) × Cells) → Cells
state_of none = full_tree
state_of (some (r, st)) = st

abbrev grown_tree : Cells
unfolding Tree.insert is_leaf load_node search_next insert_and_split
grown_tree = state_of (Tree.insert cells 5 2 104 6 full_tree)

grown_read : Tree.insert cells 5 2 104 6 full_tree ≡ some (ok (0, 0), grown_tree)
unfolding grown_tree Tree.insert is_leaf load_node search_next insert_and_split of_bytes to_bytes
    put_int
grown_read = refl

full_read : root_uuid cells 1 full_tree ≡ some (ok 2, full_tree)
unfolding root_uuid load_node parse_uuid parse_uint64 get_uint64 to_bytes of_bytes
full_read = refl

full_inner : is_leaf cells 2 full_tree ≡ some (ok false, full_tree)
unfolding is_leaf load_node
full_inner = refl

insert_key-forgets_example : Tree.insert_key cells 5 1 6 104 full_tree ≡ some (ok tt, grown_tree)
insert_key-forgets_example =
    insert_key-forgets cells 5 1 2 104 6 0 0 full_tree grown_tree full_read full_inner grown_read

-- The root was split: it has half of its pairs, and the boot item still names it.
root_halved : Node.get_raw_no_keys (grown_tree.1 2) ≡ some 32
unfolding grown_tree Tree.insert is_leaf load_node search_next insert_and_split of_bytes to_bytes
    put_int
root_halved = refl

abbrev many : ℕ → List Pair
many n = replicate n (102, 5)

many_words : (n : ℕ) → All IsPair (many n)
many_words zero = tt
many_words (suc n) = ((omega arith, omega arith), many_words n)

full-IsNode : IsNode (raw_of true 9 (many 32 ++ many 32)) true 9 (many 32 ++ many 32)
unfolding to_bytes
full-IsNode = record {
  junk = replicate 32 0;
  content = refl;
  full = refl;
  few = omega arith;
  words = many_words 64;
  sibling_word = omega arith;
}

split-halves_example :
    (node_raw : List ℕ) × (split_off (raw_of true 9 (many 32 ++ many 32)) ≡ some node_raw)
    × IsNode node_raw true 9 (many 32)
    × ((son : ℕ)
        → son < 2 ^ 64
        → IsNode (split_rest (raw_of true 9 (many 32 ++ many 32)) son) true son (many 32))
split-halves_example =
    split-halves (raw_of true 9 (many 32 ++ many 32)) true 9 (many 32) (many 32) refl refl
      full-IsNode
