-- ===== src/Im/Tree.antt =====
-- main/backend/im/tree.go, and the methods of node.go that go through the data manager. A tree is
-- the address of its boot item, whose bytes are the address of the root. A method's part under the
-- boot lock is one function; the loops take fuel.
pub mod Behind
pub mod Chain
pub mod Descend
pub mod Forget
pub mod Grow
pub mod Insertion
pub mod Walk
use wisdb.Im.Node
use wisdb.Im.Store.{Store, Step, Reading, found, missing, no_page, pure, fail, lift, written}
use wisdb.Im.Store.{◌>>=◌, ◌>>◌}
use wisdb.Utils.IntEncoding.{parse_uuid, uuid_to_raw}
use wisdb.Base.{ℕ, List, none, Bool, if◌then◌else◌, suc, not, ◌==◌, ◌++◌, zero}

module _ {S : Type 0} (dm : Store S) where
  abbrev pub load_of : Reading → Step S (List ℕ)
  load_of (found raw) = pure raw
  load_of missing = lift none
  load_of no_page = fail

  -- loadNode, as the bytes of the node.
  unfoldable pub load_node : ℕ → Step S (List ℕ)
  load_node self_uuid st = load_of (Store.read dm self_uuid st) st

  unfoldable pub is_leaf : ℕ → Step S Bool
  unfolding load_node Node.get_raw_is_leaf
  is_leaf node_uuid = do raw ← load_node node_uuid; lift (Node.get_raw_is_leaf raw)

  -- Create: the address of the boot item.
  unfoldable pub create : Step S ℕ
  unfolding Node.new_nil_root_raw uuid_to_raw
  create = do
    root_uuid ← Store.insert dm Node.new_nil_root_raw
    Store.insert dm (uuid_to_raw root_uuid)

  abbrev pub load_boot : ℕ → Reading → Step S ℕ
  load_boot boot_uuid (found raw) = pure boot_uuid
  load_boot boot_uuid missing = fail
  load_boot boot_uuid no_page = fail

  -- Load
  unfoldable pub load : ℕ → Step S ℕ
  load boot_uuid st = load_boot boot_uuid (Store.read dm boot_uuid st) st

  -- rootUUID_
  unfoldable pub root_uuid : ℕ → Step S ℕ
  unfolding load_node parse_uuid
  root_uuid boot_uuid = do raw ← load_node boot_uuid; lift (parse_uuid raw)

  -- updaterootUUID_
  unfoldable pub update_root_uuid : ℕ → ℕ → ℕ → ℕ → Step S (Unit {0})
  unfolding Node.new_root_raw uuid_to_raw
  update_root_uuid boot_uuid left right right_key = do
    new_root_uuid ← Store.insert dm (Node.new_root_raw left right right_key)
    written dm boot_uuid (uuid_to_raw new_root_uuid)

  -- bPlusTree.searchNext
  unfoldable pub search_next : ℕ → ℕ → ℕ → Step S ℕ
  unfolding load_node Node.search_next
  search_next zero node_uuid key = lift none
  search_next (suc fuel) node_uuid key = do
    raw ← load_node node_uuid
    (next, sibling_uuid) ← lift (Node.search_next raw key)
    (if not (next == 0) then pure next else search_next fuel sibling_uuid key)

  unfoldable pub search_leaf : ℕ → ℕ → ℕ → Step S ℕ
  unfolding is_leaf search_next
  search_leaf zero node_uuid key = lift none
  search_leaf (suc fuel) node_uuid key = do
    leaf ← is_leaf node_uuid
    (if leaf
        then pure node_uuid
        else (do next ← search_next fuel node_uuid key; search_leaf fuel next key))

  -- The loop of SearchRange over the leaves.
  unfoldable pub walk : ℕ → ℕ → ℕ → ℕ → Step S (List ℕ)
  unfolding load_node Node.leaf_search_range
  walk zero leaf_uuid left_key right_key = lift none
  walk (suc fuel) leaf_uuid left_key right_key = do
    raw ← load_node leaf_uuid
    (tmp, sibling_uuid) ← lift (Node.leaf_search_range raw left_key right_key)
    (if sibling_uuid == 0
        then pure tmp
        else (do uuids ← walk fuel sibling_uuid left_key right_key; pure (tmp ++ uuids)))

  unfoldable pub search_range : ℕ → ℕ → ℕ → ℕ → Step S (List ℕ)
  unfolding root_uuid search_leaf walk
  search_range fuel boot_uuid left_key right_key = do
    root ← root_uuid boot_uuid
    leaf_uuid ← search_leaf fuel root left_key
    walk fuel leaf_uuid left_key right_key

  unfoldable pub search : ℕ → ℕ → ℕ → Step S (List ℕ)
  unfolding search_range
  search fuel boot_uuid key = search_range fuel boot_uuid key key

  -- split: the new node is inserted before the old one is changed.
  unfoldable pub split : ℕ → List ℕ → Step S (ℕ × ℕ × ℕ)
  unfolding Node.split_off Node.split_rest Node.get_raw_kth_key
  split self_uuid raw = do
    node_raw ← lift (Node.split_off raw)
    son ← Store.insert dm node_raw
    new_key ← lift (Node.get_raw_kth_key node_raw 0)
    written dm self_uuid (Node.split_rest raw son)
    pure (0, son, new_key)

  -- node.insertAndSplit: the sibling to go on with, the new node, and its key. What UnBefore takes
  -- back is not written.
  unfoldable pub insert_into : ℕ → ℕ → ℕ → Step S (ℕ × ℕ × ℕ)
  unfolding load_node Node.insert Node.get_raw_sibling Node.need_split split
  insert_into self_uuid uuid key = do
    raw ← load_node self_uuid
    (succ, raw') ← lift (Node.insert raw uuid key)
    (if not succ then (do sibling ← lift (Node.get_raw_sibling raw'); pure (sibling, 0, 0)) else (do
      full ← lift (Node.need_split raw')
      (if full then split self_uuid raw' else (do written dm self_uuid raw'; pure (0, 0, 0)))))

  -- bPlusTree.insertAndSplit: the new node and its key.
  unfoldable pub insert_and_split : ℕ → ℕ → ℕ → ℕ → Step S (ℕ × ℕ)
  unfolding insert_into
  insert_and_split zero node_uuid uuid key = lift none
  insert_and_split (suc fuel) node_uuid uuid key = do
    (sibling_son, new_son, new_key) ← insert_into node_uuid uuid key
    (if not (sibling_son == 0)
        then insert_and_split fuel sibling_son uuid key
        else pure (new_son, new_key))

  -- bPlusTree.insert: its results are named, and the branch of an inner node sets neither.
  unfoldable pub insert : ℕ → ℕ → ℕ → ℕ → Step S (ℕ × ℕ)
  unfolding is_leaf search_next insert_and_split
  insert zero node_uuid uuid key = lift none
  insert (suc fuel) node_uuid uuid key = do
    leaf ← is_leaf node_uuid
    (if leaf then insert_and_split fuel node_uuid uuid key else (do
      next ← search_next fuel node_uuid key
      (new_son_uuid, new_son_key) ← insert fuel next uuid key
      (if new_son_uuid == 0 then pure (0, 0) else (do
        (lost_uuid, lost_key) ← insert_and_split fuel node_uuid new_son_uuid new_son_key
        pure (0, 0)))))

  -- Insert's second part under the lock.
  unfoldable pub grow : ℕ → ℕ → ℕ → ℕ → Step S (Unit {0})
  unfolding root_uuid update_root_uuid
  grow boot_uuid root new_node new_key = do
    current_root ← root_uuid boot_uuid
    (if current_root == root then update_root_uuid boot_uuid root new_node new_key else pure tt)

  -- Insert
  unfoldable pub insert_key : ℕ → ℕ → ℕ → ℕ → Step S (Unit {0})
  unfolding root_uuid insert grow
  insert_key fuel boot_uuid key uuid = do
    root ← root_uuid boot_uuid
    (new_node, new_key) ← insert fuel root uuid key
    (if not (new_node == 0) then grow boot_uuid root new_node new_key else pure tt)
