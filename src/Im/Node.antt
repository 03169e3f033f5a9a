-- ===== src/Im/Node.antt =====
-- main/backend/im/node.go: a node of the tree as the bytes of a data item: whether it is a leaf, its
-- number of keys, its right sibling, and pairs of a son and a key. `none` is a slice out of range.
pub mod Bytes
pub mod Cut
pub mod Insert
pub mod Place
pub mod Search
pub mod Shift
pub mod Split
use wisdb.Base.{ℕ, List, Option, ◌+◌, Bool, copy_at, get_elem?, suc, replicate, some}
use wisdb.Base.{◌>>=◌, ◌*◌, set, ◌==◌, drop, ◌-◌, false, true, if◌then◌else◌}
use wisdb.Base.{ltb, [], leb, not, ◌∷◌, ◌&&◌, zero, none}
use wisdb.Utils.IntEncoding.{len_uuid, put_uint16, parse_uint16, put_uuid, parse_uuid}
use wisdb.Utils.IntEncoding.{inf}

abbrev pub is_leaf_offset : ℕ
is_leaf_offset = 0

abbrev pub no_keys_offset : ℕ
no_keys_offset = 1

abbrev pub sibling_offset : ℕ
sibling_offset = 3

abbrev pub node_header_size : ℕ
node_header_size = 11

abbrev pub balance_number : ℕ
balance_number = 32

abbrev pub node_size : ℕ
node_size = node_header_size + (2 * len_uuid) * (balance_number * 2 + 2)

unfoldable pub set_raw_is_leaf : List ℕ → Bool → List ℕ
set_raw_is_leaf raw is_leaf = set raw is_leaf_offset (if is_leaf then 1 else 0)

unfoldable pub get_raw_is_leaf : List ℕ → Option Bool
get_raw_is_leaf raw = do b ← get_elem? raw is_leaf_offset; some (b == 1)

unfoldable pub set_raw_no_keys : List ℕ → ℕ → List ℕ
unfolding put_uint16
set_raw_no_keys raw no_keys = put_uint16 raw no_keys_offset no_keys

unfoldable pub get_raw_no_keys : List ℕ → Option ℕ
unfolding parse_uint16
get_raw_no_keys raw = parse_uint16 (drop no_keys_offset raw)

unfoldable pub set_raw_sibling : List ℕ → ℕ → List ℕ
unfolding put_uuid
set_raw_sibling raw sibling = put_uuid raw sibling_offset sibling

unfoldable pub get_raw_sibling : List ℕ → Option ℕ
unfolding parse_uuid
get_raw_sibling raw = parse_uuid (drop sibling_offset raw)

-- The offset of a pair.
abbrev pub kth_offset : ℕ → ℕ
kth_offset kth = node_header_size + kth * (len_uuid * 2)

unfoldable pub set_raw_kth_son : List ℕ → ℕ → ℕ → List ℕ
unfolding put_uuid
set_raw_kth_son raw uid kth = put_uuid raw (kth_offset kth) uid

unfoldable pub get_raw_kth_son : List ℕ → ℕ → Option ℕ
unfolding parse_uuid
get_raw_kth_son raw kth = parse_uuid (drop (kth_offset kth) raw)

unfoldable pub set_raw_kth_key : List ℕ → ℕ → ℕ → List ℕ
unfolding put_uuid
set_raw_kth_key raw key kth = put_uuid raw (kth_offset kth + len_uuid) key

unfoldable pub get_raw_kth_key : List ℕ → ℕ → Option ℕ
unfolding parse_uuid
get_raw_kth_key raw kth = parse_uuid (drop (kth_offset kth + len_uuid) raw)

unfoldable pub copy_raw_from_kth : List ℕ → List ℕ → ℕ → List ℕ
copy_raw_from_kth from to kth = copy_at to node_header_size (drop (kth_offset kth) from)

-- raw[i] = raw[i-16]
abbrev pub move_byte : List ℕ → ℕ → List ℕ
move_byte raw i = elim (get_elem? raw (i - len_uuid * 2)) [ none ↦ raw | some b ↦ set raw i b ]

-- The loop of shiftRawKth: `n` rounds from `i` down.
unfoldable pub shift_down : ℕ → ℕ → List ℕ → List ℕ
shift_down zero i raw = raw
shift_down (suc n) i raw = shift_down n (i - 1) (move_byte raw i)

unfoldable pub shift_raw_kth : List ℕ → ℕ → List ℕ
unfolding shift_down
shift_raw_kth raw kth =
    let begin = kth_offset (kth + 1) in
    let end = node_size - 1 in shift_down (end + 1 - begin) end raw

unfoldable pub new_root_raw : ℕ → ℕ → ℕ → List ℕ
unfolding set_raw_is_leaf set_raw_no_keys set_raw_sibling set_raw_kth_son set_raw_kth_key
new_root_raw left right key =
    let raw = set_raw_is_leaf (replicate node_size 0) false in
    let raw = set_raw_sibling (set_raw_no_keys raw 2) 0 in
    let raw = set_raw_kth_key (set_raw_kth_son raw left 0) key 0 in
    set_raw_kth_key (set_raw_kth_son raw right 1) inf 1

unfoldable pub new_nil_root_raw : List ℕ
unfolding set_raw_is_leaf set_raw_no_keys set_raw_sibling
new_nil_root_raw =
    set_raw_sibling (set_raw_no_keys (set_raw_is_leaf (replicate node_size 0) true) 0) 0

-- The loops over the keys: `n` keys from `kth` on, up to the first at which the loop stops.
unfoldable pub first_key : (ℕ → Bool) → List ℕ → ℕ → ℕ → Option ℕ
unfolding get_raw_kth_key
first_key stop raw zero kth = some kth
first_key stop raw (suc n) kth =
    let rest = first_key stop raw n (kth + 1) in
    do ik ← get_raw_kth_key raw kth; (if stop ik then some kth else rest)

-- SearchNext: the son for a key, or 0 and the sibling.
unfoldable pub search_next : List ℕ → ℕ → Option (ℕ × ℕ)
unfolding first_key get_raw_no_keys get_raw_kth_son get_raw_sibling
search_next raw key = do
  no_keys ← get_raw_no_keys raw
  kth ← first_key (λ ik. ltb key ik) raw no_keys 0
  (if ltb kth no_keys
      then (do son ← get_raw_kth_son raw kth; some (son, 0))
      else (do sibling ← get_raw_sibling raw; some (0, sibling)))

-- The second loop of LeafSearchRange, with where it ends.
unfoldable pub take_keys : ℕ → List ℕ → ℕ → ℕ → Option (List ℕ × ℕ)
unfolding get_raw_kth_key get_raw_kth_son
take_keys right_key raw zero kth = some ([], kth)
take_keys right_key raw (suc n) kth =
    let rest = take_keys right_key raw n (kth + 1) in
    do
      ik ← get_raw_kth_key raw kth
      (if leb ik right_key
          then (do son ← get_raw_kth_son raw kth; (uuids, last) ← rest; some (son ∷ uuids, last))
          else some ([], kth))

unfoldable pub leaf_search_range : List ℕ → ℕ → ℕ → Option (List ℕ × ℕ)
unfolding first_key take_keys get_raw_no_keys get_raw_sibling
leaf_search_range raw left_key right_key = do
  no_keys ← get_raw_no_keys raw
  kth ← first_key (λ ik. leb left_key ik) raw no_keys 0
  (uuids, last) ← take_keys right_key raw (no_keys - kth) kth
  (if last == no_keys
      then (do sibling ← get_raw_sibling raw; some (uuids, sibling))
      else some (uuids, 0))

-- insert: whether it was done here, and the bytes.
abbrev pub insert_leaf : List ℕ → ℕ → ℕ → ℕ → ℕ → List ℕ
insert_leaf raw uuid key no_keys kth =
    set_raw_no_keys (set_raw_kth_son (set_raw_kth_key (shift_raw_kth raw kth) key kth) uuid kth)
      (no_keys + 1)

abbrev pub insert_inner : List ℕ → ℕ → ℕ → ℕ → ℕ → Option (List ℕ)
insert_inner raw uuid key no_keys kth = do
  kk ← get_raw_kth_key raw kth
  let raw = shift_raw_kth (set_raw_kth_key raw key kth) (kth + 1)
  let raw = set_raw_kth_son (set_raw_kth_key raw kk (kth + 1)) uuid (kth + 1)
  some (set_raw_no_keys raw (no_keys + 1))

unfoldable pub insert : List ℕ → ℕ → ℕ → Option (Bool × List ℕ)
unfolding first_key get_raw_no_keys get_raw_sibling get_raw_is_leaf shift_raw_kth set_raw_kth_key
    set_raw_kth_son set_raw_no_keys
insert raw uuid key = do
  no_keys ← get_raw_no_keys raw
  kth ← first_key (λ ik. not (ltb ik key)) raw no_keys 0
  sibling ← get_raw_sibling raw
  (if kth == no_keys && not (sibling == 0) then some (false, raw) else (do
    is_leaf ← get_raw_is_leaf raw
    (if is_leaf
        then some (true, insert_leaf raw uuid key no_keys kth)
        else (do raw' ← insert_inner raw uuid key no_keys kth; some (true, raw')))))

unfoldable pub need_split : List ℕ → Option Bool
unfolding get_raw_no_keys
need_split raw = do no_keys ← get_raw_no_keys raw; some (balance_number * 2 == no_keys)

-- The bytes of the new node of a split.
unfoldable pub split_off : List ℕ → Option (List ℕ)
unfolding set_raw_is_leaf set_raw_no_keys set_raw_sibling copy_raw_from_kth get_raw_is_leaf
    get_raw_sibling
split_off raw = do
  is_leaf ← get_raw_is_leaf raw
  sibling ← get_raw_sibling raw
  let node = set_raw_no_keys (set_raw_is_leaf (replicate node_size 0) is_leaf) balance_number
  some (copy_raw_from_kth raw (set_raw_sibling node sibling) balance_number)

-- What is left of the node that is split, with the new node as its sibling.
unfoldable pub split_rest : List ℕ → ℕ → List ℕ
unfolding set_raw_no_keys set_raw_sibling
split_rest raw son = set_raw_sibling (set_raw_no_keys raw balance_number) son
