-- ===== src/Im/Node/Bytes.antt =====
-- A node's bytes by its fields: what the reads give and what the writes change.
use wisdb.Base.{ℕ, List, Bool, ◌<◌, length, ◌++◌, if◌then◌else◌, ◌^◌, ◌≡◌, ◌∷◌, ◌*◌}
use wisdb.Base.{arith, ap, length-append, ◌≤◌, ◌∙◌, some, [], refl, All, drop, ◌+◌}
use wisdb.Utils.IntEncoding.{to_bytes, parse_uuid, put_uuid, parse_uint16, put_uint16}
use wisdb.Im.Node.{node_size, kth_offset, get_raw_kth_key, get_raw_kth_son, set_raw_kth_son}
use mathlib.Core.List.{append_assoc}
use wisdb.Im.Node.{set_raw_kth_key, get_raw_no_keys, get_raw_is_leaf, get_raw_sibling}
use wisdb.Im.Node.{set_raw_no_keys, set_raw_sibling, balance_number}
use wisdb.Utils.IntEncoding.{parse_uint64, put_uint64, get_uint16, get_uint64, put_int}
use wisdb.Utils.IntEncoding.{of_bytes}
use wisdb.Utils.IntEncoding.RoundTrip.{length-to_bytes, of_bytes_mid, put_int_mid}
use wisdb.Utils.IntEncoding.RoundTrip.{of_bytes-to_bytes}
use wisdb.Base.{sym}

-- A son and its key.
abbrev pub Pair : Type 0
Pair = ℕ × ℕ

abbrev pub pairs : List Pair → List ℕ
pairs [] = []
pairs ((son, key) ∷ es) = to_bytes 8 son ++ (to_bytes 8 key ++ pairs es)

abbrev pub header : Bool → ℕ → ℕ → List ℕ
header is_leaf n sibling = (if is_leaf then 1 else 0) ∷ (to_bytes 2 n ++ to_bytes 8 sibling)

-- The bytes of a node, with what lies behind its pairs.
abbrev pub node_bytes : Bool → ℕ → List Pair → List ℕ → List ℕ
node_bytes is_leaf sibling es junk = header is_leaf (length es) sibling ++ (pairs es ++ junk)

abbrev pub IsPair : Pair → Type 0
IsPair (son, key) = (son < 2 ^ 64) × (key < 2 ^ 64)

-- The node of some pairs, which leave room for one more.
pub record IsNode (raw : List ℕ) (is_leaf : Bool) (sibling : ℕ) (es : List Pair) : Type 0 where
  pub junk : List ℕ
  pub content : raw ≡ node_bytes is_leaf sibling es junk
  pub full : length raw ≡ node_size
  pub few : length es ≤ balance_number * 2
  pub words : All IsPair es
  pub sibling_word : sibling < 2 ^ 64

pub length-header : (l : Bool) (n s : ℕ) → length (header l n s) ≡ 11
unfolding to_bytes
length-header l n s = refl

pub length-pairs : (es : List Pair) → length (pairs es) ≡ length es * 16
length-pairs [] = refl
length-pairs ((son, key) ∷ es) = omega (
  arith,
  length-pairs es,
  length-append {0} (to_bytes 8 son) (to_bytes 8 key ++ pairs es),
  length-append {0} (to_bytes 8 key) (pairs es),
  length-to_bytes 8 son,
  length-to_bytes 8 key,
)

pub pairs-append : (es fs : List Pair) → pairs (es ++ fs) ≡ pairs es ++ pairs fs
pairs-append [] fs = refl
pairs-append ((son, key) ∷ es) fs =
    ap (λ l. to_bytes 8 son ++ (to_bytes 8 key ++ l)) (pairs-append es fs) ∙ simp append_assoc

-- What stands in front of the pair behind some pairs.
abbrev pub front : Bool → ℕ → ℕ → List Pair → List ℕ
front l n s pre = header l n s ++ pairs pre

pub length-front :
    (l : Bool) (n s : ℕ) (pre : List Pair) → length (front l n s pre) ≡ kth_offset (length pre)
length-front l n s pre =
    omega
      (arith, length-append {0} (header l n s) (pairs pre), length-header l n s, length-pairs pre)

-- The bytes split at a pair.
pub at_pair :
    (l : Bool) (n s : ℕ) (pre post : List Pair) (junk : List ℕ)
    → header l n s ++ (pairs (pre ++ post) ++ junk) ≡ front l n s pre ++ (pairs post ++ junk)
at_pair l n s pre post junk = rw (pairs-append pre post) (simp append_assoc)

module _ (l : Bool) (n s : ℕ) (pre : List Pair) where
  pub get_key :
      (son key : ℕ) (rest : List ℕ)
      → key < 2 ^ 64
      → get_raw_kth_key
          (front l n s pre ++ (to_bytes 8 son ++ (to_bytes 8 key ++ rest)))
          (length pre)
        ≡ some key
  unfolding get_raw_kth_key parse_uuid parse_uint64 get_uint64
  get_key son key rest h =
      ap (λ r. of_bytes 8 0 (drop (kth_offset (length pre) + 8) r))
        (sym (append_assoc (front l n s pre) (to_bytes 8 son) (to_bytes 8 key ++ rest)))
      ∙ of_bytes_mid 8 (front l n s pre ++ to_bytes 8 son) rest (kth_offset (length pre) + 8) key
          (omega (
            arith,
            length-append {0} (front l n s pre) (to_bytes 8 son),
            length-front l n s pre,
            length-to_bytes 8 son,
          ))
          (omega arith)

  pub get_son :
      (son : ℕ) (rest : List ℕ)
      → son < 2 ^ 64
      → get_raw_kth_son (front l n s pre ++ (to_bytes 8 son ++ rest)) (length pre) ≡ some son
  unfolding get_raw_kth_son parse_uuid parse_uint64 get_uint64
  get_son son rest h =
      of_bytes_mid 8 (front l n s pre) rest (kth_offset (length pre)) son (length-front l n s pre)
        (omega arith)

  pub set_son :
      (son : ℕ) (old rest : List ℕ)
      → length old ≡ 8
      → set_raw_kth_son (front l n s pre ++ (old ++ rest)) son (length pre)
        ≡ front l n s pre ++ (to_bytes 8 son ++ rest)
  unfolding set_raw_kth_son put_uuid put_uint64
  set_son son old rest h =
      put_int_mid 8 (front l n s pre) old rest (kth_offset (length pre)) son
        (length-front l n s pre) h

  pub set_key :
      (key : ℕ) (old older rest : List ℕ)
      → length older ≡ 8
      → length old ≡ 8
      → set_raw_kth_key (front l n s pre ++ (older ++ (old ++ rest))) key (length pre)
        ≡ front l n s pre ++ (older ++ (to_bytes 8 key ++ rest))
  unfolding set_raw_kth_key put_uuid put_uint64
  set_key key old older rest h k =
      ap (λ r. put_int 8 r (kth_offset (length pre) + 8) key)
        (sym (append_assoc (front l n s pre) older (old ++ rest)))
      ∙ put_int_mid 8 (front l n s pre ++ older) old rest (kth_offset (length pre) + 8) key
          (omega (arith, length-append {0} (front l n s pre) older, length-front l n s pre, h)) k
      ∙ append_assoc (front l n s pre) older (to_bytes 8 key ++ rest)

-- The fields of the header.
module _ (l : Bool) (n s : ℕ) (rest : List ℕ) where
  pub get_count : n < 2 ^ 16 → get_raw_no_keys (header l n s ++ rest) ≡ some n
  unfolding get_raw_no_keys parse_uint16 get_uint16
  get_count h = unfold to_bytes in of_bytes-to_bytes 2 n (to_bytes 8 s ++ rest) (omega arith)

  pub get_leaf : get_raw_is_leaf (header l n s ++ rest) ≡ some l
  unfolding get_raw_is_leaf
  get_leaf = ground arith

  pub get_sib : s < 2 ^ 64 → get_raw_sibling (header l n s ++ rest) ≡ some s
  unfolding get_raw_sibling parse_uuid parse_uint64 get_uint64
  get_sib h = unfold to_bytes in of_bytes-to_bytes 8 s rest (omega arith)

  pub set_count : (m : ℕ) → set_raw_no_keys (header l n s ++ rest) m ≡ header l m s ++ rest
  unfolding set_raw_no_keys put_uint16 to_bytes
  set_count m =
      put_int_mid 2 ((if l then 1 else 0) ∷ []) (to_bytes 2 n) (to_bytes 8 s ++ rest) 1 m refl
        (length-to_bytes 2 n)

  pub set_sib : (t : ℕ) → set_raw_sibling (header l n s ++ rest) t ≡ header l n t ++ rest
  unfolding set_raw_sibling put_uuid put_uint64 to_bytes
  set_sib t =
      put_int_mid 8 ((if l then 1 else 0) ∷ to_bytes 2 n) (to_bytes 8 s) rest 3 t refl
        (length-to_bytes 8 s)

-- The bytes opened at a pair.
pub open_pair :
    (l : Bool) (n s : ℕ) (pre : List Pair) (son key : ℕ) (es : List Pair) (junk : List ℕ)
    → header l n s ++ (pairs (pre ++ ((son, key) ∷ es)) ++ junk)
      ≡ front l n s pre ++ (to_bytes 8 son ++ (to_bytes 8 key ++ (pairs es ++ junk)))
open_pair l n s pre son key es junk =
    at_pair l n s pre ((son, key) ∷ es) junk ∙ ap (λ r. front l n s pre ++ r) (simp append_assoc)

-- A list of pairs with one moved from the back to the front.
pub move_pair :
    (pre : List Pair) (e : Pair) (es : List Pair) → (pre ++ (e ∷ [])) ++ es ≡ pre ++ (e ∷ es)
move_pair pre e es = append_assoc pre (e ∷ []) es

pub read_leaf :
    (raw : List ℕ) (l : Bool) (s : ℕ) (es : List Pair)
    → IsNode raw l s es
    → get_raw_is_leaf raw ≡ some l
read_leaf raw l s es node = rw node.content (get_leaf l (length es) s (pairs es ++ node.junk))

pub read_count :
    (raw : List ℕ) (l : Bool) (s : ℕ) (es : List Pair)
    → IsNode raw l s es
    → get_raw_no_keys raw ≡ some (length es)
read_count raw l s es node =
    rw node.content (get_count l (length es) s (pairs es ++ node.junk) (omega (arith, node.few)))

pub read_sib :
    (raw : List ℕ) (l : Bool) (s : ℕ) (es : List Pair)
    → IsNode raw l s es
    → get_raw_sibling raw ≡ some s
read_sib raw l s es node =
    rw node.content (get_sib l (length es) s (pairs es ++ node.junk) node.sibling_word)
