-- ===== src/Im/Node/Split.antt =====
-- split by the list of pairs: the new node has the right half and the old sibling, the node keeps the left half,
-- with the new node as its sibling.
use wisdb.Im.Node.{
  split_off, split_rest, copy_raw_from_kth, set_raw_is_leaf, set_raw_no_keys, set_raw_sibling,
  balance_number, node_size, kth_offset,
}
use wisdb.Im.Node.Bytes.{
  Pair, IsPair, IsNode, pairs, header, get_sib, get_leaf, set_count, set_sib, at_pair, front,
}
use wisdb.Im.Node.Search.{bytes}
use wisdb.Im.Node.Place.{length-bytes}
use wisdb.Im.Node.Insert.{All-front, All-back}
use wisdb.Base.{copy, Bool, List, ℕ, replicate, length, ◌≡◌, ◌++◌, copy_at, ◌<◌}
use wisdb.Utils.IntEncoding.{to_bytes}
use wisdb.Base.{drop, some, ◌^◌, true, refl, false, arith, ap, length-append, sym}
use wisdb.Base.{◌∙◌, length-drop, copy_fits, drop-length_append, length-replicate}
use mathlib.Core.List.{append_assoc}
use wisdb.Im.Node.Bytes.{length-front, length-pairs, length-header}
use wisdb.Im.Node.{get_raw_is_leaf, get_raw_sibling}

blank : (l : Bool) → set_raw_is_leaf (replicate node_size 0) l ≡ header l 0 0 ++ replicate 1056 0
unfolding set_raw_is_leaf to_bytes
blank true = refl
blank false = refl

fresh :
    (l : Bool) (s : ℕ)
    → set_raw_sibling (set_raw_no_keys (set_raw_is_leaf (replicate node_size 0) l) balance_number) s
      ≡ header l 32 s ++ replicate 1056 0
fresh l s =
    rw (blank l, set_count l 0 0 (replicate 1056 0) 32) (set_sib l 32 0 (replicate 1056 0) s)

copy_behind :
    (l : Bool) (n s : ℕ) (rest src : List ℕ)
    → copy_at (header l n s ++ rest) 11 src ≡ header l n s ++ copy rest src
unfolding to_bytes
copy_behind l n s rest src = refl

module _ (raw : List ℕ) (l : Bool) (s : ℕ) (pre post : List Pair) (left : length pre ≡ 32)
    (right : length post ≡ 32) where
  count : length (pre ++ post) ≡ 64
  count = omega (arith, length-append {0} pre post)

  opened :
      (node : IsNode raw l s (pre ++ post)) → raw ≡ front l 64 s pre ++ (pairs post ++ node.junk)
  opened node =
      node.content
      ∙ ap (λ n. bytes l n s node.junk (pre ++ post)) count
      ∙ at_pair l 64 s pre post node.junk

  tail : (node : IsNode raw l s (pre ++ post)) → drop (kth_offset 32) raw ≡ pairs post ++ node.junk
  tail node =
      let at : kth_offset 32 ≡ length (front l 64 s pre) =
        omega (arith, length-front l 64 s pre, left) in
      ap (drop (kth_offset 32)) (opened node)
      ∙ ap (λ n. drop n (front l 64 s pre ++ (pairs post ++ node.junk))) at
      ∙ drop-length_append (front l 64 s pre) (pairs post ++ node.junk)

  room : (node : IsNode raw l s (pre ++ post)) → length (pairs post ++ node.junk) ≡ 544
  room node = ap length (sym (tail node)) ∙ omega (arith, length-drop {0} 523 raw, node.full)

  -- The new node of a split.
  pub split_off-IsNode :
      IsNode raw l s (pre ++ post)
      → (node_raw : List ℕ) × (split_off raw ≡ some node_raw) × IsNode node_raw l s post
  unfolding split_off copy_raw_from_kth
  split_off-IsNode node =
      let src : List ℕ = pairs post ++ node.junk in
      let zeros : List ℕ = replicate 1056 0 in
      let written : copy_at (header l 32 s ++ zeros) 11 src
          ≡ header l 32 s ++ (src ++ drop 544 zeros) =
        copy_behind l 32 s zeros src
        ∙ ap (λ r. header l 32 s ++ r)
            (copy_fits zeros src (omega (arith, room node, length-replicate {0} {A = ℕ} 1056 0))
              ∙ ap (λ n. src ++ drop n zeros) (room node)) in
      let read_leaf : get_raw_is_leaf raw ≡ some l =
        ap get_raw_is_leaf node.content
        ∙ get_leaf l (length (pre ++ post)) s (pairs (pre ++ post) ++ node.junk) in
      let read_sib : get_raw_sibling raw ≡ some s =
        ap get_raw_sibling node.content
        ∙ get_sib l (length (pre ++ post)) s (pairs (pre ++ post) ++ node.junk) node.sibling_word in
      let assoc = append_assoc (pairs post) node.junk (drop 544 zeros) in
      (
        header l 32 s ++ (src ++ drop 544 zeros),
        rw (read_leaf, read_sib, fresh l s, tail node) (ap some written),
        record {
          junk = node.junk ++ drop 544 zeros;
          content = rw (right, append_assoc (pairs post) node.junk (drop 544 zeros)) refl;
          full = omega (
            arith,
            right,
            room node,
            length-bytes l 32 s (node.junk ++ drop 544 zeros) post,
            length-append {0} (pairs post) node.junk,
            length-append {0} node.junk (drop 544 zeros),
            length-drop {0} 544 zeros,
            length-replicate {0} {A = ℕ} 1056 0,
            length-pairs post,
            ap length assoc,
            length-append {0} (header l 32 s) (src ++ drop 544 zeros),
            length-header l 32 s,
            length-append {0} src (drop 544 zeros),
          );
          few = omega arith;
          words = All-back IsPair pre post node.words;
          sibling_word = node.sibling_word;
        },
      )

  -- What is left of the node that is split.
  pub split_rest-IsNode :
      (son : ℕ)
      → son < 2 ^ 64
      → IsNode raw l s (pre ++ post)
      → IsNode (split_rest raw son) l son pre
  unfolding split_rest
  split_rest-IsNode son small node =
      let rest : List ℕ = pairs pre ++ (pairs post ++ node.junk) in
      let flat = append_assoc (header l 64 s) (pairs pre) (pairs post ++ node.junk) in
      let kept : split_rest raw son ≡ header l 32 son ++ rest =
        rw (opened node, flat, set_count l 64 s rest 32) (set_sib l 32 s rest son) in
      record {
        junk = pairs post ++ node.junk;
        content = kept ∙ rw left refl;
        full =
            ap length kept
            ∙ omega (
              arith,
              left,
              room node,
              length-append {0} (header l 32 son) rest,
              length-header l 32 son,
              length-append {0} (pairs pre) (pairs post ++ node.junk),
              length-pairs pre,
            );
        few = omega arith;
        words = All-front IsPair pre post node.words;
        sibling_word = small;
      }

  -- A split of a node of 64 pairs: the new node has the second half and the old sibling, and the old one keeps the first half
  -- and has the new one, at whatever address, as its sibling.
  pub split-halves :
      IsNode raw l s (pre ++ post)
      → (node_raw : List ℕ) × (split_off raw ≡ some node_raw)
        × IsNode node_raw l s post
        × ((son : ℕ) → son < 2 ^ 64 → IsNode (split_rest raw son) l son pre)
  split-halves node =
      let (node_raw, made, half) = split_off-IsNode node in
      (node_raw, made, half, λ son small. split_rest-IsNode son small node)
