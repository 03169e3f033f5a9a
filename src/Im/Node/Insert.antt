-- ===== src/Im/Node/Insert.antt =====
-- insert of a node by its list of pairs: in a leaf, in an inner node, and where the sibling is next.
use mathlib.Core.Path.{subst}
use wisdb.Im.Node.{insert, insert_inner, insert_leaf, node_size, set_raw_kth_key}
use wisdb.Im.Node.Bytes.{Pair, IsNode, pairs, get_count, get_sib, IsPair}
use wisdb.Im.Node.Bytes.{open_pair, set_key, move_pair}
use wisdb.Im.Node.Search.{bytes, before, after, before-after, first_key-start, key_at}
use wisdb.Im.Node.Place.{place, length-bytes}
use wisdb.Base.{ℕ, Bool, List, not, ◌++◌, ◌<◌, ◌≢◌, ltb, ◌^◌, ◌≡◌, length, [], some}
use wisdb.Base.{false, ◌∷◌, ◌==◌, ◌≤◌, true, arith, ◌+◌, take, ◌-◌, ap, ◌∙◌, sym}
use wisdb.Utils.IntEncoding.{to_bytes}
use wisdb.Utils.IntEncoding.RoundTrip.{length-to_bytes}
use wisdb.Base.{length-append, refl, ◌&&◌, if◌then◌else◌, ◌>>=◌, All, length-take}
use wisdb.Im.Node.Search.{length_next}

-- The key at which insert stops: the first that is not below the new one.
abbrev pub not_below : ℕ → ℕ → Bool
not_below key ik = not (ltb ik key)

-- The pairs with a new one in front of the first key that is not below its own.
abbrev pub with_pair : ℕ → ℕ → List Pair → List Pair
with_pair uuid key es = before (not_below key) es ++ ((uuid, key) ∷ after (not_below key) es)

-- The pairs of an inner node with the son at the new key cut in two: the old son keeps the keys below
-- the new one, the new son has the rest.
abbrev pub with_son : ℕ → ℕ → List Pair → List Pair → List Pair
with_son uuid key pre [] = pre
with_son uuid key pre ((son, kk) ∷ post) = pre ++ ((son, key) ∷ ((uuid, kk) ∷ post))

module _ (l : Bool) (n s : ℕ) (pre post : List Pair) (junk : List ℕ) where
  pub place_son :
      (uuid key m son kk : ℕ)
      → kk < 2 ^ 64
      → length (bytes l n s junk (pre ++ ((son, kk) ∷ post))) ≡ node_size
      → length (pre ++ ((son, kk) ∷ post)) ≤ 64
      → insert_inner (bytes l n s junk (pre ++ ((son, kk) ∷ post))) uuid key m (length pre)
        ≡ some (
            bytes l
              (m + 1)
              s
              (take (length junk - 16) junk)
              (pre ++ ((son, key) ∷ ((uuid, kk) ∷ post))))
  place_son uuid key m son kk small full few =
      let raised : set_raw_kth_key (bytes l n s junk (pre ++ ((son, kk) ∷ post))) key (length pre)
          ≡ bytes l n s junk ((pre ++ ((son, key) ∷ [])) ++ post) =
        ap (λ r. set_raw_kth_key r key (length pre)) (open_pair l n s pre son kk post junk)
        ∙ set_key l n s pre key (to_bytes 8 kk) (to_bytes 8 son) (pairs post ++ junk)
            (length-to_bytes 8 son) (length-to_bytes 8 kk)
        ∙ sym (open_pair l n s pre son key post junk)
        ∙ ap (bytes l n s junk) (sym (move_pair pre (son, key) post)) in
      let count : length ((pre ++ ((son, key) ∷ [])) ++ post) ≡ length (pre ++ ((son, kk) ∷ post)) =
        omega (
          arith,
          length-append {0} (pre ++ ((son, key) ∷ [])) post,
          length-append {0} pre ((son, key) ∷ []),
          length-append {0} pre ((son, kk) ∷ post),
        ) in
      let same : length (bytes l n s junk ((pre ++ ((son, key) ∷ [])) ++ post)) ≡ node_size =
        omega (
          arith,
          full,
          count,
          length-bytes l n s junk ((pre ++ ((son, key) ∷ [])) ++ post),
          length-bytes l n s junk (pre ++ ((son, kk) ∷ post)),
        ) in
      rw (key_at l n s junk pre son kk post small, raised)
        (ap some (
          ap (λ k. insert_leaf (bytes l n s junk ((pre ++ ((son, key) ∷ [])) ++ post)) uuid kk m k)
            (sym (length_next l n s junk pre (son, key)))
          ∙ place l n s (pre ++ ((son, key) ∷ [])) post junk uuid kk m same (omega arith)
          ∙ ap (bytes l (m + 1) s (take (length junk - 16) junk))
              (move_pair pre (son, key) ((uuid, kk) ∷ post))))

pub ends : (pre es : List Pair) → es ≡ pre ++ [] → (length pre == length es) ≡ true
ends pre es e = rw e (ground (arith, length-append {0} {A = Pair} pre []))

pub goes_on :
    (pre : List Pair) (p : Pair) (post es : List Pair)
    → es ≡ pre ++ (p ∷ post)
    → (length pre == length es) ≡ false
goes_on pre p post es e = rw e (ground (arith, length-append {0} pre (p ∷ post)))

module _ (raw : List ℕ) (l : Bool) (sibling : ℕ) (es : List Pair)
    (node : IsNode raw l sibling es) where
  -- What insert does behind its loop and its guard.
  insert_here :
      (uuid key : ℕ)
      → ((length (before (not_below key) es) == length es) && not (sibling == 0)) ≡ false
      → insert raw uuid key ≡ (
          if l
          then some
              (true, insert_leaf raw uuid key (length es) (length (before (not_below key) es)))
          else (do
            raw' ← insert_inner raw uuid key (length es) (length (before (not_below key) es))
            some (true, raw')))
  unfolding insert
  insert_here uuid key guard =
      let bit : ((if l then 1 else 0) == 1) ≡ l = ground arith in
      rw
        (
          node.content,
          get_count l (length es) sibling (pairs es ++ node.junk) (omega (arith, node.few)),
          first_key-start l (length es) sibling node.junk (not_below key) es node.words,
          get_sib l (length es) sibling (pairs es ++ node.junk) node.sibling_word,
          guard,
          bit,
        )
        refl

  -- insert changes nothing, and says so, where all keys are below the new one and there is a sibling.
  pub insert-next :
      (uuid key : ℕ)
      → sibling ≢ 0
      → after (not_below key) es ≡ []
      → insert raw uuid key ≡ some (false, raw)
  unfolding insert
  insert-next uuid key other last =
      let cut : es ≡ before (not_below key) es ++ [] =
        before-after (not_below key) es ∙ ap (λ fs. before (not_below key) es ++ fs) last in
      let at_end = ends (before (not_below key) es) es cut in
      let has : (sibling == 0) ≡ false = ground arith in
      rw
        (
          node.content,
          get_count l (length es) sibling (pairs es ++ node.junk) (omega (arith, node.few)),
          first_key-start l (length es) sibling node.junk (not_below key) es node.words,
          get_sib l (length es) sibling (pairs es ++ node.junk) node.sibling_word,
          at_end,
          has,
        )
        refl

module _ (P : Pair → Type 0) where
  pub All-append : (pre post : List Pair) → All P pre → All P post → All P (pre ++ post)
  All-append [] post h k = k
  All-append (e ∷ pre) post (here, h) k = (here, All-append pre post h k)

  pub All-front : (pre post : List Pair) → All P (pre ++ post) → All P pre
  All-front [] post h = tt
  All-front (e ∷ pre) post (here, h) = (here, All-front pre post h)

  pub All-back : (pre post : List Pair) → All P (pre ++ post) → All P post
  All-back [] post h = h
  All-back (e ∷ pre) post (here, h) = All-back pre post h

-- The bytes with one pair more are those of a node again.
grown :
    (l : Bool) (s : ℕ) (es fs : List Pair) (junk : List ℕ)
    → length (bytes l (length es) s junk es) ≡ node_size
    → length es < 64
    → length fs ≡ length es + 1
    → s < 2 ^ 64
    → All IsPair fs
    → IsNode (bytes l (length es + 1) s (take (length junk - 16) junk) fs) l s fs
grown l s es fs junk full few more small words = record {
  junk = take (length junk - 16) junk;
  content = rw more refl;
  full = omega (
    arith,
    full,
    length-bytes l (length es) s junk es,
    length-bytes l (length es + 1) s (take (length junk - 16) junk) fs,
    length-take {0} (length junk - 16) junk,
  );
  few = omega arith;
  words = words;
  sibling_word = small;
}

guard_open :
    (s : ℕ) (pre post es : List Pair)
    → es ≡ pre ++ post
    → (post ≡ [] → s ≡ 0)
    → ((length pre == length es) && not (s == 0)) ≡ false
guard_open s pre [] es cut last = rw (ends pre es cut, last refl) refl
guard_open s pre (p ∷ post) es cut last = rw (goes_on pre p post es cut) refl

-- The bytes of a node with the pairs split anywhere.
split_full :
    (raw : List ℕ) (l : Bool) (s : ℕ) (es fs : List Pair) (node : IsNode raw l s es)
    → es ≡ fs
    → (length (bytes l (length es) s node.junk fs) ≡ node_size) × (length fs ≤ 64)
split_full raw l s es fs node cut = (
  ap (λ f. length (bytes l (length es) s node.junk f)) (sym cut)
      ∙ ap length (sym node.content)
      ∙ node.full,
  omega (arith, ap length cut, node.few),
)

module _ (raw : List ℕ) (s : ℕ) (es : List Pair) (uuid key : ℕ) (uuid_word : uuid < 2 ^ 64)
    (key_word : key < 2 ^ 64) (room : length es < 64) where
  -- insert into a leaf with room, which has a key that is not below the new one or no sibling.
  pub insert-IsLeaf :
      IsNode raw true s es
      → (after (not_below key) es ≡ [] → s ≡ 0)
      → (raw' : List ℕ) × (insert raw uuid key ≡ some (true, raw'))
        × IsNode raw' true s (with_pair uuid key es)
  insert-IsLeaf node last =
      let pre : List Pair = before (not_below key) es in
      let post : List Pair = after (not_below key) es in
      let cut : es ≡ pre ++ post = before-after (not_below key) es in
      let (full, few) = split_full raw true s es (pre ++ post) node cut in
      let placed : insert_leaf raw uuid key (length es) (length pre)
          ≡ bytes true (length es + 1) s (take (length node.junk - 16) node.junk)
              (with_pair uuid key es) =
        ap (λ r. insert_leaf r uuid key (length es) (length pre))
          (node.content ∙ ap (bytes true (length es) s node.junk) cut)
        ∙ place true (length es) s pre post node.junk uuid key (length es) full few in
      let words : All IsPair (pre ++ post) = subst (All IsPair) cut node.words in
      let sizes : length es ≡ length pre + length post =
        ap length cut ∙ length-append {0} pre post in
      (
        _,
        insert_here raw true s es node uuid key (guard_open s pre post es cut last)
            ∙ ap (λ r. some (true, r)) placed,
        grown true s es (with_pair uuid key es) node.junk (ap length (sym node.content) ∙ node.full)
            room (omega (arith, sizes, length-append {0} pre ((uuid, key) ∷ post)))
            node.sibling_word
            (All-append IsPair pre ((uuid, key) ∷ post) (All-front IsPair pre post words)
              ((uuid_word, key_word), All-back IsPair pre post words)),
      )

  -- insert into an inner node with room whose first key that is not below the new one is `kk`, at
  -- `son`: it is done, and the bytes are those of the node in which `son` has the new key and the
  -- new son stands behind it with `kk`.
  pub insert-IsInner :
      (son kk : ℕ) (post : List Pair)
      → IsNode raw false s es
      → after (not_below key) es ≡ (son, kk) ∷ post
      → (raw' : List ℕ) × (insert raw uuid key ≡ some (true, raw'))
        × IsNode raw' false s (before (not_below key) es ++ ((son, key) ∷ ((uuid, kk) ∷ post)))
  insert-IsInner son kk post node at =
      let pre : List Pair = before (not_below key) es in
      let cut : es ≡ pre ++ ((son, kk) ∷ post) =
        before-after (not_below key) es ∙ ap (λ fs. pre ++ fs) at in
      let (full, few) = split_full raw false s es (pre ++ ((son, kk) ∷ post)) node cut in
      let words : All IsPair (pre ++ ((son, kk) ∷ post)) = subst (All IsPair) cut node.words in
      let ((son_word, kk_word), rest) = All-back IsPair pre ((son, kk) ∷ post) words in
      let fs : List Pair = pre ++ ((son, key) ∷ ((uuid, kk) ∷ post)) in
      let placed : insert_inner raw uuid key (length es) (length pre)
          ≡ some (bytes false (length es + 1) s (take (length node.junk - 16) node.junk) fs) =
        ap (λ r. insert_inner r uuid key (length es) (length pre))
          (node.content ∙ ap (bytes false (length es) s node.junk) cut)
        ∙ place_son false (length es) s pre post node.junk uuid key (length es) son kk kk_word full
            few in
      let sizes : length es ≡ length pre + length ((son, kk) ∷ post) =
        ap length cut ∙ length-append {0} pre ((son, kk) ∷ post) in
      (
        _,
        insert_here raw false s es node uuid key
              (guard_open s pre ((son, kk) ∷ post) es cut (λ h. absurd (cc h)))
            ∙ rw placed refl,
        grown false s es fs node.junk (ap length (sym node.content) ∙ node.full) room
            (omega (arith, sizes, length-append {0} pre ((son, key) ∷ ((uuid, kk) ∷ post))))
            node.sibling_word
            (All-append IsPair pre ((son, key) ∷ ((uuid, kk) ∷ post))
              (All-front IsPair pre ((son, kk) ∷ post) words)
              ((son_word, key_word), ((uuid_word, kk_word), rest))),
      )
