-- ===== src/Im/Node/Search.antt =====
-- The loops over a node's keys by its list of pairs, SearchNext and LeafSearchRange.
use wisdb.Base.{ℕ, List, Bool, ◌++◌, ◌≡◌, some, All, ◌+◌, length, if◌then◌else◌}
use wisdb.Im.Node.{first_key, search_next, leaf_search_range, take_keys, get_raw_kth_key}
use wisdb.Im.Node.Bytes.{Pair, IsPair, pairs, header, IsNode, get_key}
use wisdb.Base.{◌∷◌, [], Bool-cases, ◌<◌, inl, ◌^◌, inr, ap, ◌∙◌, refl, arith, length-append}
use wisdb.Im.Node.Bytes.{open_pair, get_son, move_pair, get_count, get_sib}
use wisdb.Im.Node.{get_raw_kth_son, get_raw_sibling}
use wisdb.Base.{sym, not, ltb, leb, ◌==◌, ◌-◌, ◌>>=◌, false, true}
use wisdb.Utils.IntEncoding.{to_bytes}
use mathlib.Core.List.{append_assoc}

-- The pairs in front of the first key at which a loop stops.
abbrev pub before : (ℕ → Bool) → List Pair → List Pair
before stop [] = []
before stop ((son, key) ∷ es) = if stop key then [] else (son, key) ∷ before stop es

abbrev pub after : (ℕ → Bool) → List Pair → List Pair
after stop [] = []
after stop ((son, key) ∷ es) = if stop key then (son, key) ∷ es else after stop es

abbrev pub sons : List Pair → List ℕ
sons [] = []
sons ((son, key) ∷ es) = son ∷ sons es

pub before-after : (stop : ℕ → Bool) (es : List Pair) → es ≡ before stop es ++ after stop es
before-after stop [] = refl
before-after stop ((son, key) ∷ es) = elim (Bool-cases (stop key)) [
  | inl h ↦ ground (arith, h)
  | inr h ↦ ground (arith, h, before-after stop es)
]

module _ (l : Bool) (n s : ℕ) (junk : List ℕ) where
  abbrev pub bytes : List Pair → List ℕ
  bytes es = header l n s ++ (pairs es ++ junk)

  pub key_at :
      (pre : List Pair) (son key : ℕ) (es : List Pair)
      → key < 2 ^ 64
      → get_raw_kth_key (bytes (pre ++ ((son, key) ∷ es))) (length pre) ≡ some key
  key_at pre son key es h =
      ap (λ r. get_raw_kth_key r (length pre)) (open_pair l n s pre son key es junk)
      ∙ get_key l n s pre son key (pairs es ++ junk) h

  pub son_at :
      (pre : List Pair) (son key : ℕ) (es : List Pair)
      → son < 2 ^ 64
      → get_raw_kth_son (bytes (pre ++ ((son, key) ∷ es))) (length pre) ≡ some son
  son_at pre son key es h =
      ap (λ r. get_raw_kth_son r (length pre)) (open_pair l n s pre son key es junk)
      ∙ get_son l n s pre son (to_bytes 8 key ++ (pairs es ++ junk)) h

  pub length_next : (pre : List Pair) (e : Pair) → length (pre ++ (e ∷ [])) ≡ length pre + 1
  length_next pre e = length-append {0} pre (e ∷ [])

  pub first_key-before :
      (stop : ℕ → Bool) (pre es : List Pair)
      → All IsPair es
      → first_key stop (bytes (pre ++ es)) (length es) (length pre)
        ≡ some (length pre + length (before stop es))
  unfolding first_key
  first_key-before stop pre [] words = ap some (omega arith)
  first_key-before stop pre ((son, key) ∷ es) ((small, key_small), words) =
      let rest : first_key stop (bytes (pre ++ ((son, key) ∷ es))) (length es) (length pre + 1)
          ≡ some (length pre + 1 + length (before stop es)) =
        rw (sym (length_next pre (son, key)), sym (move_pair pre (son, key) es))
          (first_key-before stop (pre ++ ((son, key) ∷ [])) es words) in
      let key_read = key_at pre son key es key_small in
      elim (Bool-cases (stop key)) [
        | inl h ↦ rw (key_read, h) (ap some (omega arith))
        | inr h ↦ rw (key_read, h) (rest ∙ ap some (omega arith))
      ]

  pub first_key-start :
      (stop : ℕ → Bool) (es : List Pair)
      → All IsPair es
      → first_key stop (bytes es) (length es) 0 ≡ some (length (before stop es))
  first_key-start stop es words = first_key-before stop [] es words ∙ ap some (omega arith)

  pub take_keys-before :
      (right_key : ℕ) (pre es : List Pair)
      → All IsPair es
      → take_keys right_key (bytes (pre ++ es)) (length es) (length pre)
        ≡ some (
          sons (before (λ ik. not (leb ik right_key)) es),
          length pre + length (before (λ ik. not (leb ik right_key)) es),
        )
  unfolding take_keys
  take_keys-before right_key pre [] words = ap (λ n. some ([], n)) (omega arith)
  take_keys-before right_key pre ((son, key) ∷ es) ((small, key_small), words) =
      let stop : ℕ → Bool = λ ik. not (leb ik right_key) in
      let rest : take_keys right_key (bytes (pre ++ ((son, key) ∷ es))) (length es) (length pre + 1)
          ≡ some (sons (before stop es), length pre + 1 + length (before stop es)) =
        rw (sym (length_next pre (son, key)), sym (move_pair pre (son, key) es))
          (take_keys-before right_key (pre ++ ((son, key) ∷ [])) es words) in
      let key_read = key_at pre son key es key_small in
      let son_read = son_at pre son key es small in
      elim (Bool-cases (leb key right_key)) [
        | inl h ↦
            rw (key_read, h, son_read, rest)
              (ap (λ n. some (son ∷ sons (before stop es), n)) (omega arith))
        | inr h ↦ rw (key_read, h) (ap (λ n. some ([], n)) (omega arith))
      ]

-- The son of the first pair, or the sibling.
abbrev pub next_of : List Pair → ℕ → ℕ × ℕ
next_of [] sibling = (0, sibling)
next_of ((son, key) ∷ es) sibling = (son, 0)

abbrev pub sibling_after : List Pair → ℕ → ℕ
sibling_after [] sibling = sibling
sibling_after (e ∷ es) sibling = 0

pub after-All :
    (P : Pair → Type 0) (stop : ℕ → Bool) (es : List Pair) → All P es → All P (after stop es)
after-All P stop [] all = all
after-All P stop ((son, key) ∷ es) (here, all) = elim (Bool-cases (stop key)) [
  | inl h ↦ rw h (here, all)
  | inr h ↦ rw h (after-All P stop es all)
]

module _ (l : Bool) (n s : ℕ) (junk : List ℕ) (small : s < 2 ^ 64) (es pre : List Pair) where
  -- What SearchNext reads where its loop stopped.
  next_at :
      (post : List Pair)
      → es ≡ pre ++ post
      → All IsPair post
      → (if ltb (length pre) (length es)
          then (do son ← get_raw_kth_son (bytes l n s junk es) (length pre); some (son, 0))
          else (do sibling ← get_raw_sibling (bytes l n s junk es); some (0, sibling)))
        ≡ some (next_of post s)
  next_at [] e all =
      let end : ltb (length pre) (length es) ≡ false =
        rw e (ground (arith, length-append {0} {A = Pair} pre [])) in
      rw (end, get_sib l n s (pairs es ++ junk) small) refl
  next_at ((son, key) ∷ post) e ((son_small, key_small), all) =
      let more : ltb (length pre) (length (pre ++ ((son, key) ∷ post))) ≡ true =
        ground (arith, length-append {0} pre ((son, key) ∷ post)) in
      rw (e, more, son_at l n s junk pre son key post son_small) refl

  -- What LeafSearchRange does where its second loop stopped.
  sibling_at :
      (uuids : List ℕ) (post : List Pair)
      → es ≡ pre ++ post
      → (if length pre == length es
          then ◌>>=◌ {B = List ℕ × ℕ} (get_raw_sibling (bytes l n s junk es)) (λ t. some (uuids, t))
          else some (uuids, 0))
        ≡ some (uuids, sibling_after post s)
  sibling_at uuids [] e =
      let end : (length pre == length es) ≡ true =
        rw e (ground (arith, length-append {0} {A = Pair} pre [])) in
      rw (end, get_sib l n s (pairs es ++ junk) small) refl
  sibling_at uuids (p ∷ post) e =
      let more : (length pre == length es) ≡ false =
        rw e (ground (arith, length-append {0} pre (p ∷ post))) in
      rw more refl

-- SearchNext gives the son of the first pair whose key is above the one asked for, or the sibling.
pub search_next-first :
    (raw : List ℕ) (l : Bool) (sibling : ℕ) (es : List Pair) (key : ℕ)
    → IsNode raw l sibling es
    → search_next raw key ≡ some (next_of (after (ltb key) es) sibling)
unfolding search_next
search_next-first raw l sibling es key node =
    rw
      (
        node.content,
        get_count l (length es) sibling (pairs es ++ node.junk) (omega (arith, node.few)),
        first_key-start l (length es) sibling node.junk (ltb key) es node.words,
      )
      (next_at l (length es) sibling node.junk node.sibling_word es (before (ltb key) es)
        (after (ltb key) es) (before-after (ltb key) es) (after-All IsPair (ltb key) es node.words))

-- LeafSearchRange gives the sons of the run of pairs whose keys lie between the two bounds, with the sibling if
-- the run goes to the end of the node.
pub leaf_search_range-run :
    (raw : List ℕ) (l : Bool) (sibling : ℕ) (es : List Pair) (left right : ℕ)
    → IsNode raw l sibling es
    → leaf_search_range raw left right
      ≡ some (
        sons (before (λ ik. not (leb ik right)) (after (leb left) es)),
        sibling_after (after (λ ik. not (leb ik right)) (after (leb left) es)) sibling,
      )
unfolding leaf_search_range
leaf_search_range-run raw l sibling es left right node =
    let stop : ℕ → Bool = λ ik. not (leb ik right) in
    let pre : List Pair = before (leb left) es in
    let run : List Pair = after (leb left) es in
    let cut : es ≡ pre ++ run = before-after (leb left) es in
    let left_over : length es - length pre ≡ length run =
      ap (λ l. length l - length pre) cut ∙ omega (arith, length-append {0} pre run) in
    let taken : take_keys right (bytes l (length es) sibling node.junk es) (length run) (length pre)
        ≡ some (sons (before stop run), length pre + length (before stop run)) =
      ap
        (λ fs. take_keys right (bytes l (length es) sibling node.junk fs) (length run) (length pre))
        cut
      ∙ take_keys-before l (length es) sibling node.junk right pre run
          (after-All IsPair (leb left) es node.words) in
    rw
      (
        node.content,
        get_count l (length es) sibling (pairs es ++ node.junk) (omega (arith, node.few)),
        first_key-start l (length es) sibling node.junk (leb left) es node.words,
        left_over,
        taken,
        sym (length-append {0} pre (before stop run)),
      )
      (sibling_at l (length es) sibling node.junk node.sibling_word es (pre ++ before stop run)
        (sons (before stop run)) (after stop run)
        (cut
          ∙ ap (λ fs. pre ++ fs) (before-after stop run)
          ∙ sym (append_assoc pre (before stop run) (after stop run))))
