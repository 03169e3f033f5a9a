-- ===== src/Im/Node/Shift.antt =====
-- shiftRawKth moves the pairs from one on to the right by one.
use wisdb.Base.{ℕ, List, get_elem?, length, ◌++◌, take, ◌≤◌, ◌≡◌, if◌then◌else◌}
use wisdb.Base.{none, ltb, ◌∷◌, ◌-◌, arith, ap, suc, ◌∙◌, zero, [], refl, ◌<◌, ◌+◌}
use wisdb.Im.Node.{shift_down, shift_raw_kth, kth_offset, node_size, move_byte}
use mathlib.Core.Path.{ap₂}
use wisdb.Base.{◌||◌, leb, get_elem?-some, set, length-set, get_elem?-set, some}
use wisdb.Base.{Bool-cases, inl, inr, length-take, false, length-append, Option}

moved : (raw : List ℕ) (i b : ℕ) → get_elem? raw (i - 16) ≡ some b → move_byte raw i ≡ set raw i b
moved raw i b e = ap (λ (o : Option ℕ). elim o [ none ↦ raw | some c ↦ set raw i c ]) e

shift_down-get :
    (n i : ℕ) (raw : List ℕ) (j : ℕ)
    → i < length raw
    → n + 16 ≤ i + 1
    → get_elem? (shift_down n i raw) j
      ≡ (if ltb i j || leb (j + n) i then get_elem? raw j else get_elem? raw (j - 16))
unfolding shift_down
shift_down-get zero i raw j inside room = ground arith
shift_down-get (suc n) i raw j inside room =
    let (b, here) = get_elem?-some raw (i - 16) (omega arith) in
    ap (λ r. get_elem? (shift_down n (i - 1) r) j) (moved raw i b here)
    ∙ shift_down-get n (i - 1) (set raw i b) j (omega (arith, length-set raw i b)) (omega arith)
    ∙ ground (arith, here, get_elem?-set raw i j b inside, get_elem?-set raw i (j - 16) b inside)

get_elem?-append :
    (xs ys : List ℕ) (j : ℕ)
    → get_elem? (xs ++ ys) j
      ≡ (if ltb j (length xs) then get_elem? xs j else get_elem? ys (j - length xs))
get_elem?-append [] ys j = let e : j - 0 ≡ j = omega arith in rw e (ground arith)
get_elem?-append (x ∷ xs) ys zero = ground arith
get_elem?-append (x ∷ xs) ys (suc j) = ground (arith, get_elem?-append xs ys j)

get_elem?-take :
    (n : ℕ) (xs : List ℕ) (j : ℕ)
    → get_elem? (take n xs) j ≡ (if ltb j n then get_elem? xs j else none)
get_elem?-take zero xs j = ground arith
get_elem?-take (suc n) [] j = ground arith
get_elem?-take (suc n) (x ∷ xs) zero = ground arith
get_elem?-take (suc n) (x ∷ xs) (suc j) = ground (arith, get_elem?-take n xs j)

get_elem?_beyond : (xs : List ℕ) (j : ℕ) → length xs ≤ j → get_elem? xs j ≡ none
get_elem?_beyond [] j h = refl
get_elem?_beyond (x ∷ xs) zero h = absurd (omega arith)
get_elem?_beyond (x ∷ xs) (suc j) h = get_elem?_beyond xs j (omega arith)

list_ext : (xs ys : List ℕ) → ((j : ℕ) → get_elem? xs j ≡ get_elem? ys j) → xs ≡ ys
list_ext [] [] h = refl
list_ext [] (y ∷ ys) h = absurd (cc (h 0))
list_ext (x ∷ xs) [] h = absurd (cc (h 0))
list_ext (x ∷ xs) (y ∷ ys) h =
    ap₂ (λ (z : ℕ) (zs : List ℕ). z ∷ zs) (cc (h 0)) (list_ext xs ys (λ j. h (suc j)))

module _ (a b : List ℕ) (kth : ℕ) (at : length a ≡ kth_offset kth) (room : 16 ≤ length b) where
  abbrev moved_bytes : List ℕ
  moved_bytes = a ++ (take 16 b ++ take (length b - 16) b)

  tail_get :
      (j : ℕ)
      → ltb j (length a) ≡ false
      → get_elem? moved_bytes j ≡ get_elem? (take 16 b ++ take (length b - 16) b) (j - length a)
  tail_get j h = ground (arith, get_elem?-append a (take 16 b ++ take (length b - 16) b) j)

  last_get :
      (j : ℕ)
      → ltb j (length a) ≡ false
      → ltb (j - length a) 16 ≡ false
      → length (a ++ b) ≡ node_size
      → get_elem? moved_bytes j ≡ (if ltb j node_size then get_elem? (a ++ b) (j - 16) else none)
  last_get j h k full =
      let same : (j - length a) - 16 ≡ (j - 16) - length a = omega arith in
      let first : length (take 16 b) ≡ 16 = omega (arith, length-take {0} 16 b) in
      tail_get j h
      ∙ ground (arith, get_elem?-append (take 16 b) (take (length b - 16) b) (j - length a), first)
      ∙ ap (get_elem? (take (length b - 16) b)) same
      ∙ get_elem?-take (length b - 16) b ((j - 16) - length a)
      ∙ ground (arith, get_elem?-append a b (j - 16), length-append {0} a b, full)

  -- The bytes behind a pair's offset are moved by the size of a pair; the last ones are lost.
  pub shift_raw_kth-eq :
      length (a ++ b) ≡ node_size
      → shift_raw_kth (a ++ b) kth ≡ a ++ (take 16 b ++ take (length b - 16) b)
  unfolding shift_raw_kth
  shift_raw_kth-eq full = list_ext _ _ (λ j.
      shift_down-get (node_size - 1 + 1 - kth_offset (kth + 1)) (node_size - 1) (a ++ b) j
        (omega (arith, full)) (omega (arith, at, room, full, length-append {0} a b))
      ∙ elim (Bool-cases (ltb j (length a))) [
        | inl h ↦ ground (
          arith,
          get_elem?-append a b j,
          get_elem?-append a (take 16 b ++ take (length b - 16) b) j,
          at,
        )
        | inr h ↦ elim (Bool-cases (ltb (j - length a) 16)) [
          | inl k ↦ ground (
            arith,
            get_elem?-append a b j,
            tail_get j h,
            get_elem?-append (take 16 b) (take (length b - 16) b) (j - length a),
            get_elem?-take 16 b (j - length a),
            length-take {0} 16 b,
            at,
          )
          | inr k ↦ ground (arith, last_get j h k full, get_elem?_beyond (a ++ b) j, full, at)
        ]
      ])
