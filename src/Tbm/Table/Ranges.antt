-- ===== src/Tbm/Table/Ranges.antt =====
-- The ranges of keys that a condition selects in a field's index, against the condition on rows.
use wisdb.Tbm.Field.{less, equal, greater, uint32, uint64, text, u32, u64, str_to_value}
use wisdb.Base.{◌>>=◌, inl, inr, true, some, false, refl, ap, ◌∙◌, sym, none}
use wisdb.Base.{ℕ, List, Bool, Option, leb, ◌&&◌, ◌≡◌, if◌then◌else◌, ◌<◌, ltb, ◌^◌}
use wisdb.Parser.Statement.{SingleExp}
use wisdb.Tbm.Field.{FieldType, Cmp, cal_exp, Value, u32, u64, compare_numbers, key_of}
use wisdb.Base.{◌-◌, ◌+◌, arith, ◌%◌, ◌==◌, ◌⊎◌, bytes_equal}
use wisdb.Parser.Words.{codes}
use wisdb.Utils.IntEncoding.{inf}
use wisdb.Tbm.Table.{holds, match_single_exp, Row, find_field, get_value}
use wisdb.Parser.Tokener.{Token}
use wisdb.Tbm.Field.{value_compare, value_to_uuid, Field}
use wisdb.Utils.StrEncoding.{str_to_uint32, str_to_uint64}
use wisdb.Base.{◌≤◌, ◌≢◌}

abbrev pub in_range : ℕ → ℕ × ℕ → Bool
in_range k (l, r) = leb l k && leb k r

-- The operators that the ranges are made for.
abbrev pub Ranged : SingleExp → Type 0
Ranged exp = (exp.cmp_op ≡ codes "<") ⊎ ((exp.cmp_op ≡ codes "=") ⊎ (exp.cmp_op ≡ codes ">"))

-- A numeric type, and its value of a key.
abbrev pub NumberOf : FieldType → ℕ → Value → Type 0
NumberOf uint32 k v = v ≡ u32 k
NumberOf uint64 k v = v ≡ u64 k
NumberOf text k v = ⊥

abbrev range_of : Cmp → ℕ → ℕ × ℕ
range_of less n = if ltb 0 n then (0, n - 1) else (1, 0)
range_of equal n = (n, n)
range_of greater n = if (n + 1) % 2 ^ 64 == 0 then (1, 0) else ((n + 1) % 2 ^ 64, inf)

same_cmp : Cmp → Cmp → Bool
same_cmp less c = elim c [ less ↦ true | equal ↦ false | greater ↦ false ]
same_cmp equal c = elim c [ less ↦ false | equal ↦ true | greater ↦ false ]
same_cmp greater c = elim c [ less ↦ false | equal ↦ false | greater ↦ true ]

in_range_of :
    (o : Cmp) (k n : ℕ)
    → k < 2 ^ 64
    → n < 2 ^ 64
    → in_range k (range_of o n) ≡ same_cmp o (compare_numbers k n)
unfolding same_cmp
in_range_of less k n hk hn = ground arith
in_range_of equal k n hk hn = ground arith
in_range_of greater k n hk hn = ground arith

pub bind_parts :
    {A B : Type 0} (o : Option A) (f : A → Option B) (b : B)
    → (o >>= f) ≡ some b
    → (a : A) × (o ≡ some a) × (f a ≡ some b)
bind_parts none f b h = cc
bind_parts (some a) f b h = (a, refl, h)

pub some_injective : {A : Type 0} (a b : A) → some a ≡ some b → a ≡ b
some_injective a b h = cc

module _ (runes : List ℕ → List ℕ) (parse_uint : List ℕ → ℕ → Option ℕ) where
  -- The operator of a ranged comparison: its range and its outcome.
  ranged :
      (exp : SingleExp)
      → Ranged exp
      → (o : Cmp) × ((f : FieldType)
          → cal_exp runes parse_uint f exp
            ≡ (key_of runes parse_uint f exp.value >>= λ n. some (range_of o n)))
        × ((c : Cmp) → holds exp.cmp_op c ≡ same_cmp o c)
  unfolding cal_exp holds bytes_equal same_cmp
  ranged exp (inl e) = (less, λ f. rw e refl, λ c. rw e refl)
  ranged exp (inr (inl e)) = (equal, λ f. rw e refl, λ c. rw e refl)
  ranged exp (inr (inr e)) = (greater, λ f. rw e refl, λ c. rw e refl)

  module _ (bounded : (s : List ℕ) (bits n : ℕ) → parse_uint s bits ≡ some n → n < 2 ^ bits) where
    Target : FieldType → ℕ → Value → Token → ℕ → Type 0
    Target f k v s n =
        (target : Value) × (str_to_value runes parse_uint f s ≡ some target)
        × (value_compare f v target ≡ some (compare_numbers k n))
        × (n < 2 ^ 64)

    -- A value that has a key is compared as the keys are.
    compared_as :
        (f : FieldType) (k : ℕ) (v : Value) (s : Token) (n : ℕ)
        → NumberOf f k v
        → key_of runes parse_uint f s ≡ some n
        → Target f k v s n
    unfolding Target str_to_value value_to_uuid value_compare str_to_uint32 str_to_uint64
    compared_as uint32 k v s n e key = go (parse_uint s 32) refl key
      where
        go :
            (o : Option ℕ)
            → parse_uint s 32 ≡ o
            → ((o >>= λ m. some (u32 m)) >>= value_to_uuid runes parse_uint uint32) ≡ some n
            → Target uint32 k v s n
        go none p h = cc
        go (some m) p h =
            let same : m ≡ n = ground (arith) in
            (u32 m, rw p refl, rw (e, same) refl, omega (arith, bounded s 32 m p, same))
    compared_as uint64 k v s n e key = go (parse_uint s 64) refl key
      where
        go :
            (o : Option ℕ)
            → parse_uint s 64 ≡ o
            → ((o >>= λ m. some (u64 m)) >>= value_to_uuid runes parse_uint uint64) ≡ some n
            → Target uint64 k v s n
        go none p h = cc
        go (some m) p h =
            let same : m ≡ n = ground (arith) in
            (u64 m, rw p refl, rw (e, same) refl, omega (arith, bounded s 64 m p, same))
    compared_as text k v s n e key = absurd e

    -- The other operators, where they hold of the keys.
    abbrev Unranged : SingleExp → ℕ → ℕ → Type 0
    Unranged exp k n =
        ((exp.cmp_op ≡ codes ">=") × (n ≤ k))
        ⊎ (((exp.cmp_op ≡ codes "!=") × (n ≢ k)) ⊎ ((exp.cmp_op ≡ codes "<=") × (k ≤ n)))

    unranged :
        (exp : SingleExp) (f : FieldType) (k n : ℕ)
        → Unranged exp k n
        → (cal_exp runes parse_uint f exp ≡ some (0, 0))
          × (holds exp.cmp_op (compare_numbers k n) ≡ true)
    unfolding cal_exp holds bytes_equal
    unranged exp f k n (inl (op, h)) = (rw op refl, rw op (ground arith))
    unranged exp f k n (inr (inl (op, h))) = (rw op refl, rw op (ground arith))
    unranged exp f k n (inr (inr (op, h))) = (rw op refl, rw op (ground arith))

    -- For `>=`, `!=` and `<=` on a numeric field, with a value that parses, `CalExp` gives the range
    -- from 0 to 0: a row with a key other than 0 that fulfils the comparison is not in it.
    -- ParseUint's numbers have the bits asked for.
    pub cal_exp_misses :
        (fs : List Field) (e : Row) (exp : SingleExp) (fd : Field) (v : Value) (k n : ℕ)
        → find_field exp.field fs ≡ some fd
        → get_value exp.field e ≡ some v
        → NumberOf fd.ftype k v
        → k ≢ 0
        → key_of runes parse_uint fd.ftype exp.value ≡ some n
        → Unranged exp k n
        → (cal_exp runes parse_uint fd.ftype exp ≡ some (0, 0))
          × (in_range k (0, 0) ≡ false)
          × (match_single_exp runes parse_uint fs e exp ≡ some true)
    unfolding match_single_exp Target
    cal_exp_misses fs e exp fd v k n found has num positive key ops =
        let (cal, true_of) = unranged exp fd.ftype k n ops in
        let (target, parsed, compared, hn) = compared_as fd.ftype k v exp.value n num key in
        (
          cal,
          ground (arith),
          simp (match_single_exp, has, found, parsed, compared) (ap some true_of),
        )

    pub match_single :
        (fs : List Field) (e : Row) (exp : SingleExp) (fd : Field) (v : Value) (k : ℕ) (r : ℕ × ℕ)
        → find_field exp.field fs ≡ some fd
        → get_value exp.field e ≡ some v
        → NumberOf fd.ftype k v
        → k < 2 ^ 64
        → Ranged exp
        → cal_exp runes parse_uint fd.ftype exp ≡ some r
        → match_single_exp runes parse_uint fs e exp ≡ some (in_range k r)
    unfolding match_single_exp Target
    match_single fs e exp fd v k r found has num hk ops cal =
        let (o, cal_eq, holds_eq) = ranged exp ops in
        go o holds_eq (key_of runes parse_uint fd.ftype exp.value) refl
          (sym (cal_eq fd.ftype) ∙ cal)
      where
        go :
            (o : Cmp)
            → ((c : Cmp) → holds exp.cmp_op c ≡ same_cmp o c)
            → (key : Option ℕ) → key_of runes parse_uint fd.ftype exp.value ≡ key
            → (key >>= λ n. some (range_of o n)) ≡ some r
            → match_single_exp runes parse_uint fs e exp ≡ some (in_range k r)
        go o holds_eq none p h = cc
        go o holds_eq (some n) p h =
            let (target, parsed, compared, hn) = compared_as fd.ftype k v exp.value n num p in
            let same : range_of o n ≡ r = cc in
            simp (match_single_exp, has, found, parsed, compared)
              (ap some (
                holds_eq (compare_numbers k n)
                ∙ sym (in_range_of o k n hk hn)
                ∙ ap (in_range k) same))
