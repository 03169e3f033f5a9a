-- ===== src/Tbm/Table/Conditions.antt =====
-- A condition on one indexed field: its ranges against the condition on rows.
use wisdb.Base.{◌>>=◌, inl, inr, none, some, List, ℕ, Option, ◌≡◌, ◌<◌, ◌^◌, Bool}
use wisdb.Tbm.Field.{Field, Value, cal_exp}
use wisdb.Tbm.Table.{Row, find_field, get_value, evaluate_where, cal_where}
use wisdb.Parser.Statement.{Where, SingleExp}
use wisdb.Tbm.Table.Ranges.{NumberOf, in_range, Ranged, bind_parts, some_injective}
use wisdb.Tbm.Table.{match_single_exp}
use wisdb.Base.{bytes_equal, Bool-cases, ap, bytes_equal→eq, ◌∙◌, sym, refl, arith}
use wisdb.Tbm.Table.Ranges.{match_single}
use wisdb.Parser.Words.{is, codes}
use wisdb.Base.{◌||◌, if◌then◌else◌, ltb, ◌&&◌}

module _ (runes : List ℕ → List ℕ) (parse_uint : List ℕ → ℕ → Option ℕ)
    (bounded : (s : List ℕ) (bits n : ℕ) → parse_uint s bits ≡ some n → n < 2 ^ bits) where
  abbrev pub in_ranges : ℕ → (ℕ × ℕ) × Option (ℕ × ℕ) → Bool
  in_ranges k (r, none) = in_range k r
  in_ranges k (r, some r') = in_range k r || in_range k r'

  merge :
      (k l0 r0 l1 r1 : ℕ)
      → in_range k (if ltb l0 l1 then l1 else l0, if ltb r1 r0 then r1 else r0)
        ≡ (in_range k (l0, r0) && in_range k (l1, r1))
  merge k l0 r0 l1 r1 = ground arith

  -- A condition whose comparisons are on one indexed field of a numeric type.
  module _ (fs : List Field) (e : Row) (w : Where) (fd : Field) (v : Value) (k : ℕ)
      (found : find_field w.single_exp1.field fs ≡ some fd)
      (has : get_value w.single_exp1.field e ≡ some v) (num : NumberOf fd.ftype k v)
      (hk : k < 2 ^ 64) (ops : Ranged w.single_exp1)
      (ops2 : (exp2 : SingleExp)
        → w.single_exp2 ≡ some exp2
        → (exp2.field ≡ w.single_exp1.field) × Ranged exp2) where
    abbrev Agrees : (ℕ × ℕ) × Option (ℕ × ℕ) → Type 0
    Agrees ranges = evaluate_where runes parse_uint fs e w ≡ some (in_ranges k ranges)

    first :
        (r : ℕ × ℕ)
        → cal_exp runes parse_uint fd.ftype w.single_exp1 ≡ some r
        → match_single_exp runes parse_uint fs e w.single_exp1 ≡ some (in_range k r)
    first r cal =
        match_single runes parse_uint bounded fs e w.single_exp1 fd v k r found has num hk ops cal

    other :
        (exp2 : SingleExp) (r : ℕ × ℕ)
        → w.single_exp2 ≡ some exp2
        → cal_exp runes parse_uint fd.ftype exp2 ≡ some r
        → match_single_exp runes parse_uint fs e exp2 ≡ some (in_range k r)
    other exp2 r here cal =
        let o = ops2 exp2 here in
        match_single runes parse_uint bounded fs e exp2 fd v k r
          (ap (λ n. find_field n fs) o.0 ∙ found) (ap (λ n. get_value n e) o.0 ∙ has) num hk o.1 cal

    -- The parts of an `or` and of an `and`.
    abbrev both : (ℕ × ℕ → ℕ × ℕ → (ℕ × ℕ) × Option (ℕ × ℕ)) → Option ((ℕ × ℕ) × Option (ℕ × ℕ))
    both mk = do
      r0 ← cal_exp runes parse_uint fd.ftype w.single_exp1
      exp2 ← w.single_exp2
      r1 ← cal_exp runes parse_uint fd.ftype exp2
      some (mk r0 r1)

    abbrev Parts : (ℕ × ℕ → ℕ × ℕ → (ℕ × ℕ) × Option (ℕ × ℕ)) → (ℕ × ℕ) × Option (ℕ × ℕ) → Type 0
    Parts mk ranges =
        (r0 r1 : ℕ × ℕ) × (exp2 : SingleExp) × (cal_exp runes parse_uint fd.ftype w.single_exp1
          ≡ some r0)
        × (w.single_exp2 ≡ some exp2)
        × (cal_exp runes parse_uint fd.ftype exp2 ≡ some r1)
        × (mk r0 r1 ≡ ranges)

    taken_apart :
        (mk : ℕ × ℕ → ℕ × ℕ → (ℕ × ℕ) × Option (ℕ × ℕ)) (ranges : (ℕ × ℕ) × Option (ℕ × ℕ))
        → both mk ≡ some ranges
        → Parts mk ranges
    taken_apart mk ranges h =
        let (r0, c0, h0) = bind_parts _ _ ranges h in
        let (exp2, here, h1) = bind_parts _ _ ranges h0 in
        let (r1, c1, h2) = bind_parts _ _ ranges h1 in
        (r0, r1, exp2, c0, here, c1, some_injective (mk r0 r1) ranges h2)

    of_one :
        w.logic_op ≡ codes ""
        → (ranges : (ℕ × ℕ) × Option (ℕ × ℕ))
        → (cal_exp runes parse_uint fd.ftype w.single_exp1 >>= λ r. some (r, none)) ≡ some ranges
        → Agrees ranges
    unfolding evaluate_where bytes_equal
    of_one op ranges cal =
        let (r, c, h) = bind_parts _ _ ranges cal in
        simp (evaluate_where, op, first r c)
          (ap (λ g. some (in_ranges k g)) (some_injective (r, none) ranges h))

    of_or :
        w.logic_op ≡ codes "or"
        → (ranges : (ℕ × ℕ) × Option (ℕ × ℕ)) → both (λ r0 r1. (r0, some r1)) ≡ some ranges
        → Agrees ranges
    unfolding evaluate_where bytes_equal
    of_or op ranges cal =
        let (r0, r1, exp2, c0, here, c1, same) = taken_apart _ ranges cal in
        simp (evaluate_where, op, here, first r0 c0, other exp2 r1 here c1)
          (ap (λ g. some (in_ranges k g)) same)

    abbrev merged : ℕ × ℕ → ℕ × ℕ → (ℕ × ℕ) × Option (ℕ × ℕ)
    merged r0 r1 =
        ((if ltb r0.0 r1.0 then r1.0 else r0.0, if ltb r1.1 r0.1 then r1.1 else r0.1), none)

    of_and :
        w.logic_op ≡ codes "and"
        → (ranges : (ℕ × ℕ) × Option (ℕ × ℕ)) → both merged ≡ some ranges
        → Agrees ranges
    unfolding evaluate_where bytes_equal
    of_and op ranges cal =
        let (r0, r1, exp2, c0, here, c1, same) = taken_apart merged ranges cal in
        simp (evaluate_where, op, here, first r0 c0, other exp2 r1 here c1)
          (ap some (sym (merge k r0.0 r0.1 r1.0 r1.1)) ∙ ap (λ g. some (in_ranges k g)) same)

    cal_one :
        w.logic_op ≡ codes ""
        → cal_where runes parse_uint fd.ftype w
          ≡ (cal_exp runes parse_uint fd.ftype w.single_exp1 >>= λ r. some (r, none))
    unfolding cal_where bytes_equal
    cal_one op = simp (cal_where, op) refl

    cal_or :
        w.logic_op ≡ codes "or"
        → cal_where runes parse_uint fd.ftype w ≡ both (λ r0 r1. (r0, some r1))
    unfolding cal_where bytes_equal
    cal_or op = simp (cal_where, op) refl

    cal_and : w.logic_op ≡ codes "and" → cal_where runes parse_uint fd.ftype w ≡ both merged
    unfolding cal_where bytes_equal
    cal_and op = simp (cal_where, op) refl

    -- A row of a table whose condition is on one indexed field of a numeric type, with the
    -- operators `<`, `=` and `>`: the row's key is in the ranges that `calWhere` gives exactly if
    -- the row fulfils the condition by `evaluateWhere`. ParseUint's numbers have the bits asked for.
    pub cal_where-evaluate_where :
        (ranges : (ℕ × ℕ) × Option (ℕ × ℕ))
        → cal_where runes parse_uint fd.ftype w ≡ some ranges
        → evaluate_where runes parse_uint fs e w ≡ some (in_ranges k ranges)
    unfolding cal_where
    cal_where-evaluate_where ranges cal = elim (Bool-cases (is w.logic_op "")) [
      | inl h ↦
          let op = bytes_equal→eq w.logic_op (codes "") h in
          of_one op ranges (sym (cal_one op) ∙ cal)
      | inr h0 ↦ elim (Bool-cases (is w.logic_op "or")) [
        | inl h ↦
            let op = bytes_equal→eq w.logic_op (codes "or") h in
            of_or op ranges (sym (cal_or op) ∙ cal)
        | inr h1 ↦ elim (Bool-cases (is w.logic_op "and")) [
          | inl h ↦
              let op = bytes_equal→eq w.logic_op (codes "and") h in
              of_and op ranges (sym (cal_and op) ∙ cal)
          | inr h2 ↦ absurd (ground (arith))
        ]
      ]
    ]
