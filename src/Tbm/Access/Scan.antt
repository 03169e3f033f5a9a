-- ===== src/Tbm/Access/Scan.antt =====
-- The rows that Read works on: by the index of a field, and by the scan of all rows.
use wisdb.Im.Store.{ok}
use wisdb.Im.Node.Bytes.{Pair}
use wisdb.Im.Node.Search.{sons}
use wisdb.Im.Tree.Walk
use wisdb.Tbm.Access.{Storage, Table, read_entries, read_rows, parse_where, full_scan_filter}
use wisdb.Tbm.Table.{Row, parse_entry, evaluate_where, get_value, find_field, cal_where}
use wisdb.Parser.Statement.{Where, SingleExp}
use wisdb.Base.{ℕ, List, Option, All, Bool, some, ◌∷◌, ◌≡◌, false, none, leb, []}
use wisdb.Base.{◌>>=◌, ◌&&◌, if◌then◌else◌, ◌∙◌, true, refl, ◌<◌, ◌^◌, ap, arith}
use wisdb.Tbm.Field.{Field, Value, is_indexed, FieldType, cal_exp}
use wisdb.Utils.IntEncoding.{inf}
use wisdb.Tbm.Table.Ranges.{NumberOf, Ranged}
use wisdb.Tbm.Table.Conditions.{cal_where-evaluate_where}
use wisdb.Tbm.Access.{filter_rows, where_ranges, second_exp, needs_second}
use wisdb.Base.{ltb, ◌||◌}
use wisdb.Parser.Words.{is}

module _ {S : Type 0} (db : Storage S) (runes : List ℕ → List ℕ)
    (parse_uint : List ℕ → ℕ → Option ℕ) (xid : ℕ) (t : Table) (w : Where) (st : S)
    (view : ℕ → Option (List ℕ)) where
  -- The transaction sees the rows of `view`, and its reads change nothing.
  abbrev pub Sees : List ℕ → Type 0
  Sees uuids = All (λ u. Storage.sm_read db xid u st ≡ some (ok (view u), st)) uuids

  -- A row that is seen is read, and the condition says whether it is wanted.
  abbrev pub Judged : ℕ → Bool → Type 0
  Judged u b =
      (raw : List ℕ)
      → view u ≡ some raw
      → (e : Row) × (parse_entry t.fields raw ≡ some e)
        × (evaluate_where runes parse_uint t.fields e w ≡ some b)

  abbrev pub said : Option Bool → Bool
  said none = false
  said (some b) = b

  abbrev pub wanted : Row → Bool
  wanted e = said (evaluate_where runes parse_uint t.fields e w)

  abbrev pub row_at : ℕ → Option Row
  row_at u = ◌>>=◌ (view u) (parse_entry t.fields)

  abbrev pub with_row : Option Row → List Row → List Row
  with_row none rows = rows
  with_row (some e) rows = if wanted e then e ∷ rows else rows

  -- The rows that are seen and fulfil the condition.
  abbrev pub matching : List ℕ → List Row
  matching [] = []
  matching (u ∷ us) = with_row (row_at u) (matching us)

  read_skip :
      (u : ℕ) (us : List ℕ)
      → Storage.sm_read db xid u st ≡ some (ok none, st)
      → read_entries db runes parse_uint xid t.fields (u ∷ us) st
        ≡ read_entries db runes parse_uint xid t.fields us st
  unfolding read_entries
  read_skip u us read = rw read refl

  read_one :
      (u : ℕ) (us : List ℕ) (raw : List ℕ) (e : Row) (rows : List Row)
      → Storage.sm_read db xid u st ≡ some (ok (some raw), st)
      → parse_entry t.fields raw ≡ some e
      → read_entries db runes parse_uint xid t.fields us st ≡ some (ok rows, st)
      → read_entries db runes parse_uint xid t.fields (u ∷ us) st ≡ some (ok (e ∷ rows), st)
  unfolding read_entries
  read_one u us raw e rows read parsed rest = rw (read, parsed, rest) refl

  -- One row more, which is in the list if it is wanted.
  read-Judged :
      (u : ℕ) (us us' : List ℕ) (b : Bool) (rows : List Row) (seen : Option (List ℕ))
      → view u ≡ seen
      → Storage.sm_read db xid u st ≡ some (ok seen, st)
      → Judged u b
      → us' ≡ (if b then u ∷ us else us)
      → read_entries db runes parse_uint xid t.fields us st ≡ some (ok rows, st)
      → read_entries db runes parse_uint xid t.fields us' st
        ≡ some (ok (with_row (row_at u) rows), st)
  read-Judged u us us' true rows none v read judge e rest = rw (e, v) (read_skip u us read ∙ rest)
  read-Judged u us us' false rows none v read judge e rest = rw (e, v) rest
  read-Judged u us us' true rows (some raw) v read judge e rest =
      let (row, parsed, fits) = judge raw v in
      let want : wanted row ≡ true = ap said fits in
      rw (e, v, parsed, want) (read_one u us raw row rows read parsed rest)
  read-Judged u us us' false rows (some raw) v read judge e rest =
      let (row, parsed, fits) = judge raw v in
      let want : wanted row ≡ false = ap said fits in rw (e, v, parsed, want) rest

  -- The sons in a range, read as rows.
  read-in_range :
      (left right : ℕ) (es : List Pair)
      → Sees (sons es)
      → All (λ (p : Pair). Judged p.0 (leb left p.1 && leb p.1 right)) es
      → read_entries db runes parse_uint xid t.fields (Walk.in_range left right es) st
        ≡ some (ok (matching (sons es)), st)
  unfolding read_entries
  read-in_range left right [] sees judge = refl
  read-in_range left right ((u, k) ∷ es) (seen, sees) (judge, judges) =
      read-Judged u (Walk.in_range left right es) _ (leb left k && leb k right) (matching (sons es))
        (view u) refl seen judge refl (read-in_range left right es sees judges)

  -- Each row that is seen has a value of the field in the index, at its key there.
  abbrev pub Indexed : Field → Pair → Type 0
  Indexed fd (u, k) =
      (raw : List ℕ)
      → view u ≡ some raw
      → (e : Row) × (v : Value) × (parse_entry t.fields raw ≡ some e)
        × (get_value w.single_exp1.field e ≡ some v)
        × NumberOf fd.ftype k v
        × (k < 2 ^ 64)

  -- Where the ranges are calculated, the first comparison has one and no nil comparison is met.
  where_parts :
      (single either both : Bool) (c0 : Option (ℕ × ℕ)) (exp2 : Option SingleExp)
      (c1 : SingleExp → Option (ℕ × ℕ)) (r : (ℕ × ℕ) × Option (ℕ × ℕ))
      → (if single
          then c0 >>= (λ r0. some (r0, none))
          else if either
          then c0 >>= (λ r0. exp2 >>= λ e. c1 e >>= λ r1. some (r0, some r1))
          else if both
          then c0 >>= (λ r0. exp2 >>= λ e. c1 e >>= λ r1.
              some (
                (if ltb r0.0 r1.0 then r1.0 else r0.0, if ltb r1.1 r0.1 then r1.1 else r0.1),
                none,
              ))
          else none)
        ≡ some r
      → (r0 : ℕ × ℕ) × (c0 ≡ some r0)
        × (second_exp db runes parse_uint (if single then false else either || both) exp2 st
            ≡ some (ok tt, st))
  where_parts single either both none exp2 c1 r h = ground arith
  where_parts true either both (some r0) exp2 c1 r h = (r0, refl, refl)
  where_parts false true both (some r0) none c1 r h = cc
  where_parts false true both (some r0) (some e) c1 r h = (r0, refl, refl)
  where_parts false false true (some r0) none c1 r h = cc
  where_parts false false true (some r0) (some e) c1 r h = (r0, refl, refl)
  where_parts false false false (some r0) exp2 c1 r h = cc

  ranges_made :
      (f : FieldType) (r : (ℕ × ℕ) × Option (ℕ × ℕ))
      → cal_where runes parse_uint f w ≡ some r
      → (r0 : ℕ × ℕ) × (cal_exp runes parse_uint f w.single_exp1 ≡ some r0)
        × (second_exp db runes parse_uint (needs_second db runes parse_uint w) w.single_exp2 st
            ≡ some (ok tt, st))
  unfolding cal_where
  ranges_made f r cal =
      where_parts (is w.logic_op "") (is w.logic_op "or") (is w.logic_op "and")
        (cal_exp runes parse_uint f w.single_exp1) w.single_exp2 (cal_exp runes parse_uint f) r cal

  where_ranges-eq :
      (f : FieldType) (r : (ℕ × ℕ) × Option (ℕ × ℕ))
      → cal_where runes parse_uint f w ≡ some r
      → where_ranges db runes parse_uint f w st ≡ some (ok r, st)
  where_ranges-eq f r cal =
      let (r0, first, second) = ranges_made f r cal in rw (first, second, cal) refl

  -- Read with a condition on one indexed field of a numeric type, with the operators `<`, `=` and
  -- `>` and one range of keys: where the index gives the sons in a range of its pairs, and each row
  -- that the transaction sees has its key there, it reads exactly those rows of the index that are
  -- seen and fulfil the condition, in the order in which the pairs stand. ParseUint's numbers have
  -- the bits asked for.
  pub read_rows-matching :
      ((s : List ℕ) (bits n : ℕ) → parse_uint s bits ≡ some n → n < 2 ^ bits)
      → (fd : Field) (left right : ℕ) (es : List Pair)
      → find_field w.single_exp1.field t.fields ≡ some fd
      → is_indexed fd ≡ true
      → Ranged w.single_exp1
      → ((exp2 : SingleExp)
          → w.single_exp2 ≡ some exp2
          → (exp2.field ≡ w.single_exp1.field) × Ranged exp2)
      → cal_where runes parse_uint fd.ftype w ≡ some ((left, right), none)
      → Storage.im_search_range db fd.index left right st
        ≡ some (ok (Walk.in_range left right es), st)
      → Sees (sons es)
      → All (Indexed fd) es
      → read_rows db runes parse_uint xid t (some w) st ≡ some (ok (matching (sons es)), st)
  unfolding read_rows parse_where
  read_rows-matching bounded fd left right es has_field indexed ops ops2 cal search sees held =
      rw (has_field, indexed, where_ranges-eq fd.ftype ((left, right), none) cal, search)
        (read-in_range left right es sees (judged es held))
    where
      judge : (p : Pair) → Indexed fd p → Judged p.0 (leb left p.1 && leb p.1 right)
      judge (u, k) h raw v =
          let (e, value, parsed, has, num, small) = h raw v in
          (
            e,
            parsed,
            cal_where-evaluate_where runes parse_uint bounded t.fields e w fd value k has_field has
                num small ops ops2 ((left, right), none) cal,
          )

      judged :
          (es : List Pair)
          → All (Indexed fd) es
          → All (λ (p : Pair). Judged p.0 (leb left p.1 && leb p.1 right)) es
      judged [] held = tt
      judged (p ∷ es) (h, held) = (judge p h, judged es held)

  -- What fullScanFilter keeps, and what is then read of it.
  abbrev Kept : List ℕ → Type 0
  Kept us =
      (kept : List ℕ) × (filter_rows db runes parse_uint xid t.fields w us st ≡ some (ok kept, st))
      × (read_entries db runes parse_uint xid t.fields kept st ≡ some (ok (matching us), st))

  keep :
      (u : ℕ) (us : List ℕ) (b : Bool) (seen : Option (List ℕ))
      → view u ≡ seen
      → Storage.sm_read db xid u st ≡ some (ok seen, st)
      → Judged u b
      → Kept us
      → Kept (u ∷ us)
  unfolding filter_rows
  keep u us b none v read judge (kept, filtered, entries) =
      (kept, rw (read, filtered) refl, rw v entries)
  keep u us true (some raw) v read judge (kept, filtered, entries) =
      let (row, parsed, fits) = judge raw v in
      (
        u ∷ kept,
        rw (read, parsed, fits, filtered) refl,
        read-Judged u kept (u ∷ kept) true (matching us) (some raw) v read judge refl entries,
      )
  keep u us false (some raw) v read judge (kept, filtered, entries) =
      let (row, parsed, fits) = judge raw v in
      (
        kept,
        rw (read, parsed, fits, filtered) refl,
        read-Judged u kept kept false (matching us) (some raw) v read judge refl entries,
      )

  keep_all : (us : List ℕ) → Sees us → All (λ u. (b : Bool) × Judged u b) us → Kept us
  unfolding filter_rows read_entries
  keep_all [] sees judges = ([], refl, refl)
  keep_all (u ∷ us) (seen, sees) ((b, judge), judges) =
      keep u us b (view u) refl seen judge (keep_all us sees judges)

  -- Read with a condition on a field without an index: where the hidden index gives all rows, and
  -- each that the transaction sees is parsed and judged by the condition, it reads exactly those of
  -- them that are seen and fulfil the condition, in the order of that index.
  pub read_rows-scanned :
      (fd : Field) (us : List ℕ)
      → find_field w.single_exp1.field t.fields ≡ some fd
      → is_indexed fd ≡ false
      → Storage.im_search_range db t.row_index 0 inf st ≡ some (ok us, st)
      → Sees us
      → All (λ u. (b : Bool) × Judged u b) us
      → read_rows db runes parse_uint xid t (some w) st ≡ some (ok (matching us), st)
  unfolding read_rows parse_where full_scan_filter
  read_rows-scanned fd us has_field indexed search sees judges =
      let (kept, filtered, entries) = keep_all us sees judges in
      rw (has_field, indexed, search, filtered) entries
