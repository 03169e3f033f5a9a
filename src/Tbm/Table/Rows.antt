-- ===== src/Tbm/Table/Rows.antt =====
-- Rows that are read back from their bytes.
use wisdb.Tbm.Field.{uint32, uint64, text, u32, u64, str, Field, FieldType, str_to_value}
use wisdb.Base.{ℕ, List, ◌∷◌, [], some, Option, ◌≡◌, ◌<◌, ◌^◌, ◌++◌, length}
use wisdb.Tbm.Field.{Value, value_to_raw, parse_value}
use wisdb.Utils.StrEncoding.{parse_var_str, str_to_uint32, var_str_to_raw, str_to_uint64}
use wisdb.Parser.Tokener.{Token}
use wisdb.Tbm.Table.{parse_values, str_to_entry, get_value, entry_to_raw, parse_entry}
use wisdb.Base.{bytes_equal, false, ap, All, bytes_equal_refl, Bool-cases, ◌==◌}
use wisdb.Tbm.Table.{Row, parse_fields}
use wisdb.Utils.IntEncoding.{uint32_to_raw, get_uint32, uint64_to_raw, parse_uint32}
use wisdb.Tbm.Table.Ranges.{some_injective, bind_parts}
use wisdb.Base.{sym, ◌∙◌, inl, drop-length_append, inr, refl, arith, leb, true, take}
use wisdb.Utils.IntEncoding.{parse_uint64, get_uint64, to_bytes, of_bytes}
use wisdb.Utils.IntEncoding.RoundTrip.{of_bytes-to_bytes, length-to_bytes, of_bytes-take}
use mathlib.Core.List.{append_assoc}
use native.Mathlib.Nat.{mod-eq_of_lt}
use wisdb.Base.{◌+◌, length-append, drop, take-length_append}
use mathlib.Core.Path.{ap₂}

-- The size field and the text behind it.
framed :
    (n : ℕ) (s rest : List ℕ)
    → length s ≡ n
    → n < 2 ^ 32
    → parse_var_str ((to_bytes 4 n ++ s) ++ rest) ≡ some (s, length (to_bytes 4 n ++ s))
unfolding parse_var_str get_uint32
framed n s rest e small =
    rw (room, read_size, room_all) (ap some (ap₂ (λ (l : List ℕ) (k : ℕ). (l, k)) inner size))
  where
    raw : List ℕ
    raw = (to_bytes 4 n ++ s) ++ rest

    room : leb 4 (length raw) ≡ true
    room = unfold to_bytes in ground arith

    read_size : of_bytes 4 0 (take 4 raw) ≡ some n
    read_size =
        sym (of_bytes-take 4 0 raw)
        ∙ ap (of_bytes 4 0) (append_assoc (to_bytes 4 n) s rest)
        ∙ of_bytes-to_bytes 4 n (s ++ rest) (omega arith)

    size : 4 + n ≡ length (to_bytes 4 n ++ s)
    size = omega (arith, length-append {0} (to_bytes 4 n) s, length-to_bytes 4 n, e)

    room_all : leb (4 + n) (length raw) ≡ true
    room_all = ground (arith, size, length-append {0} (to_bytes 4 n ++ s) rest)

    inner : take n (drop 4 raw) ≡ s
    inner = unfold to_bytes in (rw (← e) (take-length_append s rest))

pub var_str-round :
    (s rest : List ℕ)
    → length s < 2 ^ 32
    → parse_var_str (var_str_to_raw s ++ rest) ≡ some (s, length (var_str_to_raw s))
unfolding var_str_to_raw uint32_to_raw
var_str-round s rest small =
    rw (mod-eq_of_lt {n = length s} {m = 2 ^ 32} small) (framed (length s) s rest refl small)

-- No later field has the name.
abbrev Fresh : Token → List Field → Type 0
Fresh n [] = Unit {0}
Fresh n (f ∷ fs) = (bytes_equal f.fname n ≡ false) × Fresh n fs

-- The names of the fields differ.
abbrev pub Distinct : List Field → Type 0
Distinct [] = Unit {0}
Distinct (f ∷ fs) = Fresh f.fname fs × Distinct fs

module _ (runes : List ℕ → List ℕ) (parse_uint : List ℕ → ℕ → Option ℕ)
    (bounded : (s : List ℕ) (bits n : ℕ) → parse_uint s bits ≡ some n → n < 2 ^ bits) where
  abbrev Read : FieldType → Value → Type 0
  Read f v =
      (raw : List ℕ) × (value_to_raw f v ≡ some raw)
      × ((rest : List ℕ) → parse_value f (raw ++ rest) ≡ some (v, length raw))

  value_round :
      (f : FieldType) (s : Token) (v : Value)
      → length s < 2 ^ 32
      → str_to_value runes parse_uint f s ≡ some v
      → Read f v
  unfolding str_to_value value_to_raw parse_value str_to_uint32 str_to_uint64 uint32_to_raw
      uint64_to_raw parse_uint32 parse_uint64 get_uint32 get_uint64
  value_round uint32 s v small h =
      let (n, p, e) = bind_parts (parse_uint s 32) (λ n. some (u32 n)) v h in
      let same : u32 n ≡ v = some_injective (u32 n) v e in
      rw (← same) (
        to_bytes 4 n,
        refl,
        λ rest.
            rw (of_bytes-to_bytes 4 n rest (omega (arith, bounded s 32 n p)), length-to_bytes 4 n)
              refl,
      )
  value_round uint64 s v small h =
      let (n, p, e) = bind_parts (parse_uint s 64) (λ n. some (u64 n)) v h in
      let same : u64 n ≡ v = some_injective (u64 n) v e in
      rw (← same) (
        to_bytes 8 n,
        refl,
        λ rest.
            rw (of_bytes-to_bytes 8 n rest (omega (arith, bounded s 64 n p)), length-to_bytes 8 n)
              refl,
      )
  value_round text s v small h =
      let same : str s ≡ v = some_injective (str s) v h in
      rw (← same) (var_str_to_raw s, refl, λ rest. rw (var_str-round s rest small) refl)

  -- The later fields leave the value of a name that is not theirs.
  kept :
      (fs : List Field) (values : List Token) (acc e : Row) (n : Token)
      → parse_values runes parse_uint fs values acc ≡ some e
      → Fresh n fs
      → get_value n e ≡ get_value n acc
  unfolding parse_values get_value
  kept [] values acc e n h fresh = ap (get_value n) (some_injective e acc (sym h))
  kept (f ∷ fs) [] acc e n h fresh = cc
  kept (f ∷ fs) (s ∷ values) acc e n h fresh =
      let (v, p, h') = bind_parts (str_to_value runes parse_uint f.ftype s) _ e h in
      kept fs values ((f.fname, v) ∷ acc) e n h' fresh.1 ∙ rw fresh.0 refl

  rows :
      (fs : List Field) (values : List Token) (acc e : Row)
      → Distinct fs
      → All (λ s. length s < 2 ^ 32) values
      → parse_values runes parse_uint fs values acc ≡ some e
      → (raw : List ℕ) × (entry_to_raw fs e ≡ some raw) × (parse_fields fs raw acc ≡ some e)
  unfolding parse_values entry_to_raw parse_fields
  rows [] values acc e distinct small h = ([], refl, h)
  rows (f ∷ fs) [] acc e distinct small h = cc
  rows (f ∷ fs) (s ∷ values) acc e distinct small h =
      let (v, p, h') = bind_parts (str_to_value runes parse_uint f.ftype s) _ e h in
      let (rest, written, parsed) = rows fs values ((f.fname, v) ∷ acc) e distinct.1 small.1 h' in
      let (raw, wrote, back) = value_round f.ftype s v small.0 p in
      let has : get_value f.fname e ≡ some v =
        kept fs values ((f.fname, v) ∷ acc) e f.fname h' distinct.0 ∙ first f.fname v acc in
      (
        raw ++ rest,
        rw (has, wrote, written) refl,
        rw (back rest, drop-length_append raw rest) parsed,
      )
    where
      first : (n : Token) (w : Value) (acc' : Row) → get_value n ((n, w) ∷ acc') ≡ some w
      first n w acc' = unfold get_value in rw (bytes_equal_refl n) refl

  -- A row whose values are parsed from texts of less than 2^32 bytes is written to bytes, and is
  -- parsed back from them, for fields of different names. ParseUint's numbers have the bits asked
  -- for.
  pub parse_entry-entry_to_raw :
      (fs : List Field) (values : List Token) (e : Row)
      → Distinct fs
      → All (λ s. length s < 2 ^ 32) values
      → str_to_entry runes parse_uint fs values ≡ some e
      → (raw : List ℕ) × (entry_to_raw fs e ≡ some raw) × (parse_entry fs raw ≡ some e)
  unfolding str_to_entry parse_entry
  parse_entry-entry_to_raw fs values e distinct small h =
      elim (Bool-cases (length values == length fs)) [
        | inl same ↦ rows fs values [] e distinct small (rw same at h)
        | inr other ↦ absurd (ground (arith))
      ]
