-- ===== src/Tbm/Creation/Reload.antt =====
-- A table that was created is loaded as it was.
use wisdb.Parser.Statement.{Create}
use mathlib.Core.Path.{subst}
use wisdb.Tbm.Creation.{is_listed, load_fields, create_fields, load_table, create_table}
use wisdb.Im.Store.{failed, Result, ok, pure, returned, Result}
use wisdb.Tbm.Field.{Field, FieldType, type_check}
use wisdb.Tbm.Stored.{field_to_raw, table_to_raw}
use wisdb.Tbm.Stored.RoundTrip.{parse_field-field_to_raw, parse_table-table_to_raw}
use wisdb.Tbm.Access.{Storage, or_fail, or_panic, Table}
use wisdb.Tbm.Creation.{create_field, new_index, load_field, persist_self, stored_of}
use wisdb.Parser.Tokener.{Token}
use wisdb.Tm.{super_xid}
use wisdb.Base.{ℕ, List, ◌≡◌, Option, Bool, some, ◌⊎◌, ◌<◌, ◌≢◌, none, ◌^◌, true}
use wisdb.Base.{false, inr, inl, length, arith, if◌then◌else◌, refl, ◌==◌, sym, All}
use wisdb.Base.{◌∷◌, [], ap, ◌∙◌}

-- The entries that were inserted, with their ids, and the indices that were created.
abbrev pub Journal : Type 0
Journal = List (ℕ × List ℕ) × List ℕ

abbrev noted :
    {S A : Type 0}
    → (A → Journal)
    → Journal
    → Option (Result A × S)
    → Option (Result A × (S × Journal))
noted f j none = none
noted f j (some (ok a, s)) = some (ok a, (s, f a))
noted f j (some (failed, s)) = some (failed, (s, j))

noted_ok :
    {S A : Type 0} (f : A → Journal) (j : Journal) (r : Option (Result A × S)) (a : A)
    (st' : S × Journal)
    → noted f j r ≡ some (ok a, st')
    → st'.1 ≡ f a
noted_ok f j none a st' h = absurd (cc h)
noted_ok f j (some (ok b, s)) a st' h =
    let same : b ≡ a = cc h in
    let after : (s, f b) ≡ st' = cc h in sym (ap (λ p. p.1) after) ∙ ap f same
noted_ok f j (some (failed, s)) a st' h = absurd (cc h)

-- The storage, with a record of what it inserted and created.
abbrev pub recorded : {S : Type 0} → Storage S → Storage (S × Journal)
recorded db = record {
  sm_read = λ xid u (s, j). noted (λ r. j) j (Storage.sm_read db xid u s);
  sm_insert =
      λ xid raw (s, j). noted (λ u. ((u, raw) ∷ j.0, j.1)) j (Storage.sm_insert db xid raw s);
  sm_delete = λ xid u (s, j). noted (λ r. j) j (Storage.sm_delete db xid u s);
  im_create = λ (s, j). noted (λ i. (j.0, i ∷ j.1)) j (Storage.im_create db s);
  im_load = λ i (s, j). noted (λ r. j) j (Storage.im_load db i s);
  im_insert = λ i k u (s, j). noted (λ r. j) j (Storage.im_insert db i k u s);
  im_search_range = λ i l r (s, j). noted (λ us. j) j (Storage.im_search_range db i l r s);
}

pub pure_ok :
    {S A : Type 0} (a b : A) (st st' : S) → pure a st ≡ some (ok b, st') → (a ≡ b) × (st ≡ st')
pure_ok a b st st' h = (cc h, cc h)

or_fail_ok :
    {S A : Type 0} (o : Option A) (a : A) (st st' : S)
    → or_fail o st ≡ some (ok a, st')
    → (o ≡ some a) × (st ≡ st')
or_fail_ok none a st st' h = absurd (cc h)
or_fail_ok (some b) a st st' h = (cc h, cc h)

module _ {S : Type 0} (db : Storage S) where
  abbrev pub Sees : S → ℕ → List ℕ → Type 0
  Sees st uuid raw = Storage.sm_read db super_xid uuid st ≡ some (ok (some raw), st)

  abbrev pub Loads : S → ℕ → Type 0
  Loads st index = Storage.im_load db index st ≡ some (ok tt, st)

  -- In the state, the super transaction reads each entry of the record, and each index is loaded.
  abbrev pub Holds : S → Journal → Type 0
  Holds st (entries, indices) =
      All (λ (e : ℕ × List ℕ). Sees st e.0 e.1 × (e.0 ≢ 0) × (e.0 < 2 ^ 64)) entries
      × All (λ i. Loads st i × (i ≢ 0) × (i < 2 ^ 64)) indices

  -- The record has grown.
  abbrev Later : S × Journal → S × Journal → Type 0
  Later a b = (s : S) → Holds s b.1 → Holds s a.1

  inserted_lem :
      (raw : List ℕ) (st st' : S × Journal) (uuid : ℕ)
      → Storage.sm_insert (recorded db) super_xid raw st ≡ some (ok uuid, st')
      → Later st st' × ((s : S) → Holds s st'.1 → Sees s uuid raw × (uuid ≢ 0) × (uuid < 2 ^ 64))
  inserted_lem raw (s0, j) st' uuid h =
      let after : st'.1 ≡ ((uuid, raw) ∷ j.0, j.1) =
        noted_ok (λ u. ((u, raw) ∷ j.0, j.1)) j (Storage.sm_insert db super_xid raw s0) uuid st'
          h in
      (
        λ s holds. let ((one, rest), indices) = subst (Holds s) after holds in (rest, indices),
        λ s holds. (subst (Holds s) after holds).0.0,
      )

  created_lem :
      (st st' : S × Journal) (index : ℕ)
      → Storage.im_create (recorded db) st ≡ some (ok index, st')
      → Later st st' × ((s : S) → Holds s st'.1 → Loads s index × (index ≢ 0) × (index < 2 ^ 64))
  created_lem (s0, j) st' index h =
      let after : st'.1 ≡ (j.0, index ∷ j.1) =
        noted_ok (λ i. (j.0, i ∷ j.1)) j (Storage.im_create db s0) index st' h in
      (
        λ s holds. let (entries, (one, rest)) = subst (Holds s) after holds in (entries, rest),
        λ s holds. (subst (Holds s) after holds).1.0,
      )

  loaded_lem :
      (st st' : S × Journal) (index : ℕ)
      → Storage.im_load (recorded db) index st ≡ some (ok tt, st')
      → Later st st'
  loaded_lem (s0, j) st' index h =
      let after : st'.1 ≡ j = noted_ok (λ r. j) j (Storage.im_load db index s0) tt st' h in
      λ s holds. subst (Holds s) after holds

  Later-trans : (a b c : S × Journal) → Later a b → Later b c → Later a c
  Later-trans a b c h k = λ s holds. h s (k s holds)

  Later-refl : (a : S × Journal) → Later a a
  Later-refl a = λ s holds. holds

  -- An index that there is can be loaded.
  abbrev Index : S → ℕ → Type 0
  Index st index = (index ≡ 0) ⊎ ((index ≢ 0) × Loads st index)

  new_index-Loads :
      (st st' : S × Journal) (index : ℕ)
      → new_index (recorded db) true st ≡ some (ok index, st')
      → Later st st' × ((s : S) → Holds s st'.1 → Loads s index × (index ≢ 0) × (index < 2 ^ 64))
  new_index-Loads st st' index h =
      let (i, s1, made, h1) = returned _ (Storage.im_create (recorded db) st) index st' h in
      let (later, holds) = created_lem st s1 i made in
      let (u, s2, loaded, h2) = returned _ (Storage.im_load (recorded db) i s1) index st' h1 in
      let (same, still) = pure_ok i index s2 st' h2 in
      let later' : Later s1 s2 = loaded_lem s1 s2 i loaded in
      let last : Later s2 st' = subst (Later s2) still (Later-refl s2) in
      (
        Later-trans st s1 st' later (Later-trans s1 s2 st' later' last),
        λ s h. subst (λ x. Loads s x × (x ≢ 0) × (x < 2 ^ 64)) same (holds s (later' s (last s h))),
      )

  new_index_lem :
      (b : Bool) (st st' : S × Journal) (index : ℕ)
      → new_index (recorded db) b st ≡ some (ok index, st')
      → Later st st' × ((s : S) → Holds s st'.1 → Index s index × (index < 2 ^ 64))
  new_index_lem true st st' index h =
      let (later, holds) = new_index-Loads st st' index h in
      (later, λ s k. let (loads, there, word) = holds s k in (inr (there, loads), word))
  new_index_lem false st st' index h =
      let (same, still) = pure_ok 0 index st st' h in
      rw (← same, ← still) (Later-refl st, λ s k. (inl refl, omega arith))

  -- In every state that has what is recorded, the field is loaded from its entry.
  abbrev Stored : S × Journal → ℕ → Field → Type 0
  Stored st self f =
      (s : S) → Holds s st.1 → (load_field db self s ≡ some (ok f, s)) × (self < 2 ^ 64)

  Index-loads :
      (st : S) (index : ℕ)
      → Index st index
      → (if index == 0 then pure tt else or_panic (Storage.im_load db index)) st ≡ some (ok tt, st)
  Index-loads st index (inl none_there) = rw none_there refl
  Index-loads st index (inr (there, loads)) =
      let other : (index == 0) ≡ false = ground arith in rw (other, loads) refl

  field_loads :
      (fname ftype : Token) (kind : FieldType) (index self : ℕ) (st : S)
      → length fname < 2 ^ 32
      → length ftype < 2 ^ 32
      → index < 2 ^ 64
      → type_check ftype ≡ some kind
      → Index st index
      → Sees st self (field_to_raw (record { fname = fname; ftype = ftype; index = index }))
      → load_field db self st
        ≡ some (ok (record { fname = fname; ftype = kind; index = index }), st)
  unfolding load_field
  field_loads fname ftype kind index self st name_size type_size word typed there seen =
      rw
        (
          seen,
          parse_field-field_to_raw (record { fname = fname; ftype = ftype; index = index })
              name_size type_size word,
          typed,
          Index-loads st index there,
        )
        refl

  -- A field that was created.
  abbrev Made : S × Journal → Field × ℕ → S × Journal → Type 0
  Made st (f, self) st' = Later st st' × Stored st' self f

  made :
      (a b : Field × ℕ) (st s1 s3 st' : S × Journal)
      → (a ≡ b) × (s3 ≡ st')
      → st ≡ s1
      → Made s1 a s3
      → Made st b st'
  made a b st s1 s3 st' (same, still) first h =
      subst (λ p. Made st p st') same
        (subst (Made st a) still (subst (λ x. Made x a s3) (sym first) h))

  create_field_lem :
      (fname ftype : Token) (indexed : Bool) (st st' : S × Journal) (f : Field) (self : ℕ)
      → length fname < 2 ^ 32
      → length ftype < 2 ^ 32
      → create_field (recorded db) super_xid fname ftype indexed st ≡ some (ok (f, self), st')
      → Made st (f, self) st'
  unfolding create_field
  create_field_lem fname ftype indexed st st' f self name_size type_size h =
      let (kind, s1, kinded, h1) = returned _ (or_fail (type_check ftype) st) (f, self) st' h in
      let (typed, s0) = or_fail_ok (type_check ftype) kind st s1 kinded in
      let (index, s2, indexed_ok, h2) =
        returned _ (new_index (recorded db) indexed s1) (f, self) st' h1 in
      let (later, there) = new_index_lem indexed s1 s2 index indexed_ok in
      let (u, s3, put, h3) =
        returned _
          (Storage.sm_insert (recorded db) super_xid
            (field_to_raw (record { fname = fname; ftype = ftype; index = index })) s2)
          (f, self) st' h2 in
      let (later', seen) = inserted_lem _ s2 s3 u put in
      made (record { fname = fname; ftype = kind; index = index }, u) (f, self) st s1 s3 st'
        (pure_ok (record { fname = fname; ftype = kind; index = index }, u) (f, self) s3 st' h3) s0
        (
          Later-trans s1 s2 s3 later later',
          λ s k.
              let (read, some_id, self_word) = seen s k in
              let (index_there, word) = there s (later' s k) in
              (
                field_loads fname ftype kind index u s name_size type_size word typed index_there
                    read,
                self_word,
              ),
        )

  -- The fields that were created.
  abbrev AllMade : ℕ → S × Journal → List Field × List ℕ → S × Journal → Type 0
  AllMade n st (fs, selves) st' =
      Later st st'
      × ((s : S)
          → Holds s st'.1
          → (load_fields db selves s ≡ some (ok fs, s)) × All (λ u. u < 2 ^ 64) selves)
      × (length selves ≡ n)

  all_made :
      (n : ℕ) (a b : List Field × List ℕ) (st s3 st' : S × Journal)
      → (a ≡ b) × (s3 ≡ st')
      → AllMade n st a s3
      → AllMade n st b st'
  all_made n a b st s3 st' (same, still) h =
      subst (λ p. AllMade n st p st') same (subst (AllMade n st a) still h)

  abbrev pub Short : List Token → Type 0
  Short names = All (λ name. length name < 2 ^ 32) names

  create_fields_lem :
      (names types index : List Token) (st st' : S × Journal) (r : List Field × List ℕ)
      → Short names
      → Short types
      → create_fields (recorded db) names types index st ≡ some (ok r, st')
      → AllMade (length names) st r st'
  unfolding create_fields load_fields
  create_fields_lem [] types index st st' r short short_types h =
      all_made 0 ([], []) r st st st' (pure_ok ([], []) r st st' h)
        (Later-refl st, (λ s k. (refl, tt)), refl)
  create_fields_lem (fname ∷ names) [] index st st' r short short_types h = absurd (cc h)
  create_fields_lem (fname ∷ names) (ftype ∷ types) index st st' r (size, short)
        (type_size, short_types) h =
      let ((f, self), s1, first, h1) =
        returned _ (create_field (recorded db) super_xid fname ftype (is_listed fname index) st) r
          st' h in
      let ((fs, selves), s2, others, h2) =
        returned _ (create_fields (recorded db) names types index s1) r st' h1 in
      let (later, stored) =
        create_field_lem fname ftype (is_listed fname index) st s1 f self size type_size first in
      let (later', loads, count) =
        create_fields_lem names types index s1 s2 (fs, selves) short short_types others in
      all_made (length (fname ∷ names)) (f ∷ fs, self ∷ selves) r st s2 st'
        (pure_ok (f ∷ fs, self ∷ selves) r s2 st' h2)
        (
          Later-trans st s1 s2 later later',
          (λ s k.
              let (field, word) = stored s (later' s k) in
              let (fields, words) = loads s k in (rw (field, fields) refl, (word, words))),
          omega (arith, count),
        )

  -- A table whose fields load is loaded from its entry.
  table-Loads :
      (t : Table) (self : ℕ) (st : S)
      → length t.name < 2 ^ 32
      → t.next < 2 ^ 64
      → length t.field_uuids < 256
      → All (λ u. u < 2 ^ 64) t.field_uuids
      → t.row_index < 2 ^ 64
      → t.row_index ≢ 0
      → Sees st self (table_to_raw (stored_of db t))
      → load_fields db t.field_uuids st ≡ some (ok t.fields, st)
      → Loads st t.row_index
      → load_table db self st ≡ some (ok (record t { self_uuid = self }), st)
  unfolding load_table
  table-Loads t self st name_size next_id few ids index_id there seen fields loads =
      let other : (t.row_index == 0) ≡ false = ground arith in
      rw
        (
          seen,
          parse_table-table_to_raw (stored_of db t) name_size next_id few ids index_id,
          fields,
          other,
          loads,
        )
        refl

  abbrev pub CreatedAs : ℕ → Create → Table → S × Journal → Type 0
  CreatedAs next create t st =
      ((s : S) → Holds s st.1 → (load_table db t.self_uuid s ≡ some (ok t, s)) × (t.self_uuid ≢ 0))
      × (t.name ≡ create.table_name)
      × (t.next ≡ next)

  pub create_table_lem :
      (next : ℕ) (create : Create) (st st' : S × Journal) (t : Table)
      → next < 2 ^ 64
      → length create.table_name < 2 ^ 32
      → length create.field_name < 256
      → Short create.field_name
      → Short create.field_type
      → create_table (recorded db) next create st ≡ some (ok t, st')
      → CreatedAs next create t st'
  unfolding create_table persist_self
  create_table_lem next create st st' t next_id name_size few short short_types h =
      let ((fs, selves), s1, made_fields, h1) =
        returned _ (create_fields (recorded db) create.field_name create.field_type create.index st)
          t st' h in
      let (later, fields, count) =
        create_fields_lem create.field_name create.field_type create.index st s1 (fs, selves) short
          short_types made_fields in
      let (row_index, s2, made_index, h2) = returned _ (new_index (recorded db) true s1) t st' h1 in
      let (later', row_index_loaded) = new_index-Loads s1 s2 row_index made_index in
      let t0 : Table = record {
        self_uuid = 0;
        name = create.table_name;
        status = 0;
        next = next;
        fields = fs;
        field_uuids = selves;
        row_index = row_index;
      } in
      let (self, s3, put, h3) =
        returned _ (Storage.sm_insert (recorded db) super_xid (table_to_raw (stored_of db t0)) s2) t
          st' h2 in
      let (later'', seen) = inserted_lem _ s2 s3 self put in
      let (same, still) = pure_ok (record t0 { self_uuid = self }) t s3 st' h3 in
      let core : (s : S)
          → Holds s s3.1
          → (load_table db self s ≡ some (ok (record t0 { self_uuid = self }), s)) × (self ≢ 0) =
        λ s k.
          let (read, there, self_word) = seen s k in
          let (loads, some_index, word) = row_index_loaded s (later'' s k) in
          let (all_loaded, words) = fields s (later' s (later'' s k)) in
          (
            table-Loads t0 self s name_size next_id (omega (arith, count, few)) words word
                some_index read all_loaded loads,
            there,
          ) in
      subst (λ p. CreatedAs next create p st') same
        (subst (λ s. CreatedAs next create (record t0 { self_uuid = self }) s) still
          (core, refl, refl))

  -- A table that CreateTable created, from the entries that it inserted and the indices that it
  -- created: in every state in which the super transaction reads those entries and the indices are
  -- loaded, with ids other than 0 and below 2^64, LoadTable loads it as it was, if it has at most
  -- 255 fields, names and types of less than 2^32 bytes, and an id below 2^64 of the entry behind
  -- it.
  pub load_table-create_table :
      (next : ℕ) (create : Create) (st s : S) (st' : S × Journal) (t : Table)
      → next < 2 ^ 64
      → length create.table_name < 2 ^ 32
      → length create.field_name < 256
      → Short create.field_name
      → Short create.field_type
      → create_table (recorded db) next create (st, ([], [])) ≡ some (ok t, st')
      → Holds s st'.1
      → load_table db t.self_uuid s ≡ some (ok t, s)
  load_table-create_table next create st s st' t next_id name_size few short short_types h holds =
      let made =
        create_table_lem next create (st, ([], [])) st' t next_id name_size few short short_types
          h in
      (made.0 s holds).0
