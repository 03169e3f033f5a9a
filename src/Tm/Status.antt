-- ===== src/Tm/Status.antt =====
-- The manager against its abstract state: the list of the transactions' statuses.
use wisdb.Tm.{TransactionManager, update_xid, check_xid, xid_position}
use wisdb.Utils.IntEncoding.RoundTrip.{length-to_bytes}
use wisdb.Base.{ℕ, List, ◌≡◌, Option, copy_at, get_elem?, length, ◌≤◌, set, slice}
use wisdb.Base.{none, ◌++◌, read_at, suc, ◌∷◌, false, [], arith, some, ap, zero}
use wisdb.Base.{refl, copy_nil, ◌-◌, ◌+◌, ◌==◌, ◌<◌, sym, length-append, Bool, write_at}
use wisdb.Utils.IntEncoding.{to_bytes}
use wisdb.Base.{suc-add, ◌∙◌, write_at_inside, ◌^◌, ◌>>=◌, length-set, read_at_inside}
use mathlib.Core.Path.{ap₂}
use native.Mathlib.Decide.{dec_le}
use wisdb.Base.{read_at_outside}

-- `t` keeps the statuses `sts` of transactions 1, 2, ….
pub record IsTm (t : TransactionManager) (sts : List ℕ) : Type 0 where
  pub content : t.file ≡ to_bytes 8 t.xid_counter ++ sts
  pub counted : t.xid_counter ≡ length sts
  pub in_range : t.xid_counter < 2 ^ 62

-- The status of a transaction.
abbrev pub status_of : List ℕ → ℕ → Option ℕ
status_of sts xid = get_elem? sts (xid - 1)

set_copy : (xs : List ℕ) (i v : ℕ) → copy_at xs i (v ∷ []) ≡ set xs i v
set_copy [] zero v = refl
set_copy [] (suc i) v = refl
set_copy (x ∷ xs) zero v = ap (λ l. v ∷ l) (copy_nil xs)
set_copy (x ∷ xs) (suc i) v = ap (λ l. x ∷ l) (set_copy xs i v)

get_slice : (xs : List ℕ) (i : ℕ) → get_elem? (slice i 1 xs) 0 ≡ get_elem? xs i
get_slice [] zero = refl
get_slice [] (suc i) = refl
get_slice (x ∷ xs) zero = refl
get_slice (x ∷ xs) (suc i) = get_slice xs i

get_elem?_beyond : (xs : List ℕ) (i : ℕ) → length xs ≤ i → get_elem? xs i ≡ none
get_elem?_beyond [] i h = refl
get_elem?_beyond (x ∷ xs) zero h = absurd (omega arith)
get_elem?_beyond (x ∷ xs) (suc i) h = get_elem?_beyond xs i (omega arith)

-- Status bytes stand behind the eight bytes of the counter.
behind_header : (c xid : ℕ) (sts : List ℕ) → 1 ≤ xid → 7 + xid ≡ length (to_bytes 8 c) + (xid - 1)
behind_header c xid sts h = omega (arith, length-to_bytes 8 c)

get_elem?-append :
    (pre xs : List ℕ) (i : ℕ) → get_elem? (pre ++ xs) (length pre + i) ≡ get_elem? xs i
get_elem?-append [] xs i = ap (get_elem? xs) (omega arith)
get_elem?-append (p ∷ pre) xs i =
    ap (get_elem? (p ∷ (pre ++ xs))) (sym (suc-add (length pre) i)) ∙ get_elem?-append pre xs i

set-append : (pre xs : List ℕ) (i v : ℕ) → set (pre ++ xs) (length pre + i) v ≡ pre ++ set xs i v
set-append [] xs i v = ap (λ k. set xs k v) (omega arith)
set-append (p ∷ pre) xs i v =
    ap (λ k. set (p ∷ (pre ++ xs)) k v) (sym (suc-add (length pre) i))
    ∙ ap (λ l. p ∷ l) (set-append pre xs i v)

module _ (t : TransactionManager) (sts : List ℕ) (v : IsTm t sts) where
  pub size : length t.file ≡ 8 + length sts
  size = omega (
    arith,
    ap length v.content,
    length-append (to_bytes 8 t.xid_counter) sts,
    length-to_bytes 8 t.xid_counter,
  )

  position : (xid : ℕ) → 1 ≤ xid → xid_position xid ≡ 7 + xid
  unfolding xid_position
  position xid h = omega arith

  read_status :
      (xid : ℕ)
      → 1 ≤ xid
      → (read_at t.file (7 + xid) 1 >>= λ tmp. get_elem? tmp 0) ≡ status_of sts xid
  read_status xid h = elim (dec_le xid (length sts)) [
    | yes inside ↦
        ap (λ r. r >>= λ tmp. get_elem? tmp 0)
          (read_at_inside t.file (7 + xid) 1 (omega (arith, size)))
        ∙ get_slice t.file (7 + xid)
        ∙ ap₂ get_elem? v.content (behind_header t.xid_counter xid sts h)
        ∙ get_elem?-append (to_bytes 8 t.xid_counter) sts (xid - 1)
    | no outside ↦
        ap (λ r. r >>= λ tmp. get_elem? tmp 0)
          (read_at_outside t.file (7 + xid) 1 (omega (arith, size)))
        ∙ sym (get_elem?_beyond sts (xid - 1) (omega arith))
  ]

  -- A status test reads the status.
  pub check_xid-status :
      (xid status : ℕ)
      → 1 ≤ xid
      → check_xid t xid status ≡ elim (status_of sts xid) [ none ↦ false | some b ↦ b == status ]
  unfolding check_xid
  check_xid-status xid status h =
      ap (λ (o : Option ℕ). elim o as (λ _. Bool) [ none ↦ false | some b ↦ b == status ])
        (ap (λ n. read_at t.file n 1 >>= λ tmp. get_elem? tmp 0) (position xid h)
          ∙ read_status xid h)

  -- An update of a known transaction sets its status.
  pub update_xid-IsTm :
      (xid status : ℕ)
      → 1 ≤ xid
      → xid ≤ length sts
      → IsTm (update_xid t xid status) (set sts (xid - 1) status)
  unfolding update_xid
  update_xid-IsTm xid status h l = record {
    content =
        ap (λ n. write_at t.file n (status ∷ [])) (position xid h)
        ∙ write_at_inside t.file (7 + xid) (status ∷ []) (omega (arith, size))
        ∙ set_copy t.file (7 + xid) status
        ∙ ap₂ (λ f n. set f n status) v.content (behind_header t.xid_counter xid sts h)
        ∙ set-append (to_bytes 8 t.xid_counter) sts (xid - 1) status;
    counted = v.counted ∙ sym (length-set sts (xid - 1) status);
    in_range = v.in_range;
  }
