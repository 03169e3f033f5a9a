-- ===== src/Tm/Restart.antt =====
-- Begin, commit, abort and the queries on the abstract state, and a restart.
use wisdb.Tm.{
  TransactionManager, ok, open_tm, check_xid_counter, new_transaction_manager, update_xid,
  incr_xid_counter, begin, commit, abort, is_active, is_committed, is_aborted,
}
use wisdb.Tm.Status.{IsTm, status_of, check_xid-status, update_xid-IsTm, size}
use wisdb.Utils.IntEncoding.RoundTrip.{length-to_bytes, of_bytes-to_bytes}
use wisdb.Utils.IntEncoding.{parse_uuid, parse_uint64, get_uint64, uint64_to_raw}
use wisdb.Base.{List, ℕ, write_at, length, ◌≤◌, Bool, ◌≡◌, ◌<◌, set, ◌≢◌, read_at}
use wisdb.Tm.{succ_xid, xid_position, field_tran_active, field_tran_committed, field_tran_aborted}
use wisdb.Base.{none, false, true, some, Option, ◌+◌, ◌∷◌, ◌^◌, ◌-◌, ◌==◌, if◌then◌else◌}
use wisdb.Base.{◌>>=◌, arith, [], ◌++◌, length-append, ◌∙◌, length-set, ap, write_at_inside}
use wisdb.Tm.{super_xid}
use wisdb.Utils.IntEncoding.{of_bytes, to_bytes}
use wisdb.Base.{get_elem?-set, sym, write_at_end, copy_prefix, read_at-append}
use mathlib.Core.List.{append_assoc, append-nil}

module _ (t : TransactionManager) (sts : List ℕ) (v : IsTm t sts) where
  xid_next : succ_xid t.xid_counter ≡ length sts + 1
  xid_next = omega (arith, v.counted, v.in_range)

  appended :
      write_at t.file (xid_position (succ_xid t.xid_counter)) (0 ∷ [])
      ≡ to_bytes 8 t.xid_counter ++ (sts ++ (0 ∷ []))
  unfolding xid_position
  appended =
      ap (λ n. write_at t.file n (0 ∷ [])) (omega (arith, xid_next, size t sts v))
      ∙ write_at_end t.file (0 ∷ [])
      ∙ ap (λ f. f ++ (0 ∷ [])) v.content
      ∙ append_assoc (to_bytes 8 t.xid_counter) sts (0 ∷ [])

  counted_up :
      write_at
        (write_at t.file (xid_position (succ_xid t.xid_counter)) (0 ∷ []))
        0
        (to_bytes 8 (succ_xid t.xid_counter))
      ≡ to_bytes 8 (succ_xid t.xid_counter) ++ (sts ++ (0 ∷ []))
  counted_up =
      ap (λ f. write_at f 0 (to_bytes 8 (succ_xid t.xid_counter))) appended
      ∙ write_at_inside (to_bytes 8 t.xid_counter ++ (sts ++ (0 ∷ []))) 0
          (to_bytes 8 (succ_xid t.xid_counter))
          (omega (
            arith,
            length-append (to_bytes 8 t.xid_counter) (sts ++ (0 ∷ [])),
            length-to_bytes 8 t.xid_counter,
            length-to_bytes 8 (succ_xid t.xid_counter),
          ))
      ∙ copy_prefix (to_bytes 8 t.xid_counter) (to_bytes 8 (succ_xid t.xid_counter))
          (sts ++ (0 ∷ []))
          (length-to_bytes 8 t.xid_counter ∙ sym (length-to_bytes 8 (succ_xid t.xid_counter)))

  begin-IsTm : succ_xid t.xid_counter < 2 ^ 62 → IsTm (begin t).1 (sts ++ (0 ∷ []))
  unfolding begin update_xid incr_xid_counter uint64_to_raw
  begin-IsTm room = record {
    content = counted_up;
    counted = omega (arith, xid_next, length-append sts (0 ∷ []));
    in_range = room;
  }

-- `begin` gives the next transaction's id, one more than the transactions so far, and adds a
-- transaction that is active; the statuses of all others stay.
pub begin_lem :
    (t : TransactionManager) (sts : List ℕ)
    → IsTm t sts
    → length sts + 1 < 2 ^ 62
    → ((begin t).0 ≡ length sts + 1) × IsTm (begin t).1 (sts ++ (field_tran_active ∷ []))
unfolding begin
begin_lem t sts v room = (xid_next t sts v, begin-IsTm t sts v (omega (arith, xid_next t sts v)))

-- `commit` and `abort` of a transaction that has begun set its status to committed and to aborted,
-- and leave all others' as they are.
pub commit-abort-IsTm :
    (t : TransactionManager) (sts : List ℕ) (xid : ℕ)
    → IsTm t sts
    → 1 ≤ xid
    → xid ≤ length sts
    → IsTm (commit t xid) (set sts (xid - 1) field_tran_committed)
      × IsTm (abort t xid) (set sts (xid - 1) field_tran_aborted)
unfolding commit abort
commit-abort-IsTm t sts xid v h l = (
  update_xid-IsTm t sts v xid field_tran_committed h l,
  update_xid-IsTm t sts v xid field_tran_aborted h l,
)

abbrev pub has_status : List ℕ → ℕ → ℕ → Bool
has_status sts xid status = elim (status_of sts xid) [ none ↦ false | some b ↦ b == status ]

-- The three queries of a transaction's id from 1 on answer by its status in the abstract state, and
-- `false` for an id that has not begun.
pub queries-status :
    (t : TransactionManager) (sts : List ℕ) (xid : ℕ)
    → IsTm t sts
    → 1 ≤ xid
    → (is_active t xid ≡ has_status sts xid field_tran_active)
      × (is_committed t xid ≡ has_status sts xid field_tran_committed)
      × (is_aborted t xid ≡ has_status sts xid field_tran_aborted)
unfolding is_active is_committed is_aborted
queries-status t sts xid v h = (
  skip false ∙ check_xid-status t sts v xid field_tran_active h,
  skip true ∙ check_xid-status t sts v xid field_tran_committed h,
  skip true ∙ check_xid-status t sts v xid field_tran_aborted h,
)
  where
    skip : {b : Bool} (a : Bool) → (if xid == super_xid then a else b) ≡ b
    skip a = ground arith

-- A committed transaction stays committed, and is neither active nor aborted, whatever other
-- transaction commits or aborts afterwards.
pub committed_stays :
    (t : TransactionManager) (sts : List ℕ) (xid other status : ℕ)
    → IsTm t sts
    → 1 ≤ xid
    → xid ≤ length sts
    → 1 ≤ other
    → other ≤ length sts
    → other ≢ xid
    → (is_committed (update_xid (commit t xid) other status) xid ≡ true)
      × (is_active (update_xid (commit t xid) other status) xid ≡ false)
      × (is_aborted (update_xid (commit t xid) other status) xid ≡ false)
committed_stays t sts xid other status v h l ho lo differs =
    let one = commit-abort-IsTm t sts xid v h l in
    let sts' = set sts (xid - 1) field_tran_committed in
    let two =
      update_xid-IsTm (commit t xid) sts' one.0 other status ho
        (omega (arith, length-set sts (xid - 1) field_tran_committed)) in
    let q = queries-status (update_xid (commit t xid) other status) _ xid two h in
    let seen : status_of (set sts' (other - 1) status) xid ≡ some field_tran_committed = kept in
    (
      q.1 ∙ ap (answer field_tran_committed) seen,
      q.0 ∙ ap (answer field_tran_active) seen,
      q.2 ∙ ap (answer field_tran_aborted) seen,
    )
  where
    answer : ℕ → Option ℕ → Bool
    answer s o = elim o [ none ↦ false | some b ↦ b == s ]

    kept :
        status_of (set (set sts (xid - 1) field_tran_committed) (other - 1) status) xid
        ≡ some field_tran_committed
    kept = ground (
      arith,
      length-set sts (xid - 1) field_tran_committed,
      get_elem?-set (set sts (xid - 1) field_tran_committed) (other - 1) (xid - 1) status,
      get_elem?-set sts (xid - 1) (xid - 1) field_tran_committed,
    )

-- Opening the file of a manager passes the check of the counter and gives the same manager back.
open_tm-IsTm : (t : TransactionManager) (sts : List ℕ) → IsTm t sts → open_tm t.file ≡ ok t
unfolding open_tm new_transaction_manager check_xid_counter parse_uuid parse_uint64 get_uint64
open_tm-IsTm t sts v = ground (arith, header, size t sts v, v.counted, v.in_range)
  where
    header : (read_at t.file 0 8 >>= λ l. of_bytes 8 0 l) ≡ some t.xid_counter
    header =
        ap (λ f. read_at f 0 8 >>= λ l. of_bytes 8 0 l) v.content
        ∙ ap (λ k. read_at (to_bytes 8 t.xid_counter ++ sts) 0 k >>= λ l. of_bytes 8 0 l)
            (sym (length-to_bytes 8 t.xid_counter))
        ∙ ap (λ r. r >>= λ l. of_bytes 8 0 l) (read_at-append [] (to_bytes 8 t.xid_counter) sts)
        ∙ ap (of_bytes 8 0) (sym (append-nil (to_bytes 8 t.xid_counter)))
        ∙ of_bytes-to_bytes 8 t.xid_counter [] (omega (arith, v.in_range))
