-- ===== src/Dm/Logger/Crash.antt =====
-- What an opening makes of a log file after a crash inside `Log`.
use wisdb.Dm.Logger.{Logger, open_log, remaining, ok, err, next_raw, failed, read_failed}
use wisdb.Dm.Logger.Frame.{frame, frames, IsRecord, wrap_log-frame}
use wisdb.Dm.Logger.Walk.{at_position, step, Stops-nil}
use wisdb.Dm.Logger.Reopen.{fresh, reopened, open_log-ok, open_log-bad}
use wisdb.Dm.Logger.Durable.{IsLog, checksum_of_small, appended, frames-concat, All-concat}
use wisdb.Dm.Logger.Torn.{IsTorn, Stops-torn}
use wisdb.Base.{length, List, ◌≤◌, ℕ, ◌<◌, ◌++◌, ◌≡◌, ◌∙◌, All, ap, arith, suc, truncate}
use wisdb.Dm.Logger.{next, size_at, Next, collect_round, strip, keep, rewind, cal_checksum}
use wisdb.Base.{sym, length-append, truncate_inside, take-length_append, ◌^◌, refl}
use mathlib.Core.List.{append-nil, append_assoc}
use wisdb.Utils.IntEncoding.{to_bytes}
use wisdb.Base.{◌∷◌, drop, zero, [], ◌≢◌}
use wisdb.Dm.Logger.{append_bytes, wrap_log, bad_log_file}
use wisdb.Dm.Logger.Durable.{checksum_of-concat}
use wisdb.Utils.IntEncoding.RoundTrip.{length-to_bytes}

-- A walk over records to a place where `next` fails ends in the error.
module _ (lg : Logger) (whole : length lg.file ≤ lg.file_size) where
  remaining_fails :
      (ds : List (List ℕ)) (fuel : ℕ) (pre : List ℕ)
      → All IsRecord ds
      → lg.file ≡ pre ++ frames ds
      → length ds < fuel
      → next_raw (at_position lg (length lg.file)) ≡ (failed, at_position lg (length lg.file))
      → remaining fuel (at_position lg (length pre)) ≡ err read_failed
  unfolding remaining next
  remaining_fails ds zero pre all content enough bad = absurd (omega arith)
  remaining_fails [] (suc fuel) pre all content enough bad =
      ap (λ n. remaining (suc fuel) (at_position lg n))
        (sym (ap length content ∙ ap length (append-nil pre)))
      ∙ ap (λ (p : Next × Logger). collect_round (remaining fuel) (strip p.0) p.1) bad
  remaining_fails (bs ∷ ds) (suc fuel) pre (is_record, all) content enough bad =
      ap (λ (p : Next × Logger). collect_round (remaining fuel) (strip p.0) p.1)
        (step lg whole pre bs (frames ds) content is_record)
      ∙ ap (keep (drop 8 (frame bs))) (
          remaining_fails ds fuel (pre ++ frame bs) all
            (content ∙ sym (append_assoc pre (frame bs) (frames ds))) (omega arith) bad)

module _ (lg : Logger) (ds : List (List ℕ)) (v : IsLog lg ds) where
  small : lg.x_checksum < 2 ^ 32
  small = rw v.summed (checksum_of_small 0 ds (omega arith))

  with_tail : (tail : List ℕ) → lg.file ++ tail ≡ to_bytes 4 lg.x_checksum ++ (frames ds ++ tail)
  with_tail tail =
      ap (λ l. l ++ tail) v.content ∙ append_assoc (to_bytes 4 lg.x_checksum) (frames ds) tail

  after_crash : List ℕ → Logger
  after_crash tail =
      reopened (lg.file ++ tail) (to_bytes 4 lg.x_checksum ++ frames ds) lg.x_checksum

  cut_back : (tail : List ℕ) → (after_crash tail).file ≡ lg.file
  unfolding after_crash
  cut_back tail =
      ap (λ l. truncate (lg.file ++ tail) (length l)) (sym v.content)
      ∙ truncate_inside (lg.file ++ tail) (length lg.file)
          (omega (arith, length-append lg.file tail))
      ∙ take-length_append lg.file tail

  after_crash-IsLog : (tail : List ℕ) → IsLog (after_crash tail) ds
  unfolding after_crash
  after_crash-IsLog tail = record {
    content = cut_back tail ∙ v.content;
    summed = v.summed;
    at_end = ap length (sym v.content) ∙ ap length (sym (cut_back tail));
    records = v.records;
  }

  torn_opens :
      (torn bs : List ℕ)
      → IsTorn torn bs
      → IsRecord bs
      → open_log (lg.file ++ torn) ≡ ok (after_crash torn)
  unfolding after_crash
  torn_opens torn bs t h =
      open_log-ok (lg.file ++ torn) lg.x_checksum ds torn (with_tail torn) small v.records
        (Stops-torn torn bs t h (fresh (lg.file ++ torn) lg.x_checksum) refl) v.summed

  stale : (torn : List ℕ) → length (after_crash torn).file ≤ (after_crash torn).file_size
  unfolding after_crash
  stale torn = omega (arith, ap length (cut_back torn), length-append lg.file torn)

  -- The end of the file that an opening cut, while `file_size` still counts the torn bytes.
  past_end :
      (torn : List ℕ)
      → 8 < length torn
      → next_raw (at_position (after_crash torn) (length (after_crash torn).file))
        ≡ (failed, at_position (after_crash torn) (length (after_crash torn).file))
  unfolding after_crash next_raw size_at
  past_end torn long = ground (arith, ap length (cut_back torn), length-append lg.file torn)

-- A crash while a record is being appended, after any proper part of it, loses that record and no
-- other: the file still opens, is cut back to the log before the crash, and the opened log holds
-- the same records.
pub open_log-torn :
    (lg : Logger) (ds : List (List ℕ)) (torn bs : List ℕ)
    → IsLog lg ds
    → IsTorn torn bs
    → IsRecord bs
    → (lg' : Logger) × (open_log (lg.file ++ torn) ≡ ok lg') × IsLog lg' ds × (lg'.file ≡ lg.file)
open_log-torn lg ds torn bs v t h = (
  after_crash lg ds v torn,
  torn_opens lg ds v torn bs t h,
  after_crash-IsLog lg ds v torn,
  cut_back lg ds v torn,
)

-- Where more than eight bytes of the torn record were written, reading the log that the opening
-- returned from its start ends in a read error, with fuel for every record.
remaining-torn :
    (lg : Logger) (ds : List (List ℕ)) (torn bs : List ℕ) (fuel : ℕ)
    → IsLog lg ds
    → IsTorn torn bs
    → IsRecord bs
    → 8 < length torn
    → length ds < fuel
    → (lg' : Logger) × (open_log (lg.file ++ torn) ≡ ok lg')
      × (remaining fuel (rewind lg') ≡ err read_failed)
unfolding rewind
remaining-torn lg ds torn bs fuel v t h long enough =
    let lg' = after_crash lg ds v torn in
    (
      lg',
      torn_opens lg ds v torn bs t h,
      ap (λ n. remaining fuel (at_position lg' n)) (sym (length-to_bytes 4 lg.x_checksum))
          ∙ remaining_fails lg' (stale lg ds v torn) ds fuel (to_bytes 4 lg.x_checksum) v.records
              (cut_back lg ds v torn ∙ v.content) enough (past_end lg ds v torn long),
    )

-- A crash after a record is written whole and before the header's checksum is: the file does not
-- open, unless the record leaves the running checksum as it was.
pub open_log-unsummed :
    (lg : Logger) (ds : List (List ℕ)) (bs : List ℕ)
    → IsLog lg ds
    → IsRecord bs
    → cal_checksum lg.x_checksum (frame bs) ≢ lg.x_checksum
    → open_log (append_bytes lg (wrap_log bs)).file ≡ err bad_log_file
open_log-unsummed lg ds bs v h differs = rw (wrap_log-frame bs h.1) (
    open_log-bad (append_bytes lg (frame bs)).file lg.x_checksum (ds ++ (bs ∷ [])) [] content
      (small lg ds v) (All-concat ds bs v.records h)
      (Stops-nil (fresh (append_bytes lg (frame bs)).file lg.x_checksum) refl)
      λ e.
        differs
          (ap (λ x. cal_checksum x (frame bs)) v.summed ∙ sym (checksum_of-concat 0 ds bs) ∙ sym e))
  where
    content :
        (append_bytes lg (frame bs)).file
        ≡ to_bytes 4 lg.x_checksum ++ (frames (ds ++ (bs ∷ [])) ++ [])
    content =
        appended lg ds bs v h
        ∙ ap (λ l. to_bytes 4 lg.x_checksum ++ l)
            (sym (frames-concat ds bs) ∙ sym (append-nil (frames (ds ++ (bs ∷ [])))))
