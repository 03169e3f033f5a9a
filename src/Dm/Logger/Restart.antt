-- ===== src/Dm/Logger/Restart.antt =====
-- A restart after orderly logging.
use wisdb.Dm.Logger.{Logger, create, open_log, remaining, rewind, ok}
use wisdb.Dm.Logger.Frame.{frames, IsRecord}
use wisdb.Dm.Logger.Walk.{Stops-nil, at_position, remaining-frames}
use wisdb.Dm.Logger.Reopen.{fresh, reopened, open_log-ok, frames_long}
use wisdb.Dm.Logger.Durable.{IsLog, log_all, log_all-IsLog, create-IsLog, checksum_of_small}
use wisdb.Utils.IntEncoding.RoundTrip.{length-to_bytes}
use wisdb.Base.{File, List, ◌≡◌, ℕ, truncate, ◌<◌, [], ◌∙◌, suc, All, length, ap}
use wisdb.Base.{truncate_inside, sym, arith, take-all, ◌^◌, ◌++◌, length-append}
use wisdb.Utils.IntEncoding.{to_bytes}
use mathlib.Core.List.{append-nil}
use wisdb.Base.{refl}

pub truncate_all : (f g : File) → f ≡ g → truncate f (length g) ≡ f
truncate_all f g e =
    truncate_inside f (length g) (omega (arith, ap length e))
    ∙ take-all (length g) f (omega (arith, ap length e))

module _ (lg : Logger) (ds : List (List ℕ)) (v : IsLog lg ds) where
  small : lg.x_checksum < 2 ^ 32
  small = rw v.summed (checksum_of_small 0 ds (omega arith))

  with_tail : lg.file ≡ to_bytes 4 lg.x_checksum ++ (frames ds ++ [])
  with_tail = v.content ∙ ap (λ l. to_bytes 4 lg.x_checksum ++ l) (sym (append-nil (frames ds)))

  lg' : Logger
  lg' = reopened lg.file (to_bytes 4 lg.x_checksum ++ frames ds) lg.x_checksum

  opened : open_log lg.file ≡ ok lg'
  unfolding lg'
  opened =
      open_log-ok lg.file lg.x_checksum ds [] with_tail small v.records
        (Stops-nil (fresh lg.file lg.x_checksum) refl) v.summed

  same_file : lg'.file ≡ lg.file
  unfolding lg'
  same_file = truncate_all lg.file (to_bytes 4 lg.x_checksum ++ frames ds) v.content

  lg'-IsLog : IsLog lg' ds
  unfolding lg'
  lg'-IsLog = record {
    content = same_file ∙ v.content;
    summed = v.summed;
    at_end = ap length (sym v.content) ∙ ap length (sym same_file);
    records = v.records;
  }

  read_back : remaining (suc (length lg'.file)) (rewind lg') ≡ ok ds
  unfolding lg' rewind
  read_back =
      ap (λ n. remaining (suc (length lg'.file)) (at_position lg' n))
        (sym (length-to_bytes 4 lg.x_checksum))
      ∙ remaining-frames lg' [] (omega (arith, ap length same_file))
          (Stops-nil lg' (ap length (sym same_file))) ds (suc (length lg'.file))
          (to_bytes 4 lg.x_checksum) v.records (same_file ∙ with_tail)
          (omega (
            arith,
            frames_long ds,
            ap length same_file,
            ap length v.content,
            length-append (to_bytes 4 lg.x_checksum) (frames ds),
          ))

  -- Opening the file of a log gives a log of the same records on the same file, and reading it from
  -- the start returns these records.
  pub open_log-IsLog :
      (opened_log : Logger) × (open_log lg.file ≡ ok opened_log)
      × IsLog opened_log ds
      × (opened_log.file ≡ lg.file)
      × (remaining (suc (length opened_log.file)) (rewind opened_log) ≡ ok ds)
  open_log-IsLog = (lg', opened, lg'-IsLog, same_file, read_back)

-- Log round trip. Records that are not empty and shorter than 2^32 bytes, logged in order to a new
-- log whose file is then opened, are all read by `next` from the start, in the order in which they
-- were logged and with none left out. The opened log holds these records and can be logged to.
pub remaining-log_all :
    (ds : List (List ℕ))
    → All IsRecord ds
    → (lg : Logger) × (open_log (log_all create ds).file ≡ ok lg)
      × IsLog lg ds
      × (remaining (suc (length lg.file)) (rewind lg) ≡ ok ds)
remaining-log_all ds all =
    let r = open_log-IsLog (log_all create ds) ds (log_all-IsLog ds create [] create-IsLog all) in
    (r.0, r.1, r.2, r.4)
