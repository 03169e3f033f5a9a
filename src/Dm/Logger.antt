-- ===== src/Dm/Logger.antt =====
-- main/backend/dm/logger/logger.go: the write-ahead log. The file is a four-byte running checksum
-- and records of a size, a checksum and data. The lock makes each method one step of the model.
-- Writes succeed; a read past the end of the file is the error of `ReadAt`.
pub mod Frame
pub mod Scan
pub mod Walk
pub mod Reopen
pub mod Torn
pub mod Crash
pub mod Restart
pub mod Durable
use wisdb.Utils.IntEncoding.{put_uint32, parse_uint32, uint32_to_raw}
use wisdb.Base.{ℕ, File, List, write_at, if◌then◌else◌, drop, ◌+◌, ◌∷◌, replicate}
use wisdb.Base.{[], Option, Bool, read_at, leb, suc, ◌*◌, length, ◌>>=◌, ◌>>◌, ◌%◌}
use wisdb.Base.{◌^◌, copy_at, truncate, ◌==◌, ltb, none, false, some, zero}

abbrev pub seed : ℕ
seed = 13331

abbrev pub of_size : ℕ
of_size = 0

abbrev pub of_checksum : ℕ
of_checksum = 4

abbrev pub of_log_data : ℕ
of_log_data = 8

-- `cursor` is the file position of the operating system, which `Write` and `Seek` move.
pub record Logger : Type 0 where
  pub file : File
  pub cursor : ℕ
  pub position : ℕ
  pub file_size : ℕ
  pub x_checksum : ℕ

pub data Error : Type 0 where
  bad_log_file : Error
  read_failed : Error
  no_fuel : Error

pub data Result {ℓ} (A : Type ℓ) : Type ℓ where
  ok : A → Result A
  err : Error → Result A

-- A round of `calChecksum`, in 32-bit arithmetic.
abbrev pub checksum_step : ℕ → ℕ → ℕ
checksum_step accumulation b = (b + accumulation * seed % 2 ^ 32) % 2 ^ 32

unfoldable pub cal_checksum : ℕ → List ℕ → ℕ
cal_checksum accumulation [] = accumulation
cal_checksum accumulation (b ∷ bs) = cal_checksum (checksum_step accumulation b) bs

unfoldable pub wrap_log : List ℕ → List ℕ
wrap_log bs =
    let log = replicate (length bs + of_log_data) 0 in
    let sized = put_uint32 log of_size (length bs % 2 ^ 32) in
    let filled = copy_at sized of_log_data bs in put_uint32 filled of_checksum (cal_checksum 0 bs)

-- A new file holds the checksum of no records.
unfoldable pub create : Logger
create = record {
  file = write_at [] 0 (uint32_to_raw 0);
  cursor = length (uint32_to_raw 0);
  position = 0;
  file_size = 0;
  x_checksum = 0;
}

-- file.Write
unfoldable pub append_bytes : Logger → List ℕ → Logger
append_bytes lg bs = record lg {
  file = write_at lg.file lg.cursor bs;
  cursor = lg.cursor + length bs;
}

unfoldable pub update_x_checksum : Logger → List ℕ → Logger
update_x_checksum lg log =
    let x = cal_checksum lg.x_checksum log in
    record lg { x_checksum = x; file = write_at lg.file 0 (uint32_to_raw x) }

unfoldable pub log : Logger → List ℕ → Logger
unfolding append_bytes update_x_checksum
log lg bs = update_x_checksum (append_bytes lg (wrap_log bs)) (wrap_log bs)

unfoldable pub rewind : Logger → Logger
rewind lg = record lg { position = 4 }

-- The three ways in which `next` returns: an error, `false`, or a record.
pub data Next : Type 0 where
  failed : Next
  finished : Next
  found : List ℕ → Next

unfoldable pub size_at : File → ℕ → Option ℕ
size_at file position = do tmp ← read_at file position 4; parse_uint32 tmp

-- The checksum of a record that was read against the one that it carries.
unfoldable pub sums_agree : List ℕ → Bool
sums_agree record' = elim (parse_uint32 (drop of_checksum record')) [
  | none ↦ false
  | some sum ↦ cal_checksum 0 (drop of_log_data record') == sum
]

unfoldable pub read_record : Logger → ℕ → Next × Logger
read_record lg size = elim (read_at lg.file lg.position (of_log_data + size)) [
  | none ↦ (failed, lg)
  | some bs ↦
      if sums_agree bs
      then (found bs, record lg { position = lg.position + length bs })
      else (finished, lg)
]

unfoldable pub next_raw : Logger → Next × Logger
unfolding read_record
next_raw lg =
    if leb lg.file_size (lg.position + of_log_data)
    then (finished, lg)
    else elim (size_at lg.file lg.position) [
      | none ↦ (failed, lg)
      | some size ↦
          if ltb lg.file_size (lg.position + size + of_log_data)
          then (finished, lg)
          else read_record lg size
    ]

-- Next: the data of the record.
abbrev pub strip : Next → Next
strip (found bs) = found (drop of_log_data bs)
strip finished = finished
strip failed = failed

unfoldable pub next : Logger → Next × Logger
unfolding next_raw
next lg = let (r, lg') = next_raw lg in (strip r, lg')

-- A round of the loop of checkAndRemoveTail, which sums the records that can be read.
abbrev pub sum_round : (Logger → ℕ → Result (ℕ × Logger)) → ℕ → Next → Logger → Result (ℕ × Logger)
sum_round again x failed lg = err read_failed
sum_round again x finished lg = ok (x, lg)
sum_round again x (found bs) lg = again lg (cal_checksum x bs)

unfoldable pub sum_records : ℕ → Logger → ℕ → Result (ℕ × Logger)
sum_records zero lg x = err no_fuel
sum_records (suc fuel) lg x = let (r, lg') = next_raw lg in sum_round (sum_records fuel) x r lg'

-- Truncate and Seek behind the last record, and rewind. `file_size` keeps the size found at opening.
unfoldable pub remove_tail : Logger → Logger
unfolding rewind
remove_tail lg = rewind (record lg { file = truncate lg.file lg.position; cursor = lg.position })

unfoldable pub check_and_remove_tail : ℕ → Logger → Result Logger
unfolding remove_tail rewind
check_and_remove_tail fuel lg = elim (sum_records fuel (rewind lg) 0) [
  | err e ↦ err e
  | ok (x, lg') ↦ if x == lg.x_checksum then ok (remove_tail lg') else err bad_log_file
]

-- init(), on a file that was just opened
unfoldable pub init : ℕ → Logger → Result Logger
unfolding size_at
init fuel lg = if ltb (length lg.file) 4 then err bad_log_file else elim (size_at lg.file 0) [
  | none ↦ err read_failed
  | some x ↦ check_and_remove_tail fuel (record lg { file_size = length lg.file; x_checksum = x })
]

-- Each record is at least eight bytes, so the file's length is fuel enough.
unfoldable pub open_log : File → Result Logger
unfolding init
open_log file =
    init (suc (length file))
      (record { file = file; cursor = 0; position = 0; file_size = 0; x_checksum = 0 })

abbrev pub keep : List ℕ → Result (List (List ℕ)) → Result (List (List ℕ))
keep bs (ok rest) = ok (bs ∷ rest)
keep bs (err e) = err e

-- The loop `for { log, ok, err := lg.Next(); ... }` of recovery.go: all records from here on.
abbrev pub collect_round :
    (Logger → Result (List (List ℕ))) → Next → Logger → Result (List (List ℕ))
collect_round again failed lg = err read_failed
collect_round again finished lg = ok []
collect_round again (found bs) lg = keep bs (again lg)

unfoldable pub remaining : ℕ → Logger → Result (List (List ℕ))
unfolding next
remaining zero lg = err no_fuel
remaining (suc fuel) lg = let (r, lg') = next lg in collect_round (remaining fuel) r lg'
