-- ===== src/Dm/Logger/Reopen.antt =====
-- A log file is opened from its bytes: the records in front of a tail that stops the scan, and the
-- running checksum in the header.
use wisdb.Dm.Logger.{Logger, open_log, init, check_and_remove_tail, rewind, ok, err}
use wisdb.Dm.Logger.Frame.{frame, frames, checksum_of, IsRecord, length-frame}
use wisdb.Dm.Logger.Walk.{Stops, at_position, sum_records-frames}
use wisdb.Utils.IntEncoding.RoundTrip.{length-to_bytes, of_bytes-to_bytes}
use wisdb.Base.{File, List, ℕ, length, truncate, ◌≡◌, ◌≤◌, arith, ◌∷◌, length-append}
use wisdb.Utils.IntEncoding.{to_bytes, parse_uint32, of_bytes}
use wisdb.Base.{[], ◌++◌, ◌<◌, ◌^◌, All, ◌≢◌, suc, some, ap, read_at, sym, ◌∙◌, ◌+◌}
use wisdb.Dm.Logger.{size_at, sum_records, bad_log_file}
use wisdb.Base.{◌>>=◌, read_at-append}
use mathlib.Core.List.{append-nil}

-- The log that `init` starts from.
abbrev pub fresh : File → ℕ → Logger
fresh file x = record {
  file = file;
  cursor = 0;
  position = 0;
  file_size = length file;
  x_checksum = x;
}

-- The log that an opening returns: `file` is cut behind `body`.
abbrev pub reopened : File → List ℕ → ℕ → Logger
reopened file body x = record {
  file = truncate file (length body);
  cursor = length body;
  position = 4;
  file_size = length file;
  x_checksum = x;
}

pub frames_long : (ds : List (List ℕ)) → length ds ≤ length (frames ds)
frames_long [] = omega arith
frames_long (bs ∷ ds) =
    omega (arith, frames_long ds, length-append (frame bs) (frames ds), length-frame bs)

module _ (file : File) (x : ℕ) (ds : List (List ℕ)) (tail : List ℕ)
    (content : file ≡ to_bytes 4 x ++ (frames ds ++ tail)) (small : x < 2 ^ 32)
    (all : All IsRecord ds) (stops : Stops (fresh file x) tail) where
  body : List ℕ
  body = to_bytes 4 x ++ frames ds

  size : length file ≡ 4 + (length (frames ds) + length tail)
  size =
      ap length content
      ∙ omega (
        arith,
        length-append (to_bytes 4 x) (frames ds ++ tail),
        length-append (frames ds) tail,
        length-to_bytes 4 x,
      )

  header : size_at file 0 ≡ some x
  unfolding size_at parse_uint32
  header =
      ap (λ f. read_at f 0 4 >>= parse_uint32) content
      ∙ ap (λ k. read_at (to_bytes 4 x ++ (frames ds ++ tail)) 0 k >>= parse_uint32)
          (sym (length-to_bytes 4 x))
      ∙ ap (λ t. t >>= parse_uint32) (read_at-append [] (to_bytes 4 x) (frames ds ++ tail))
      ∙ ap (of_bytes 4 0) (sym (append-nil (to_bytes 4 x)))
      ∙ of_bytes-to_bytes 4 x [] (omega arith)

  sums :
      sum_records (suc (length file)) (rewind (fresh file x)) 0
      ≡ ok (checksum_of 0 ds, at_position (fresh file x) (length body))
  unfolding rewind body
  sums =
      ap (λ n. sum_records (suc (length file)) (at_position (fresh file x) n) 0)
        (sym (length-to_bytes 4 x))
      ∙ sum_records-frames (fresh file x) tail (omega arith) stops ds (suc (length file))
          (to_bytes 4 x) 0 all content (omega (arith, size, frames_long ds))

  pub open_log-ok :
      x ≡ checksum_of 0 ds → open_log file ≡ ok (reopened file (to_bytes 4 x ++ frames ds) x)
  unfolding open_log init check_and_remove_tail body
  open_log-ok e = ground (arith, header, sums, size)

  pub open_log-bad : x ≢ checksum_of 0 ds → open_log file ≡ err bad_log_file
  unfolding open_log init check_and_remove_tail
  open_log-bad e = ground (arith, header, sums, size)
