-- ===== src/Dm/Logger/Scan.antt =====
-- `next` on a file that holds a record at the log's position, and at its end.
use wisdb.Dm.Logger.{size_at, sums_agree, next_raw, found, finished, Logger}
use wisdb.Dm.Logger.Frame.{frame, length-frame, cal_checksum_small}
use wisdb.Base.{List, ℕ, ◌≤◌, ◌≡◌, ◌++◌, length, true, ◌<◌, ◌^◌, ◌+◌, some, read_at}
use wisdb.Utils.IntEncoding.{parse_uint32, to_bytes, of_bytes}
use wisdb.Base.{arith, ap, sym, ◌∙◌, read_at-append, drop, refl, ◌>>=◌}
use wisdb.Dm.Logger.{cal_checksum}
use wisdb.Utils.IntEncoding.RoundTrip.{of_bytes-to_bytes, length-to_bytes}
use mathlib.Core.List.{append-nil, append_assoc}
use wisdb.Base.{[]}

-- `lg` stands at `rest`, behind `pre`.
pub record StandsAt (lg : Logger) (pre rest : List ℕ) : Type 0 where
  pub content : lg.file ≡ pre ++ rest
  pub here : lg.position ≡ length pre

sum_field : (bs : List ℕ) → parse_uint32 (drop 4 (frame bs)) ≡ some (cal_checksum 0 bs)
unfolding parse_uint32 to_bytes
sum_field bs = of_bytes-to_bytes 4 (cal_checksum 0 bs) bs (cal_checksum_small 0 bs (omega arith))

pub data_field : (bs : List ℕ) → drop 8 (frame bs) ≡ bs
unfolding to_bytes
data_field bs = refl

pub sums_agree-frame : (bs : List ℕ) → sums_agree (frame bs) ≡ true
unfolding sums_agree
sums_agree-frame bs = ground (arith, sum_field bs, data_field bs)

module _ (lg : Logger) (pre bs rest : List ℕ) (at : StandsAt lg pre (frame bs ++ rest))
    (small : length bs < 2 ^ 32) where
  pub size_at-frame : size_at lg.file lg.position ≡ some (length bs)
  unfolding size_at parse_uint32
  size_at-frame =
      rw (at.content, at.here)
        (ap (λ t. read_at (pre ++ t) (length pre) 4 >>= parse_uint32) shape
          ∙ ap (λ t. t >>= parse_uint32) read
          ∙ ap (of_bytes 4 0) (sym (append-nil (to_bytes 4 (length bs))))
          ∙ of_bytes-to_bytes 4 (length bs) [] (omega arith))
    where
      behind : List ℕ
      behind = to_bytes 4 (cal_checksum 0 bs) ++ (bs ++ rest)

      shape : frame bs ++ rest ≡ to_bytes 4 (length bs) ++ behind
      shape = simp append_assoc

      read :
          read_at (pre ++ (to_bytes 4 (length bs) ++ behind)) (length pre) 4
          ≡ some (to_bytes 4 (length bs))
      read =
          ap (read_at _ (length pre)) (sym (length-to_bytes 4 (length bs)))
          ∙ read_at-append pre (to_bytes 4 (length bs)) behind

  read_at-frame : read_at lg.file lg.position (8 + length bs) ≡ some (frame bs)
  read_at-frame =
      rw (at.content, at.here)
        (ap (λ k. read_at (pre ++ (frame bs ++ rest)) (length pre) k) (sym (length-frame bs))
          ∙ read_at-append pre (frame bs) rest)

  pub next_raw-frame :
      lg.position + 8 + length bs ≤ lg.file_size
      → 0 < length bs
      → next_raw lg ≡ (found (frame bs), record lg { position = lg.position + length (frame bs) })
  unfolding next_raw
  next_raw-frame h nonempty = ground (arith, size_at-frame, read_at-frame, sums_agree-frame bs)

-- At the end of the file `next` finds nothing.
pub next_raw_end : (lg : Logger) → lg.file_size ≤ lg.position + 8 → next_raw lg ≡ (finished, lg)
unfolding next_raw
next_raw_end lg h = ground arith
