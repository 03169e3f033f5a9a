-- ===== src/Dm/Logger/Torn.antt =====
-- Crashes in the middle of `Log`: the record is written in part, or whole with the old checksum in
-- the header.
use wisdb.Dm.Logger.{Logger, next_raw}
use wisdb.Dm.Logger.Frame.{frame, IsRecord, length-frame}
use wisdb.Dm.Logger.Walk.{Stops}
use wisdb.Utils.IntEncoding.RoundTrip.{of_bytes-to_bytes}
use wisdb.Base.{List, ℕ, ◌<◌, length, ◌≡◌, ◌++◌, ◌≤◌, take, some, sym, ap, take-append_front}
use wisdb.Dm.Logger.{size_at}
use wisdb.Utils.IntEncoding.{parse_uint32, to_bytes, of_bytes}
use wisdb.Base.{◌∙◌, ◌+◌, ◌>>=◌, arith, read_at_inside, length-append, drop-length_append}
use native.Mathlib.Decide.{dec_le}
use mathlib.Core.List.{append-nil}
use wisdb.Base.{[]}

-- A part of a record that misses something at its end.
pub record IsTorn (torn bs : List ℕ) : Type 0 where
  pub missing : List ℕ
  pub some_missing : 0 < length missing
  pub part : torn ++ missing ≡ frame bs

module _ (torn bs : List ℕ) (t : IsTorn torn bs) (h : IsRecord bs) where
  short : length torn < 8 + length bs
  short =
      omega (arith, t.some_missing, ap length t.part, length-append torn t.missing, length-frame bs)

  size_bytes : 4 ≤ length torn → take 4 torn ≡ to_bytes 4 (length bs)
  unfolding to_bytes
  size_bytes long = sym (take-append_front 4 torn t.missing long) ∙ ap (take 4) t.part

  size_of_torn :
      (pre : List ℕ) → 4 ≤ length torn → size_at (pre ++ torn) (length pre) ≡ some (length bs)
  unfolding size_at parse_uint32
  size_of_torn pre long =
      ap (λ t. t >>= parse_uint32)
        (read_at_inside (pre ++ torn) (length pre) 4 (omega (arith, length-append pre torn)))
      ∙ ap (λ l. parse_uint32 (take 4 l)) (drop-length_append pre torn)
      ∙ ap parse_uint32 (size_bytes long)
      ∙ ap (of_bytes 4 0) (sym (append-nil (to_bytes 4 (length bs))))
      ∙ of_bytes-to_bytes 4 (length bs) [] (omega arith)

  -- The scan of an opening stops at a torn record.
  pub Stops-torn : (lg : Logger) → lg.file_size ≡ length lg.file → Stops lg torn
  unfolding next_raw
  Stops-torn lg whole pre content = elim (dec_le (length torn) 8) [
    | yes few ↦ ground (arith, ap length content, length-append pre torn)
    | no many ↦ ground (
      arith,
      ap length content,
      length-append pre torn,
      short,
      ap (λ f. size_at f (length pre)) content,
      size_of_torn pre (omega arith),
    )
  ]
