-- ===== src/Dm/Logger/Walk.antt =====
-- The loops over `next` walk through all records of a log.
use wisdb.Dm.Logger.{found, finished, Logger, next_raw, sum_records, ok, remaining, next}
use wisdb.Dm.Logger.Frame.{frame, frames, checksum_of, IsRecord, length-frame}
use wisdb.Dm.Logger.Scan.{next_raw-frame, next_raw_end, data_field}
use wisdb.Base.{ℕ, List, ◌≡◌, length, ◌++◌, [], ◌≤◌, arith, ◌∙◌, All, ap, ◌<◌, length-append}
use wisdb.Base.{sym, suc, ◌∷◌, refl, ◌+◌, zero, drop}
use mathlib.Core.List.{append-nil, append_assoc}
use wisdb.Dm.Logger.{cal_checksum, Next, sum_round, collect_round, strip, keep}

-- The log at another position.
abbrev pub at_position : Logger → ℕ → Logger
at_position lg n = record lg { position = n }

-- `tail` is no record: a log that stands at it finds nothing more.
abbrev pub Stops : Logger → List ℕ → Type 0
Stops lg tail =
    (pre : List ℕ)
    → lg.file ≡ pre ++ tail
    → next_raw (at_position lg (length pre)) ≡ (finished, at_position lg (length pre))

pub Stops-nil : (lg : Logger) → lg.file_size ≡ length lg.file → Stops lg []
Stops-nil lg e pre content =
    next_raw_end (at_position lg (length pre))
      (omega (arith, ap length content, length-append {A = ℕ} pre []))

walk_fits :
    (lg : Logger) (pre bs rest : List ℕ)
    → lg.file ≡ pre ++ (frame bs ++ rest)
    → length lg.file ≤ lg.file_size
    → length pre + 8 + length bs ≤ lg.file_size
walk_fits lg pre bs rest content e = omega (
  arith,
  ap length content,
  length-append pre (frame bs ++ rest),
  length-append (frame bs) rest,
  length-frame bs,
)

module _ (lg : Logger) (whole : length lg.file ≤ lg.file_size) where
  pub step :
      (pre bs rest : List ℕ)
      → lg.file ≡ pre ++ (frame bs ++ rest)
      → IsRecord bs
      → next_raw (at_position lg (length pre))
        ≡ (found (frame bs), at_position lg (length (pre ++ frame bs)))
  step pre bs rest content (nonempty, small) =
      next_raw-frame (at_position lg (length pre)) pre bs rest
        (record { content = content; here = refl }) small (walk_fits lg pre bs rest content whole)
        nonempty
      ∙ ap (λ (n : ℕ). (found (frame bs), at_position lg n)) (sym (length-append pre (frame bs)))

module _ (lg : Logger) (tail : List ℕ) (whole : length lg.file ≤ lg.file_size)
    (stops : Stops lg tail) where
  pub sum_records-frames :
      (ds : List (List ℕ)) (fuel : ℕ) (pre : List ℕ) (x : ℕ)
      → All IsRecord ds
      → lg.file ≡ pre ++ (frames ds ++ tail)
      → length ds < fuel
      → sum_records fuel (at_position lg (length pre)) x
        ≡ ok (checksum_of x ds, at_position lg (length (pre ++ frames ds)))
  unfolding sum_records
  sum_records-frames ds zero pre x all content enough = absurd (omega arith)
  sum_records-frames [] (suc fuel) pre x all content enough =
      ap (λ (p : Next × Logger). sum_round (sum_records fuel) x p.0 p.1) (stops pre content)
      ∙ ap (λ l. ok (x, at_position lg (length l))) (sym (append-nil pre))
  sum_records-frames (bs ∷ ds) (suc fuel) pre x (is_record, all) content enough =
      let content' : lg.file ≡ pre ++ (frame bs ++ (frames ds ++ tail)) =
        content ∙ ap (λ l. pre ++ l) (append_assoc (frame bs) (frames ds) tail) in
      ap (λ (p : Next × Logger). sum_round (sum_records fuel) x p.0 p.1)
        (step lg whole pre bs (frames ds ++ tail) content' is_record)
      ∙ (sum_records-frames ds fuel (pre ++ frame bs) (cal_checksum x (frame bs)) all
            (content' ∙ sym (append_assoc pre (frame bs) (frames ds ++ tail))) (omega arith)
          ∙ ap (λ l. ok (checksum_of x (bs ∷ ds), at_position lg (length l)))
              (append_assoc pre (frame bs) (frames ds)))

  pub remaining-frames :
      (ds : List (List ℕ)) (fuel : ℕ) (pre : List ℕ)
      → All IsRecord ds
      → lg.file ≡ pre ++ (frames ds ++ tail)
      → length ds < fuel
      → remaining fuel (at_position lg (length pre)) ≡ ok ds
  unfolding remaining next
  remaining-frames ds zero pre all content enough = absurd (omega arith)
  remaining-frames [] (suc fuel) pre all content enough =
      ap (λ (p : Next × Logger). collect_round (remaining fuel) (strip p.0) p.1) (stops pre content)
  remaining-frames (bs ∷ ds) (suc fuel) pre (is_record, all) content enough =
      let content' : lg.file ≡ pre ++ (frame bs ++ (frames ds ++ tail)) =
        content ∙ ap (λ l. pre ++ l) (append_assoc (frame bs) (frames ds) tail) in
      ap (λ (p : Next × Logger). collect_round (remaining fuel) (strip p.0) p.1)
        (step lg whole pre bs (frames ds ++ tail) content' is_record)
      ∙ ap (keep (drop 8 (frame bs))) (
          remaining-frames ds fuel (pre ++ frame bs) all
            (content' ∙ sym (append_assoc pre (frame bs) (frames ds ++ tail))) (omega arith))
      ∙ ap (λ l. ok (l ∷ ds)) (data_field bs)
