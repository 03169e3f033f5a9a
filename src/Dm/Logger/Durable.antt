-- ===== src/Dm/Logger/Durable.antt =====
-- What was logged is read again after a restart.
use wisdb.Dm.Logger.{Logger, create, log, append_bytes, update_x_checksum}
use wisdb.Dm.Logger.Frame.{frame, frames, checksum_of, IsRecord, wrap_log-frame}
use wisdb.Utils.IntEncoding.RoundTrip.{length-to_bytes}
use wisdb.Base.{List, ℕ, ◌≡◌, ◌<◌, ◌++◌, All, write_at, ◌∷◌, length, [], ap, write_at_inside}
use wisdb.Utils.IntEncoding.{uint32_to_raw, to_bytes}
use wisdb.Dm.Logger.{cal_checksum}
use wisdb.Base.{◌∙◌, arith, refl, write_at_end, length-append, sym, copy, copy_prefix}
use wisdb.Base.{◌^◌}
use mathlib.Core.List.{append-nil, append_assoc}
use wisdb.Dm.Logger.Frame.{cal_checksum_small}

-- `lg` holds the records `ds`, and stands at the end of its file.
pub record IsLog (lg : Logger) (ds : List (List ℕ)) : Type 0 where
  pub content : lg.file ≡ to_bytes 4 lg.x_checksum ++ frames ds
  pub summed : lg.x_checksum ≡ checksum_of 0 ds
  pub at_end : lg.cursor ≡ length lg.file
  pub records : All IsRecord ds

pub checksum_of_small : (x : ℕ) (ds : List (List ℕ)) → x < 2 ^ 32 → checksum_of x ds < 2 ^ 32
checksum_of_small x [] h = h
checksum_of_small x (bs ∷ ds) h =
    checksum_of_small (cal_checksum x (frame bs)) ds (cal_checksum_small x (frame bs) h)

pub frames-concat :
    (ds : List (List ℕ)) (bs : List ℕ) → frames (ds ++ (bs ∷ [])) ≡ frames ds ++ frame bs
frames-concat [] bs = append-nil (frame bs)
frames-concat (d ∷ ds) bs =
    ap (λ l. frame d ++ l) (frames-concat ds bs)
    ∙ sym (append_assoc (frame d) (frames ds) (frame bs))

pub checksum_of-concat :
    (x : ℕ) (ds : List (List ℕ)) (bs : List ℕ)
    → checksum_of x (ds ++ (bs ∷ [])) ≡ cal_checksum (checksum_of x ds) (frame bs)
checksum_of-concat x [] bs = refl
checksum_of-concat x (d ∷ ds) bs = checksum_of-concat (cal_checksum x (frame d)) ds bs

pub All-concat :
    (ds : List (List ℕ)) (bs : List ℕ)
    → All IsRecord ds
    → IsRecord bs
    → All IsRecord (ds ++ (bs ∷ []))
All-concat [] bs all h = (h, tt)
All-concat (d ∷ ds) bs (r, all) h = (r, All-concat ds bs all h)

-- A created log holds nothing.
pub create-IsLog : IsLog create []
unfolding create uint32_to_raw to_bytes
create-IsLog = record { content = refl; summed = refl; at_end = refl; records = tt }

module _ (lg : Logger) (ds : List (List ℕ)) (bs : List ℕ) (v : IsLog lg ds) (h : IsRecord bs) where
  pub appended :
      (append_bytes lg (frame bs)).file ≡ to_bytes 4 lg.x_checksum ++ (frames ds ++ frame bs)
  unfolding append_bytes
  appended =
      ap (λ n. write_at lg.file n (frame bs)) v.at_end
      ∙ write_at_end lg.file (frame bs)
      ∙ ap (λ f. f ++ frame bs) v.content
      ∙ append_assoc (to_bytes 4 lg.x_checksum) (frames ds) (frame bs)

  after : ℕ
  after = cal_checksum lg.x_checksum (frame bs)

  updated :
      write_at (append_bytes lg (frame bs)).file 0 (to_bytes 4 after)
      ≡ to_bytes 4 after ++ (frames ds ++ frame bs)
  updated =
      write_at_inside (append_bytes lg (frame bs)).file 0 (to_bytes 4 after) (
        omega (
          arith,
          ap length appended,
          length-append (to_bytes 4 lg.x_checksum) (frames ds ++ frame bs),
          length-to_bytes 4 after,
          length-to_bytes 4 lg.x_checksum,
        ))
      ∙ ap (λ f. copy f (to_bytes 4 after)) appended
      ∙ copy_prefix (to_bytes 4 lg.x_checksum) (to_bytes 4 after) (frames ds ++ frame bs)
          (length-to_bytes 4 lg.x_checksum ∙ sym (length-to_bytes 4 after))

  -- A further record is appended, and the header follows.
  pub log-IsLog : IsLog (log lg bs) (ds ++ (bs ∷ []))
  unfolding log append_bytes update_x_checksum uint32_to_raw after
  log-IsLog = rw (wrap_log-frame bs h.1) (record {
    content = updated ∙ ap (λ l. to_bytes 4 after ++ l) (sym (frames-concat ds bs));
    summed = ap (λ x. cal_checksum x (frame bs)) v.summed ∙ sym (checksum_of-concat 0 ds bs);
    at_end = omega (
      arith,
      ap length updated,
      v.at_end,
      ap length v.content,
      length-append (to_bytes 4 lg.x_checksum) (frames ds),
      length-append (to_bytes 4 after) (frames ds ++ frame bs),
      length-append (frames ds) (frame bs),
      length-to_bytes 4 after,
      length-to_bytes 4 lg.x_checksum,
    );
    records = All-concat ds bs v.records h;
  })

-- Logging in order.
unfoldable pub log_all : Logger → List (List ℕ) → Logger
log_all lg [] = lg
log_all lg (bs ∷ ds) = log_all (log lg bs) ds

pub log_all-IsLog :
    (ds : List (List ℕ)) (lg : Logger) (old : List (List ℕ))
    → IsLog lg old
    → All IsRecord ds
    → IsLog (log_all lg ds) (old ++ ds)
unfolding log_all
log_all-IsLog [] lg old v all = rw append-nil v
log_all-IsLog (bs ∷ ds) lg old v (h, all) =
    rw (append_assoc old (bs ∷ []) ds) at
      (log_all-IsLog ds (log lg bs) (old ++ (bs ∷ [])) (log-IsLog lg old bs v h) all)
