-- ===== src/Tests/Logs.antt =====
-- The log at concrete inputs.
use wisdb.Dm.Logger.{Logger, create, log, open_log, remaining, rewind, ok, err, bad_log_file}
use wisdb.Dm.Logger.Frame.{frame}
use wisdb.Dm.Logger.Durable.{IsLog, log_all, log-IsLog, create-IsLog}
use wisdb.Dm.Logger.Restart.{remaining-log_all}
use wisdb.Dm.Logger.Crash.{open_log-torn, open_log-unsummed}
use wisdb.Dm.Logger.Torn.{IsTorn}
use wisdb.Dm.Logger.{cal_checksum, append_bytes, wrap_log}
use wisdb.Base.{List, ◌≡◌, ◌∷◌, ◌++◌, ℕ, suc, [], ◌<◌, length, arith, take, ◌≢◌}
use wisdb.Utils.IntEncoding.{to_bytes}
use wisdb.Base.{refl}

abbrev entries : List (List ℕ)
entries = (1 ∷ 2 ∷ []) ∷ (3 ∷ []) ∷ []

remaining-log_all_example :
    (lg : Logger) × (open_log (log_all create entries).file ≡ ok lg)
    × IsLog lg entries
    × (remaining (suc (length lg.file)) (rewind lg) ≡ ok entries)
remaining-log_all_example = remaining-log_all entries (omega arith)

abbrev one_entry : Logger
one_entry = log create (1 ∷ 2 ∷ [])

one_entry-IsLog : IsLog one_entry ((1 ∷ 2 ∷ []) ∷ [])
one_entry-IsLog = log-IsLog create [] (1 ∷ 2 ∷ []) create-IsLog (omega arith)

-- The first nine bytes of a record of two.
abbrev nine : List ℕ
nine = take 9 (frame (5 ∷ 6 ∷ []))

nine-IsTorn : IsTorn nine (5 ∷ 6 ∷ [])
unfolding to_bytes
nine-IsTorn = record { missing = 6 ∷ []; some_missing = omega arith; part = refl }

open_log-torn_example :
    (lg' : Logger) × (open_log (one_entry.file ++ nine) ≡ ok lg')
    × IsLog lg' ((1 ∷ 2 ∷ []) ∷ [])
    × (lg'.file ≡ one_entry.file)
open_log-torn_example =
    open_log-torn one_entry ((1 ∷ 2 ∷ []) ∷ []) nine (5 ∷ 6 ∷ []) one_entry-IsLog nine-IsTorn
      (omega arith)

nine_long : 8 < length nine
unfolding to_bytes
nine_long = omega arith

sum_moves : cal_checksum create.x_checksum (frame (5 ∷ 6 ∷ [])) ≢ create.x_checksum
unfolding cal_checksum create to_bytes
sum_moves = omega arith

open_log-unsummed_example :
    open_log (append_bytes create (wrap_log (5 ∷ 6 ∷ []))).file ≡ err bad_log_file
open_log-unsummed_example =
    open_log-unsummed create [] (5 ∷ 6 ∷ []) create-IsLog (omega arith) sum_moves
