-- ===== src/Tests/Transactions.antt =====
-- The transaction manager, the entries and the visibility rules at concrete inputs.
use wisdb.Tm.{TransactionManager, update_xid, begin, commit, is_active, is_committed, is_aborted}
use wisdb.Tm.Status.{IsTm}
use wisdb.Tm.Restart.{begin_lem, committed_stays}
use wisdb.Sm.Transaction.{Transaction, in_snap_shot}
use wisdb.Sm.Visibility.{Version, is_visible, is_version_skip}
use wisdb.Sm.Visibility.Isolation.{is_visible_clean, is_visible_repeatable, no_lost_update}
use wisdb.Base.{List, arith, ◌≡◌, ◌∷◌, ℕ, [], ◌++◌, true, Bool, false, ◌⊎◌, ◌<◌}
use wisdb.Utils.IntEncoding.{to_bytes}
use wisdb.Base.{refl, none, ◌==◌, ◌≢◌, ◌||◌}

-- Transaction 1 has committed, transaction 2 is active.
abbrev statuses : List ℕ
statuses = 1 ∷ 0 ∷ []

abbrev manager : TransactionManager
manager = record { file = to_bytes 8 2 ++ statuses; xid_counter = 2 }

manager-IsTm : IsTm manager statuses
manager-IsTm = record { content = refl; counted = refl; in_range = omega arith }

begin_lem_example : ((begin manager).0 ≡ 3) × IsTm (begin manager).1 (1 ∷ 0 ∷ 0 ∷ [])
begin_lem_example = begin_lem manager statuses manager-IsTm (omega arith)

committed_stays_example :
    (is_committed (update_xid (commit manager 2) 1 2) 2 ≡ true)
    × (is_active (update_xid (commit manager 2) 1 2) 2 ≡ false)
    × (is_aborted (update_xid (commit manager 2) 1 2) 2 ≡ false)
committed_stays_example =
    committed_stays manager statuses 2 1 2 manager-IsTm (omega arith) (omega arith) (omega arith)
      (omega arith) (omega arith)

-- Transaction 5 at the repeatable level began while 3 was active.
abbrev reader : Transaction
reader = record { xid = 5; level = 1; snapshot = 3 ∷ []; error = none; auto_abortted = false }

abbrev one_committed : ℕ → Bool
one_committed x = x == 1

abbrev more_committed : ℕ → Bool
more_committed x = x == 1 || x == 3 || x == 7

-- Made by 1, and marked as deleted by 3.
abbrev version : Version
version = record { xmin = 1; xmax = 3 }

version_seen : is_visible one_committed reader version ≡ true
unfolding is_visible in_snap_shot
version_seen = refl

version_kept : is_version_skip one_committed reader version ≡ false
unfolding is_version_skip in_snap_shot
version_kept = refl

is_visible_clean_example :
    ((version.xmin ≡ reader.xid) ⊎ (one_committed 1 ≡ true)) × (version.xmax ≢ reader.xid)
is_visible_clean_example = is_visible_clean one_committed reader version (omega arith) version_seen

agree : (x : ℕ) → x < 5 → in_snap_shot reader x ≡ false → one_committed x ≡ more_committed x
unfolding in_snap_shot
agree x h s = ground arith

is_visible_repeatable_example :
    is_visible one_committed reader version ≡ is_visible more_committed reader version
is_visible_repeatable_example =
    is_visible_repeatable one_committed more_committed reader version (omega arith) agree

no_lost_update_example : one_committed 3 ≡ false
no_lost_update_example =
    no_lost_update one_committed reader version (omega arith) version_seen version_kept
      (omega arith)

abbrev committed_reader : Transaction
committed_reader = record reader { level = 0 }
