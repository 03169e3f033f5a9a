-- ===== src/Sm/Visibility/Isolation.antt =====
-- What the visibility rules promise to a transaction.
use wisdb.Sm.Transaction.{Transaction, in_snap_shot}
use wisdb.Sm.Visibility.{Version, is_version_skip, is_visible}
use wisdb.Base.{ℕ, Bool, ◌≢◌, ◌≡◌, true, ◌<◌, ◌⊎◌, false, arith, ◌==◌, ◌||◌, not}
use wisdb.Base.{◌&&◌}

-- No dirty read at either level: a visible version was created by the transaction itself or by a
-- committed one, and it was not deleted by the transaction itself, whose id is not 0.
pub is_visible_clean :
    (c : ℕ → Bool) (t : Transaction) (e : Version)
    → t.xid ≢ 0
    → is_visible c t e ≡ true
    → ((e.xmin ≡ t.xid) ⊎ (c e.xmin ≡ true)) × (e.xmax ≢ t.xid)
unfolding is_visible
is_visible_clean c t e h seen = ground arith

-- Repeatable read. Between two answers of the transaction manager that agree on the transactions
-- that were over when the transaction began (a smaller id, not in its snapshot), whatever has
-- committed or aborted otherwise, a version is visible to it at the one exactly if at the other.
pub is_visible_repeatable :
    (c c' : ℕ → Bool) (t : Transaction) (e : Version)
    → t.level ≢ 0
    → ((x : ℕ) → x < t.xid → in_snap_shot t x ≡ false → c x ≡ c' x)
    → is_visible c t e ≡ is_visible c' t e
unfolding is_visible
is_visible_repeatable c c' t e h same = ground (arith, same e.xmin, same e.xmax)

-- No lost update: at a repeatable level a version that is visible and not skipped, and that another
-- transaction has marked as deleted, was not deleted by a committed one.
pub no_lost_update :
    (c : ℕ → Bool) (t : Transaction) (e : Version)
    → t.level ≢ 0
    → is_visible c t e ≡ true
    → is_version_skip c t e ≡ false
    → e.xmax ≢ 0
    → c e.xmax ≡ false
unfolding is_visible is_version_skip
no_lost_update c t e h seen kept marked = ground arith

-- At level 0 a version is never skipped, and a version of a committed creator is visible unless a
-- committed transaction or the reader itself has deleted it.
read_committed_sees :
    (c : ℕ → Bool) (t : Transaction) (e : Version)
    → t.level ≡ 0
    → c e.xmin ≡ true
    → (is_version_skip c t e ≡ false)
      × (is_visible c t e ≡ (e.xmax == 0 || (not (e.xmax == t.xid) && not (c e.xmax))))
unfolding is_visible is_version_skip
read_committed_sees c t e h made = ground arith
