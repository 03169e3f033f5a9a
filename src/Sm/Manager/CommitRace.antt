-- ===== src/Sm/Manager/CommitRace.antt =====
-- A delete that waits for the lock of a version whose deleter commits.
use wisdb.Tm
use wisdb.Base.{ℕ, List, remove, ◌≢◌, lookup, ◌≡◌, some, none, arith, lookup-remove}
use wisdb.Sm.Manager.{Sm, commit, commit_take, release, commit_mark, taken, SmResult}
use wisdb.Sm.Transaction.{Transaction, in_snap_shot}
use wisdb.Sm.LockTable.{LockTable, remove_xid}
use wisdb.Base.{refl, Bool, true, ◌==◌, ◌≤◌, false, length, ◌<◌, ◌^◌, ◌∙◌, get_elem?-set}
use wisdb.Tm.{TransactionManager, is_committed, field_tran_committed}
use wisdb.Sm.Visibility.{is_version_skip}
use wisdb.Sm.Manager.{Entry, write_entry, refused, refuse, delete_write, answered}
use wisdb.Tm.Status.{IsTm}
use wisdb.Tm.Restart.{queries-status, commit-abort-IsTm}
use wisdb.Sm.Manager.Entries.{IsStored, get_entry-IsStored, set_entry_xmax-IsStored}
use wisdb.Dm.DataManager.{DataManager}
use wisdb.Base.{◌-◌, suc}
use wisdb.Dm.Address.{address_to_uuid}
use wisdb.Sm.Manager.Isolated.{delete_write-loaded, write_entry-free}

committed :
    (tm : TransactionManager) (sts : List ℕ) (x : ℕ)
    → IsTm tm sts
    → 1 ≤ x
    → x ≤ length sts
    → is_committed (Tm.commit tm x) x ≡ true
committed tm sts x v h l =
    (queries-status (Tm.commit tm x) _ x (commit-abort-IsTm tm sts x v h l).0 h).1
    ∙ ground (arith, get_elem?-set sts (x - 1) (x - 1) field_tran_committed)

skipped :
    (c : ℕ → Bool) (t : Transaction) (xmin x : ℕ)
    → t.level ≢ 0
    → in_snap_shot t x ≡ true
    → is_version_skip c t (record { xmin = xmin; xmax = x }) ≡ c x
unfolding is_version_skip
skipped c t xmin x h seen = ground arith

write_entry-skip :
    (sm : Sm) (xid : ℕ) (t : Transaction) (e : Entry)
    → xid ≢ e.version.xmax
    → is_version_skip (is_committed sm.tm) t e.version ≡ true
    → write_entry sm xid t (SmResult.ok e) ≡ some (refused, refuse sm xid t)
write_entry-skip sm xid t e h skip =
    let differs : (e.version.xmax == xid) ≡ false = ground (arith) in simp (differs, skip) refl

module _ (sm : Sm) (x : ℕ) (lt' : LockTable) (woke : List ℕ) where
  -- The manager between the release of the locks and the mark of the commit, and behind both.
  abbrev between : Sm
  between = record sm { tc = remove x sm.tc; lt = lt' }

  abbrev behind : Sm
  behind = record between { tm = Tm.commit sm.tm x }

  parts :
      (tx : Transaction)
      → lookup x sm.tc ≡ some tx
      → tx.error ≡ none
      → remove_xid sm.lt x ≡ some (lt', woke)
      → (commit_take sm x ≡ (taken, record sm { tc = remove x sm.tc }))
        × (release (record sm { tc = remove x sm.tc }) x ≡ some (between, woke))
        × (commit sm x ≡ some (SmResult.ok tt, behind, woke))
  unfolding commit commit_take release commit_mark
  parts tx found fine removed = (
    simp (commit_take, found, fine) refl,
    rw removed refl,
    simp (commit_take, found, fine, removed) refl,
  )

  still :
      (xid : ℕ) (t : Transaction)
      → xid ≢ x
      → lookup xid sm.tc ≡ some t
      → lookup xid (remove x sm.tc) ≡ some t
  still xid t differs known = ground (arith, lookup-remove x xid sm.tc)

-- A version is marked as deleted by a transaction that is active, without an error, and in the
-- snapshot of another at the repeatable level, which waits to delete it too. If the other's delete
-- goes on behind the first one's commit, it is refused. If it goes on between the parts of that
-- commit, when the locks are released and the commit is not yet marked, it succeeds, and the version
-- is then marked by the second transaction alone.
pub lost_update :
    (sm : Sm) (sts : List ℕ) (xid x i off xmin : ℕ) (bs : List ℕ) (t tx : Transaction)
    (lt' : LockTable) (woke : List ℕ)
    → IsTm sm.tm sts
    → 1 ≤ x
    → x ≤ length sts
    → is_committed sm.tm x ≡ false
    → lookup x sm.tc ≡ some tx
    → tx.error ≡ none
    → lookup xid sm.tc ≡ some t
    → t.error ≡ none
    → t.level ≢ 0
    → in_snap_shot t x ≡ true
    → xid ≢ x
    → xid < 2 ^ 64
    → IsStored sm.dm i off xmin x bs
    → remove_xid sm.lt x ≡ some (lt', woke)
    → (taken_sm sm1 sm2 : Sm) × (dm' : DataManager) × (commit sm x
        ≡ some (SmResult.ok tt, sm2, woke))
      × (delete_write sm2 xid (address_to_uuid (suc i) off) ≡ some (refused, refuse sm2 xid t))
      × (commit_take sm x ≡ (taken, taken_sm))
      × (release taken_sm x ≡ some (sm1, woke))
      × (delete_write sm1 xid (address_to_uuid (suc i) off)
          ≡ some (answered (SmResult.ok true), record sm1 { dm = dm' }))
      × IsStored dm' i off xmin xid bs
lost_update sm sts xid x i off xmin bs t tx lt' woke v h l open_x found fine known ok_t level seen
      differs hx s removed =
    let sm1 = between sm x lt' woke in
    let sm2 = behind sm x lt' woke in
    let p = parts sm x lt' woke tx found fine removed in
    let known' = still sm x lt' woke xid t differs known in
    let uuid = address_to_uuid (suc i) off in
    let (di, at, got) = get_entry-IsStored sm.dm i off xmin x bs s in
    let (dm', wrote, s') = set_entry_xmax-IsStored sm.dm xid i off xmin x bs di s hx at in
    (
      record sm { tc = remove x sm.tc },
      sm1,
      sm2,
      dm',
      p.2,
      delete_write-loaded sm2 xid uuid t _ known' ok_t got
          ∙ write_entry-skip sm2 xid t _ differs
              (skipped (is_committed sm2.tm) t xmin x level seen ∙ committed sm.tm sts x v h l),
      p.0,
      p.1,
      delete_write-loaded sm1 xid uuid t _ known' ok_t got
          ∙ write_entry-free sm1 xid t _ dm' differs
              (skipped (is_committed sm1.tm) t xmin x level seen ∙ open_x) wrote,
      s',
    )
