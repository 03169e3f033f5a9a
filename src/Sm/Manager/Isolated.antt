-- ===== src/Sm/Manager/Isolated.antt =====
-- What transactions read around an insert or a delete that has not committed.
use wisdb.Base.{ℕ, List, Bool, ◌≡◌, ◌≢◌, lookup, false, some, arith, none, if◌then◌else◌}
use wisdb.Sm.Manager.{delete_write, Sm, read, Entry, get_entry, SmResult, write_entry}
use wisdb.Sm.Visibility.{is_visible, is_version_skip}
use wisdb.Sm.Transaction.{Transaction, in_snap_shot}
use wisdb.Sm.Manager.Entries.{IsStored, get_entry-IsStored, set_entry_xmax-IsStored}
use wisdb.Base.{refl, ◌<◌, ◌^◌, suc, true, ◌∙◌, sym, ap, ◌==◌}
use wisdb.Tm.{is_committed}
use wisdb.Sm.Entry.{entry_data_of}
use wisdb.Dm.Address.{address_to_uuid}
use wisdb.Sm.Manager.{answered, set_entry_xmax}
use wisdb.Dm.DataManager.{DataManager}
use wisdb.Sm.Entry.RoundTrip.{entry_bytes, fields}
use mathlib.Core.Path.{ap₂}

pub read-loaded :
    (sm : Sm) (y uuid : ℕ) (u : Transaction) (e : Entry)
    → lookup y sm.tc ≡ some u
    → u.error ≡ none
    → get_entry sm.dm uuid ≡ some (SmResult.ok e)
    → read sm y uuid
      ≡ some (
          SmResult.ok (
            if is_visible (is_committed sm.tm) u e.version
            then some (entry_data_of e.bytes)
            else none))
unfolding read
read-loaded sm y uuid u e found fine got = simp (read, found, fine, got) refl

pub delete_write-loaded :
    (sm : Sm) (xid uuid : ℕ) (t : Transaction) (e : Entry)
    → lookup xid sm.tc ≡ some t
    → t.error ≡ none
    → get_entry sm.dm uuid ≡ some (SmResult.ok e)
    → delete_write sm xid uuid ≡ write_entry sm xid t (SmResult.ok e)
unfolding delete_write
delete_write-loaded sm xid uuid t e found fine got = simp (delete_write, found, fine, got) refl

-- A version whose deleter has not committed looks to others as one that is not deleted.
undeleted :
    (c : ℕ → Bool) (u : Transaction) (xmin xid : ℕ)
    → c xid ≡ false
    → u.xid ≢ xid
    → u.xid ≢ xmin
    → is_visible c u (record { xmin = xmin; xmax = xid })
      ≡ is_visible c u (record { xmin = xmin; xmax = 0 })
unfolding is_visible
undeleted c u xmin xid open_x other maker = ground arith

unseen :
    (c : ℕ → Bool) (t : Transaction) (xmin xid : ℕ)
    → t.xid ≡ xid
    → xid ≢ 0
    → is_visible c t (record { xmin = xmin; xmax = xid }) ≡ false
unfolding is_visible
unseen c t xmin xid id h = ground arith

unskipped :
    (c : ℕ → Bool) (t : Transaction) (xmin : ℕ)
    → is_version_skip c t (record { xmin = xmin; xmax = 0 }) ≡ false
unfolding is_version_skip in_snap_shot
unskipped c t xmin = ground arith

pub write_entry-free :
    (sm : Sm) (xid : ℕ) (t : Transaction) (e : Entry) (dm' : DataManager)
    → xid ≢ e.version.xmax
    → is_version_skip (is_committed sm.tm) t e.version ≡ false
    → set_entry_xmax sm.dm xid e ≡ some dm'
    → write_entry sm xid t (SmResult.ok e)
      ≡ some (answered (SmResult.ok true), record sm { dm = dm' })
write_entry-free sm xid t e dm' h kept wrote =
    let differs : (e.version.xmax == xid) ≡ false = ground (arith) in
    simp (differs, kept, wrote) refl

-- A transaction deletes a version that nobody has deleted, behind the wait for its lock. Then it no
-- longer reads the version itself, and until it commits every other transaction that did not create
-- the version reads what it read before.
pub delete_write-read :
    (sm : Sm) (xid i off xmin : ℕ) (bs : List ℕ) (t : Transaction)
    → IsStored sm.dm i off xmin 0 bs
    → lookup xid sm.tc ≡ some t
    → t.error ≡ none
    → t.xid ≡ xid
    → xid ≢ 0
    → xid < 2 ^ 64
    → is_committed sm.tm xid ≡ false
    → (sm' : Sm) × (delete_write sm xid (address_to_uuid (suc i) off)
        ≡ some (answered (SmResult.ok true), sm'))
      × (read sm' xid (address_to_uuid (suc i) off) ≡ some (SmResult.ok none))
      × ((y : ℕ) (u : Transaction)
          → lookup y sm.tc ≡ some u
          → u.error ≡ none
          → u.xid ≢ xid
          → u.xid ≢ xmin
          → read sm' y (address_to_uuid (suc i) off) ≡ read sm y (address_to_uuid (suc i) off))
delete_write-read sm xid i off xmin bs t s found fine id h hx open_x =
    let uuid = address_to_uuid (suc i) off in
    let (di, at, got) = get_entry-IsStored sm.dm i off xmin 0 bs s in
    let (dm', wrote, s') = set_entry_xmax-IsStored sm.dm xid i off xmin 0 bs di s hx at in
    let (di', at', got') = get_entry-IsStored dm' i off xmin xid bs s' in
    let sm' : Sm = record sm { dm = dm' } in
    (
      sm',
      delete_write-loaded sm xid uuid t _ found fine got
          ∙ write_entry-free sm xid t _ dm' h (unskipped (is_committed sm.tm) t xmin) wrote,
      read-loaded sm' xid uuid t _ found fine got'
          ∙ ap
              (λ (v : Bool).
                some (
                  SmResult.ok (if v then some (entry_data_of (entry_bytes xmin xid bs)) else none)))
              (unseen (is_committed sm.tm) t xmin xid id h),
      λ y u known ok_u other maker.
          read-loaded sm' y uuid u _ known ok_u got'
          ∙ ap₂ (λ (v : Bool) (l : List ℕ). some (SmResult.ok (if v then some l else none)))
              (undeleted (is_committed sm.tm) u xmin xid open_x other maker)
              ((fields xmin xid bs s.creator hx).2 ∙ sym (fields xmin 0 bs s.creator s.deleter).2)
          ∙ sym (read-loaded sm y uuid u _ known ok_u got),
    )
