-- ===== src/Sm/Manager/OwnInsert.antt =====
-- What transactions read at the address of an insert that has not committed.
use wisdb.Dm.DataManager
use wisdb.Sm.Manager.{read, insert_entry, Sm, SmResult}
use wisdb.Sm.Manager.Isolated.{read-loaded}
use wisdb.Base.{ℕ, List, Bool, ℤ, ◌≡◌, true, false, lookup, arith, ◌≢◌, some, none}
use wisdb.Sm.Visibility.{is_visible}
use wisdb.Sm.Transaction.{Transaction}
use wisdb.Dm.DataManager.{DataManager, DmResult, pick, insert_at}
use wisdb.Sm.Entry.{wrap_entry_raw, entry_data_of}
use wisdb.Base.{◌<◌, ◌^◌, refl, ◌+◌, length, suc, get_elem?, ◌≤◌, ltb, ap, ◌∙◌, if◌then◌else◌}
use wisdb.Tm.{is_committed}
use wisdb.Dm.PageX.{px_max_free_space}
use wisdb.Dm.Page.{page_size}
use wisdb.Dm.Pindex.{Pair}
use wisdb.Dm.PageX.Fso.{IsPage}
use wisdb.Dm.Dataitem.{wrap_dataitem_raw}
use wisdb.Dm.PageX.Replay.{page}
use wisdb.Dm.Pindex.Room.{IsPindex}
use wisdb.Dm.Address.{address_to_uuid}
use wisdb.Sm.Entry.RoundTrip.{entry_bytes, fields, wrap_entry_raw-eq}
use wisdb.Dm.DataManager.ReadBack.{read-insert_at}
use wisdb.Sm.Manager.Entries.{length-entry_bytes, loaded_entry}
use wisdb.Dm.Dataitem.RoundTrip.{wrap_dataitem_raw-eq, length-item_bytes}
use mathlib.Core.Path.{ap₂}

own :
    (c : ℕ → Bool) (t : Transaction) (xid : ℕ)
    → t.xid ≡ xid
    → is_visible c t (record { xmin = xid; xmax = 0 }) ≡ true
unfolding is_visible
own c t xid id = ground arith

foreign :
    (c : ℕ → Bool) (u : Transaction) (xid : ℕ)
    → c xid ≡ false
    → u.xid ≢ xid
    → is_visible c u (record { xmin = xid; xmax = 0 }) ≡ false
unfolding is_visible
foreign c u xid open_x other = ground arith

pub insert-picked :
    (dm dm1 : DataManager) (xid n : ℕ) (bs : List ℕ) (pr : Pair)
    → length (wrap_dataitem_raw bs) ≡ n
    → n ≤ px_max_free_space
    → pick 5 dm n ≡ some (some pr, dm1)
    → DataManager.insert dm xid bs ≡ insert_at dm1 xid (wrap_dataitem_raw bs) pr
unfolding DataManager.insert px_max_free_space
insert-picked dm dm1 xid n bs pr long fits picked_page =
    let small : ltb px_max_free_space n ≡ false = ground (arith) in
    rw (DataManager.insert, long, small, picked_page) refl

insert_entry-inserted :
    (sm : Sm) (xid uuid : ℕ) (bs : List ℕ) (t : Transaction) (dm' : DataManager)
    → lookup xid sm.tc ≡ some t
    → t.error ≡ none
    → DataManager.insert sm.dm xid (wrap_entry_raw xid bs) ≡ some (DmResult.ok uuid, dm')
    → insert_entry sm xid bs ≡ some (SmResult.ok uuid, record sm { dm = dm' })
unfolding insert_entry
insert_entry-inserted sm xid uuid bs t dm' found fine done =
    simp (insert_entry, found, fine, done) refl

-- A transaction inserts data, for which the data manager's selection gives a page with room. Then it
-- reads its data back at the address that it gets, and until it commits no other transaction reads
-- anything there.
pub insert_entry-read :
    (sm : Sm) (xid i fso : ℕ) (b bs : List ℕ) (free : ℤ) (t : Transaction) (dm1 : DataManager)
    → lookup xid sm.tc ≡ some t
    → t.error ≡ none
    → t.xid ≡ xid
    → xid < 2 ^ 64
    → is_committed sm.tm xid ≡ false
    → pick 5 sm.dm (19 + length bs) ≡ some (some (suc i, free), dm1)
    → suc i < 2 ^ 32
    → get_elem? dm1.pc i ≡ some b
    → IsPage (page (suc i) b) fso
    → fso + (19 + length bs) ≤ page_size
    → IsPindex dm1.pidx
    → (sm' : Sm) × (insert_entry sm xid bs ≡ some (SmResult.ok (address_to_uuid (suc i) fso), sm'))
      × (read sm' xid (address_to_uuid (suc i) fso) ≡ some (SmResult.ok (some bs)))
      × ((y : ℕ) (u : Transaction)
          → lookup y sm.tc ≡ some u
          → u.error ≡ none
          → u.xid ≢ xid
          → read sm' y (address_to_uuid (suc i) fso) ≡ some (SmResult.ok none))
insert_entry-read sm xid i fso b bs free t dm1 found fine id hx open_x picked_page hi here v fits
      index =
    let e = entry_bytes xid 0 bs in
    let uuid = address_to_uuid (suc i) fso in
    let (dm', pg, di, done, seen, held, index', logged) =
      read-insert_at dm1 xid i fso b e free hi here v (omega (arith, length-entry_bytes xid 0 bs))
        (omega (arith, length-entry_bytes xid 0 bs)) index in
    let f = fields xid 0 bs hx (omega arith) in
    let long : length (wrap_dataitem_raw e) ≡ 19 + length bs =
      ap length (wrap_dataitem_raw-eq e (omega (arith, length-entry_bytes xid 0 bs)))
      ∙ omega (arith, length-item_bytes 0 e, length-entry_bytes xid 0 bs) in
    let sm' : Sm = record sm { dm = dm' } in
    let got = loaded_entry dm' uuid pg di e xid 0 seen held f.0 f.1 in
    (
      sm',
      insert_entry-inserted sm xid uuid bs t dm' found fine (
          ap (DataManager.insert sm.dm xid) (wrap_entry_raw-eq xid bs)
          ∙ insert-picked sm.dm dm1 xid (19 + length bs) e (suc i, free) long
              (unfold px_max_free_space in omega (arith, v.past_header)) picked_page
          ∙ done),
      read-loaded sm' xid uuid t _ found fine got
          ∙ ap₂ (λ (k : Bool) (l : List ℕ). some (SmResult.ok (if k then some l else none)))
              (own (is_committed sm.tm) t xid id) f.2,
      λ y u known ok_u other.
          read-loaded sm' y uuid u _ known ok_u got
          ∙ ap (λ (k : Bool). some (SmResult.ok (if k then some (entry_data_of e) else none)))
              (foreign (is_committed sm.tm) u xid open_x other),
    )
