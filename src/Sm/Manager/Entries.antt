-- ===== src/Sm/Manager/Entries.antt =====
-- The entries that the data manager holds, and the write of their XMAX.
use wisdb.Dm.DataManager
use wisdb.Base.{ℕ, List, drop, ◌≡◌, get_elem?, length, some, ◌<◌, ◌^◌, ◌++◌, suc}
use wisdb.Dm.DataManager.{DataManager, log_dataitem, DmResult}
use wisdb.Utils.IntEncoding.{to_bytes, put_uuid, put_int}
use wisdb.Dm.Dataitem.RoundTrip.{item_bytes}
use wisdb.Sm.Manager.{set_entry_xmax, get_entry, SmResult, Entry}
use wisdb.Dm.Dataitem.{Dataitem, before, data_of}
use wisdb.Dm.Recovery.{put_page}
use wisdb.Sm.Entry.RoundTrip.{entry_bytes, fields}
use wisdb.Dm.Address.{address_to_uuid}
use wisdb.Dm.PageX.Replay.{page}
use wisdb.Base.{take, sym, arith, take-append-drop, ap, ◌∙◌, length-drop, length-take}
use wisdb.Base.{◌+◌, ◌∷◌, length-append, drop-length_append, set, ◌-◌, leb, true}
use wisdb.Dm.DataManager.ReadBack.{read_item, set_found}
use mathlib.Core.List.{append_assoc}
use wisdb.Utils.IntEncoding.RoundTrip.{put_int_mid, length-to_bytes}
use wisdb.Dm.Logger.{Logger}
use wisdb.Base.{refl}
use wisdb.Dm.Page.{Page}
use wisdb.Sm.Entry.{xmin_of, xmax_of}

-- The page `suc i` holds at an offset a valid item with an entry.
pub record IsStored (dm : DataManager) (i off xmin xmax : ℕ) (bs : List ℕ) : Type 0 where
  pub b : List ℕ
  pub rest : List ℕ
  pub found : get_elem? dm.pc i ≡ some b
  pub here : drop off b ≡ item_bytes 0 (entry_bytes xmin xmax bs) ++ rest
  pub number : suc i < 2 ^ 32
  pub place : off < 2 ^ 16
  pub small : 16 + length bs < 2 ^ 16
  pub creator : xmin < 2 ^ 64
  pub deleter : xmax < 2 ^ 64

pub length-entry_bytes :
    (xmin xmax : ℕ) (bs : List ℕ) → length (entry_bytes xmin xmax bs) ≡ 16 + length bs
unfolding to_bytes
length-entry_bytes xmin xmax bs = omega arith

pub loaded_entry :
    (dm : DataManager) (uuid : ℕ) (pg : Page) (di : Dataitem) (e : List ℕ) (xmin xmax : ℕ)
    → DataManager.read dm uuid ≡ some (DmResult.ok (some (pg, di)))
    → data_of pg di ≡ some e
    → xmin_of e ≡ some xmin
    → xmax_of e ≡ some xmax
    → get_entry dm uuid
      ≡ some (
          SmResult.ok
            (record { pg = pg; di = di; bytes = e; version = record { xmin = xmin; xmax = xmax } }))
unfolding get_entry
loaded_entry dm uuid pg di e xmin xmax seen held h k = rw (get_entry, seen, held, h, k) refl

-- The entry as it is loaded.
pub get_entry-IsStored :
    (dm : DataManager) (i off xmin xmax : ℕ) (bs : List ℕ) (s : IsStored dm i off xmin xmax bs)
    → (di : Dataitem) × (di.offset ≡ off)
      × (get_entry dm (address_to_uuid (suc i) off)
          ≡ some (
              SmResult.ok (record {
                pg = page (suc i) s.b;
                di = di;
                bytes = entry_bytes xmin xmax bs;
                version = record { xmin = xmin; xmax = xmax };
              })))
get_entry-IsStored dm i off xmin xmax bs s =
    let e = entry_bytes xmin xmax bs in
    let (di, held, at, seen) =
      read_item dm i off 0 s.b e s.rest s.number s.place
        (omega (arith, length-entry_bytes xmin xmax bs, s.small)) s.found s.here in
    let f = fields xmin xmax bs s.creator s.deleter in
    (
      di,
      at,
      loaded_entry dm (address_to_uuid (suc i) off) (page (suc i) s.b) di e xmin xmax seen held f.0
          f.1,
    )

-- The bytes of the page around the entry's XMAX.
module _ (b rest bs : List ℕ) (off xmin xmax : ℕ)
    (here : drop off b ≡ item_bytes 0 (entry_bytes xmin xmax bs) ++ rest) where
  abbrev size : List ℕ
  size = to_bytes 2 (length (entry_bytes xmin xmax bs))

  abbrev front : List ℕ
  front = take off b ++ (0 ∷ (size ++ to_bytes 8 xmin))

  long : length (take off b) ≡ off
  unfolding to_bytes
  long = omega (arith, ap length here, length-drop {0} off b, length-take {0} off b)

  split : b ≡ front ++ (to_bytes 8 xmax ++ (bs ++ rest))
  unfolding to_bytes
  split =
      sym (take-append-drop off b)
      ∙ ap (λ l. take off b ++ l) here
      ∙ sym (
          append_assoc (take off b) (0 ∷ (size ++ to_bytes 8 xmin))
            (to_bytes 8 xmax ++ (bs ++ rest)))

  length-front : length front ≡ off + 11
  unfolding to_bytes
  length-front = omega (arith, long, length-append {0} (take off b) (0 ∷ (size ++ to_bytes 8 xmin)))

  written : (xid : ℕ) → put_uuid b (off + 3 + 8) xid ≡ front ++ (to_bytes 8 xid ++ (bs ++ rest))
  unfolding put_uuid
  written xid =
      ap (λ l. put_int 8 l (off + 3 + 8) xid) split
      ∙ put_int_mid 8 front (to_bytes 8 xmax) (bs ++ rest) (off + 3 + 8) xid
          (omega (arith, length-front)) (length-to_bytes 8 xmax)

  here_written :
      (xid : ℕ)
      → drop off (put_uuid b (off + 3 + 8) xid) ≡ item_bytes 0 (entry_bytes xmin xid bs) ++ rest
  here_written xid = ap (drop off) (written xid) ∙ behind
    where
      tail : List ℕ
      tail = to_bytes 8 xid ++ (bs ++ rest)

      behind : drop off (front ++ tail) ≡ item_bytes 0 (entry_bytes xmin xid bs) ++ rest
      behind =
          ap (drop off) (append_assoc (take off b) (0 ∷ (size ++ to_bytes 8 xmin)) tail)
          ∙ ap (λ k. drop k (take off b ++ (0 ∷ (size ++ to_bytes 8 xmin) ++ tail))) (sym long)
          ∙ drop-length_append (take off b) (0 ∷ (size ++ to_bytes 8 xmin) ++ tail)
          ∙ (unfold to_bytes in refl)

-- The write of XMAX succeeds; the entry then has the new XMAX, and the rest as it was.
pub set_entry_xmax-IsStored :
    (dm : DataManager) (xid i off xmin xmax : ℕ) (bs : List ℕ) (di : Dataitem)
    (s : IsStored dm i off xmin xmax bs)
    → xid < 2 ^ 64
    → di.offset ≡ off
    → (dm' : DataManager) × (set_entry_xmax dm xid (record {
      pg = page (suc i) s.b;
      di = di;
      bytes = entry_bytes xmin xmax bs;
      version = record { xmin = xmin; xmax = xmax };
    })
        ≡ some dm')
      × IsStored dm' i off xmin xid bs
unfolding set_entry_xmax put_page log_dataitem before
set_entry_xmax-IsStored dm xid i off xmin xmax bs di s hx at =
    let e : Entry = record {
      pg = page (suc i) s.b;
      di = di;
      bytes = entry_bytes xmin xmax bs;
      version = record { xmin = xmin; xmax = xmax };
    } in
    let b' = put_uuid s.b (off + 3 + 8) xid in
    let stored : (lg : Logger)
        → IsStored (record dm { pc = set dm.pc i b'; lg = lg }) i off xmin xid bs =
      λ lg. record {
        b = b';
        rest = s.rest;
        found = set_found dm.pc i s.b b' s.found;
        here = here_written s.b s.rest bs off xmin xmax s.here xid;
        number = s.number;
        place = s.place;
        small = s.small;
        creator = s.creator;
        deleter = hx;
      } in
    let at_i : suc i - 1 ≡ i = omega arith in
    let room : leb 16 (length (entry_bytes xmin xmax bs)) ≡ true =
      ground (arith, length-entry_bytes xmin xmax bs) in
    rw (room, at, at_i) (_, refl, stored _)
