-- ===== src/Tests/Items.antt =====
-- The data manager itself as the store of an index tree: a leaf is a data item, and takes a pair.
use wisdb.Im.Store.{Store, Reading, Result, found, missing, no_page, ok, failed}
use wisdb.Im.Node
use wisdb.Im.Tree.Grow.{Keeps}
use wisdb.Im.Tree.{insert_and_split, walk}
use wisdb.Im.Tree.Chain.{At, Chain, last, entries}
use wisdb.Im.Tree.Walk.{in_range}
use wisdb.Im.Tree.Insertion.{AddressOf, walk-insert_and_split}
use wisdb.Im.Node.Insert.{with_pair}
use wisdb.Tests.Index.{raw_of, right_pairs, right-IsNode}
use wisdb.Dm.Pindex.{Pindex, new_pindex, select, select_from, first_interval}
use wisdb.Dm.PageX.{px_init_raw}
use wisdb.Dm.PageX.Fso.{px_init_raw-IsPage}
use wisdb.Dm.Pindex.Room.{new_pindex-IsPindex}
use wisdb.Dm.DataManager
use wisdb.Dm.DataManager.{DataManager, DmResult, log_dataitem, pick, insert_at}
use wisdb.Dm.DataManager.ReadBack.{read_item, insert_at-eq, set_found}
use wisdb.Dm.Dataitem.{Dataitem, before, data_of}
use wisdb.Dm.Dataitem.RoundTrip.{item_bytes, inserted_here, length-item_bytes, wrap_dataitem_raw-eq}
use wisdb.Dm.Address.{address_to_uuid}
use wisdb.Dm.Address.RoundTrip.{address_to_uuid_sum}
use wisdb.Dm.Page.{Page, page_size}
use wisdb.Dm.PageX.{px_max_free_space}
use wisdb.Dm.PageX.Fso.{IsPage}
use wisdb.Dm.PageX.Replay.{page, after}
use wisdb.Dm.Pindex.Room.{IsPindex, add-IsPindex}
use wisdb.Dm.Recovery.{put_page}
use wisdb.Sm.Manager.OwnInsert.{insert-picked}
use wisdb.Tm.{super_xid}
use wisdb.Utils.IntEncoding.{to_bytes}
use wisdb.Base.{
  ℕ, List, Option, some, none, suc, zero, [], ◌∷◌, ◌≡◌, ◌≢◌, ◌<◌, ◌≤◌, ◌+◌, ◌-◌, ◌^◌, ◌++◌,
}
use wisdb.Base.{
  ℤ, length, drop, copy_at, get_elem?, set, get_elem?-set, get_elem?_inside, arith, refl, ap, sym,
  ◌∙◌,
}
use wisdb.Base.{inl, inr, true, pos, replicate, drop-copy_at, length-append, drop-length_append}
use wisdb.Dm.Logger
use wisdb.Dm.Recovery.Records.{insert_bytes}
use wisdb.Base.{false}

abbrev bytes_of : Option (List ℕ) → Reading
bytes_of none = missing
bytes_of (some bs) = found bs

abbrev reading : Option (DmResult (Option (Page × Dataitem))) → Reading
reading (some (DmResult.ok (some (pg, di)))) = bytes_of (data_of pg di)
reading (some (DmResult.ok none)) = missing
reading r = no_page

abbrev stored_item : Option (DmResult ℕ × DataManager) → Option (Result ℕ × DataManager)
stored_item none = none
stored_item (some (DmResult.ok uuid, dm)) = some (ok uuid, dm)
stored_item (some (r, dm)) = some (failed, dm)

-- Before, the copy into the item's data, and After.
abbrev overwrite : DataManager → List ℕ → Option (DmResult (Option (Page × Dataitem))) → DataManager
overwrite dm raw (some (DmResult.ok (some (pg0, di0)))) =
    let (pg, di) = before pg0 di0 in
    let pg' = record pg { bytes = copy_at pg.bytes (di.offset + 3) raw } in
    log_dataitem (record dm { pc = put_page dm.pc pg' }) super_xid pg' di
overwrite dm raw r = dm

abbrev items : Store DataManager
items = record {
  read = λ uuid dm. reading (DataManager.read dm uuid);
  insert = λ raw dm. stored_item (DataManager.insert dm super_xid raw);
  write = λ uuid raw dm. overwrite dm raw (DataManager.read dm uuid);
}

-- The page `suc i` holds a valid item of the bytes at an offset.
record Held (dm : DataManager) (i off : ℕ) (bs : List ℕ) : Type 0 where
  pub b : List ℕ
  pub rest : List ℕ
  pub there : get_elem? dm.pc i ≡ some b
  pub here : drop off b ≡ item_bytes 0 bs ++ rest
  pub number : suc i < 2 ^ 32
  pub place : off < 2 ^ 16
  pub small : length bs < 2 ^ 16

Held-read :
    (dm : DataManager) (i off : ℕ) (bs : List ℕ)
    → Held dm i off bs
    → Store.read items (address_to_uuid (suc i) off) dm ≡ found bs
Held-read dm i off bs h =
    let (di, held, at, seen) =
      read_item dm i off 0 h.b bs h.rest h.number h.place h.small h.there h.here in
    rw (seen, held) refl

drop_behind :
    (b : List ℕ) (off n m : ℕ) (raw : List ℕ)
    → m ≡ off + suc n
    → drop off (copy_at b m raw) ≡ copy_at (drop off b) (suc n) raw
drop_behind b zero n m raw e = let same : m ≡ suc n = omega arith in ap (λ k. copy_at b k raw) same
drop_behind b (suc off) n zero raw e = absurd (omega arith)
drop_behind [] (suc off) n (suc m) raw e = refl
drop_behind (x ∷ b) (suc off) n (suc m) raw e = drop_behind b off n m raw (omega arith)

over_same :
    (old raw rest : List ℕ)
    → length raw ≡ length old
    → copy_at (item_bytes 0 old ++ rest) 3 raw ≡ item_bytes 0 raw ++ rest
unfolding to_bytes
over_same old raw rest size =
    let past : 0 + length raw ≡ length old = omega arith in
    let tail : copy_at (old ++ rest) 0 raw ≡ raw ++ rest =
      drop-copy_at (old ++ rest) 0 raw (omega (arith, length-append {0} old rest))
      ∙ ap (λ n. raw ++ drop n (old ++ rest)) past
      ∙ ap (λ l. raw ++ l) (drop-length_append old rest) in
    rw (size) (ap (λ l. 0 ∷ (to_bytes 2 (length old) ++ l)) tail)

-- The page of an item that is overwritten, and what is then held there and elsewhere.
module _ (dm : DataManager) (i off : ℕ) (old raw : List ℕ) (h : Held dm i off old)
    (size : length raw ≡ length old) where
  abbrev uuid : ℕ
  uuid = address_to_uuid (suc i) off

  pages_written : (Store.write items uuid raw dm).pc ≡ set dm.pc i (copy_at h.b (off + 3) raw)
  unfolding before log_dataitem put_page
  pages_written =
      let (di, held, at, seen) =
        read_item dm i off 0 h.b old h.rest h.number h.place h.small h.there h.here in
      rw (seen, at) (ap (λ k. set dm.pc k (copy_at h.b (off + 3) raw)) (omega arith))

  write-Held : Held (Store.write items uuid raw dm) i off raw
  write-Held = record {
    b = copy_at h.b (off + 3) raw;
    rest = h.rest;
    there =
        ap (λ pc. get_elem? pc i) pages_written
        ∙ set_found dm.pc i h.b (copy_at h.b (off + 3) raw) h.there;
    here =
        drop_behind h.b off 2 (off + 3) raw (omega arith)
        ∙ ap (λ l. copy_at l 3 raw) h.here
        ∙ over_same old raw h.rest size;
    number = h.number;
    place = h.place;
    small = omega (arith, size, h.small);
  }

  write-Held_other :
      (k o : ℕ) (bs : List ℕ) → k ≢ i → Held dm k o bs → Held (Store.write items uuid raw dm) k o bs
  write-Held_other k o bs far g = record {
    b = g.b;
    rest = g.rest;
    there =
        ap (λ pc. get_elem? pc k) pages_written
        ∙ get_elem?-set dm.pc i k (copy_at h.b (off + 3) raw) (get_elem?_inside dm.pc i h.b h.there)
        ∙ ground (arith, g.there);
    here = g.here;
    number = g.number;
    place = g.place;
    small = g.small;
  }

uuids_differ :
    (i off k o : ℕ)
    → suc i < 2 ^ 32
    → off < 2 ^ 16
    → suc k < 2 ^ 32
    → o < 2 ^ 16
    → k ≢ i
    → (address_to_uuid (suc k) o ≢ 0)
      × (address_to_uuid (suc k) o < 2 ^ 64)
      × (address_to_uuid (suc i) off ≢ address_to_uuid (suc k) o)
uuids_differ i off k o hi ho hk hp far =
    rw (address_to_uuid_sum (suc i) off hi ho, address_to_uuid_sum (suc k) o hk hp)
      ((λ q. absurd (omega arith)), omega arith, (λ q. absurd (omega arith)))

-- A node at an item of one page can be written and split where another page has room.
items-Keeps :
    (dm dm1 : DataManager) (i off k fso : ℕ) (old bk : List ℕ) (free : ℤ)
    → Held dm i off old
    → length old ≡ Node.node_size
    → pick 5 dm (3 + Node.node_size) ≡ some (some (suc k, free), dm1)
    → dm1.pc ≡ dm.pc
    → k ≢ i
    → suc k < 2 ^ 32
    → get_elem? dm.pc k ≡ some bk
    → IsPage (page (suc k) bk) fso
    → fso + (3 + Node.node_size) ≤ page_size
    → IsPindex dm1.pidx
    → Keeps items (λ v. v ≡ address_to_uuid (suc i) off) dm (address_to_uuid (suc i) off)
items-Keeps dm dm1 i off k fso old bk free h long picked_page same far hk at_k v fits index =
    record {
      here = λ raw size. Held-read _ i off raw (write-Held dm i off old raw h (size ∙ sym long));
      kept = λ raw u size known other. absurd (other known);
      stored = λ node_raw size.
          let raw = item_bytes 0 node_raw in
          let fits' : fso + length raw ≤ page_size =
            omega (arith, length-item_bytes 0 node_raw, size) in
          let (pi, added, index') =
            add-IsPindex dm1.pidx (suc k) (page_size - (fso + length raw)) index (omega arith) in
          let dm2 : DataManager = record {
            pc = set dm1.pc k (after bk fso raw);
            lg = Logger.log dm1.lg (insert_bytes super_xid (suc k) fso raw);
            pidx = pi;
          } in
          let at_k1 : get_elem? dm1.pc k ≡ some bk = ap (λ pc. get_elem? pc k) same ∙ at_k in
          let done : Store.insert items node_raw dm ≡ some (ok (address_to_uuid (suc k) fso), dm2) =
            ap stored_item (
              insert-picked dm dm1 super_xid (3 + Node.node_size) node_raw (suc k, free)
                (ap length (wrap_dataitem_raw-eq node_raw (omega (arith, size)))
                  ∙ omega (arith, length-item_bytes 0 node_raw, size))
                (unfold px_max_free_space in omega arith) picked_page
              ∙ ap (λ r. insert_at dm1 super_xid r (suc k, free))
                  (wrap_dataitem_raw-eq node_raw (omega (arith, size)))
              ∙ insert_at-eq dm1 super_xid k fso bk raw free pi at_k1 v fits' added) in
          let new : Held dm2 k fso node_raw = record {
            b = after bk fso raw;
            rest = drop (fso + length raw) bk;
            there = set_found dm1.pc k bk (after bk fso raw) at_k1;
            here = inserted_here (page (suc k) bk) fso raw v fits';
            number = hk;
            place = omega arith;
            small = omega (arith, size);
          } in
          let kept : Held dm2 i off old = record {
            b = h.b;
            rest = h.rest;
            there =
                get_elem?-set dm1.pc k i (after bk fso raw) (get_elem?_inside dm1.pc k bk at_k1)
                ∙ ground (arith, ap (λ pc. get_elem? pc i) same ∙ h.there);
            here = h.here;
            number = h.number;
            place = h.place;
            small = h.small;
          } in
          let (there, word, apart) =
            uuids_differ i off k fso h.number h.place hk (omega arith) far in
          (
            address_to_uuid (suc k) fso,
            dm2,
            done,
            record {
              there = there;
              word = word;
              apart = λ u known q. apart (sym known ∙ q);
              here = λ raw' size'.
                  Held-read _ i off raw' (write-Held dm2 i off old raw' kept (size' ∙ sym long));
              held = λ raw' size'. Held-read _ k fso node_raw (
                  write-Held_other dm2 i off old raw' kept (size' ∙ sym long) k fso node_raw far
                    new);
              kept = λ raw' u size' known other. absurd (other known);
            },
          );
    }

-- Page 2 holds a leaf, and page 3 is empty.
abbrev leaf : List ℕ
leaf = raw_of true 0 right_pairs

abbrev index : Pindex
index = record { lists = replicate 40 [] ++ (((3, pos 8190) ∷ []) ∷ []) }

abbrev no_index : Pindex
no_index = record { lists = replicate 41 [] }

abbrev tree : DataManager
tree = record {
  pc = px_init_raw ∷ after px_init_raw 2 (item_bytes 0 leaf) ∷ px_init_raw ∷ [];
  lg = Logger.create;
  pidx = index;
}

tree-Held : Held tree 1 2 leaf
tree-Held = record {
  b = after px_init_raw 2 (item_bytes 0 leaf);
  rest = drop (2 + length (item_bytes 0 leaf)) px_init_raw;
  there = refl;
  here =
      inserted_here (page 2 px_init_raw) 2 (item_bytes 0 leaf) (px_init_raw-IsPage 2 false)
        (omega (arith, length-item_bytes 0 leaf, right-IsNode.full));
  number = omega arith;
  place = omega arith;
  small = omega (arith, right-IsNode.full);
}

tree_picks :
    pick 5 tree (3 + Node.node_size) ≡ some (some (3, pos 8190), record tree { pidx = no_index })
unfolding pick select select_from first_interval
tree_picks = refl

no_index-IsPindex : IsPindex no_index
no_index-IsPindex = unfold new_pindex in new_pindex-IsPindex

abbrev here : ℕ
here = address_to_uuid 2 2

tree-Keeps : Keeps items (λ v. v ≡ here) tree here
tree-Keeps =
    items-Keeps tree (record tree { pidx = no_index }) 1 2 2 2 leaf px_init_raw (pos 8190) tree-Held
      right-IsNode.full tree_picks refl (omega arith) (omega arith) refl
      (px_init_raw-IsPage 3 false) (omega arith) no_index-IsPindex

abbrev leaves : List At
leaves = (here, right_pairs) ∷ []

only : (v : ℕ) → AddressOf leaves v → v ≡ here
only v (inl h) = h
only v (inr h) = absurd h

leaves-Keeps : Keeps items (AddressOf leaves) tree here
leaves-Keeps = record {
  here = tree-Keeps.here;
  kept = λ raw v size known. tree-Keeps.kept raw v size (only v known);
  stored = λ node_raw size.
      let (son, dm, done, placed) = tree-Keeps.stored node_raw size in
      (
        son,
        dm,
        done,
        record {
          there = placed.there;
          word = placed.word;
          apart = λ v known. placed.apart v (only v known);
          here = placed.here;
          held = placed.held;
          kept = λ raw v size' known. placed.kept raw v size' (only v known);
        },
      );
}

tree_chain : Chain items tree true here leaves
tree_chain = last (Held-read tree 1 2 leaf tree-Held) right-IsNode

walk-insert_and_split_example :
    (son : ℕ) × (new_key : ℕ) × (st' : DataManager) × (insert_and_split items 1 here 104 6 tree
      ≡ some (ok (son, new_key), st'))
    × ((left right : ℕ)
        → walk items (1 + 1) here left right st'
          ≡ some (ok (in_range left right (with_pair 104 6 (entries leaves))), st'))
walk-insert_and_split_example =
    walk-insert_and_split items 1 here 104 6 leaves tree (omega arith) (omega arith) tree_chain
      ((omega arith, tt), (tt, tt)) (omega arith, tt) (leaves-Keeps, tt) (omega arith)
