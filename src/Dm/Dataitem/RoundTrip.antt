-- ===== src/Dm/Dataitem/RoundTrip.antt =====
-- What is wrapped and inserted into a page is parsed from it.
use wisdb.Dm.Dataitem.{wrap_dataitem_raw, Dataitem, parse_dataitem, raw_of, is_valid}
use native.Mathlib.Nat.{mod-eq_of_lt}
use wisdb.Base.{ℕ, List, ◌∷◌, length, ◌++◌, ◌<◌, ◌≡◌, ◌+◌, ◌^◌, suc, ap, arith, copy_at}
use wisdb.Utils.IntEncoding.{put_uint16, to_bytes, get_uint16, of_bytes}
use wisdb.Utils.IntEncoding.RoundTrip.{put_int_fits, of_bytes-to_bytes}
use wisdb.Base.{replicate, ◌∙◌, copy_all, sym, length-replicate, ◌/◌, refl, ◌%◌}
use wisdb.Base.{copy, [], drop, length-copy, length-append, some, take, length-drop}
use wisdb.Dm.Page.{Page, page_size}
use wisdb.Dm.Address.{address_to_uuid}
use wisdb.Dm.Dataitem.{data_of, invalid_raw_dataitem}
use wisdb.Base.{take-length_append, le→leb, ◌==◌, false, ◌≤◌, true, drop-copy_at}
use mathlib.Core.List.{append_assoc}
use wisdb.Dm.PageX.Fso.{IsPage}
use wisdb.Dm.PageX.Insert.{inserted, px_insert-eq, drop-inserted}
use wisdb.Dm.PageX.{px_insert}

three_more : (n : ℕ) → 3 + n ≡ suc (suc (suc n))
three_more n = omega arith

-- A valid flag of 0, the size in two bytes, and the data.
abbrev pub item_bytes : ℕ → List ℕ → List ℕ
item_bytes flag bs = flag ∷ (to_bytes 2 (length bs) ++ bs)

filled :
    (n : ℕ) (bs : List ℕ)
    → length bs ≡ n
    → copy_at (copy_at (0 ∷ 0 ∷ 0 ∷ replicate n 0) 1 (to_bytes 2 (length bs))) 3 bs
      ≡ item_bytes 0 bs
unfolding to_bytes
filled n bs e =
    ap (λ l. 0 ∷ length bs / 256 ^ 1 % 256 ∷ length bs / 256 ^ 0 % 256 ∷ l)
      (copy_all (copy (replicate n 0) []) bs
        (e ∙ sym (length-copy (replicate n 0) [] ∙ length-replicate {A = ℕ} n 0)))

pub wrap_dataitem_raw-eq :
    (bs : List ℕ) → length bs < 2 ^ 16 → wrap_dataitem_raw bs ≡ item_bytes 0 bs
unfolding wrap_dataitem_raw put_uint16
wrap_dataitem_raw-eq bs small =
    rw (three_more, mod-eq_of_lt {n = length bs} {m = 2 ^ 16} small)
      (ap (λ l. copy_at l 3 bs)
          (put_int_fits 2 (0 ∷ 0 ∷ 0 ∷ replicate (length bs) 0) 1 (length bs) (omega arith))
        ∙ filled (length bs) bs refl)

pub length-item_bytes : (flag : ℕ) (bs : List ℕ) → length (item_bytes flag bs) ≡ 3 + length bs
unfolding to_bytes
length-item_bytes flag bs = omega arith

-- The item that a window of the page holds.
abbrev item_at : Page → ℕ → ℕ → Dataitem
item_at pg off n = record {
  offset = off;
  len = 3 + n;
  oldraw = replicate (3 + n) 0;
  uid = address_to_uuid pg.pgno off;
}

module _ (pg : Page) (off flag : ℕ) (bs rest : List ℕ) (small : length bs < 2 ^ 16)
    (here : drop off pg.bytes ≡ item_bytes flag bs ++ rest) where
  room : length (drop off pg.bytes) ≡ 3 + length bs + length rest
  room =
      ap length here
      ∙ length-append (item_bytes flag bs) rest
      ∙ omega (arith, length-item_bytes flag bs)

  size_field : get_uint16 (drop 1 (drop off pg.bytes)) ≡ some (length bs)
  unfolding get_uint16
  size_field =
      ap (λ l. of_bytes 2 0 (drop 1 l)) here
      ∙ ap (of_bytes 2 0) (append_assoc (to_bytes 2 (length bs)) bs rest)
      ∙ of_bytes-to_bytes 2 (length bs) (bs ++ rest) (omega arith)

  parse_dataitem-eq : parse_dataitem pg off ≡ some (item_at pg off (length bs))
  unfolding parse_dataitem
  parse_dataitem-eq = ground (arith, size_field, room, length-drop off pg.bytes)

  raw_of-item : raw_of pg (item_at pg off (length bs)) ≡ item_bytes flag bs
  unfolding raw_of
  raw_of-item =
      ap (take (3 + length bs)) here
      ∙ ap (λ k. take k (item_bytes flag bs ++ rest)) (sym (length-item_bytes flag bs))
      ∙ take-length_append (item_bytes flag bs) rest

  is_valid-item : is_valid pg (item_at pg off (length bs)) ≡ some (flag == 0)
  unfolding is_valid
  is_valid-item = rw raw_of-item refl

  data_of-item : data_of pg (item_at pg off (length bs)) ≡ some bs
  unfolding data_of
  data_of-item =
      rw
        (
          raw_of-item,
          le→leb 3 (length (item_bytes flag bs)) (omega (arith, length-item_bytes flag bs)),
        )
        (unfold to_bytes in refl)

  -- A window that starts with the bytes of an item is parsed to that item.
  pub parse_dataitem-item_bytes :
      (di : Dataitem) × (parse_dataitem pg off ≡ some di)
      × (is_valid pg di ≡ some (flag == 0))
      × (data_of pg di ≡ some bs)
      × (di.uid ≡ address_to_uuid pg.pgno off)
      × (di.offset ≡ off)
      × (di.len ≡ 3 + length bs)
  parse_dataitem-item_bytes =
      (item_at pg off (length bs), parse_dataitem-eq, is_valid-item, data_of-item, refl, refl, refl)

pub inserted_here :
    (pg : Page) (fso : ℕ) (raw : List ℕ)
    → IsPage pg fso
    → fso + length raw ≤ page_size
    → drop fso (inserted pg fso raw).bytes ≡ raw ++ drop (fso + length raw) pg.bytes
inserted_here pg fso raw v fits =
    drop-inserted pg fso raw v fits fso v.past_header
    ∙ drop-copy_at pg.bytes fso raw (omega (arith, v.full))

-- Data of less than 2^16 bytes that is wrapped and inserted into a well-formed page with room for
-- it is parsed, at the offset that the insert returned, to a valid item that holds the data and
-- whose UUID is the page's number packed with the offset.
parse_dataitem-px_insert :
    (pg : Page) (fso : ℕ) (bs : List ℕ)
    → IsPage pg fso
    → length bs < 2 ^ 16
    → fso + (3 + length bs) ≤ page_size
    → (pg' : Page) × (di : Dataitem) × (px_insert pg (wrap_dataitem_raw bs) ≡ some (pg', fso))
      × (parse_dataitem pg' fso ≡ some di)
      × (is_valid pg' di ≡ some true)
      × (data_of pg' di ≡ some bs)
      × (di.uid ≡ address_to_uuid pg.pgno fso)
parse_dataitem-px_insert pg fso bs v small fits =
    let raw = item_bytes 0 bs in
    let fits' : fso + length raw ≤ page_size = omega (arith, length-item_bytes 0 bs) in
    let found =
      parse_dataitem-item_bytes (inserted pg fso raw) fso 0 bs _ small
        (inserted_here pg fso raw v fits') in
    rw (wrap_dataitem_raw-eq bs small) (
      inserted pg fso raw,
      found.0,
      px_insert-eq pg fso raw v fits',
      found.1,
      found.2,
      found.3,
      found.4,
    )

pub invalid_item : (bs : List ℕ) → invalid_raw_dataitem (item_bytes 0 bs) ≡ some (item_bytes 1 bs)
unfolding invalid_raw_dataitem to_bytes
invalid_item bs = ground arith

-- Marking the wrapped bytes as invalid changes the flag alone: the item is parsed as before, with
-- its data, and is not valid.
invalid_raw_dataitem_lem :
    (bs rest : List ℕ) (pg : Page) (off : ℕ) (raw : List ℕ)
    → length bs < 2 ^ 16
    → invalid_raw_dataitem (wrap_dataitem_raw bs) ≡ some raw
    → drop off pg.bytes ≡ raw ++ rest
    → (di : Dataitem) × (parse_dataitem pg off ≡ some di)
      × (is_valid pg di ≡ some false)
      × (data_of pg di ≡ some bs)
invalid_raw_dataitem_lem bs rest pg off raw small marked here =
    let found =
      parse_dataitem-item_bytes pg off 1 bs rest small (here ∙ ap (λ l. l ++ rest) flagged) in
    (found.0, found.1, found.2, found.3)
  where
    flagged : raw ≡ item_bytes 1 bs
    flagged = cc (marked, ap invalid_raw_dataitem (wrap_dataitem_raw-eq bs small), invalid_item bs)
