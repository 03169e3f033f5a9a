-- ===== src/Dm/Recovery/Records.antt =====
-- The records of inserts and updates are parsed back.
use wisdb.Dm.Recovery.{
  insert_log, parse_insert_log, is_insert_log, update_log, parse_update_log, log_type_insert,
  log_type_update,
}
use mathlib.Core.Path.{ap₂}
use wisdb.Dm.Page.{Page}
use wisdb.Dm.PageX.{px_fso}
use wisdb.Dm.Dataitem.{Dataitem, raw_of}
use wisdb.Dm.Address.{uuid_to_address, put_offset, parse_offset}
use wisdb.Utils.IntEncoding.{
  to_bytes, put_int, put_uuid, parse_uuid, put_uint32, parse_uint32, put_uint16, parse_uint16,
  parse_uint64, get_uint64, get_uint32, get_uint16,
}
use wisdb.Utils.IntEncoding.RoundTrip.{put_int_mid, of_bytes_mid, length-to_bytes}
use wisdb.Base.{ℕ, List, replicate, ◌≡◌, ◌<◌, some, ◌^◌, ◌∷◌, ◌+◌, [], ◌++◌, suc}
use wisdb.Base.{length, arith, ap, refl, copy_at, ◌∙◌, copy_all, true, set, sym}
use wisdb.Base.{length-replicate, ◌*◌, replicate-add, copy_prefix, copy_at-append}
use wisdb.Base.{◌-◌, ◌/◌, length-append, take-length_append, false, take, drop-drop}
use wisdb.Base.{drop-length_append, take-all}

-- The bytes of an insert's record.
abbrev pub insert_bytes : ℕ → ℕ → ℕ → List ℕ → List ℕ
insert_bytes xid pgno fso raw =
    (log_type_insert ∷ []) ++ (to_bytes 8 xid ++ (to_bytes 4 pgno ++ (to_bytes 2 fso ++ raw)))

pub length-insert_bytes :
    (xid pgno fso : ℕ) (raw : List ℕ) → length (insert_bytes xid pgno fso raw) ≡ 15 + length raw
unfolding to_bytes
length-insert_bytes xid pgno fso raw = omega arith

zeros : ℕ → List ℕ
zeros n = replicate n 0

-- The zeroed buffer, by the fields that will fill it.
buffer :
    (n : ℕ)
    → replicate (1 + (8 + (4 + (2 + n)))) 0
      ≡ zeros 1 ++ (zeros 8 ++ (zeros 4 ++ (zeros 2 ++ zeros n)))
unfolding zeros
buffer n = ap (λ k. replicate k 0) more
  where
    more :
        1 + (8 + (4 + (2 + n)))
        ≡ suc (suc (suc (suc (suc (suc (suc (suc (suc (suc (suc (suc (suc (suc (suc n))))))))))))))
    more = omega arith

pub insert_log-eq :
    (xid : ℕ) (pg : Page) (fso : ℕ) (raw : List ℕ)
    → px_fso pg ≡ some fso
    → insert_log xid pg raw ≡ some (insert_bytes xid pg.pgno fso raw)
unfolding insert_log put_uuid put_uint32 put_offset put_uint16 to_bytes zeros
insert_log-eq xid pg fso raw e =
    rw (e, buffer (length raw))
      (ap some (
        ap (λ l. copy_at (put_int 2 (put_int 4 l 9 pg.pgno) 13 fso) 15 raw)
          (put_int_mid 8 (0 ∷ []) (zeros 8) (zeros 4 ++ (zeros 2 ++ zeros n)) 1 xid refl refl)
        ∙ ap (λ l. copy_at (put_int 2 l 13 fso) 15 raw)
            (put_int_mid 4 (0 ∷ to_bytes 8 xid) (zeros 4) (zeros 2 ++ zeros n) 9 pg.pgno
              (omega (arith, length-to_bytes 8 xid)) refl)
        ∙ ap (λ l. copy_at l 15 raw)
            (put_int_mid 2 (0 ∷ (to_bytes 8 xid ++ to_bytes 4 pg.pgno)) (zeros 2) (zeros n) 13 fso
              (unfold to_bytes in refl) refl)
        ∙ ap (insert_bytes xid pg.pgno fso)
            (copy_all (zeros n) raw (sym (length-replicate {A = ℕ} n 0)))))
  where
    n : ℕ
    n = length raw

pub parse_insert_log-eq :
    (xid pgno fso : ℕ) (raw : List ℕ)
    → xid < 2 ^ 64
    → pgno < 2 ^ 32
    → fso < 2 ^ 16
    → parse_insert_log (insert_bytes xid pgno fso raw) ≡ some (xid, pgno, fso, raw)
unfolding parse_insert_log to_bytes parse_uuid parse_uint64 get_uint64 parse_uint32 get_uint32
    parse_offset parse_uint16 get_uint16
parse_insert_log-eq xid pgno fso raw hx hp hf =
    rw
      (
        of_bytes_mid 8 (0 ∷ []) (to_bytes 4 pgno ++ (to_bytes 2 fso ++ raw)) 1 xid refl
            (omega arith),
        of_bytes_mid 4 (0 ∷ to_bytes 8 xid) (to_bytes 2 fso ++ raw) 9 pgno
            (omega (arith, length-to_bytes 8 xid)) (omega arith),
        of_bytes_mid 2 (0 ∷ (to_bytes 8 xid ++ to_bytes 4 pgno)) raw 13 fso
            (unfold to_bytes in refl) (omega arith),
      )
      refl

-- The record of an insert at the page's free space offset is parsed to the transaction, the page,
-- that offset and the bytes, for numbers in the range of their fields.
parse_insert_log-insert_log :
    (xid : ℕ) (pg : Page) (fso : ℕ) (raw : List ℕ)
    → px_fso pg ≡ some fso
    → xid < 2 ^ 64
    → pg.pgno < 2 ^ 32
    → fso < 2 ^ 16
    → (log : List ℕ) × (insert_log xid pg raw ≡ some log)
      × (is_insert_log log ≡ some true)
      × (parse_insert_log log ≡ some (xid, pg.pgno, fso, raw))
unfolding is_insert_log
parse_insert_log-insert_log xid pg fso raw e hx hp hf = (
  insert_bytes xid pg.pgno fso raw,
  insert_log-eq xid pg fso raw e,
  refl,
  parse_insert_log-eq xid pg.pgno fso raw hx hp hf,
)

-- The bytes of an update's record.
abbrev pub update_bytes : ℕ → ℕ → List ℕ → List ℕ → List ℕ
update_bytes xid uid old new =
    (log_type_update ∷ []) ++ (to_bytes 8 xid ++ (to_bytes 8 uid ++ (old ++ new)))

update_buffer :
    (m n : ℕ)
    → m ≡ n
    → replicate (1 + (8 + (8 + n * 2))) 0
      ≡ zeros 1 ++ (zeros 8 ++ (zeros 8 ++ (zeros m ++ zeros n)))
unfolding zeros
update_buffer m n e =
    ap (λ k. replicate k 0) more
    ∙ ap (λ l. zeros 1 ++ (zeros 8 ++ (zeros 8 ++ l))) (replicate-add m n 0)
  where
    more :
        1 + (8 + (8 + n * 2))
        ≡ suc (
            suc (
              suc (
                suc (
                  suc (
                    suc
                      (suc (suc (suc (suc (suc (suc (suc (suc (suc (suc (suc (m + n)))))))))))))))))
    more = omega arith

update_log-eq :
    (xid : ℕ) (pg : Page) (di : Dataitem)
    → length di.oldraw ≡ length (raw_of pg di)
    → update_log xid pg di ≡ update_bytes xid di.uid di.oldraw (raw_of pg di)
unfolding update_log put_uuid to_bytes zeros
update_log-eq xid pg di same =
    ap (λ l. fill (set l 0 log_type_update)) (update_buffer m n same)
    ∙ ap (λ l. copy_at (copy_at (put_int 8 l 9 di.uid) 17 di.oldraw) (17 + m) raw)
        (put_int_mid 8 (1 ∷ []) (zeros 8) (zeros 8 ++ (zeros m ++ zeros n)) 1 xid refl refl)
    ∙ ap (λ l. copy_at (copy_at l 17 di.oldraw) (17 + m) raw)
        (put_int_mid 8 (1 ∷ to_bytes 8 xid) (zeros 8) (zeros m ++ zeros n) 9 di.uid
          (omega (arith, length-to_bytes 8 xid)) refl)
    ∙ ap (λ l. copy_at (head ++ l) (17 + m) raw)
        (copy_prefix (zeros m) di.oldraw (zeros n) (length-replicate {A = ℕ} m 0))
    ∙ copy_at-append head (di.oldraw ++ zeros n) m raw
    ∙ ap (λ k. head ++ copy_at (di.oldraw ++ zeros n) k raw) (omega arith)
    ∙ ap (λ l. head ++ l) (copy_at-append di.oldraw (zeros n) 0 raw)
    ∙ ap (λ l. head ++ (di.oldraw ++ l))
        (copy_all (zeros n) raw (sym (length-replicate {A = ℕ} n 0)))
  where
    raw : List ℕ
    raw = raw_of pg di

    m : ℕ
    m = length di.oldraw

    n : ℕ
    n = length raw

    head : List ℕ
    head = 1 ∷ (to_bytes 8 xid ++ to_bytes 8 di.uid)

    fill : List ℕ → List ℕ
    fill l = copy_at (copy_at (put_uuid (put_uuid l 1 xid) 9 di.uid) 17 di.oldraw) (17 + m) raw

parse_update_log-eq :
    (xid uid : ℕ) (old new : List ℕ)
    → length old ≡ length new
    → xid < 2 ^ 64
    → uid < 2 ^ 64
    → parse_update_log (update_bytes xid uid old new)
      ≡ some (xid, (uuid_to_address uid).0, (uuid_to_address uid).1, old, new)
unfolding parse_update_log to_bytes parse_uuid parse_uint64 get_uint64
parse_update_log-eq xid uid old new same hx hu =
    rw
      (
        of_bytes_mid 8 (1 ∷ []) (to_bytes 8 uid ++ (old ++ new)) 1 xid refl (omega arith),
        of_bytes_mid 8 (1 ∷ to_bytes 8 xid) (old ++ new) 9 uid
            (omega (arith, length-to_bytes 8 xid)) (omega arith),
        halves,
      )
      (ap₂ (λ (l r : List ℕ). some (xid, (uuid_to_address uid).0, (uuid_to_address uid).1, l, r))
        (take-length_append old new)
        (ap (take (length old)) (sym (drop-drop (length old) 17 log) ∙ drop-length_append old new)
          ∙ take-all (length old) new (omega arith)))
  where
    log : List ℕ
    log = update_bytes xid uid old new

    halves : (length log - 17) / 2 ≡ length old
    halves = omega (arith, length-append old new)

-- The record of an update is parsed to the transaction, the item's address, and the item's bytes
-- before and after, for numbers in the range of their fields, where both are equally long.
parse_update_log-update_log :
    (xid : ℕ) (pg : Page) (di : Dataitem)
    → length di.oldraw ≡ length (raw_of pg di)
    → xid < 2 ^ 64
    → di.uid < 2 ^ 64
    → (is_insert_log (update_log xid pg di) ≡ some false)
      × (parse_update_log (update_log xid pg di)
          ≡ some (
            xid,
            (uuid_to_address di.uid).0,
            (uuid_to_address di.uid).1,
            di.oldraw,
            raw_of pg di,
          ))
unfolding is_insert_log
parse_update_log-update_log xid pg di same hx hu =
    rw (update_log-eq xid pg di same)
      (refl, parse_update_log-eq xid di.uid di.oldraw (raw_of pg di) same hx hu)
