-- ===== src/Sm/Entry/RoundTrip.antt =====
-- The fields of an entry are read back, and a new XMAX changes no other.
use wisdb.Sm.Entry.{wrap_entry_raw, xmin_of, xmax_of, entry_data_of, set_xmax}
use wisdb.Utils.IntEncoding.RoundTrip.{
  put_int_fits, length-to_bytes, of_bytes-to_bytes, of_bytes-take,
}
use wisdb.Base.{ℕ, List, ◌≡◌, ◌<◌, ◌++◌, replicate, length, ap, arith, ◌^◌, copy_at}
use wisdb.Utils.IntEncoding.{put_uuid, parse_uuid, to_bytes, parse_uint64, get_uint64}
use wisdb.Base.{some, length-append, copy_all, sym, ◌∙◌, length-replicate, copy_nil}
use wisdb.Utils.IntEncoding.{put_int}
use wisdb.Base.{refl, ◌+◌, suc}

-- The bytes of an entry.
abbrev pub entry_bytes : ℕ → ℕ → List ℕ → List ℕ
entry_bytes xmin xmax bs = to_bytes 8 xmin ++ (to_bytes 8 xmax ++ bs)

abbrev zeros : List ℕ → List ℕ
zeros rest = to_bytes 8 0 ++ (to_bytes 8 0 ++ rest)

sixteen : (n : ℕ) → replicate (16 + n) 0 ≡ zeros (replicate n 0)
unfolding to_bytes
sixteen n = ap (λ k. replicate k 0) more
  where
    more :
        16 + n
        ≡ suc (
            suc
              (suc (suc (suc (suc (suc (suc (suc (suc (suc (suc (suc (suc (suc (suc n)))))))))))))))
    more = omega arith

filled :
    (xid n : ℕ) (bs : List ℕ)
    → length bs ≡ n
    → copy_at (copy_at (zeros (replicate n 0)) 0 (to_bytes 8 xid)) 16 bs ≡ entry_bytes xid 0 bs
unfolding to_bytes
filled xid n bs e = rw (copy_all (replicate n 0) bs (e ∙ sym (length-replicate {A = ℕ} n 0)))

pub wrap_entry_raw-eq : (xid : ℕ) (bs : List ℕ) → wrap_entry_raw xid bs ≡ entry_bytes xid 0 bs
unfolding wrap_entry_raw put_uuid
wrap_entry_raw-eq xid bs =
    ap (λ l. copy_at (put_int 8 l 0 xid) 16 bs) (sixteen (length bs))
    ∙ ap (λ l. copy_at l 16 bs)
        (put_int_fits 8 (zeros (replicate (length bs) 0)) 0 xid (
          omega (
            arith,
            length-append (to_bytes 8 0) (to_bytes 8 0 ++ replicate (length bs) 0),
            length-to_bytes 8 0,
          )))
    ∙ filled xid (length bs) bs refl

pub fields :
    (xmin xmax : ℕ) (bs : List ℕ)
    → xmin < 2 ^ 64
    → xmax < 2 ^ 64
    → (xmin_of (entry_bytes xmin xmax bs) ≡ some xmin)
      × (xmax_of (entry_bytes xmin xmax bs) ≡ some xmax)
      × (entry_data_of (entry_bytes xmin xmax bs) ≡ bs)
unfolding xmin_of xmax_of entry_data_of parse_uuid parse_uint64 get_uint64
fields xmin xmax bs h k = (
  sym (of_bytes-take 8 0 (entry_bytes xmin xmax bs))
      ∙ of_bytes-to_bytes 8 xmin (to_bytes 8 xmax ++ bs) (omega arith),
  (unfold to_bytes in of_bytes-to_bytes 8 xmax bs (omega arith)),
  (unfold to_bytes in refl),
)

set_xmax-eq :
    (xmin xmax xid : ℕ) (bs : List ℕ)
    → set_xmax (entry_bytes xmin xmax bs) xid ≡ entry_bytes xmin xid bs
unfolding set_xmax put_uuid
set_xmax-eq xmin xmax xid bs =
    put_int_fits 8 (entry_bytes xmin xmax bs) 8 xid (
      omega (
        arith,
        length-append (to_bytes 8 xmin) (to_bytes 8 xmax ++ bs),
        length-append (to_bytes 8 xmax) bs,
        length-to_bytes 8 xmin,
        length-to_bytes 8 xmax,
      ))
    ∙ (unfold to_bytes in ap (λ l. to_bytes 8 xmin ++ (to_bytes 8 xid ++ l)) (copy_nil bs))

-- A wrapped entry has its creator as XMIN, 0 as XMAX, and its data. After `set_xmax`, its XMAX is
-- the new one, and XMIN and the data are what they were.
wrap_entry_raw_lem :
    (xid deleter : ℕ) (bs : List ℕ)
    → xid < 2 ^ 64
    → deleter < 2 ^ 64
    → ((xmin_of (wrap_entry_raw xid bs) ≡ some xid)
        × (xmax_of (wrap_entry_raw xid bs) ≡ some 0)
        × (entry_data_of (wrap_entry_raw xid bs) ≡ bs))
      × (xmin_of (set_xmax (wrap_entry_raw xid bs) deleter) ≡ some xid)
      × (xmax_of (set_xmax (wrap_entry_raw xid bs) deleter) ≡ some deleter)
      × (entry_data_of (set_xmax (wrap_entry_raw xid bs) deleter) ≡ bs)
wrap_entry_raw_lem xid deleter bs h k =
    rw (wrap_entry_raw-eq, set_xmax-eq)
      (
        fields xid 0 bs h (omega arith),
        (fields xid deleter bs h k).0,
        (fields xid deleter bs h k).1,
        (fields xid deleter bs h k).2,
      )
