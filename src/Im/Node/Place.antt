-- ===== src/Im/Node/Place.antt =====
-- A pair written between the pairs of a node: the steps of insert behind its loop.
use wisdb.Im.Node.{insert_leaf}
use wisdb.Im.Node.{node_size}
use wisdb.Im.Node.Bytes.{Pair, pairs, header, front, length-pairs, length-front, length-header}
use wisdb.Im.Node.Bytes.{at_pair, set_key, set_son, set_count, open_pair}
use wisdb.Im.Node.Search.{bytes}
use wisdb.Base.{◌≡◌, List, Bool, ℕ, ◌≤◌, length, take, ◌++◌, drop, ◌-◌, ◌+◌, ◌∷◌}
use mathlib.Core.List.{append_assoc}
use wisdb.Base.{suc, arith, length-append, ap, ◌*◌, [], refl, suc-add, sym, drop-nil}
use wisdb.Im.Node.Shift.{shift_raw_kth-eq}
use wisdb.Base.{◌∙◌, length-take, zero, length-drop}
use wisdb.Utils.IntEncoding.{to_bytes}

take_behind :
    (xs ys : List ℕ) (n : ℕ)
    → n ≤ length ys
    → take (length (xs ++ ys) - n) (xs ++ ys) ≡ xs ++ take (length ys - n) ys
take_behind [] ys n h = refl
take_behind (x ∷ xs) ys n h =
    let more : length (x ∷ (xs ++ ys)) - n ≡ suc (length (xs ++ ys) - n) =
      omega (arith, length-append {0} xs ys) in
    rw more (ap (λ l. x ∷ l) (take_behind xs ys n h))

take_plus : (m n : ℕ) (b : List ℕ) → take (m + n) b ≡ take m b ++ take n (drop m b)
take_plus zero n b = ap (λ k. take k b) (omega arith)
take_plus (suc m) n [] = rw (← suc-add m n) (rw (drop-nil {0} {A = ℕ} (suc m)) (cases_nil n))
  where
    cases_nil : (n : ℕ) → [] ≡ take {A = ℕ} n []
    cases_nil zero = refl
    cases_nil (suc n) = refl
take_plus (suc m) n (x ∷ b) = rw (← suc-add m n) (ap (λ l. x ∷ l) (take_plus m n b))

pub length-bytes :
    (l : Bool) (n s : ℕ) (junk : List ℕ) (es : List Pair)
    → length (bytes l n s junk es) ≡ 11 + (length es * 16 + length junk)
length-bytes l n s junk es = omega (
  arith,
  length-append {0} (header l n s) (pairs es ++ junk),
  length-header l n s,
  length-append {0} (pairs es) junk,
  length-pairs es,
)

module _ (l : Bool) (n s : ℕ) (pre post : List Pair) (junk : List ℕ) where
  pub place :
      (uuid key m : ℕ)
      → length (bytes l n s junk (pre ++ post)) ≡ node_size
      → length (pre ++ post) ≤ 64
      → insert_leaf (bytes l n s junk (pre ++ post)) uuid key m (length pre)
        ≡ bytes l (m + 1) s (take (length junk - 16) junk) (pre ++ ((uuid, key) ∷ post))
  place uuid key m full few =
      let b : List ℕ = pairs post ++ junk in
      let sizes : length b ≡ length post * 16 + length junk =
        omega (arith, length-append {0} (pairs post) junk, length-pairs post) in
      let all : length (pre ++ post) ≡ length pre + length post = length-append {0} pre post in
      let room : 32 ≤ length junk =
        omega (arith, full, few, length-bytes l n s junk (pre ++ post)) in
      let whole : length (front l n s pre ++ b) ≡ node_size =
        ap length (sym (at_pair l n s pre post junk)) ∙ full in
      let rest : List ℕ = pairs post ++ take (length junk - 16) junk in
      rw
        (
          at_pair l n s pre post junk,
          shift_raw_kth-eq (front l n s pre) b (length pre) (length-front l n s pre) (omega arith)
              whole,
          take_plus 8 8 b,
          take_behind (pairs post) junk 16 (omega arith),
          append_assoc (take 8 b) (take 8 (drop 8 b)) rest,
          set_key l n s pre key (take 8 (drop 8 b)) (take 8 b) rest
              (omega (arith, length-take {0} 8 b))
              (omega (arith, length-take {0} 8 (drop 8 b), length-drop {0} 8 b)),
          set_son l n s pre uuid (take 8 b) (to_bytes 8 key ++ rest)
              (omega (arith, length-take {0} 8 b)),
          append_assoc (header l n s) (pairs pre) (to_bytes 8 uuid ++ (to_bytes 8 key ++ rest)),
          set_count l n s (pairs pre ++ (to_bytes 8 uuid ++ (to_bytes 8 key ++ rest))) (m + 1),
          open_pair l (m + 1) s pre uuid key post (take (length junk - 16) junk),
        )
        (sym (
          append_assoc (header l (m + 1) s) (pairs pre)
            (to_bytes 8 uuid ++ (to_bytes 8 key ++ rest))))
