-- ===== src/Parser/Parse/Laws.antt =====
-- A create whose index clause is not closed.
use wisdb.Parser.Tokener.{Tokener}
use wisdb.Parser.Tokener
use wisdb.Parser.Tokener.{advance, rest_of, blanks}
use wisdb.Parser.Monad.{err, no_fuel}
use wisdb.Parser.Statements.{index_fields}
use Prim.Native.Nat.{min}
use wisdb.Base.{zero, suc, List, [], ◌≡◌, ℕ, length, false, ◌≤◌, drop, some, ap}
use wisdb.Base.{◌∷◌, arith, ◌∙◌, ◌++◌, refl, bytes_equal, ◌+◌}
use wisdb.Parser.Words.{is_name}

drop_all : (xs : List ℕ) (n : ℕ) → length xs ≤ n → drop n xs ≡ []
drop_all [] zero h = refl
drop_all [] (suc n) h = refl
drop_all (x ∷ xs) zero h = absurd (omega arith)
drop_all (x ∷ xs) (suc n) h = drop_all xs n (omega arith)

-- The tokener at the end, after a peek.
abbrev at_end : Tokener → Tokener
at_end tk = record (advance (Tokener.pop tk) 0) { cur_token = []; flush_token = false }

peek_end :
    (tk : Tokener)
    → tk.failed ≡ false
    → length tk.stat ≤ tk.position
    → Tokener.peek (Tokener.pop tk) ≡ (some [], at_end tk)
unfolding Tokener.peek Tokener.pop Tokener.next_token Tokener.next_meta_state advance rest_of blanks
peek_end tk h e =
    simp
      (
        h,
        drop_all tk.stat tk.position e,
        drop_all tk.stat (min (tk.position + 0) (length tk.stat)) (ground arith),
      )
      refl

index_fields_step :
    (fuel : ℕ) (tk : Tokener) (index : List Tokener.Token)
    → tk.failed ≡ false
    → length tk.stat ≤ tk.position
    → index_fields (suc fuel) index tk ≡ index_fields fuel (index ++ ([] ∷ [])) (at_end tk)
unfolding index_fields is_name bytes_equal
index_fields_step fuel tk index h e = rw (peek_end tk h e) refl

-- The loop of a create's index clause never ends once the statement is read to its end: whatever
-- the fuel, it runs out.
pub index_fields_endless :
    (fuel : ℕ) (tk : Tokener) (index : List Tokener.Token)
    → tk.failed ≡ false
    → length tk.stat ≤ tk.position
    → (index_fields fuel index tk).0 ≡ err no_fuel
unfolding index_fields
index_fields_endless zero tk index h e = refl
index_fields_endless (suc fuel) tk index h e =
    ap (λ r. r.0) (index_fields_step fuel tk index h e)
    ∙ index_fields_endless fuel (at_end tk) (index ++ ([] ∷ [])) (unfold advance Tokener.pop in h)
        (unfold advance Tokener.pop in ground arith)
