-- ===== src/Parser/Tokener/Progress.antt =====
-- Peeking reads on in the statement, and a further peek sees the same.
use wisdb.Parser.Tokener.{
  Tokener, Token, peek, keep_token, fail, next_meta_state, token_at, next_quote_state,
  next_token_state, advance, rest_of, quoted, one_blank, is_symbol, is_quote, is_word_byte, word,
  blanks,
}
use Prim.Native.Nat.{min}
use wisdb.Base.{if◌then◌else◌, ◌≡◌, Option, ℕ, Bool, inl, List, none}
use wisdb.Base.{length, false, true, ◌⊎◌, some, inr, ◌∷◌, ◌≤◌, ◌+◌, arith, Bool-cases}
use wisdb.Base.{[], refl}

-- The statement is the same, and the position has not moved back nor beyond it.
pub record Moves (tk tk' : Tokener) : Type 0 where
  pub stat_same : tk'.stat ≡ tk.stat
  pub onwards : tk.position ≤ tk'.position
  pub inside : tk'.position ≤ length tk'.stat

abbrev IsSound : Tokener → Option Token × Tokener → Type 0
IsSound tk r = Moves tk r.1 × ((r.0 ≡ none) ⊎ (r.1.failed ≡ false))

min_moves : (p q n l : ℕ) → p ≤ q → q ≤ l → (p ≤ min (q + n) l) × (min (q + n) l ≤ l)
min_moves p q n l h k = ground arith

either : {A : Type 0} (P : A → Type 0) {x y : A} (b : Bool) → P x → P y → P (if b then x else y)
either P true p q = p
either P false p q = q

module _ (tk0 : Tokener) where
  advance-Moves : (tk : Tokener) (n : ℕ) → Moves tk0 tk → Moves tk0 (advance tk n)
  unfolding advance
  advance-Moves tk n m =
      let h = min_moves tk0.position tk.position n (length tk.stat) m.onwards m.inside in
      record { stat_same = m.stat_same; onwards = h.0; inside = h.1 }

  fail-IsSound : (tk : Tokener) → Moves tk0 tk → IsSound tk0 (fail tk)
  fail-IsSound tk m =
      (record { stat_same = m.stat_same; onwards = m.onwards; inside = m.inside }, inl refl)

  next_quote_state-IsSound :
      (quote : ℕ) (tk : Tokener)
      → Moves tk0 tk
      → tk.failed ≡ false
      → IsSound tk0 (next_quote_state quote tk)
  unfolding next_quote_state advance
  next_quote_state-IsSound quote tk m h = go (quoted quote (rest_of (advance tk 1)))
    where
      tk' : Tokener
      tk' = advance tk 1

      go :
          (o : Option Token)
          → IsSound tk0 (elim o as (λ _. Option Token × Tokener) [
            | none ↦ fail (advance tk' (length tk'.stat))
            | some tmp ↦ (some tmp, advance tk' (length tmp + 1))
          ])
      go none =
          fail-IsSound (advance tk' (length tk'.stat))
            (advance-Moves tk' (length tk'.stat) (advance-Moves tk 1 m))
      go (some tmp) = (advance-Moves tk' (length tmp + 1) (advance-Moves tk 1 m), inr h)

  token_at-IsSound :
      (bs : List ℕ) (tk : Tokener) → Moves tk0 tk → tk.failed ≡ false → IsSound tk0 (token_at bs tk)
  unfolding next_token_state advance
  token_at-IsSound [] tk m h = (m, inr h)
  token_at-IsSound (b ∷ bs) tk m h =
      either (IsSound tk0) (is_symbol b) (advance-Moves tk 1 m, inr h)
        (either (IsSound tk0) (is_quote b) (next_quote_state-IsSound b tk m h)
          (either (IsSound tk0) (is_word_byte b) word_read (fail-IsSound tk m)))
    where
      tk' : Tokener
      tk' = advance tk (length (word (rest_of tk)))

      word_read : IsSound tk0 (next_token_state tk)
      word_read = (
        advance-Moves tk' (one_blank (rest_of tk'))
            (advance-Moves tk (length (word (rest_of tk))) m),
        inr h,
      )

stays : (tk : Tokener) → tk.position ≤ length tk.stat → Moves tk tk
stays tk h = record { stat_same = refl; onwards = omega arith; inside = h }

next_meta_state-IsSound :
    (tk : Tokener)
    → tk.position ≤ length tk.stat
    → tk.failed ≡ false
    → IsSound tk (next_meta_state tk)
unfolding next_meta_state
next_meta_state-IsSound tk v h =
    let tk' = advance tk (blanks (rest_of tk)) in
    token_at-IsSound tk (rest_of tk') tk' (advance-Moves tk tk (blanks (rest_of tk)) (stays tk v))
      (unfold advance in h)

settled :
    (t : Token) (tk : Tokener)
    → (some t ≡ none) ⊎ (tk.failed ≡ false)
    → peek (keep_token (some t, tk)).1 ≡ keep_token (some t, tk)
unfolding peek
settled t tk (inl e) = cc
settled t tk (inr h) = simp h refl

-- A peek reads on in the statement, not beyond its end, and a second peek gives the same token or
-- the same error and leaves the tokener as it is.
peek-peek :
    (tk : Tokener)
    → tk.position ≤ length tk.stat
    → Moves tk (peek tk).1 × (peek (peek tk).1 ≡ peek tk)
unfolding peek
peek-peek tk v = elim (Bool-cases tk.failed) [
  | inl failed ↦ simp failed (stays tk v, refl)
  | inr sound ↦ elim (Bool-cases tk.flush_token) [
    | inl flush ↦ simp (sound, flush) (go (next_meta_state tk) (next_meta_state-IsSound tk v sound))
    | inr keep ↦ simp (sound, keep) (stays tk v, refl)
  ]
]
  where
    go :
        (r : Option Token × Tokener)
        → IsSound tk r
        → Moves tk (keep_token r).1 × (peek (keep_token r).1 ≡ keep_token r)
    go (none, tk') (m, s) = ((fail-IsSound tk tk' m).0, refl)
    go (some t, tk') (m, s) = (
      record { stat_same = m.stat_same; onwards = m.onwards; inside = m.inside },
      settled t tk' s,
    )
