-- ===== src/Parser/Monad.antt =====
-- Parsers: the tokener is passed along, and an error ends the parse.
use wisdb.Parser.Tokener
use wisdb.Base.{List, Option, Bool, ℕ, some, none, true, false}

-- `no_fuel` is no value of the source: a loop took more rounds than the fuel allows.
pub data ParseError : Type 0 where
  invalid_stat : ParseError
  unexpected_token : List ℕ → ParseError
  no_fuel : ParseError

pub data Result {ℓ} (A : Type ℓ) : Type ℓ where
  ok : A → Result A
  err : ParseError → Result A

abbrev pub Parser : Type 0 → Type 0
Parser A = Tokener.Tokener → Result A × Tokener.Tokener

module _ {A : Type 0} where
  abbrev pub pure : A → Parser A
  pure a tk = (ok a, tk)

  abbrev pub raise : ParseError → Parser A
  raise e tk = (err e, tk)

abbrev pub continue : {A B : Type 0} → Result A → (A → Parser B) → Parser B
continue (ok a) f tk = f a tk
continue (err e) f tk = (err e, tk)

infixl 5 ◌>>=◌ ◌>>◌
abbrev pub ◌>>=◌ : {A B : Type 0} → Parser A → (A → Parser B) → Parser B
◌>>=◌ m f tk = let (r, tk') = m tk in continue r f tk'

abbrev pub ◌>>◌ : {B : Type 0} → Parser (Unit {0}) → Parser B → Parser B
m >> k = m >>= λ _. k

abbrev of_token : Option Tokener.Token × Tokener.Tokener → Result Tokener.Token × Tokener.Tokener
of_token (none, tk) = (err invalid_stat, tk)
of_token (some t, tk) = (ok t, tk)

-- tokener.Peek(), whose only error is ErrInvalidStat
abbrev pub peek : Parser Tokener.Token
peek tk = of_token (Tokener.peek tk)

-- tokener.Pop()
abbrev pub pop : Parser (Unit {0})
pop tk = (ok tt, Tokener.pop tk)

-- if !cond { return nil, ErrInvalidStat }
abbrev pub require : Bool → Parser (Unit {0})
require true = pure tt
require false = raise invalid_stat
