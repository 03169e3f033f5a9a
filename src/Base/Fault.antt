-- ===== src/Base/Fault.antt =====
-- Go's run-time panics as `none`, chained by do blocks.
use mathlib.Core.Bool.{Bool, true, false}
use mathlib.Core.Option.{Option, none, some}

infixl 5 ◌>>=◌ ◌>>◌
abbrev pub ◌>>=◌ {ℓ κ} : {A : Type ℓ} {B : Type κ} → Option A → (A → Option B) → Option B
none >>= f = none
some a >>= f = f a

abbrev pub ◌>>◌ {κ} : {B : Type κ} → Option (Unit {0}) → Option B → Option B
m >> k = m >>= λ _. k

-- An index or a slice bound that must hold for the run to go on.
abbrev pub bounds : Bool → Option (Unit {0})
bounds true = some tt
bounds false = none
