-- ===== src/Im/Store.antt =====
-- What the tree uses of the data manager: items that are read, inserted and overwritten. `missing`
-- is an item that is not valid; a `failed` result is an error of the data manager, and `none` is a
-- panic or a loop that takes more rounds than its fuel.
use wisdb.Base.{Option, some, none, List, ℕ, ◌≡◌, refl}

pub data Result {ℓ} (A : Type ℓ) : Type ℓ where
  ok : A → Result A
  failed : Result A

pub data Reading : Type 0 where
  found : List ℕ → Reading
  missing no_page : Reading

module _ (S : Type 0) where
  abbrev pub Step : Type 0 → Type 0
  Step A = S → Option (Result A × S)

  -- `write` is Before, the change of the item's bytes, and After of the super transaction.
  pub record Store : Type 0 where
    pub read : ℕ → S → Reading
    pub insert : List ℕ → Step ℕ
    pub write : ℕ → List ℕ → S → S

module _ {S : Type 0} {A : Type 0} where
  abbrev pub pure : A → Step S A
  pure a st = some (ok a, st)

  abbrev pub fail : Step S A
  fail st = some (failed, st)

  -- A call whose only failure is a panic.
  abbrev pub lift : Option A → Step S A
  lift none st = none
  lift (some a) st = some (ok a, st)

abbrev pub continue :
    {S A B : Type 0} → (A → Step S B) → Option (Result A × S) → Option (Result B × S)
continue f none = none
continue f (some (ok a, st)) = f a st
continue f (some (failed, st)) = some (failed, st)

infixl 5 ◌>>=◌ ◌>>◌
abbrev pub ◌>>=◌ : {S A B : Type 0} → Step S A → (A → Step S B) → Step S B
◌>>=◌ m f st = continue f (m st)

abbrev pub ◌>>◌ : {S B : Type 0} → Step S (Unit {0}) → Step S B → Step S B
m >> k = m >>= λ _. k

-- A write is done, and nothing comes of it.
abbrev pub written : {S : Type 0} → Store S → ℕ → List ℕ → Step S (Unit {0})
written dm uuid raw st = some (ok tt, Store.write dm uuid raw st)

-- A chain of calls that returned did return at each link.
pub returned :
    {S A B : Type 0} (f : A → Step S B) (r : Option (Result A × S)) (b : B) (st' : S)
    → continue f r ≡ some (ok b, st')
    → (a : A) × (st : S) × (r ≡ some (ok a, st)) × (f a st ≡ some (ok b, st'))
returned f none b st' h = absurd (cc h)
returned f (some (ok a, st)) b st' h = (a, st, refl, h)
returned f (some (failed, st)) b st' h = absurd (cc h)
