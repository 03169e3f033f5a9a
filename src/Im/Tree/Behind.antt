-- ===== src/Im/Tree/Behind.antt =====
-- What stands behind a node of a level: nothing, or the chain from its sibling on.
use mathlib.Core.Path.{subst}
use wisdb.Im.Store.{Store, found}
use wisdb.Im.Node.Bytes.{Pair, IsNode}
use wisdb.Im.Tree.Chain.{Chain, At, last, next, chain_kept}
use wisdb.Base.{ℕ, List, All, Bool, ◌≡◌, [], ◌∷◌, ◌≢◌, ◌⊎◌, inl, sym, inr}

module _ {A : Type 0} {P Q R : A → Type 0} where
  pub All-zip : (xs : List A) → ((x : A) → P x → Q x → R x) → All P xs → All Q xs → All R xs
  All-zip [] f p q = tt
  All-zip (x ∷ xs) f (p, ps) (q, qs) = (f x p q, All-zip xs f ps qs)

module _ {S : Type 0} (dm : Store S) where
  -- The node at `self` has the sibling, and the chain behind it does not come back to it.
  abbrev pub Behind : S → Bool → ℕ → ℕ → List At → Type 0
  Behind st l self sibling rest =
      ((sibling ≡ 0) × (rest ≡ []))
      ⊎ ((sibling ≢ 0) × All (λ (n : At). n.0 ≢ self) rest × Chain dm st l sibling rest)

  pub attach :
      (st : S) (l : Bool) (self sibling : ℕ) (raw : List ℕ) (es : List Pair) (rest : List At)
      → Store.read dm self st ≡ found raw
      → IsNode raw l sibling es
      → Behind st l self sibling rest
      → Chain dm st l self ((self, es) ∷ rest)
  attach st l self sibling raw es rest e node (inl (none_there, nil)) =
      subst (λ r. Chain dm st l self ((self, es) ∷ r)) (sym nil)
        (last e (subst (λ s. IsNode raw l s es) none_there node))
  attach st l self sibling raw es rest e node (inr (other, apart, more)) =
      next e node other apart more

  pub Behind-kept :
      (Is : ℕ → Type 0) (st st' : S) (l : Bool) (self sibling : ℕ) (rest : List At)
      → All (λ (n : At). Is n.0) rest
      → ((v : ℕ) → Is v → v ≢ self → Store.read dm v st' ≡ Store.read dm v st)
      → Behind st l self sibling rest
      → Behind st' l self sibling rest
  Behind-kept Is st st' l self sibling rest known kept (inl end) = inl end
  Behind-kept Is st st' l self sibling rest known kept (inr (other, apart, more)) = inr (
    other,
    apart,
    chain_kept dm st st' l sibling rest more
        (All-zip rest (λ n here far. kept n.0 here far) known apart),
  )

  pub Behind-apart :
      (st : S) (l : Bool) (self sibling : ℕ) (rest : List At)
      → Behind st l self sibling rest
      → All (λ (n : At). n.0 ≢ self) rest
  Behind-apart st l self sibling rest (inl (end, nil)) =
      subst (All (λ (n : At). n.0 ≢ self)) (sym nil) tt
  Behind-apart st l self sibling rest (inr (other, apart, more)) = apart

  -- The same stands behind a node at another address.
  pub Behind-moved :
      (st : S) (l : Bool) (self son sibling : ℕ) (rest : List At)
      → All (λ (n : At). n.0 ≢ son) rest
      → Behind st l self sibling rest
      → Behind st l son sibling rest
  Behind-moved st l self son sibling rest far (inl end) = inl end
  Behind-moved st l self son sibling rest far (inr (other, apart, more)) = inr (other, far, more)
