-- ===== src/Im/Node/Cut.antt =====
-- Where a loop over the keys stops in two lists of pairs, one behind the other.
use wisdb.Im.Node.Bytes.{Pair}
use wisdb.Im.Node.Search.{before, after}
use wisdb.Base.{ℕ, List, Bool, ◌≡◌, [], ◌∷◌, ◌++◌, Bool-cases, inl, inr, ap, refl}

module _ (stop : ℕ → Bool) where
  pub cut_none :
      (es fs : List Pair)
      → after stop es ≡ []
      → (after stop (es ++ fs) ≡ after stop fs) × (before stop (es ++ fs) ≡ es ++ before stop fs)
  cut_none [] fs h = (refl, refl)
  cut_none ((son, key) ∷ es) fs h = elim (Bool-cases (stop key)) [
    | inl k ↦ absurd (cc (rw k at h))
    | inr k ↦
        let (behind, front) = cut_none es fs (rw k at h) in
        (rw k behind, rw k (ap (λ l. (son, key) ∷ l) front))
  ]

  pub cut_some :
      (es fs : List Pair) (p : Pair) (post : List Pair)
      → after stop es ≡ p ∷ post
      → (after stop (es ++ fs) ≡ p ∷ (post ++ fs)) × (before stop (es ++ fs) ≡ before stop es)
  cut_some [] fs p post h = absurd (cc h)
  cut_some ((son, key) ∷ es) fs p post h = elim (Bool-cases (stop key)) [
    | inl k ↦ (rw k (ap (λ l. l ++ fs) (rw k at h)), rw k refl)
    | inr k ↦
        let (behind, front) = cut_some es fs p post (rw k at h) in
        (rw k behind, rw k (ap (λ l. (son, key) ∷ l) front))
  ]
