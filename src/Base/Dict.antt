-- ===== src/Base/Dict.antt =====
-- Go's `map` as an association list. Proofs elsewhere go by the laws; tests unfold the operations.
use mathlib.Core.Option
use stroom_k8s_operator.Base.{
  ◌≢◌, ==_self, ==_ne, ◌≡◌, refl, inl, inr, Option, none, some, List, [], ◌∷◌, arith, Eq, ◌==◌,
  if◌then◌else◌, Bool-cases,
}

abbrev pub Dict {ℓ κ} : Type ℓ → Type κ → Type (ℓ ⊔ κ)
Dict K V = List (K × V)

module _ {ℓ κ} {K : Type ℓ} {V : Type κ} ⦃e : Eq K⦄ where
  -- `v, exists := d[k]`
  unfoldable pub lookup : K → Dict K V → Option V
  lookup k [] = none
  lookup k ((j, v) ∷ d) = if k == j then some v else lookup k d

  -- `d[k] = v`
  unfoldable pub insert : K → V → Dict K V → Dict K V
  insert k v [] = (k, v) ∷ []
  insert k v ((j, w) ∷ d) = if k == j then (k, v) ∷ d else (j, w) ∷ insert k v d

  -- `delete(d, k)`
  unfoldable pub erase : K → Dict K V → Dict K V
  erase k [] = []
  erase k ((j, w) ∷ d) = let rest = erase k d in if k == j then rest else (j, w) ∷ rest

  -- `for k, v := range from { d[k] = v }`
  unfoldable pub insert_all : Dict K V → Dict K V → Dict K V
  unfolding insert
  insert_all [] d = d
  insert_all ((k, v) ∷ rest) d = insert_all rest (insert k v d)

  pub lookup-insert :
      (j k : K) (v : V) (d : Dict K V)
      → lookup j (insert k v d) ≡ (if j == k then some v else lookup j d)
  unfolding insert lookup
  lookup-insert j k v [] = ground arith
  lookup-insert j k v (_ ∷ d) = ground (arith, lookup-insert j k v d)

  pub lookup-insert_self : (k : K) (v : V) (d : Dict K V) → lookup k (insert k v d) ≡ some v
  lookup-insert_self k v d = rw (lookup-insert, ==_self k)

  pub lookup-insert_ne :
      (j k : K) (v : V) (d : Dict K V) → j ≢ k → lookup j (insert k v d) ≡ lookup j d
  lookup-insert_ne j k v d differ = rw (lookup-insert, ==_ne j k differ)

  pub lookup-erase :
      (j k : K) (d : Dict K V) → lookup j (erase k d) ≡ (if j == k then none else lookup j d)
  unfolding erase lookup
  lookup-erase j k [] = ground arith
  lookup-erase j k (_ ∷ d) = ground (arith, lookup-erase j k d)

module _ {ℓ κ μ} {K : Type ℓ} {V : Type κ} {W : Type μ} where
  -- `for k, v := range d { d[k] = f(v) }`
  unfoldable pub map_values : (V → W) → Dict K V → Dict K W
  map_values f [] = []
  map_values f ((k, v) ∷ d) = (k, f v) ∷ map_values f d

  pub lookup-map_values :
      ⦃e : Eq K⦄
      → (k : K) (f : V → W) (d : Dict K V) → lookup k (map_values f d) ≡ Option.map f (lookup k d)
  unfolding lookup map_values
  lookup-map_values k f [] = refl
  lookup-map_values k f ((j, v) ∷ d) = elim (Bool-cases (k == j)) [
    | inl same ↦ rw same
    | inr other ↦ rw other (lookup-map_values k f d)
  ]
