-- ===== src/Base/Lists.antt =====
-- Lists measured by native numbers, and predicates on their elements.
use Prim.Native.Nat.{ℕ, suc, ◌+◌}
use mathlib.Core.Path.{◌≡◌}
use mathlib.Core.Logic.{◌⊎◌, inl, inr}
use mathlib.Core.List.{List, [], ◌∷◌, ◌++◌}
use native.Mathlib.Omega.{arith}

module _ {ℓ} {A : Type ℓ} where
  abbrev pub length : List A → ℕ
  length [] = 0
  length (x ∷ xs) = suc (length xs)

  pub length-append : (xs ys : List A) → length (xs ++ ys) ≡ length xs + length ys
  length-append [] ys = omega arith
  length-append (x ∷ xs) ys = omega (arith, length-append xs ys)

module _ {ℓ κ} {A : Type ℓ} (P : A → Type κ) where
  -- `P` holds of every element.
  abbrev pub All : List A → Type κ
  All [] = Unit
  All (x ∷ xs) = P x × All xs

  pub All-append : (xs ys : List A) → All xs → All ys → All (xs ++ ys)
  All-append [] ys hx hy = hy
  All-append (x ∷ xs) ys hx hy = (hx.0, All-append xs ys hx.1 hy)

module _ {ℓ} {A : Type ℓ} (P : A → Type 0) where
  -- `P` holds of an element, which is kept.
  abbrev pub Any : List A → Type 0
  Any [] = ⊥
  Any (x ∷ xs) = P x ⊎ Any xs

module _ {ℓ κ μ} {A : Type ℓ} (P : A → Type κ) (Q : A → Type μ) (f : (a : A) → P a → Q a) where
  pub All-map : (xs : List A) → All P xs → All Q xs
  All-map [] h = tt
  All-map (x ∷ xs) h = (f x h.0, All-map xs h.1)

module _ {ℓ} {A : Type ℓ} (P Q : A → Type 0) (f : (a : A) → P a → Q a) where
  pub Any-map : (xs : List A) → Any P xs → Any Q xs
  Any-map [] h = absurd h
  Any-map (x ∷ xs) (inl h) = inl (f x h)
  Any-map (x ∷ xs) (inr h) = inr (Any-map xs h)

module _ {ℓ} {A : Type ℓ} (R : A → A → Type 0) (reflexive : (a : A) → R a a) where
  -- Every element is related to one of the list.
  pub All-Any : (xs : List A) → All (λ x. Any (R x) xs) xs
  All-Any [] = tt
  All-Any (x ∷ xs) = (
    inl (reflexive x),
    All-map (λ y. Any (R y) xs) (λ y. Any (R y) (x ∷ xs)) (λ y h. inr h) xs (All-Any xs),
  )
