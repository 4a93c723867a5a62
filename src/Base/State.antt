-- ===== src/Base/State.antt =====
-- Code that reads and changes a state: a function from the state before to a value and the state
-- after. Go's error values stay values, so that code may inspect them, drop them or return them.
use stroom_k8s_operator.Base.{String, ◌≡◌, refl, ◌⊎◌, inl, inr, Option, none, some}

-- `not_found` is what apimachinery's `errors.IsNotFound` recognises.
pub data Err : Type 0 where
  not_found : Err
  bad_request : String → Err
  failure : String → Err

pub data Result {ℓ} (A : Type ℓ) : Type ℓ where
  ok : A → Result A
  err : Err → Result A

abbrev pub error_of {ℓ} : {A : Type ℓ} → Result A → Option Err
error_of (ok a) = none
error_of (err e) = some e

abbrev pub M {ℓ κ} : Type ℓ → Type κ → Type (ℓ ⊔ κ)
M S A = S → A × S

abbrev pub pure {ℓ κ} : {S : Type ℓ} {A : Type κ} → A → M S A
pure a s = (a, s)

infixl 5 ◌>>=◌ ◌>>◌
abbrev pub ◌>>=◌ {ℓ κ μ} : {S : Type ℓ} {A : Type κ} {B : Type μ} → M S A → (A → M S B) → M S B
◌>>=◌ m f s = f (m s).0 (m s).1

abbrev pub ◌>>◌ {ℓ κ μ} : {S : Type ℓ} {A : Type κ} {B : Type μ} → M S A → M S B → M S B
m >> k = m >>= λ _. k

-- `if x, err := m; err != nil { failed(err) } else { next(x) }`
abbrev pub on {ℓ κ μ} :
    {S : Type ℓ} {A : Type κ} {B : Type μ} → M S (Result A) → (Err → M S B) → (A → M S B) → M S B
on m failed next = m >>= λ r. elim r [ ok a ↦ next a | err e ↦ failed e ]

-- To split on a computed result and keep the equation.
pub Result-cases {ℓ} :
    {A : Type ℓ} (r : Result A) → ((a : A) × (r ≡ ok a)) ⊎ ((e : Err) × (r ≡ err e))
Result-cases (ok a) = inl (a, refl)
Result-cases (err e) = inr (e, refl)

-- What holds of both ways on holds of the whole.
module _ {ℓ κ μ ν} {S : Type ℓ} {A : Type κ} {B : Type μ} (Q : B × S → Type ν) where
  elim_cases :
      (r : Result A) (failed : Err → M S B) (next : A → M S B) (s : S)
      → ((e : Err) → r ≡ err e → Q (failed e s))
      → ((a : A) → r ≡ ok a → Q (next a s))
      → Q ((elim r as (λ _. M S B) [ ok a ↦ next a | err e ↦ failed e ]) s)
  elim_cases (ok a) failed next s qf qn = qn a refl
  elim_cases (err e) failed next s qf qn = qf e refl

  pub on_cases :
      (m : M S (Result A)) (failed : Err → M S B) (next : A → M S B) (s : S)
      → ((e : Err) → (m s).0 ≡ err e → Q (failed e (m s).1))
      → ((a : A) → (m s).0 ≡ ok a → Q (next a (m s).1))
      → Q (on m failed next s)
  on_cases m failed next s qf qn = elim_cases (m s).0 failed next (m s).1 qf qn

-- Where the result is known.
module _ {ℓ κ μ} {S : Type ℓ} {A : Type κ} {B : Type μ} (m : M S (Result A)) (failed : Err → M S B)
    (next : A → M S B) (s t : S) where
  pub on_ok : (a : A) → m s ≡ (ok a, t) → on m failed next s ≡ next a t
  on_ok a h = rw h

  pub on_err : (e : Err) → m s ≡ (err e, t) → on m failed next s ≡ failed e t
  on_err e h = rw h
