-- ===== src/Base/Keeps.antt =====
-- Properties of the state that an action keeps, one rule for each way to build an action.
use stroom_k8s_operator.Base.{Bool, true, false, if◌then◌else◌}
use stroom_k8s_operator.Base.State.{Err, Result, ok, err, M, pure, ◌>>=◌, ◌>>◌, on}

module _ {ℓ κ μ} {S : Type ℓ} {A : Type κ} (P : S → Type μ) where
  -- If `P` holds before `m`, then `P` holds after it.
  pub record Keeps (m : M S A) : Type (ℓ ⊔ μ) where
    pub at : (s : S) → P s → P (m s).1

module _ {ℓ κ μ} {S : Type ℓ} {A : Type κ} {P : S → Type μ} where
  pub Keeps-pure : (a : A) → Keeps P (pure a)
  Keeps-pure a = record { at = λ s h. h }

  pub Keeps-if : (b : Bool) (m n : M S A) → Keeps P m → Keeps P n → Keeps P (if b then m else n)
  Keeps-if true m n km kn = km
  Keeps-if false m n km kn = kn

module _ {ℓ κ λ' μ} {S : Type ℓ} {A : Type κ} {B : Type λ'} {P : S → Type μ} where
  pub Keeps-bind :
      (m : M S A) (f : A → M S B) → Keeps P m → ((a : A) → Keeps P (f a)) → Keeps P (m >>= f)
  Keeps-bind m f km kf = record { at = λ s h. (kf (m s).0).at (m s).1 (km.at s h) }

  pub Keeps-then : (m : M S A) (k : M S B) → Keeps P m → Keeps P k → Keeps P (m >> k)
  Keeps-then m k km kk = record { at = λ s h. kk.at (m s).1 (km.at s h) }

  on_result :
      (r : Result A) (failed : Err → M S B) (next : A → M S B) (s : S)
      → ((e : Err) → Keeps P (failed e))
      → ((a : A) → Keeps P (next a))
      → P s
      → P ((elim r as (λ _. M S B) [ ok a ↦ next a | err e ↦ failed e ]) s).1
  on_result (ok a) failed next s kf kn h = (kn a).at s h
  on_result (err e) failed next s kf kn h = (kf e).at s h

  pub Keeps-on :
      (m : M S (Result A)) (failed : Err → M S B) (next : A → M S B)
      → Keeps P m
      → ((e : Err) → Keeps P (failed e))
      → ((a : A) → Keeps P (next a))
      → Keeps P (on m failed next)
  Keeps-on m failed next km kf kn = record {
    at = λ s h. on_result (m s).0 failed next (m s).1 kf kn (km.at s h);
  }

pub ruleset keeps_rules = (Keeps-pure, Keeps-if, Keeps-bind, Keeps-then, Keeps-on)
