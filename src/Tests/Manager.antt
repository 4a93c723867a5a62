-- ===== src/Tests/Manager.antt =====
-- The theorem on cmd/main.go, at a manager that remembers what it was told.
use stroom_k8s_operator.Base.{
  ◌≡◌, refl, Bool, true, false, List, [], ◌∷◌, All, Any, All-map, inl, inr,
}
use stroom_k8s_operator.Base.State.{ok}
use stroom_k8s_operator.Manager.Runtime.{Runtime}
use stroom_k8s_operator.Manager.Main.{default_flags, program}
use stroom_k8s_operator.Manager.Started.{
  Entry, types, controller, healthz, readyz, required, IsKept, Registers, program-kept,
}

record Told : Type 0 where
  entries : List Entry
  started : Bool

abbrev tell : Entry → Told → Told
tell e w = record w { entries = e ∷ w.entries }

abbrev runtime : Runtime
runtime = record {
  World = Told;
  Mgr = Unit {0};
  add_to_scheme = λ g w. (ok tt, tell (types g) w);
  new_manager = λ o w. (ok tt, w);
  complete = λ m b r w. (ok tt, tell (controller b) w);
  add_healthz_check = λ m n w. (ok tt, tell (healthz n) w);
  add_readyz_check = λ m n w. (ok tt, tell (readyz n) w);
  start = λ m w. (ok tt, record w { started = true });
}

abbrev Has : Entry → Told → Type 0
Has e w = Any (λ x. x ≡ e) w.entries

-- It was started only after all that is required.
abbrev IsComplete : Told → Type 0
IsComplete w = w.started ≡ true → All (λ e. Has e w) required

tell-IsComplete : (e : Entry) (w : Told) → IsComplete w → IsComplete (tell e w)
tell-IsComplete e w h started =
    All-map (λ x. Has x w) (λ x. Has x (tell e w)) (λ x there. inr there) required (h started)

Has-IsKept : (e : Entry) → IsKept runtime (Has e)
Has-IsKept e = record {
  add_to_scheme = λ g. record { at = λ w h. inr h };
  new_manager = λ o. record { at = λ w h. h };
  complete = λ m b r. record { at = λ w h. inr h };
  add_healthz_check = λ m n. record { at = λ w h. inr h };
  add_readyz_check = λ m n. record { at = λ w h. inr h };
}

IsComplete-IsKept : IsKept runtime IsComplete
IsComplete-IsKept = record {
  add_to_scheme = λ g. record { at = tell-IsComplete (types g) };
  new_manager = λ o. record { at = λ w h. h };
  complete = λ m b r. record { at = tell-IsComplete (controller b) };
  add_healthz_check = λ m n. record { at = tell-IsComplete (healthz n) };
  add_readyz_check = λ m n. record { at = tell-IsComplete (readyz n) };
}

runtime-Registers : Registers runtime Has IsComplete
runtime-Registers = record {
  types_registered = λ g w u done. inl refl;
  controller_registered = λ m b r w u done. inl refl;
  healthz_registered = λ m n w u done. inl refl;
  readyz_registered = λ m n w u done. inl refl;
  has_kept = Has-IsKept;
  kept = IsComplete-IsKept;
  start = λ m w all h started. all;
}

abbrev untold : Told
untold = record { entries = []; started = false }

program-kept_example : IsComplete (program runtime default_flags untold).1
program-kept_example =
    program-kept runtime Has IsComplete runtime-Registers default_flags untold (λ e. absurd (cc))
