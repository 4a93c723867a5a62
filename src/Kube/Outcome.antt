-- ===== src/Kube/Outcome.antt =====
-- ctrl.Result with the error that a `Reconcile` returns beside it.
use stroom_k8s_operator.Base.{Bool, true, false, Option, none, some}
use stroom_k8s_operator.Base.Int.{ℤ, pos}
use stroom_k8s_operator.Base.State.{Err}

pub record Outcome : Type 0 where
  pub requeue : Bool
  -- RequeueAfter, in seconds.
  pub requeue_after : ℤ
  pub error : Option Err

-- `return ctrl.Result{}, nil`
abbrev pub done : Outcome
done = record { requeue = false; requeue_after = pos 0; error = none }

-- `return ctrl.Result{}, err`
abbrev pub failed : Err → Outcome
failed e = record { requeue = false; requeue_after = pos 0; error = some e }

-- `return ctrl.Result{Requeue: true}, nil`
abbrev pub requeued : Outcome
requeued = record { requeue = true; requeue_after = pos 0; error = none }

-- `return ctrl.Result{RequeueAfter: time.Second * n}, nil`
abbrev pub after_seconds : ℤ → Outcome
after_seconds n = record { requeue = false; requeue_after = n; error = none }
