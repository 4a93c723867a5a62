-- ===== src/Cluster/Finalizers.antt =====
-- internal/controller/stroomcluster_controller.go: `addFinalizer` and `removeFinalizer`. The object
-- is no nil pointer at any of their calls; they leave the object that the API server returned.
use stroom_k8s_operator.Base.{String, if◌then◌else◌}
use stroom_k8s_operator.Base.State.{Result, ok, err, M, pure, on}
use stroom_k8s_operator.Kube.Env.{Env, Kind, Object, Library, meta, with_meta, key_of}

module _ (E : Env) (L : Library) where
  open E use {World}

  unfoldable pub add_finalizer : (k : Kind) → Object k → String → M World (Result (Object k))
  add_finalizer k o finalizer_name =
      if L.contains_finalizer (meta k o) finalizer_name
      then pure (ok o)
      else E.update k (with_meta k o (L.add_finalizer (meta k o) finalizer_name))

  unfoldable pub remove_finalizer : (k : Kind) → Object k → String → M World (Result (Object k))
  remove_finalizer k o finalizer_name =
      on (E.get k (key_of k o)) (λ e. pure (err e))
        (λ found.
          if L.contains_finalizer (meta k found) finalizer_name
          then E.update k (with_meta k found (L.remove_finalizer (meta k found) finalizer_name))
          else pure (ok found))
