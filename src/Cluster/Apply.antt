-- ===== src/Cluster/Apply.antt =====
-- internal/controller/stroomcluster_controller.go: the calls of `CreateOrUpdate` in `Reconcile`.
use stroom_k8s_operator.Base.{String, Bool, true, false, List, [], ◌∷◌, if◌then◌else◌, string_eq}
use stroom_k8s_operator.Base.Int.{pos}
use stroom_k8s_operator.Base.State.{Err, not_found, Result, M, pure, ◌>>=◌, ◌>>◌, on}
use stroom_k8s_operator.Kube.Meta.{ObjectMeta, empty_meta}
use stroom_k8s_operator.Kube.Core.{StatefulSet, Service, ConfigMap, Ingress, empty_pod_spec}
use stroom_k8s_operator.Kube.Env.{Env, Kind, Object, OperationResult, created, updated, unchanged}
use stroom_k8s_operator.Kube.Outcome.{Outcome, done, failed, requeued}
use stroom_k8s_operator.Api.StroomCluster.{StroomCluster, NodeSet}
use stroom_k8s_operator.Cluster.Pvcs.{delete_pvcs}

-- The metadata that the functions given to `CreateOrUpdate` write over the existing object's.
abbrev pub adopt : ObjectMeta → ObjectMeta → ObjectMeta
adopt existing new = record existing {
  labels = new.labels;
  annotations = new.annotations;
  owner_references = new.owner_references;
}

-- `ObjectMeta{Name: …, Namespace: …}`
abbrev pub named : ObjectMeta → ObjectMeta
named m = record empty_meta { name = m.name; namespace = m.namespace }

abbrev pub reconcile_config_map : ConfigMap → ConfigMap → ConfigMap
reconcile_config_map new existing = record existing {
  meta = adopt existing.meta new.meta;
  items = new.items;
}

abbrev pub reconcile_stateful_set : StatefulSet → StatefulSet → StatefulSet
reconcile_stateful_set new existing = record existing {
  meta = adopt existing.meta new.meta;
  spec = new.spec;
}

abbrev pub reconcile_service : Service → Service → Service
reconcile_service new existing = record existing {
  meta = adopt existing.meta new.meta;
  spec = new.spec;
}

abbrev pub reconcile_ingress : Ingress → Ingress → Ingress
reconcile_ingress new existing = record existing {
  meta = adopt existing.meta new.meta;
  spec = new.spec;
}

-- The objects that the calls of `CreateOrUpdate` start from: a name, and no content.
abbrev pub bare_config_map : ConfigMap → ConfigMap
bare_config_map new = record { meta = named new.meta; items = [] }

abbrev pub bare_stateful_set : StatefulSet → StatefulSet
bare_stateful_set new = record {
  meta = named new.meta;
  spec = record {
    replicas = pos 0;
    pod_management_policy = "";
    service_name = "";
    match_labels = [];
    template = record { annotations = []; labels = []; spec = empty_pod_spec };
    volume_claim_templates = [];
  };
  status_replicas = pos 0;
}

abbrev pub bare_service : Service → Service
bare_service new = record {
  meta = named new.meta;
  spec = record { type = ""; cluster_ip = ""; selector = []; ports = [] };
}

abbrev pub bare_ingress : Ingress → Ingress
bare_ingress new = record {
  meta = named new.meta;
  spec = record { ingress_class_name = ""; tls = []; rules = [] };
}

abbrev pub is_updated : OperationResult → Bool
is_updated unchanged = false
is_updated created = false
is_updated updated = true

module _ (E : Env) where
  open E use {World}

  -- getOrCreateObject, with `make` and a call of Create for `onCreate`.
  abbrev pub creation : (k : Kind) → M World (Object k) → M World Outcome
  creation k make = make >>= λ o. on (E.create k o) (λ e. pure (failed e)) (λ _. pure requeued)

  abbrev pub missing : (k : Kind) → M World (Object k) → Err → M World Outcome
  missing k make not_found = creation k make
  missing k make e = pure (failed e)

  unfoldable pub get_or_create_object :
      (k : Kind) → String → String → M World (Object k) → M World Outcome
  get_or_create_object k name namespace make =
      on (E.get k (record { name = name; namespace = namespace })) (missing k make) (λ _. pure done)

  -- `err` of a step, which ends the function; else the next step.
  abbrev pub then_or_fail {ℓ} :
      {A : Type ℓ} → M World (Result A) → M World Outcome → M World Outcome
  then_or_fail first next = on first (λ e. pure (failed e)) (λ _. next)

  unfoldable pub apply_config_map : ConfigMap → M World Outcome → M World Outcome
  apply_config_map new next =
      then_or_fail
        (E.create_or_update Kind.config_map (bare_config_map new) (reconcile_config_map new)) next

  unfoldable pub apply_service : Service → M World Outcome → M World Outcome
  apply_service new next =
      then_or_fail (E.create_or_update Kind.service (bare_service new) (reconcile_service new)) next

  -- The StatefulSet, with the claims of the pods that an update removes.
  unfoldable pub apply_stateful_set :
      StroomCluster → NodeSet → StatefulSet → M World Outcome → M World Outcome
  unfolding delete_pvcs
  apply_stateful_set c n new next =
      on (E.create_or_update Kind.stateful_set (bare_stateful_set new) (reconcile_stateful_set new))
        (λ e. pure (failed e))
        (λ reconciled.
          (if is_updated reconciled.0
            then delete_pvcs E c n reconciled.1.status_replicas new.spec.replicas
            else pure tt)
          >> next)

  unfoldable pub apply_ingresses : List Ingress → M World Outcome
  apply_ingresses [] = pure done
  apply_ingresses (new ∷ rest) =
      then_or_fail (E.create_or_update Kind.ingress (bare_ingress new) (reconcile_ingress new))
        (apply_ingresses rest)
