-- ===== src/Cluster/Deletion.antt =====
-- internal/controller/stroomcluster_controller.go: `checkIfDeleted` and `cleanup`.
use stroom_k8s_operator.Base.{
  Bool, true, false, not, Option, none, some, List, [], ◌∷◌, ◌==◌, string_eq, if◌then◌else◌,
}
use stroom_k8s_operator.Base.State.{Err, Result, ok, err, M, pure, ◌>>=◌, ◌>>◌, on}
use stroom_k8s_operator.Kube.Env.{Env, Kind, Object, Library}
use stroom_k8s_operator.Kube.Core.{StatefulSet}
use stroom_k8s_operator.Api.Common.{stroom_cluster_finalizer_name, wait_node_tasks_finalizer_name}
use stroom_k8s_operator.Api.DatabaseServer.{DatabaseServer}
use stroom_k8s_operator.Api.StroomCluster.{
  StroomCluster, is_being_deleted, get_labels, delete_on_scaledown_and_cluster_deletion_policy,
}
use stroom_k8s_operator.Database.{DatabaseConnectionInfo}
use stroom_k8s_operator.Cluster.Finalizers.{add_finalizer, remove_finalizer}
use stroom_k8s_operator.Cluster.Tasks.{disable_task_processing, count_remaining_tasks}

-- What `checkIfDeleted` leaves in its arguments, and its error.
pub record Checked : Type 0 where
  pub cluster : StroomCluster
  pub info : DatabaseConnectionInfo
  pub requeue : Bool
  pub cluster_deleted : Bool
  pub error : Option Err

abbrev pub checked : StroomCluster → DatabaseConnectionInfo → Bool → Bool → Option Err → Checked
checked c info requeue deleted error = record {
  cluster = c;
  info = info;
  requeue = requeue;
  cluster_deleted = deleted;
  error = error;
}

abbrev pub is_empty {ℓ} : {A : Type ℓ} → List A → Bool
is_empty [] = true
is_empty (a ∷ rest) = false

-- `err != nil || len(nodes.Items) == 0`
abbrev pub has_no_nodes : Result (List StatefulSet) → Bool
has_no_nodes (ok nodes) = is_empty nodes
has_no_nodes (err e) = true

module _ (E : Env) where
  open E use {World}

  -- The loops of `cleanup`, which go on after an error.
  unfoldable pub delete_all : (k : Kind) → List (Object k) → M World (Unit {0})
  delete_all k [] = pure tt
  delete_all k (o ∷ os) = E.delete k o >>= λ _. delete_all k os

  abbrev delete_listed : (k : Kind) → StroomCluster → M World (Unit {0})
  delete_listed k c =
      on (E.list k c.namespace (get_labels c)) (λ e. pure tt) (λ found. delete_all k found)

  unfoldable pub cleanup : StroomCluster → M World (Unit {0})
  unfolding delete_all
  cleanup c =
      delete_listed Kind.ingress c
      >> (if c.spec.volume_claim_delete_policy == delete_on_scaledown_and_cluster_deletion_policy
          then delete_listed Kind.persistent_volume_claim c
          else pure tt)

module _ (E : Env) (L : Library) where
  open E use {World}

  -- A finalizer added to, or removed from, the linked DatabaseServer.
  abbrev at_server :
      (DatabaseServer → M World (Result DatabaseServer))
      → DatabaseConnectionInfo
      → M World (Result DatabaseConnectionInfo)
  at_server change info = elim info.database_server [
    | none ↦ pure (ok info)
    | some db ↦
        on (change db) (λ e. pure (err e))
          (λ db'. pure (ok (record info { database_server = some db' })))
  ]

  unfoldable pub guard_server : DatabaseConnectionInfo → M World (Result DatabaseConnectionInfo)
  unfolding add_finalizer
  guard_server info =
      at_server (λ db. add_finalizer E L Kind.database_server db stroom_cluster_finalizer_name) info

  unfoldable pub release_server : DatabaseConnectionInfo → M World (Result DatabaseConnectionInfo)
  unfolding remove_finalizer
  release_server info =
      at_server (λ db. remove_finalizer E L Kind.database_server db stroom_cluster_finalizer_name)
        info

  -- The branch of a cluster that is not being deleted.
  unfoldable pub guard_deletion : StroomCluster → DatabaseConnectionInfo → M World Checked
  unfolding guard_server add_finalizer
  guard_deletion c info =
      on (guard_server info) (λ e. pure (checked c info false false (some e)))
        (λ info'.
          on (add_finalizer E L Kind.stroom_cluster c wait_node_tasks_finalizer_name)
            (λ e. pure (checked c info' false false (some e)))
            (λ c'. pure (checked c' info' false false none)))

  -- From the DatabaseServer's finalizer on.
  unfoldable pub finish_deletion : StroomCluster → DatabaseConnectionInfo → M World Checked
  unfolding release_server cleanup
  finish_deletion c info =
      on (release_server info) (λ e. pure (checked c info false true (some e)))
        (λ info'. cleanup E c >>= λ _. pure (checked c info' false true none))

  -- The cluster's own finalizer is removed, and the deletion finished.
  unfoldable pub allow_deletion : StroomCluster → DatabaseConnectionInfo → M World Checked
  unfolding finish_deletion remove_finalizer
  allow_deletion c info =
      on (remove_finalizer E L Kind.stroom_cluster c wait_node_tasks_finalizer_name)
        (λ e. pure (checked c info false true (some e))) (λ c'. finish_deletion c' info)

  -- The graceful shutdown of a cluster with nodes.
  unfoldable pub drain : StroomCluster → DatabaseConnectionInfo → M World Checked
  unfolding allow_deletion disable_task_processing count_remaining_tasks
  drain c info =
      on (disable_task_processing E c info) (λ e. pure (checked c info false true (some e)))
        (λ _.
          on (count_remaining_tasks E c info) (λ e. pure (checked c info true true (some e)))
            (λ remaining_tasks.
              if is_empty remaining_tasks
              then allow_deletion c info
              else pure (checked c info true true none)))

  unfoldable pub check_if_deleted : StroomCluster → DatabaseConnectionInfo → M World Checked
  unfolding guard_deletion allow_deletion drain
  check_if_deleted c info =
      if not (is_being_deleted c)
      then guard_deletion c info
      else (E.list Kind.stateful_set c.namespace (get_labels c) >>= λ nodes.
          if has_no_nodes nodes then allow_deletion c info else drain c info)
