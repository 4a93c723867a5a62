-- ===== src/Cluster/Reconcile.antt =====
-- internal/controller/stroomcluster_controller.go: `Reconcile`.
pub mod Deleting
pub mod Draining
pub mod Refusal
pub mod Guards
pub mod Unopened
use stroom_k8s_operator.Base.{
  String, Bool, true, false, not, Option, none, some, List, [], ◌∷◌, if◌then◌else◌, string_eq,
}
use stroom_k8s_operator.Base.Int.{pos}
use stroom_k8s_operator.Base.Dict.{Dict, insert}
use stroom_k8s_operator.Base.State.{Err, not_found, Result, ok, err, M, pure, ◌>>=◌, ◌>>◌, on}
use stroom_k8s_operator.Kube.Meta.{ObjectMeta, NamespacedName, empty_meta}
use stroom_k8s_operator.Kube.Core.{StatefulSet, Service, ConfigMap, Ingress, empty_pod_spec}
use stroom_k8s_operator.Kube.Env.{Env, Kind, Library, OperationResult, created, updated, unchanged}
use stroom_k8s_operator.Kube.Outcome.{Outcome, done, failed, after_seconds}
use stroom_k8s_operator.Api.StroomCluster.{
  StroomCluster, NodeSet, get_base_name, get_node_set_headless_service_name,
  get_node_set_service_name, log_sender_is_zero,
}
use stroom_k8s_operator.Database.{
  DatabaseConnectionInfo, get_database_connection_info, with_owner_namespace,
}
use stroom_k8s_operator.DatabaseServer.Reconcile.{proceeds}
use stroom_k8s_operator.Cluster.Config.{
  create_service_account, create_config_map, create_log_sender_config_map,
}
use stroom_k8s_operator.Cluster.StatefulSet.{create_stateful_set}
use stroom_k8s_operator.Cluster.Services.{create_service}
use stroom_k8s_operator.Cluster.Ingresses.{create_ingresses}
use stroom_k8s_operator.Cluster.Claim.{claim_database_server}
use stroom_k8s_operator.Cluster.Deletion.{Checked, check_if_deleted}
use stroom_k8s_operator.Cluster.Pvcs.{delete_pvcs}
use stroom_k8s_operator.Cluster.Files.{StaticFiles, all_static_files}
use stroom_k8s_operator.Cluster.Apply.{
  get_or_create_object, apply_config_map, apply_service, apply_stateful_set, apply_ingresses,
}

abbrev pub get_failure : Err → Outcome
get_failure not_found = done
get_failure e = failed e

-- An error of the search for the database server.
abbrev pub connection_failure : Err → Outcome
connection_failure e = record { requeue = false; requeue_after = pos 10; error = some e }

-- What `Reconcile` returns after `checkIfDeleted`, unless it goes on.
abbrev pub stops : Checked → Option Outcome
stops r = elim r.error [
  | some e ↦ some (failed e)
  | none ↦
      if r.requeue
      then some (after_seconds (pos 60))
      else if r.cluster_deleted
      then some done
      else none
]

module _ (E : Env) (L : Library) where
  open E use {World}

  unfoldable pub apply_node_sets :
      StroomCluster → DatabaseConnectionInfo → List NodeSet → M World Outcome → M World Outcome
  unfolding apply_stateful_set apply_service create_stateful_set create_service
  apply_node_sets c info [] next = next
  apply_node_sets c info (n ∷ ns) next = apply_stateful_set E c n (create_stateful_set L c n info) (
      apply_service E (create_service L c n (get_node_set_headless_service_name c n) "None") (
        apply_service E (create_service L c n (get_node_set_service_name c n) "")
          (apply_node_sets c info ns next)))

  -- From the log sender's ConfigMap on.
  unfoldable pub apply_rest : StroomCluster → DatabaseConnectionInfo → M World Outcome
  unfolding apply_node_sets apply_ingresses apply_config_map create_ingresses
      create_log_sender_config_map log_sender_is_zero
  apply_rest c info =
      let others =
        apply_node_sets c info c.spec.node_sets (apply_ingresses E (create_ingresses c)) in
      if not (log_sender_is_zero c.spec.log_sender)
      then apply_config_map E (create_log_sender_config_map L c) others
      else others

  abbrev pub apply_static_content :
      StroomCluster → DatabaseConnectionInfo → Result (Dict String String) → M World Outcome
  apply_static_content c info (err e) = pure (failed e)
  apply_static_content c info (ok contents) =
      apply_config_map E (create_config_map L c contents) (apply_rest c info)

  -- The child objects.
  unfoldable pub create_children :
      StaticFiles → StroomCluster → DatabaseConnectionInfo → M World Outcome
  unfolding get_or_create_object create_service_account all_static_files apply_config_map apply_rest
  create_children files c info =
      get_or_create_object E Kind.service_account (get_base_name c) c.namespace
        (pure (create_service_account L c))
      >>= λ r. if proceeds r then apply_static_content c info (all_static_files files) else pure r

  abbrev pub go_on : Option Outcome → M World Outcome → M World Outcome
  go_on (some r) m = pure r
  go_on none m = m

  unfoldable pub check_and_create :
      StaticFiles → StroomCluster → DatabaseConnectionInfo → M World Outcome
  unfolding check_if_deleted create_children
  check_and_create files c info =
      check_if_deleted E L c info >>= λ r. go_on (stops r) (create_children files r.cluster r.info)

  -- `claimDatabaseServer` where the cluster names a DatabaseServer.
  unfoldable pub claim :
      StroomCluster → DatabaseConnectionInfo → M World (Result DatabaseConnectionInfo)
  unfolding claim_database_server with_owner_namespace
  claim c info = elim info.database_server [
    | none ↦ pure (ok info)
    | some db ↦
        on
          (claim_database_server E c
            (with_owner_namespace c.spec.database_server_ref.server_ref c.namespace) db)
          (λ e. pure (err e)) (λ db'. pure (ok (record info { database_server = some db' })))
  ]

  -- `Reconcile` from the connection to the database on.
  unfoldable pub reconcile_cluster : StaticFiles → StroomCluster → M World Outcome
  reconcile_cluster files c =
      on (get_database_connection_info E c.spec.database_server_ref c.namespace)
        (λ e. pure (connection_failure e))
        (λ info. on (claim c info) (λ e. pure (failed e)) (λ info'. check_and_create files c info'))

  unfoldable pub reconcile : StaticFiles → NamespacedName → M World Outcome
  unfolding reconcile_cluster
  reconcile files request =
      on (E.get Kind.stroom_cluster request) (λ e. pure (get_failure e)) (reconcile_cluster files)
