-- ===== src/Cluster/Reconcile/Refusal.antt =====
-- internal/controller/stroomcluster_controller.go: a cluster whose server another one has claimed.
use mathlib.Core.Path.{subst}
use stroom_k8s_operator.Base.{◌≡◌, refl, sym, ◌∙◌, false, ◌&&◌, ◌==◌, string_eq}
use stroom_k8s_operator.Base.State.{bad_request, ok, err, on_cases, on_ok, on_err}
use stroom_k8s_operator.Base.Keeps.{Keeps}
use stroom_k8s_operator.Kube.Meta.{NamespacedName}
use stroom_k8s_operator.Kube.Env.{Env, Kind, Library}
use stroom_k8s_operator.Kube.Outcome.{failed}
use stroom_k8s_operator.Api.Common.{is_zero, namespaced_name}
use stroom_k8s_operator.Api.DatabaseServer.{DatabaseServer}
use stroom_k8s_operator.Api.StroomCluster.{StroomCluster}
use stroom_k8s_operator.Database.{
  managed_connection, with_owner_namespace, get_database_connection_info,
}
use stroom_k8s_operator.Cluster.Claim.{claimed_message, claim_database_server}
use stroom_k8s_operator.Cluster.Files.{StaticFiles}
use stroom_k8s_operator.Cluster.Reconcile.{claim, reconcile_cluster, reconcile}

-- The key by which a cluster's server is looked up.
abbrev pub server_key : StroomCluster → NamespacedName
server_key c =
    namespaced_name (with_owner_namespace c.spec.database_server_ref.server_ref c.namespace)

-- A server that has been claimed, and not by this cluster.
pub record IsTaken (c : StroomCluster) (db : DatabaseServer) : Type 0 where
  pub claimed : is_zero db.stroom_cluster_ref ≡ false
  pub by_another :
      (db.stroom_cluster_ref.name == c.name && db.stroom_cluster_ref.namespace == c.namespace)
      ≡ false

module _ (E : Env) (L : Library) (c : StroomCluster) (db : DatabaseServer) (taken : IsTaken c db)
    (managed : is_zero c.spec.database_server_ref.server_ref ≡ false) where
  get_database_connection_info-managed :
      (w : E.World)
      → (E.get Kind.database_server (server_key c) w).0 ≡ ok db
      → get_database_connection_info E c.spec.database_server_ref c.namespace w ≡ (
        ok (managed_connection c.spec.database_server_ref db),
        (E.get Kind.database_server (server_key c) w).1,
      )
  unfolding get_database_connection_info
  get_database_connection_info-managed w found = rw (managed, found)

  claim-refused :
      (w : E.World)
      → claim E L c (managed_connection c.spec.database_server_ref db) w
        ≡ (err (bad_request (claimed_message c db)), w)
  unfolding claim claim_database_server managed_connection
  claim-refused w = rw (taken.claimed, taken.by_another)

  reconcile_cluster-refused :
      (files : StaticFiles) (w : E.World)
      → (E.get Kind.database_server (server_key c) w).0 ≡ ok db
      → reconcile_cluster E L files c w ≡ (
        failed (bad_request (claimed_message c db)),
        (E.get Kind.database_server (server_key c) w).1,
      )
  unfolding reconcile_cluster
  reconcile_cluster-refused files w found =
      on_ok (get_database_connection_info E c.spec.database_server_ref c.namespace) _ _ w _ _
        (get_database_connection_info-managed w found)
      ∙ on_err (claim E L c (managed_connection c.spec.database_server_ref db)) _ _ _ _ _
          (claim-refused _)

  -- `Reconcile` of a cluster that names a DatabaseServer which another cluster has claimed fails
  -- with an error that names both clusters, and only reads the two resources.
  pub reconcile-refused :
      (P : E.World → Type 0)
      → ((k : Kind) (n : NamespacedName) → Keeps P (E.get k n))
      → (files : StaticFiles) (request : NamespacedName) (w : E.World)
      → (E.get Kind.stroom_cluster request w).0 ≡ ok c
      → (E.get Kind.database_server (server_key c) (E.get Kind.stroom_cluster request w).1).0
        ≡ ok db
      → P w
      → ((reconcile E L files request w).0 ≡ failed (bad_request (claimed_message c db)))
        × P (reconcile E L files request w).1
  unfolding reconcile
  reconcile-refused P get files request w read found p =
      on_cases (λ r. (r.0 ≡ failed (bad_request (claimed_message c db))) × P r.1)
        (E.get Kind.stroom_cluster request) _ _ w (λ e broken. cc)
        (λ c' read'.
          let same : c' ≡ c = cc in
          subst
            (λ x.
              ((reconcile_cluster E L files x (E.get Kind.stroom_cluster request w).1).0
                ≡ failed (bad_request (claimed_message c db)))
              × P (reconcile_cluster E L files x (E.get Kind.stroom_cluster request w).1).1)
            (sym same)
            (rw (reconcile_cluster-refused files _ found)
              (refl, (get _ _).at _ ((get _ request).at w p))))
