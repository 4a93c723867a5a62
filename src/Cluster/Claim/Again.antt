-- ===== src/Cluster/Claim/Again.antt =====
-- internal/controller/stroomcluster_controller.go: `claimDatabaseServer` called a second time.
use stroom_k8s_operator.Base.{
  ◌≡◌, refl, ◌↔◌, true, false, ◌&&◌, Bool-cases, arith, ◌==◌, string_eq, inl, inr,
}
use stroom_k8s_operator.Base.State.{Result, ok}
use stroom_k8s_operator.Kube.Env.{Env, Kind}
use stroom_k8s_operator.Api.Common.{ResourceRef, is_zero}
use stroom_k8s_operator.Api.DatabaseServer.{DatabaseServer}
use stroom_k8s_operator.Api.StroomCluster.{StroomCluster}
use stroom_k8s_operator.Cluster.Claim.{claim_database_server}

abbrev pub IsOk {ℓ} : {A : Type ℓ} → Result A → Type ℓ
IsOk {A = A} r = (a : A) × (r ≡ ok a)

-- The `API` server stores what it is given, and returns it.
abbrev pub Stores : Env → Type 0
Stores E = (db : DatabaseServer) (w : E.World) → (E.update Kind.database_server db w).0 ≡ ok db

module _ (E : Env) (stores : Stores E) where
  -- A cluster claims a server that no cluster has claimed; the server then holds the reference
  -- that was passed. With a reference that is not empty, the same cluster's next claim of that
  -- server succeeds exactly if the reference has the cluster's own name and namespace. The API
  -- server stores what it is given.
  pub claim_database_server_again :
      (c : StroomCluster) (ref : ResourceRef) (db : DatabaseServer) (w v : E.World)
      → is_zero db.stroom_cluster_ref ≡ true
      → is_zero ref ≡ false
      → let db' = record db { stroom_cluster_ref = ref } in
        ((claim_database_server E c ref db w).0 ≡ ok db')
        × (IsOk (claim_database_server E c ref db' v).0
            ↔ ((ref.name ≡ c.name) × (ref.namespace ≡ c.namespace)))
  unfolding claim_database_server
  claim_database_server_again c ref db w v free named =
      rw (free, named)
        (
          stores _ w,
          elim (Bool-cases (ref.name == c.name && ref.namespace == c.namespace)) [
            | inl same ↦
                rw same (λ _. ground arith, λ _. (record db { stroom_cluster_ref = ref }, refl))
            | inr differ ↦ rw differ (λ r. cc, λ r. ground arith)
          ],
        )
