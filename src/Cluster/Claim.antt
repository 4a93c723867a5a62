-- ===== src/Cluster/Claim.antt =====
-- internal/controller/stroomcluster_controller.go: `claimDatabaseServer`.
pub mod Again
use stroom_k8s_operator.Base.{String, ◌<>◌, ◌&&◌, ◌==◌, string_eq, if◌then◌else◌}
use stroom_k8s_operator.Base.State.{bad_request, Result, ok, err, M, pure}
use stroom_k8s_operator.Kube.Env.{Env, Kind}
use stroom_k8s_operator.Api.Common.{ResourceRef, is_zero}
use stroom_k8s_operator.Api.DatabaseServer.{DatabaseServer}
use stroom_k8s_operator.Api.StroomCluster.{StroomCluster}

abbrev pub claimed_message : StroomCluster → DatabaseServer → String
claimed_message c db =
    "DatabaseServer '" <> db.namespace <> "/" <> db.name <> "' already claimed by StroomCluster '"
    <> db.stroom_cluster_ref.namespace <> "/" <> db.stroom_cluster_ref.name
    <> "'. Cannot be claimed by StroomCluster '" <> c.namespace <> "/" <> c.name <> "'"

-- The server after it, which an update replaces by what the API server returns.
unfoldable pub claim_database_server :
    (E : Env) → StroomCluster → ResourceRef → DatabaseServer → M E.World (Result DatabaseServer)
claim_database_server E c db_ref db =
    if is_zero db.stroom_cluster_ref
    then E.update Kind.database_server (record db { stroom_cluster_ref = db_ref })
    else if db.stroom_cluster_ref.name == c.name && db.stroom_cluster_ref.namespace == c.namespace
    then pure (ok db)
    else pure (err (bad_request (claimed_message c db)))
