-- ===== src/Cluster/Pvcs.antt =====
-- internal/controller/stroomcluster_controller.go: `deletePvcs`.
pub mod Names
use stroom_k8s_operator.Base.{
  ℕ, zero, suc, String, ◌<>◌, Bool, ◌&&◌, ◌||◌, List, [], ◌∷◌, ◌==◌, string_eq, if◌then◌else◌,
}
use stroom_k8s_operator.Base.Int.{ℤ, pos, pos_part, ◌+ℤ◌, ◌-ℤ◌, int32, ltb_ℤ, leb_ℤ}
use stroom_k8s_operator.Base.Text.{itoa}
use stroom_k8s_operator.Base.State.{M, pure, ◌>>=◌, on}
use stroom_k8s_operator.Kube.Env.{Env, Kind}
use stroom_k8s_operator.Api.StroomCluster.{
  StroomCluster, NodeSet, get_node_set_name, delete_on_scaledown_and_cluster_deletion_policy,
  delete_on_scaledown_only_policy,
}
use stroom_k8s_operator.Cluster.Config.{stroom_node_pvc_name}

-- The values of `podOrdinal` in the loop, an int32, for at most `fuel` rounds.
unfoldable pub ordinals : ℕ → ℤ → ℤ → List ℤ
unfolding int32 ◌+ℤ◌
ordinals zero ordinal old = []
ordinals (suc fuel) ordinal old =
    let rest = ordinals fuel (int32 (ordinal +ℤ pos 1)) old in
    if leb_ℤ ordinal old then ordinal ∷ rest else []

unfoldable pub pvc_name : StroomCluster → NodeSet → ℤ → String
unfolding int32 ◌-ℤ◌ itoa
pvc_name c n ordinal =
    stroom_node_pvc_name <> "-" <> get_node_set_name c n <> "-" <> itoa (int32 (ordinal -ℤ pos 1))

unfoldable pub is_deleting_on_scaledown : String → Bool
is_deleting_on_scaledown policy =
    policy == delete_on_scaledown_and_cluster_deletion_policy
    || policy == delete_on_scaledown_only_policy

module _ (E : Env) where
  open E use {World}

  -- The body of the loop; an error of either call is only logged.
  unfoldable pub delete_pvc : StroomCluster → String → M World (Unit {0})
  delete_pvc c name =
      on (E.get Kind.persistent_volume_claim (record { namespace = c.namespace; name = name }))
        (λ e. pure tt) (λ found. E.delete Kind.persistent_volume_claim found >>= λ _. pure tt)

  unfoldable pub delete_pvcs_at : StroomCluster → NodeSet → List ℤ → M World (Unit {0})
  unfolding delete_pvc pvc_name
  delete_pvcs_at c n [] = pure tt
  delete_pvcs_at c n (ordinal ∷ rest) =
      delete_pvc c (pvc_name c n ordinal) >>= λ _. delete_pvcs_at c n rest

  unfoldable pub delete_pvcs : StroomCluster → NodeSet → ℤ → ℤ → M World (Unit {0})
  unfolding delete_pvcs_at ordinals is_deleting_on_scaledown
  delete_pvcs c n old_replica_count new_replica_count =
      if ltb_ℤ new_replica_count old_replica_count
        && is_deleting_on_scaledown c.spec.volume_claim_delete_policy
      then delete_pvcs_at c n (
          ordinals (pos_part (old_replica_count -ℤ new_replica_count))
            (int32 (new_replica_count +ℤ pos 1)) old_replica_count)
      else pure tt
