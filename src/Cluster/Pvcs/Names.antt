-- ===== src/Cluster/Pvcs/Names.antt =====
-- internal/controller/stroomcluster_controller.go: which claims `deletePvcs` deletes.
use stroom_k8s_operator.Base.{ℕ, zero, suc, ◌+◌, ◌<◌, ◌<>◌, ◌≡◌, refl, true, arith}
use stroom_k8s_operator.Base.Int.{
  pos, ◌+ℤ◌, ◌-ℤ◌, int32, int32-eq, leb_ℤ, ltb_ℤ, pos_part, +ℤ_parts, -ℤ_parts, one_sign,
  eq_of_parts,
}
use stroom_k8s_operator.Base.Text.{itoa}
use stroom_k8s_operator.Base.State.{M, pure, ◌>>=◌}
use stroom_k8s_operator.Kube.Env.{Env}
use stroom_k8s_operator.Api.StroomCluster.{StroomCluster, NodeSet, get_node_set_name}
use stroom_k8s_operator.Cluster.Pvcs.{
  ordinals, pvc_name, is_deleting_on_scaledown, delete_pvc, delete_pvcs_at, delete_pvcs,
}

module _ (E : Env) (c : StroomCluster) (n : NodeSet) where
  -- The claims of `m` pods from the one numbered `k` on, in their order.
  pub delete_claims : ℕ → ℕ → M E.World (Unit {0})
  delete_claims zero k = pure tt
  delete_claims (suc m) k =
      delete_pvc E c ("data" <> "-" <> get_node_set_name c n <> "-" <> itoa (pos k)) >>= λ _.
      delete_claims m (suc k)

  previous : (k : ℕ) → suc k < 0x80000000 → int32 (pos (suc k) -ℤ pos 1) ≡ pos k
  previous k small =
      let difference : pos (suc k) -ℤ pos 1 ≡ pos k =
        eq_of_parts _ _
          (omega (arith, -ℤ_parts (pos (suc k)) (pos 1), one_sign (pos (suc k) -ℤ pos 1))) in
      rw difference (int32-eq (pos k) (omega arith, omega arith))

  next : (k : ℕ) → suc k < 0x80000000 → int32 (pos k +ℤ pos 1) ≡ pos (suc k)
  next k small =
      let sum : pos k +ℤ pos 1 ≡ pos (suc k) =
        eq_of_parts _ _ (omega (arith, +ℤ_parts (pos k) (pos 1), one_sign (pos k +ℤ pos 1))) in
      rw sum (int32-eq (pos (suc k)) (omega arith, omega arith))

  delete_pvcs_at-ordinals :
      (m k : ℕ) (w : E.World)
      → k + m < 0x7FFFFFFF
      → delete_pvcs_at E c n (ordinals m (pos (suc k)) (pos (k + m))) w ≡ delete_claims m k w
  unfolding ordinals delete_claims delete_pvcs_at pvc_name delete_pvc
  delete_pvcs_at-ordinals zero k w small = refl
  delete_pvcs_at-ordinals (suc m) k w small =
      let here : leb_ℤ (pos (suc k)) (pos (k + suc m)) ≡ true = ground arith in
      let sum : k + suc m ≡ suc k + m = omega arith in
      rw (
        here,
        next (suc k) (omega arith),
        previous k (omega arith),
        sum,
        delete_pvcs_at-ordinals m (suc k) _ (omega arith),
      )

  -- Where an update of a node set's StatefulSet lowers the number of replicas from `k + m` to
  -- `k`, and the policy says to delete on scale-down, the claims looked up and deleted are those
  -- of the pods from `k` on, in their order, and no other, if the old number is below 2 ^ 31 - 1.
  pub delete_pvcs-eq :
      (m k : ℕ) (w : E.World)
      → 0 < m
      → k + m < 0x7FFFFFFF
      → is_deleting_on_scaledown c.spec.volume_claim_delete_policy ≡ true
      → delete_pvcs E c n (pos (k + m)) (pos k) w ≡ delete_claims m k w
  unfolding delete_pvcs
  delete_pvcs-eq m k w some' small policy =
      let down : ltb_ℤ (pos k) (pos (k + m)) ≡ true = ground arith in
      let rounds : pos_part (pos (k + m) -ℤ pos k) ≡ m =
        omega (arith, -ℤ_parts (pos (k + m)) (pos k), one_sign (pos (k + m) -ℤ pos k)) in
      rw (down, policy, rounds, next k (omega arith), delete_pvcs_at-ordinals m k w small)
