-- ===== src/Cluster/StatefulSet/Mounts.antt =====
-- internal/controller/stroomcluster.go: the volumes that the containers of a pod mount.
use stroom_k8s_operator.Base.{
  String, ◌≡◌, refl, ◌⊎◌, inl, inr, true, not, List, [], ◌∷◌, ◌++◌, All, All-append, Bool-cases,
}
use stroom_k8s_operator.Kube.Core.{VolumeMount, Container, PersistentVolumeClaim, StatefulSetSpec}
use stroom_k8s_operator.Kube.Env.{Library}
use stroom_k8s_operator.Api.StroomCluster.{
  StroomCluster, NodeSet, https_is_zero, log_sender_is_zero, tls_is_zero,
}
use stroom_k8s_operator.Database.{DatabaseConnectionInfo}
use stroom_k8s_operator.Cluster.Config.{log_sender_config_map_name}
use stroom_k8s_operator.Cluster.Volumes.{https_volumes, log_sender_volumes}
use stroom_k8s_operator.Cluster.Containers.{
  init_containers, node_container, log_sender_mounts, create_log_sender_container, node_containers,
}
use stroom_k8s_operator.Cluster.StatefulSet.{create_stateful_set}
use stroom_k8s_operator.Cluster.Volumes.Backing.{
  Provides, IsExtra, IsBacked, of_claim, of_static, of_https, of_log_sender,
  node_volume_mounts-IsBacked,
}

abbrev pub Claims : List PersistentVolumeClaim → String → Type 0
Claims [] name = ⊥
Claims (p ∷ ps) name = (name ≡ p.name) ⊎ Claims ps name

-- A mount of a volume of the pod, or of a claim of the StatefulSet.
abbrev pub IsMounted : StatefulSetSpec → VolumeMount → Type 0
IsMounted s m = Claims s.volume_claim_templates m.name ⊎ Provides s.template.spec.volumes m.name

module _ (c : StroomCluster) where
  log_sender_mounts-IsBacked :
      not (log_sender_is_zero c.spec.log_sender) ≡ true
      → All (IsBacked c) (log_sender_mounts c.spec.log_sender)
  unfolding log_sender_mounts log_sender_volumes
  log_sender_mounts-IsBacked enabled =
      let config : Provides (log_sender_volumes c) log_sender_config_map_name =
        rw (enabled, log_sender_volumes) (inl refl) in
      (
        of_claim c _ refl,
        (
          of_log_sender c _ config,
          elim (Bool-cases (not (tls_is_zero c.spec.log_sender.tls))) [
            | inl tls ↦
                rw tls
                  (of_log_sender c _ (rw (enabled, log_sender_volumes, tls) (inr (inl refl))), tt)
            | inr plain ↦ rw plain tt
          ],
        ),
      )

  abbrev AllBacked : List Container → Type 0
  AllBacked = All (λ k. All (IsBacked c) k.volume_mounts)

  init_containers-IsBacked : AllBacked (init_containers c)
  unfolding init_containers https_volumes
  init_containers-IsBacked = elim (Bool-cases (not (https_is_zero c.spec.https))) [
    | inl https ↦ rw https (
      (
        of_static c _ refl,
        (
          of_https c _ (rw (https, https_volumes) (inl refl)),
          (of_https c _ (rw (https, https_volumes) (inr (inl refl))), tt),
        ),
      ),
      tt,
    )
    | inr plain ↦ rw plain tt
  ]

  node_containers-IsBacked :
      (L : Library) (n : NodeSet) (info : DatabaseConnectionInfo)
      → All (IsExtra c) c.spec.extra_volume_mounts
      → All (IsExtra c) n.extra_volume_mounts
      → AllBacked (node_containers L c n info)
  unfolding node_containers node_container create_log_sender_container
  node_containers-IsBacked L n info he hn = (
    node_volume_mounts-IsBacked c n he hn,
    elim (Bool-cases (not (log_sender_is_zero c.spec.log_sender))) [
      | inl enabled ↦ rw enabled (log_sender_mounts-IsBacked enabled, tt)
      | inr off ↦ rw off tt
    ],
  )

  -- Every volume mount of every container of a node set's pods, the initialising ones included,
  -- names a volume of the pod or a claim of the StatefulSet, if the extra mounts of the cluster
  -- and of the node set name the data claim or an extra volume.
  pub create_stateful_set-IsMounted :
      (L : Library) (n : NodeSet) (info : DatabaseConnectionInfo)
      → All (IsExtra c) c.spec.extra_volume_mounts
      → All (IsExtra c) n.extra_volume_mounts
      → let s = (create_stateful_set L c n info).spec in
        All
          (λ k. All (IsMounted s) k.volume_mounts)
          (s.template.spec.init_containers ++ s.template.spec.containers)
  unfolding create_stateful_set
  create_stateful_set-IsMounted L n info he hn =
      All-append (λ k. All (IsBacked c) k.volume_mounts) (init_containers c) _
        init_containers-IsBacked (node_containers-IsBacked L n info he hn)
