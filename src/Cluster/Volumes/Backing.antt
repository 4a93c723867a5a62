-- ===== src/Cluster/Volumes/Backing.antt =====
-- internal/controller/stroomcluster.go: the volumes behind the mounts of the Stroom node's container.
use stroom_k8s_operator.Base.{
  String, ◌≡◌, refl, ◌⊎◌, inl, inr, not, List, [], ◌∷◌, ◌++◌, All, All-append, Bool-cases,
}
use stroom_k8s_operator.Kube.Core.{Volume, VolumeMount}
use stroom_k8s_operator.Api.StroomCluster.{
  StroomCluster, NodeSet, https_is_zero, config_map_ref_is_zero,
}
use stroom_k8s_operator.Cluster.Config.{
  static_content_volume_name, stroom_node_pvc_name, create_static_content_volume,
}
use stroom_k8s_operator.Cluster.Volumes.{
  https_volumes, log_sender_volumes, config_override_volumes, node_volumes,
  append_config_volume_mounts, base_mounts, https_mounts, node_volume_mounts,
}

-- Some volume has the name.
abbrev pub Provides : List Volume → String → Type 0
Provides [] name = ⊥
Provides (v ∷ vs) name = (name ≡ v.name) ⊎ Provides vs name

Provides-left : (vs ws : List Volume) (name : String) → Provides vs name → Provides (vs ++ ws) name
Provides-left [] ws name h = absurd h
Provides-left (v ∷ vs) ws name (inl same) = inl same
Provides-left (v ∷ vs) ws name (inr later) = inr (Provides-left vs ws name later)

Provides-right : (vs ws : List Volume) (name : String) → Provides ws name → Provides (vs ++ ws) name
Provides-right [] ws name h = h
Provides-right (v ∷ vs) ws name h = inr (Provides-right vs ws name h)

abbrev pub IsExtra : StroomCluster → VolumeMount → Type 0
IsExtra c m = (m.name ≡ stroom_node_pvc_name) ⊎ Provides c.spec.extra_volumes m.name

module _ (c : StroomCluster) where
  -- A mount of the claim or of one of the node's volumes.
  abbrev pub Backs : String → Type 0
  Backs name = ((name ≡ stroom_node_pvc_name) ⊎ ⊥) ⊎ Provides (node_volumes c) name

  abbrev pub IsBacked : VolumeMount → Type 0
  IsBacked m = Backs m.name

  pub of_claim : (name : String) → name ≡ stroom_node_pvc_name → Backs name
  of_claim name h = inl (inl h)

  pub of_static : (name : String) → name ≡ static_content_volume_name → Backs name
  unfolding node_volumes create_static_content_volume
  of_static name h = inr (inl h)

  pub of_https : (name : String) → Provides (https_volumes c) name → Backs name
  unfolding node_volumes
  of_https name h = inr (inr (inr (Provides-left (https_volumes c) _ name h)))

  pub of_log_sender : (name : String) → Provides (log_sender_volumes c) name → Backs name
  unfolding node_volumes
  of_log_sender name h = inr (
      inr (
        inr (
          Provides-right (https_volumes c) _ name (Provides-left (log_sender_volumes c) _ name h))))

  of_config : (name : String) → Provides (config_override_volumes c) name → Backs name
  unfolding node_volumes
  of_config name h = inr (
      inr (
        inr (
          Provides-right (https_volumes c) _ name (
            Provides-right (log_sender_volumes c) _ name
              (Provides-left (config_override_volumes c) _ name h)))))

  of_extra : (m : VolumeMount) → IsExtra c m → IsBacked m
  unfolding node_volumes
  of_extra m (inl claim) = inl (inl claim)
  of_extra m (inr h) = inr (
      inr (
        inr (
          Provides-right (https_volumes c) _ m.name (
            Provides-right (log_sender_volumes c) _ m.name
              (Provides-right (config_override_volumes c) _ m.name h)))))

  All-extra : (ms : List VolumeMount) → All (IsExtra c) ms → All IsBacked ms
  All-extra [] h = tt
  All-extra (m ∷ ms) h = (of_extra m h.0, All-extra ms h.1)

  base_mounts-IsBacked : All IsBacked base_mounts
  unfolding node_volumes create_static_content_volume
  base_mounts-IsBacked = (
    of_static _ refl,
    (
      of_static _ refl,
      (
        of_static _ refl,
        (
          inr (inr (inl refl)),
          (
            of_claim _ refl,
            (
              of_claim _ refl,
              (
                of_claim _ refl,
                (
                  of_claim _ refl,
                  (
                    of_claim _ refl,
                    (
                      of_claim _ refl,
                      (
                        of_claim _ refl,
                        (of_claim _ refl, (of_claim _ refl, (of_claim _ refl, tt))),
                      ),
                    ),
                  ),
                ),
              ),
            ),
          ),
        ),
      ),
    ),
  )

  https_mounts-IsBacked : All IsBacked (https_mounts c)
  unfolding https_mounts https_volumes
  https_mounts-IsBacked = elim (Bool-cases (not (https_is_zero c.spec.https))) [
    | inl https ↦ rw https (of_https _ (rw (https, https_volumes) (inr (inl refl))), tt)
    | inr plain ↦ rw plain tt
  ]

  append_config_volume_mounts-IsBacked :
      (ms : List VolumeMount) → All IsBacked ms → All IsBacked (append_config_volume_mounts c ms)
  unfolding append_config_volume_mounts config_override_volumes
  append_config_volume_mounts-IsBacked ms h =
      elim (Bool-cases (not (config_map_ref_is_zero c.spec.config_map_ref))) [
        | inl given ↦ rw given (
            All-append IsBacked ms _ h
              (of_config _ (rw (given, config_override_volumes) (inl refl)), tt))
        | inr plain ↦ rw plain (All-append IsBacked ms _ h (of_static _ refl, tt))
      ]

  pub node_volume_mounts-IsBacked :
      (n : NodeSet)
      → All (IsExtra c) c.spec.extra_volume_mounts
      → All (IsExtra c) n.extra_volume_mounts
      → All IsBacked (node_volume_mounts c n)
  unfolding node_volume_mounts
  node_volume_mounts-IsBacked n he hn =
      All-append IsBacked _ _
        (append_config_volume_mounts-IsBacked (base_mounts ++ https_mounts c)
          (All-append IsBacked base_mounts _ base_mounts-IsBacked https_mounts-IsBacked))
        (All-append IsBacked c.spec.extra_volume_mounts _ (All-extra _ he) (All-extra _ hn))
