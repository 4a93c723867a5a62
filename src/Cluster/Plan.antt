-- ===== src/Cluster/Plan.antt =====
-- internal/controller/stroomcluster_controller.go: the child objects of a StroomCluster as one list,
-- in the order in which `Reconcile` writes them.
pub mod Store
pub mod Stored
pub mod Failure
pub mod Frame
pub mod Settled
pub mod Names
pub mod Distinct
use stroom_k8s_operator.Base.{
  All, ◌≢◌, String, ◌≡◌, refl, ap, sym, ◌∙◌, Bool, true, false, not, Bool-cases, inl, inr, List, [],
  ◌∷◌, ◌++◌, map, if◌then◌else◌,
}
use stroom_k8s_operator.Base.State.{M, pure, on, ◌>>◌}
use stroom_k8s_operator.Base.Dict.{Dict}
use stroom_k8s_operator.Base.State.{ok}
use stroom_k8s_operator.Kube.Core.{StatefulSet, Service, ConfigMap, Ingress}
use stroom_k8s_operator.Kube.Env.{Env, Kind, Library, Object, OperationResult, key_of}
use stroom_k8s_operator.Kube.Outcome.{Outcome, done, failed}
use stroom_k8s_operator.Api.StroomCluster.{
  StroomCluster, NodeSet, get_node_set_headless_service_name, get_node_set_service_name,
  log_sender_is_zero,
}
use stroom_k8s_operator.Database.{DatabaseConnectionInfo}
use stroom_k8s_operator.DatabaseServer.Children.{Key}
use stroom_k8s_operator.Cluster.Config.{create_config_map, create_log_sender_config_map}
use stroom_k8s_operator.Cluster.StatefulSet.{create_stateful_set}
use stroom_k8s_operator.Cluster.Services.{create_service}
use stroom_k8s_operator.Cluster.Ingresses.{create_ingresses}
use stroom_k8s_operator.Cluster.Pvcs.{delete_pvcs}
use stroom_k8s_operator.Cluster.Apply.{
  reconcile_config_map, reconcile_stateful_set, reconcile_service, reconcile_ingress,
  bare_config_map, bare_stateful_set, bare_service, bare_ingress, is_updated, apply_config_map,
  apply_service, apply_stateful_set, apply_ingresses,
}
use stroom_k8s_operator.Cluster.Reconcile.{apply_node_sets, apply_rest, apply_static_content}

-- An object that the cluster is to have.
pub data Item : Type 0 where
  config_map : ConfigMap → Item
  stateful_set : NodeSet → StatefulSet → Item
  service : Service → Item
  ingress : Ingress → Item

abbrev pub kind_of : Item → Kind
kind_of (config_map new) = Kind.config_map
kind_of (stateful_set n new) = Kind.stateful_set
kind_of (service new) = Kind.service
kind_of (ingress new) = Kind.ingress

abbrev pub bare : (x : Item) → Object (kind_of x)
bare (config_map new) = bare_config_map new
bare (stateful_set n new) = bare_stateful_set new
bare (service new) = bare_service new
bare (ingress new) = bare_ingress new

abbrev pub overwrite : (x : Item) → Object (kind_of x) → Object (kind_of x)
overwrite (config_map new) = reconcile_config_map new
overwrite (stateful_set n new) = reconcile_stateful_set new
overwrite (service new) = reconcile_service new
overwrite (ingress new) = reconcile_ingress new

abbrev pub key : Item → Key
key x = (kind_of x, key_of (kind_of x) (bare x))

-- No item of the list has the key of `x`.
abbrev pub Apart : Item → List Item → Type 0
Apart x ys = All (λ y. key x ≢ key y) ys

-- Every item has a key of its own.
abbrev pub Distinct : List Item → Type 0
Distinct [] = Unit
Distinct (x ∷ xs) = Apart x xs × Distinct xs

-- The list of a cluster.
module _ (L : Library) (c : StroomCluster) (info : DatabaseConnectionInfo) where
  abbrev pub node_set_items : List NodeSet → List Item
  node_set_items [] = []
  node_set_items (n ∷ ns) =
      stateful_set n (create_stateful_set L c n info)
      ∷ service (create_service L c n (get_node_set_headless_service_name c n) "None")
      ∷ service (create_service L c n (get_node_set_service_name c n) "")
      ∷ node_set_items ns

  abbrev pub log_sender_items : List Item
  log_sender_items =
      if not (log_sender_is_zero c.spec.log_sender)
      then config_map (create_log_sender_config_map L c) ∷ []
      else []

  abbrev pub ingress_items : List Ingress → List Item
  ingress_items [] = []
  ingress_items (new ∷ rest) = ingress new ∷ ingress_items rest

  abbrev pub plan : Dict String String → List Item
  plan contents =
      config_map (create_config_map L c contents)
      ∷ (log_sender_items
          ++ (node_set_items c.spec.node_sets ++ ingress_items (create_ingresses c)))

module _ (E : Env) (c : StroomCluster) where
  open E use {World}

  -- What follows a write: the claims of removed pods are deleted.
  abbrev pub follow_up : (x : Item) → OperationResult × Object (kind_of x) → M World (Unit {0})
  follow_up (config_map new) r = pure tt
  follow_up (stateful_set n new) r =
      if is_updated r.0 then delete_pvcs E c n r.1.status_replicas new.spec.replicas else pure tt
  follow_up (service new) r = pure tt
  follow_up (ingress new) r = pure tt

  -- One write, and what comes after it unless it fails.
  abbrev pub write : Item → M World Outcome → M World Outcome
  write x next =
      on (E.create_or_update (kind_of x) (bare x) (overwrite x)) (λ e. pure (failed e))
        (λ r. follow_up x r >> next)

  abbrev pub run : List Item → M World Outcome → M World Outcome
  run [] next = next
  run (x ∷ xs) next = write x (run xs next)

  pub run-append :
      (xs ys : List Item) (next : M World Outcome) → run (xs ++ ys) next ≡ run xs (run ys next)
  run-append [] ys next = refl
  run-append (x ∷ xs) ys next = ap (write x) (run-append xs ys next)

  module _ (L : Library) (info : DatabaseConnectionInfo) where
    run-ingress_items :
        (is : List Ingress) → run (ingress_items L c info is) (pure done) ≡ apply_ingresses E is
    unfolding apply_ingresses
    run-ingress_items [] = refl
    run-ingress_items (new ∷ rest) = ap (write (ingress new)) (run-ingress_items rest)

    run-node_set_items :
        (ns : List NodeSet) (next : M World Outcome)
        → run (node_set_items L c info ns) next ≡ apply_node_sets E L c info ns next
    unfolding apply_node_sets apply_stateful_set apply_service
    run-node_set_items [] next = refl
    run-node_set_items (n ∷ ns) next =
        ap
          (λ k. write (stateful_set n (create_stateful_set L c n info)) (
            write (service (create_service L c n (get_node_set_headless_service_name c n) "None"))
              (write (service (create_service L c n (get_node_set_service_name c n) "")) k)))
          (run-node_set_items ns next)

    run_rest :
        run
          (node_set_items L c info c.spec.node_sets ++ ingress_items L c info (create_ingresses c))
          (pure done)
        ≡ apply_node_sets E L c info c.spec.node_sets (apply_ingresses E (create_ingresses c))
    run_rest =
        run-append (node_set_items L c info c.spec.node_sets)
          (ingress_items L c info (create_ingresses c)) (pure done)
        ∙ (ap (run (node_set_items L c info c.spec.node_sets))
              (run-ingress_items (create_ingresses c))
            ∙ run-node_set_items c.spec.node_sets (apply_ingresses E (create_ingresses c)))

    run_log_sender :
        (others : List Item) (next : M World Outcome)
        → run others (pure done) ≡ next
        → run (log_sender_items L c info ++ others) (pure done) ≡ (
            if not (log_sender_is_zero c.spec.log_sender)
            then apply_config_map E (create_log_sender_config_map L c) next
            else next)
    unfolding apply_config_map
    run_log_sender others next h = elim (Bool-cases (log_sender_is_zero c.spec.log_sender)) [
      | inl zero' ↦ rw zero' h
      | inr given ↦ rw given (ap (write (config_map (create_log_sender_config_map L c))) h)
    ]

    run-apply_rest :
        run
          (log_sender_items L c info
            ++ (node_set_items L c info c.spec.node_sets
                ++ ingress_items L c info (create_ingresses c)))
          (pure done)
        ≡ apply_rest E L c info
    unfolding apply_rest
    run-apply_rest = run_log_sender _ _ run_rest

    -- Once the service account exists and the static files are read, the rest of `Reconcile`, with
    -- its loops over the node sets and the ingresses, is one pass over the plan: each object is
    -- written in its turn, and the first error ends the call.
    pub run-plan :
        (contents : Dict String String)
        → apply_static_content E L c info (ok contents) ≡ run (plan L c info contents) (pure done)
    unfolding apply_config_map
    run-plan contents =
        sym (ap (write (config_map (create_config_map L c contents))) run-apply_rest)
