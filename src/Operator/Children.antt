-- ===== src/Operator/Children.antt =====
-- internal/controller/stroomcluster_controller.go: the calls of `Reconcile` on a cluster's children.
use mathlib.Core.Path.{subst}
use stroom_k8s_operator.Base.{sym, String, Option, none, some, List, [], ◌∷◌}
use stroom_k8s_operator.Base.Int.{ℤ}
use stroom_k8s_operator.Base.Dict.{Dict}
use stroom_k8s_operator.Base.State.{
  on, Err, not_found, bad_request, failure, Result, ok, err, M, pure, ◌>>◌,
}
use stroom_k8s_operator.Base.Keeps.{
  Keeps, Keeps-pure, Keeps-bind, Keeps-if, Keeps-then, Keeps-on, keeps_rules,
}
use stroom_k8s_operator.Kube.Meta.{NamespacedName}
use stroom_k8s_operator.Kube.Env.{Env, Kind, Object, OperationResult, Library}
use stroom_k8s_operator.Kube.Outcome.{Outcome, done, failed}
use stroom_k8s_operator.Api.StroomCluster.{StroomCluster, NodeSet, get_base_name}
use stroom_k8s_operator.Database.{DatabaseConnectionInfo, get_database_connection_info}
use stroom_k8s_operator.DatabaseServer.Reconcile.{proceeds}
use stroom_k8s_operator.Cluster.Config.{create_service_account}
use stroom_k8s_operator.Cluster.Pvcs.{delete_pvc, delete_pvcs_at, delete_pvcs}
use stroom_k8s_operator.Cluster.Files.{StaticFiles, all_static_files}
use stroom_k8s_operator.Cluster.Apply.{missing, get_or_create_object}
use stroom_k8s_operator.Cluster.Plan.{
  Item, config_map, stateful_set, service, ingress, kind_of, bare, overwrite, follow_up, run, plan,
  run-plan,
}
use stroom_k8s_operator.Cluster.Reconcile.{
  apply_static_content, create_children, go_on, check_and_create, claim, connection_failure,
  reconcile_cluster, reconcile,
}
use stroom_k8s_operator.Operator.Calls.{IsSpared, get_database_connection_info-kept}
use stroom_k8s_operator.Operator.Cluster.{check_if_deleted-kept, claim-kept}

module _ (E : Env) (P : E.World → Type 0) (K : IsSpared E P) where
  delete_pvc-kept : (c : StroomCluster) (name : String) → Keeps P (delete_pvc E c name)
  unfolding delete_pvc
  delete_pvc-kept c name = search (keeps_rules, K.get, K.delete_claim)

  delete_pvcs_at-kept :
      (c : StroomCluster) (n : NodeSet) (is : List ℤ) → Keeps P (delete_pvcs_at E c n is)
  unfolding delete_pvcs_at
  delete_pvcs_at-kept c n [] = Keeps-pure tt
  delete_pvcs_at-kept c n (i ∷ is) =
      Keeps-bind _ _ (delete_pvc-kept c _) (λ _. delete_pvcs_at-kept c n is)

  delete_pvcs-kept :
      (c : StroomCluster) (n : NodeSet) (old new : ℤ) → Keeps P (delete_pvcs E c n old new)
  unfolding delete_pvcs
  delete_pvcs-kept c n old new = search (keeps_rules, delete_pvcs_at-kept)

  overwrite-kept : (x : Item) → Keeps P (E.create_or_update (kind_of x) (bare x) (overwrite x))
  overwrite-kept (config_map new) = K.write_config_map _ _
  overwrite-kept (stateful_set n new) = K.write_stateful_set _ _
  overwrite-kept (service new) = K.write_service _ _
  overwrite-kept (ingress new) = K.write_ingress _ _

  follow_up-kept :
      (c : StroomCluster) (x : Item) (r : OperationResult × Object (kind_of x))
      → Keeps P (follow_up E c x r)
  follow_up-kept c (config_map new) r = Keeps-pure tt
  follow_up-kept c (stateful_set n new) r = search (keeps_rules, delete_pvcs-kept)
  follow_up-kept c (service new) r = Keeps-pure tt
  follow_up-kept c (ingress new) r = Keeps-pure tt

  run-kept : (c : StroomCluster) (xs : List Item) → Keeps P (run E c xs (pure done))
  run-kept c [] = Keeps-pure done
  run-kept c (x ∷ xs) =
      Keeps-on (E.create_or_update (kind_of x) (bare x) (overwrite x)) (λ e. pure (failed e))
        (λ r. follow_up E c x r >> run E c xs (pure done)) (overwrite-kept x)
        (λ e. Keeps-pure (failed e))
        (λ r.
          Keeps-then (follow_up E c x r) (run E c xs (pure done)) (follow_up-kept c x r)
            (run-kept c xs))

  module _ (L : Library) where
    apply_static_content-kept :
        (c : StroomCluster) (info : DatabaseConnectionInfo) (r : Result (Dict String String))
        → Keeps P (apply_static_content E L c info r)
    apply_static_content-kept c info (err e) = Keeps-pure (failed e)
    apply_static_content-kept c info (ok contents) =
        subst (Keeps P) (sym (run-plan E c L info contents)) (run-kept c (plan L c info contents))

    missing-kept :
        (k : Kind) (o : Object k) (e : Err)
        → Keeps P (E.create k o)
        → Keeps P (missing E k (pure o) e)
    missing-kept k o not_found created = search (keeps_rules, created)
    missing-kept k o (bad_request m) created = Keeps-pure (failed (bad_request m))
    missing-kept k o (failure m) created = Keeps-pure (failed (failure m))

    get_or_create_object-kept :
        (k : Kind) (name namespace : String) (o : Object k)
        → Keeps P (E.create k o)
        → Keeps P (get_or_create_object E k name namespace (pure o))
    unfolding get_or_create_object
    get_or_create_object-kept k name namespace o created =
        Keeps-on (E.get k (record { name = name; namespace = namespace })) (missing E k (pure o))
          (λ _. pure done) (K.get k _) (λ e. missing-kept k o e created) (λ _. Keeps-pure done)

    create_children-kept :
        (files : StaticFiles) (c : StroomCluster) (info : DatabaseConnectionInfo)
        → Keeps P (create_children E L files c info)
    unfolding create_children
    create_children-kept files c info =
        Keeps-bind
          (get_or_create_object E Kind.service_account (get_base_name c) c.namespace
            (pure (create_service_account L c)))
          _ (get_or_create_object-kept Kind.service_account _ _ _ (K.create_service_account _))
          (λ r.
            Keeps-if (proceeds r) _ (pure r)
              (apply_static_content-kept c info (all_static_files files)) (Keeps-pure r))

    go_on-kept : (r : Option Outcome) (m : M E.World Outcome) → Keeps P m → Keeps P (go_on E L r m)
    go_on-kept none m k = k
    go_on-kept (some r) m k = Keeps-pure r

    check_and_create-kept :
        (files : StaticFiles) (c : StroomCluster) (info : DatabaseConnectionInfo)
        → Keeps P (check_and_create E L files c info)
    unfolding check_and_create
    check_and_create-kept files c info =
        let checked = check_if_deleted-kept E L P K c info in
        search (keeps_rules, checked, go_on-kept, create_children-kept)

    reconcile_cluster-kept :
        (files : StaticFiles) (c : StroomCluster) → Keeps P (reconcile_cluster E L files c)
    unfolding reconcile_cluster
    reconcile_cluster-kept files c =
        Keeps-on (get_database_connection_info E c.spec.database_server_ref c.namespace)
          (λ e. pure (connection_failure e))
          (λ info.
            on (claim E L c info) (λ e. pure (failed e))
              (λ info'. check_and_create E L files c info'))
          (get_database_connection_info-kept E P K c.spec.database_server_ref c.namespace)
          (λ e. Keeps-pure (connection_failure e))
          (λ info.
            Keeps-on (claim E L c info) (λ e. pure (failed e))
              (λ info'. check_and_create E L files c info') (claim-kept E L P K c info)
              (λ e. Keeps-pure (failed e)) (λ info'. check_and_create-kept files c info'))

    pub reconcile-kept :
        (files : StaticFiles) (request : NamespacedName) → Keeps P (reconcile E L files request)
    unfolding reconcile
    reconcile-kept files request = search (keeps_rules, K.get, reconcile_cluster-kept)
