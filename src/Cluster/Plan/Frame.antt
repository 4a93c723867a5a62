-- ===== src/Cluster/Plan/Frame.antt =====
-- internal/controller/stroomcluster_controller.go: what a cluster's `Reconcile` leaves alone.
use stroom_k8s_operator.Base.{String, ◌≡◌, refl, sym, ◌∙◌, ◌≢◌, Option, All}
use mathlib.Core.Path.{subst}
use stroom_k8s_operator.Base.Dict.{Dict}
use stroom_k8s_operator.Base.Keeps.{Keeps, Keeps-pure, Keeps-bind, Keeps-if, Keeps-on, keeps_rules}
use stroom_k8s_operator.Base.State.{Err, not_found, bad_request, failure, ok, pure}
use stroom_k8s_operator.Kube.Meta.{NamespacedName}
use stroom_k8s_operator.Kube.Env.{Env, Kind, Object, Library, key_of}
use stroom_k8s_operator.Kube.Outcome.{done}
use stroom_k8s_operator.Api.StroomCluster.{StroomCluster, get_base_name}
use stroom_k8s_operator.Database.{DatabaseConnectionInfo}
use stroom_k8s_operator.DatabaseServer.Children.{Key}
use stroom_k8s_operator.DatabaseServer.Reconcile.{proceeds}
use stroom_k8s_operator.Cluster.Config.{create_service_account}
use stroom_k8s_operator.Cluster.Apply.{get_or_create_object, missing}
use stroom_k8s_operator.Cluster.Files.{StaticFiles, all_static_files}
use stroom_k8s_operator.Cluster.Reconcile.{create_children, apply_static_content}
use stroom_k8s_operator.Cluster.Plan.{key, plan, run-plan}
use stroom_k8s_operator.Cluster.Plan.Store.{Look, Stores, Shows, get-Shows, run-Shows}

module _ (E : Env) (look : Look E) (S : Stores E look) (c : StroomCluster) (k : Kind)
    (n : NamespacedName) (o : Option (Object k)) where
  missing-Shows :
      (k' : Kind) (made : Object k') (e : Err)
      → (let a : Key = (k, n) in a ≢ (k', key_of k' made))
      → Keeps (Shows E look S c k n o) (missing E k' (pure made) e)
  missing-Shows k' made not_found apart =
      let create : Keeps (Shows E look S c k n o) (E.create k' made) = record {
        at = λ w h. S.create_others w k' made k n apart ∙ h;
      } in
      search (keeps_rules, create)
  missing-Shows k' made (bad_request m) apart = Keeps-pure _
  missing-Shows k' made (failure m) apart = Keeps-pure _

  pub get_or_create_object-Shows :
      (k' : Kind) (name namespace : String) (made : Object k')
      → (let a : Key = (k, n) in a ≢ (k', key_of k' made))
      → Keeps (Shows E look S c k n o) (get_or_create_object E k' name namespace (pure made))
  unfolding get_or_create_object
  get_or_create_object-Shows k' name namespace made apart =
      Keeps-on (E.get k' (record { namespace = namespace; name = name })) (missing E k' (pure made))
        (λ _. pure done) (get-Shows E look S c k n o k' _) (λ e. missing-Shows k' made e apart)
        (λ _. Keeps-pure done)

  create_children-Shows :
      (L : Library) (files : StaticFiles) (info : DatabaseConnectionInfo)
      (contents : Dict String String)
      → all_static_files files ≡ ok contents
      → k ≢ Kind.persistent_volume_claim
      → (let a : Key = (k, n) in
          a ≢ (Kind.service_account, key_of Kind.service_account (create_service_account L c)))
      → All (λ x. let a : Key = (k, n) in a ≢ key x) (plan L c info contents)
      → Keeps (Shows E look S c k n o) (create_children E L files c info)
  unfolding create_children
  create_children-Shows L files info contents read other apart_account apart =
      let rest : Keeps (Shows E look S c k n o)
          (apply_static_content E L c info (all_static_files files)) =
        subst (λ r. Keeps (Shows E look S c k n o) (apply_static_content E L c info r)) (sym read)
          (subst (Keeps (Shows E look S c k n o)) (sym (run-plan E c L info contents))
            (run-Shows E look S c k n o other (plan L c info contents) apart)) in
      let first =
        get_or_create_object-Shows Kind.service_account (get_base_name c) c.namespace
          (create_service_account L c) apart_account in
      Keeps-bind _ _ first (λ r. Keeps-if (proceeds r) _ (pure r) rest (Keeps-pure r))

-- Whatever `Reconcile` returns from its work on the children of a cluster, it has changed no object
-- of the API server but its service account, the objects of the plan and claims of volumes. The
-- static files can be read, and the API server changes no other object than the one that is
-- written, created or deleted.
pub create_children-others :
    (E : Env) (look : Look E) (S : Stores E look) (c : StroomCluster) (k : Kind)
    (n : NamespacedName) (L : Library) (files : StaticFiles) (info : DatabaseConnectionInfo)
    (contents : Dict String String) (w : E.World)
    → all_static_files files ≡ ok contents
    → k ≢ Kind.persistent_volume_claim
    → (let a : Key = (k, n) in
        a ≢ (Kind.service_account, key_of Kind.service_account (create_service_account L c)))
    → All (λ x. let a : Key = (k, n) in a ≢ key x) (plan L c info contents)
    → look (create_children E L files c info w).1 k n ≡ look w k n
create_children-others E look S c k n L files info contents w read other apart_account apart =
    (create_children-Shows E look S c k n (look w k n) L files info contents read other
        apart_account apart).at
      w refl
