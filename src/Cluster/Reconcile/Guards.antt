-- ===== src/Cluster/Reconcile/Guards.antt =====
-- internal/controller/stroomcluster_controller.go: the finalizers that stand before any child of a
-- cluster is created.
use mathlib.Core.Option.{some-injective}
use mathlib.Core.Path.{subst}
use stroom_k8s_operator.Base.{
  String, ◌≡◌, refl, sym, ap, ◌∙◌, inl, inr, true, false, none, some, Bool-cases, Option-cases,
}
use stroom_k8s_operator.Base.State.{ok, on_cases}
use stroom_k8s_operator.Kube.Meta.{ObjectMeta}
use stroom_k8s_operator.Kube.Env.{Env, Kind, Object, Library, meta, with_meta}
use stroom_k8s_operator.Api.Common.{stroom_cluster_finalizer_name, wait_node_tasks_finalizer_name}
use stroom_k8s_operator.Api.DatabaseServer.{DatabaseServer}
use stroom_k8s_operator.Api.StroomCluster.{StroomCluster, is_being_deleted}
use stroom_k8s_operator.Database.{DatabaseConnectionInfo}
use stroom_k8s_operator.Cluster.Finalizers.{add_finalizer}
use stroom_k8s_operator.Cluster.Deletion.{Checked, guard_server, guard_deletion, check_if_deleted}
use stroom_k8s_operator.Cluster.Reconcile.{stops}
use stroom_k8s_operator.Cluster.Reconcile.Deleting.{check_if_deleted-IsDeleted}

-- The API server keeps the finalizers of an object that it stores, and `AddFinalizer` adds one.
pub record IsFaithful (E : Env) (L : Library) : Type 0 where
  pub stored :
      (k : Kind) (o o' : Object k) (w : E.World) (f : String)
      → (E.update k o w).0 ≡ ok o'
      → L.contains_finalizer (meta k o) f ≡ true
      → L.contains_finalizer (meta k o') f ≡ true
  pub added : (m : ObjectMeta) (f : String) → L.contains_finalizer (L.add_finalizer m f) f ≡ true

meta-with_meta : (k : Kind) (o : Object k) (m : ObjectMeta) → meta k (with_meta k o m) ≡ m
meta-with_meta Kind.database_server o m = refl
meta-with_meta Kind.stroom_cluster o m = refl
meta-with_meta Kind.stroom_task_autoscaler o m = refl
meta-with_meta Kind.database_backup o m = refl
meta-with_meta Kind.secret o m = refl
meta-with_meta Kind.config_map o m = refl
meta-with_meta Kind.stateful_set o m = refl
meta-with_meta Kind.service o m = refl
meta-with_meta Kind.service_account o m = refl
meta-with_meta Kind.ingress o m = refl
meta-with_meta Kind.persistent_volume_claim o m = refl
meta-with_meta Kind.cron_job_v1 o m = refl
meta-with_meta Kind.cron_job_v1beta1 o m = refl
meta-with_meta Kind.pod o m = refl
meta-with_meta Kind.pod_metrics o m = refl

module _ (E : Env) (L : Library) (F : IsFaithful E L) where
  add_finalizer-held :
      (k : Kind) (o o' : Object k) (f : String) (w : E.World)
      → (add_finalizer E L k o f w).0 ≡ ok o'
      → L.contains_finalizer (meta k o') f ≡ true
  unfolding add_finalizer
  add_finalizer-held k o o' f w h = elim (Bool-cases (L.contains_finalizer (meta k o) f)) [
    | inl there ↦
        let same : o ≡ o' = cc (rw there at h) in
        subst (λ x. L.contains_finalizer (meta k x) f ≡ true) same there
    | inr missing ↦
        F.stored k _ o' w f (rw missing at h)
          (rw (meta-with_meta k o (L.add_finalizer (meta k o) f)) (F.added (meta k o) f))
  ]

  -- The linked server, if there is one, has the finalizer.
  abbrev pub ServerHeld : DatabaseConnectionInfo → Type 0
  ServerHeld info =
      (db : DatabaseServer)
      → info.database_server ≡ some db
      → L.contains_finalizer db.meta stroom_cluster_finalizer_name ≡ true

  guard_server-held :
      (info info' : DatabaseConnectionInfo) (w : E.World)
      → (guard_server E L info w).0 ≡ ok info'
      → ServerHeld info'
  unfolding guard_server
  guard_server-held info info' w = elim (Option-cases info.database_server) [
    | inl external ↦
        rw (external, guard_server)
          (λ h db linked.
            let same : info ≡ info' = cc in
            let none_linked : info'.database_server ≡ none =
              subst (λ i. i.database_server ≡ none) same external in
            cc)
    | inr (server, linked) ↦
        rw (linked, guard_server)
          (on_cases (λ r. r.0 ≡ ok info' → ServerHeld info')
            (add_finalizer E L Kind.database_server server stroom_cluster_finalizer_name) _ _ w
            (λ e _ h. cc)
            (λ db' added h db at.
              let same : record info { database_server = some db' } ≡ info' = cc in
              let same_db : db' ≡ db = some-injective _ _ (ap (λ i. i.database_server) same ∙ at) in
              subst (λ d. L.contains_finalizer d.meta stroom_cluster_finalizer_name ≡ true) same_db
                (add_finalizer-held Kind.database_server server db' _ w added)))
  ]

  abbrev pub IsGuarded : Checked → Type 0
  IsGuarded r =
      (L.contains_finalizer r.cluster.meta wait_node_tasks_finalizer_name ≡ true)
      × ServerHeld r.info

  guard_deletion-IsGuarded :
      (c : StroomCluster) (info : DatabaseConnectionInfo) (w : E.World)
      → stops (guard_deletion E L c info w).0 ≡ none
      → IsGuarded (guard_deletion E L c info w).0
  unfolding guard_deletion
  guard_deletion-IsGuarded c info w =
      on_cases (λ r. stops r.0 ≡ none → IsGuarded r.0) (guard_server E L info) _ _ w (λ e _ h. cc)
        (λ info' held.
          on_cases (λ r. stops r.0 ≡ none → IsGuarded r.0)
            (add_finalizer E L Kind.stroom_cluster c wait_node_tasks_finalizer_name) _ _ _
            (λ e _ h. cc)
            (λ c' added _. (
              add_finalizer-held Kind.stroom_cluster c c' _ _ added,
              guard_server-held info info' w held,
            )))

  stops-none : (r : Checked) → stops r ≡ none → r.cluster_deleted ≡ false
  stops-none r h = elim (Bool-cases r.cluster_deleted) [
    | inr live ↦ live
    | inl deleted ↦ elim (Option-cases r.error) [
      | inr (e, broken) ↦ cc (rw broken at h)
      | inl clean ↦ elim (Bool-cases r.requeue) [
        | inl again ↦ cc (rw (clean, again) at h)
        | inr once ↦ cc (rw (clean, once, deleted) at h)
      ]
    ]
  ]

  check_if_deleted-live :
      (c : StroomCluster) (info : DatabaseConnectionInfo) (w : E.World)
      → is_being_deleted c ≡ false
      → check_if_deleted E L c info w ≡ guard_deletion E L c info w
  unfolding check_if_deleted
  check_if_deleted-live c info w live = rw live

  -- `Reconcile` goes on to create the children of a cluster only when the cluster has the
  -- finalizer that makes its deletion wait, and the DatabaseServer that it is linked to, if any,
  -- has the finalizer that holds it back. The API server keeps the finalizers that it stores.
  pub check_if_deleted-IsGuarded :
      (c : StroomCluster) (info : DatabaseConnectionInfo) (w : E.World)
      → stops (check_if_deleted E L c info w).0 ≡ none
      → IsGuarded (check_if_deleted E L c info w).0
  check_if_deleted-IsGuarded c info w h = elim (Bool-cases (is_being_deleted c)) [
    | inl deleted ↦
        let live = stops-none (check_if_deleted E L c info w).0 h in
        let gone = check_if_deleted-IsDeleted E L c info w deleted in cc
    | inr live ↦
        let same = check_if_deleted-live c info w live in
        subst (λ r. IsGuarded r.0) (sym same)
          (guard_deletion-IsGuarded c info w (subst (λ r. stops r.0 ≡ none) same h))
  ]
