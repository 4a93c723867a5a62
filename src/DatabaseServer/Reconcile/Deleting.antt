-- ===== src/DatabaseServer/Reconcile/Deleting.antt =====
-- internal/controller/databaseserver_controller.go: what `Reconcile` does to a server that is being
-- deleted.
use stroom_k8s_operator.Base.{◌≡◌, refl, sym, true, false, Bool-cases, Option-cases, some, inl, inr}
use mathlib.Core.Path.{subst}
use stroom_k8s_operator.Base.State.{ok, M, on_cases}
use stroom_k8s_operator.Base.Keeps.{Keeps}
use stroom_k8s_operator.Kube.Meta.{NamespacedName}
use stroom_k8s_operator.Kube.Env.{Env, Kind, Library}
use stroom_k8s_operator.Kube.Outcome.{Outcome, done}
use stroom_k8s_operator.Api.Common.{is_zero, namespaced_name, stroom_cluster_finalizer_name}
use stroom_k8s_operator.Api.DatabaseServer.{DatabaseServer, is_being_deleted}
use stroom_k8s_operator.Api.StroomCluster.{StroomCluster}
use stroom_k8s_operator.DatabaseServer.Reconcile.{
  Deletion, stops, go_on, release, check_if_deleted, create_children, reconcile,
}

-- A property of the world that reading keeps, and that the removal of the finalizer from a server
-- that is being deleted keeps.
pub record IsKept (E : Env) (L : Library) (P : E.World → Type 0) : Type 0 where
  pub get : (k : Kind) (n : NamespacedName) → Keeps P (E.get k n)
  pub update :
      (db : DatabaseServer)
      → is_being_deleted db ≡ true
      → Keeps P (
          E.update Kind.database_server
            (record db { meta = L.remove_finalizer db.meta stroom_cluster_finalizer_name }))

-- `Reconcile` of a deleted server stops.
stops-deleted :
    (E : Env) (L : Library) (Q : E.World → Type 0) (d : Deletion) (m : M E.World Outcome)
    (w : E.World)
    → d.deleted ≡ true
    → Q w
    → Q (go_on E L (stops d) m w).1
stops-deleted E L Q d m w h q = elim (Option-cases d.error) [
  | inl clean ↦ rw (clean, h) q
  | inr (e, broken) ↦ rw broken q
]

module _ (E : Env) (L : Library) (P : E.World → Type 0) (K : IsKept E L P) where
  abbrev IsStopped : Deletion × E.World → Type 0
  IsStopped r = (r.0.deleted ≡ true) × P r.1

  release-IsStopped :
      (db : DatabaseServer) (w : E.World)
      → is_being_deleted db ≡ true
      → P w
      → IsStopped (release E L db w)
  unfolding release
  release-IsStopped db w h p =
      on_cases IsStopped
        (E.update Kind.database_server
          (record db { meta = L.remove_finalizer db.meta stroom_cluster_finalizer_name }))
        _ _ w (λ e _. (refl, (K.update db h).at w p)) (λ _ _. (refl, (K.update db h).at w p))

  check_if_deleted-IsStopped :
      (db : DatabaseServer) (w : E.World)
      → is_being_deleted db ≡ true
      → P w
      → IsStopped (check_if_deleted E L db w)
  unfolding check_if_deleted
  check_if_deleted-IsStopped db w h p =
      elim (Bool-cases (L.contains_finalizer db.meta stroom_cluster_finalizer_name)) [
        | inr plain ↦ rw (h, plain) (refl, p)
        | inl held ↦ elim (Bool-cases (is_zero db.stroom_cluster_ref)) [
          | inl free ↦ rw (h, held, free) (release-IsStopped db w h p)
          | inr claimed ↦
              rw (h, held, claimed)
                (on_cases IsStopped
                  (E.get Kind.stroom_cluster (namespaced_name db.stroom_cluster_ref)) _ _ w
                  (λ e _. release-IsStopped db _ h ((K.get _ _).at w p))
                  (λ c _. (refl, (K.get _ _).at w p)))
        ]
      ]

  -- `Reconcile` of a server that is being deleted only reads, and removes the finalizer from such
  -- a server: it keeps every property of the world that these keep, so that no child is created
  -- and no status is set. The server is the one that `Get` returns, if it returns one.
  pub reconcile-deleted_kept :
      (request : NamespacedName) (w : E.World)
      → ((db : DatabaseServer)
          → (E.get Kind.database_server request w).0 ≡ ok db
          → is_being_deleted db ≡ true)
      → P w
      → P (reconcile E L request w).1
  unfolding reconcile
  reconcile-deleted_kept request w deleting p =
      let p' = (K.get Kind.database_server request).at w p in
      on_cases (λ r. P r.1) (E.get Kind.database_server request) _ _ w (λ e _. p')
        (λ db found.
          let r = check_if_deleted-IsStopped db _ (deleting db found) p' in
          stops-deleted E L P (check_if_deleted E L db _).0 (create_children E L db) _ r.0 r.1)

module _ (E : Env) (L : Library) (P : E.World → Type 0)
    (get : (k : Kind) (n : NamespacedName) → Keeps P (E.get k n)) where
  abbrev IsHeld : Deletion × E.World → Type 0
  IsHeld r = (stops r.0 ≡ some done) × P r.1

  check_if_deleted-IsHeld :
      (db : DatabaseServer) (c : StroomCluster) (w : E.World)
      → is_being_deleted db ≡ true
      → is_zero db.stroom_cluster_ref ≡ false
      → (E.get Kind.stroom_cluster (namespaced_name db.stroom_cluster_ref) w).0 ≡ ok c
      → P w
      → IsHeld (check_if_deleted E L db w)
  unfolding check_if_deleted
  check_if_deleted-IsHeld db c w h claimed found p =
      elim (Bool-cases (L.contains_finalizer db.meta stroom_cluster_finalizer_name)) [
        | inr plain ↦ rw (h, plain) (refl, p)
        | inl held ↦
            rw (h, held, claimed)
              (on_cases IsHeld (E.get Kind.stroom_cluster (namespaced_name db.stroom_cluster_ref)) _
                _ w (λ e broken. cc) (λ c' _. (refl, (get _ _).at w p)))
      ]

  go_on-done :
      (d : Deletion) (m : M E.World Outcome) (w : E.World)
      → IsHeld (d, w)
      → ((go_on E L (stops d) m w).0 ≡ done) × P (go_on E L (stops d) m w).1
  go_on-done d m w held = rw (held.0) (refl, held.1)

  -- A server that is being deleted, and that a cluster which can still be read has claimed:
  -- `Reconcile` returns without an error and without a request to be called again, and it only
  -- reads. The server keeps its finalizer, if it has one.
  pub reconcile-claimed_done :
      (request : NamespacedName) (db : DatabaseServer) (c : StroomCluster) (w : E.World)
      → (E.get Kind.database_server request w).0 ≡ ok db
      → is_being_deleted db ≡ true
      → is_zero db.stroom_cluster_ref ≡ false
      → (E.get Kind.stroom_cluster
          (namespaced_name db.stroom_cluster_ref)
          (E.get Kind.database_server request w).1).0
        ≡ ok c
      → P w
      → ((reconcile E L request w).0 ≡ done) × P (reconcile E L request w).1
  unfolding reconcile
  reconcile-claimed_done request db c w found h claimed read p =
      on_cases (λ r. (r.0 ≡ done) × P r.1) (E.get Kind.database_server request) _ _ w
        (λ e broken. cc)
        (λ db' found'.
          let same : db' ≡ db = cc in
          go_on-done _ (create_children E L db') _ (
            subst (λ d. IsHeld (check_if_deleted E L d (E.get Kind.database_server request w).1))
              (sym same) (check_if_deleted-IsHeld db c _ h claimed read ((get _ request).at w p))))
