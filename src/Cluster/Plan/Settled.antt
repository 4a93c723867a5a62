-- ===== src/Cluster/Plan/Settled.antt =====
-- internal/controller/stroomcluster_controller.go: repeated calls of a cluster's `Reconcile`.
use stroom_k8s_operator.Base.{String, ◌≡◌, refl, sym, ap, ◌∙◌, ◌≢◌, some, List, [], ◌∷◌, All}
use mathlib.Core.Path.{subst}
use stroom_k8s_operator.Base.Dict.{Dict}
use stroom_k8s_operator.Base.State.{ok, M, pure, ◌>>◌, on_ok}
use stroom_k8s_operator.Kube.Core.{ServiceAccount}
use stroom_k8s_operator.Kube.Env.{Env, Kind, Object, Library, unchanged}
use stroom_k8s_operator.Kube.Outcome.{Outcome, done, failed}
use stroom_k8s_operator.Api.StroomCluster.{StroomCluster}
use stroom_k8s_operator.Database.{DatabaseConnectionInfo}
use stroom_k8s_operator.DatabaseServer.Children.{Key}
use stroom_k8s_operator.Cluster.Apply.{get_or_create_object}
use stroom_k8s_operator.Cluster.Files.{StaticFiles, all_static_files}
use stroom_k8s_operator.Cluster.Reconcile.{create_children}
use stroom_k8s_operator.Cluster.Plan.{
  Distinct, Item, config_map, stateful_set, service, ingress, kind_of, bare, overwrite, key, write,
  follow_up, run, plan, run-plan,
}
use stroom_k8s_operator.Cluster.Plan.Store.{Look, Stores, run-Shows}
use stroom_k8s_operator.Cluster.Plan.Stored.{
  Written, run-All-Written, account, account_name, account_found, create_children-done,
}

overwrite_twice : (x : Item) (o : Object (kind_of x)) → overwrite x (overwrite x o) ≡ overwrite x o
overwrite_twice (config_map new) o = refl
overwrite_twice (stateful_set n new) o = refl
overwrite_twice (service new) o = refl
overwrite_twice (ingress new) o = refl

module _ (E : Env) (look : Look E) (S : Stores E look) (c : StroomCluster) where
  follow_up-unchanged :
      (x : Item) (o : Object (kind_of x)) (next : M E.World Outcome) (w : E.World)
      → (follow_up E c x (unchanged, o) >> next) w ≡ next w
  follow_up-unchanged (config_map new) o next w = refl
  follow_up-unchanged (stateful_set n new) o next w = refl
  follow_up-unchanged (service new) o next w = refl
  follow_up-unchanged (ingress new) o next w = refl

  write-settled :
      (x : Item) (next : M E.World Outcome) (w : E.World)
      → Written E look S c x w
      → write E c x next w ≡ next w
  write-settled x next w (o, there) =
      on_ok (E.create_or_update (kind_of x) (bare x) (overwrite x)) (λ e. pure (failed e))
        (λ r. follow_up E c x r >> next) w w (unchanged, overwrite x o)
        (S.settled w (kind_of x) (bare x) (overwrite x) (overwrite x o) there (overwrite_twice x o))
      ∙ follow_up-unchanged x (overwrite x o) next w

  run-settled :
      (xs : List Item) (w : E.World)
      → All (λ x. Written E look S c x w) xs
      → run E c xs (pure done) w ≡ (done, w)
  run-settled [] w h = refl
  run-settled (x ∷ xs) w h = write-settled x (run E c xs (pure done)) w h.0 ∙ run-settled xs w h.1

kind_of-ne_account : (x : Item) → Kind.service_account ≢ kind_of x
kind_of-ne_account (config_map new) e = cc
kind_of-ne_account (stateful_set n new) e = cc
kind_of-ne_account (service new) e = cc
kind_of-ne_account (ingress new) e = cc

module _ (E : Env) (look : Look E) (S : Stores E look) (L : Library) (files : StaticFiles)
    (c : StroomCluster) (info : DatabaseConnectionInfo) (contents : Dict String String)
    (read : all_static_files files ≡ ok contents) where
  -- The service account's name is not that of an item.
  account-apart :
      (xs : List Item)
      → All (λ x. let a : Key = (Kind.service_account, account_name E L c) in a ≢ key x) xs
  account-apart [] = tt
  account-apart (x ∷ xs) = (λ e. kind_of-ne_account x (ap (λ p. p.0) e), account-apart xs)

  account_again :
      (o : ServiceAccount) (w : E.World)
      → look w Kind.service_account (account_name E L c) ≡ some o
      → account E L c w ≡ (done, w)
  unfolding get_or_create_object
  account_again o w there =
      on_ok (E.get Kind.service_account (account_name E L c)) _ (λ _. pure done) w w o
        (S.found w Kind.service_account (account_name E L c) o there)

  create_children_again :
      (w : E.World)
      → account E L c w ≡ (done, w)
      → run E c (plan L c info contents) (pure done) w ≡ (done, w)
      → create_children E L files c info w ≡ (done, w)
  unfolding create_children
  create_children_again w found passed =
      rw (found, read) (ap (λ m. m w) (run-plan E c L info contents) ∙ passed)

  -- After a call that ends the work on a cluster's children with neither an error nor a request
  -- to be called again, the next call finds all in place: it returns the same and leaves the API
  -- server as it was. No two objects of the plan have the same kind and name, and the API server
  -- stores what is written to it.
  pub create_children_settled :
      (w : E.World)
      → Distinct (plan L c info contents)
      → (create_children E L files c info w).0 ≡ done
      → create_children E L files c info (create_children E L files c info w).1
        ≡ (done, (create_children E L files c info w).1)
  create_children_settled w distinct h =
      let (goes, passed) = create_children-done E L files c info contents read w h in
      let (o, found, at_account) = account_found E L c w goes in
      let v = (account E L c w).1 in
      let here : look v Kind.service_account (account_name E L c) ≡ some o =
        ap (λ u. look u.1 Kind.service_account (account_name E L c)) at_account
        ∙ (ap (λ u. look u Kind.service_account (account_name E L c)) (S.get_world w _ _)
            ∙ S.get_found w Kind.service_account (account_name E L c) o found) in
      let ended : (run E c (plan L c info contents) (pure done) v).0 ≡ done =
        sym (ap (λ r. r.0) passed) ∙ h in
      let kept =
        (run-Shows E look S c Kind.service_account (account_name E L c) (some o) (λ e. cc)
            (plan L c info contents) (account-apart (plan L c info contents))).at
          v here in
      let all = run-All-Written E look S c (plan L c info contents) v distinct ended in
      subst (λ r. create_children E L files c info r.1 ≡ (done, r.1)) (sym passed)
        (create_children_again _ (account_again o _ kept)
          (run-settled E look S c (plan L c info contents) _ all))
