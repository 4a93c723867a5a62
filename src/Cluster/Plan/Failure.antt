-- ===== src/Cluster/Plan/Failure.antt =====
-- internal/controller/stroomcluster_controller.go: an error in the middle of a cluster's `Reconcile`.
use stroom_k8s_operator.Base.{String, ◌≡◌, ap, ◌∙◌, List, [], ◌∷◌, ◌++◌}
use stroom_k8s_operator.Base.Dict.{Dict}
use stroom_k8s_operator.Base.State.{Err, Result, ok, err, M, pure, ◌>>◌, on_ok, on_err, on_cases}
use stroom_k8s_operator.Kube.Env.{Env, Object, OperationResult, Library}
use stroom_k8s_operator.Kube.Outcome.{Outcome, done, failed}
use stroom_k8s_operator.Api.StroomCluster.{StroomCluster}
use stroom_k8s_operator.Database.{DatabaseConnectionInfo}
use stroom_k8s_operator.Cluster.Reconcile.{apply_static_content}
use stroom_k8s_operator.Cluster.Plan.{
  Item, kind_of, bare, overwrite, follow_up, run, run-append, plan, run-plan,
}

module _ (E : Env) (c : StroomCluster) where
  -- A pass that ends well goes on to what comes after it.
  run-done :
      (xs : List Item) (next : M E.World Outcome) (w v : E.World)
      → run E c xs (pure done) w ≡ (done, v)
      → run E c xs next w ≡ next v
  run-done [] next w v h = ap (λ r. next r.1) h
  run-done (x ∷ xs) next w v h =
      on_cases (λ r. r ≡ (done, v) → run E c (x ∷ xs) next w ≡ next v)
        (E.create_or_update (kind_of x) (bare x) (overwrite x)) _ _ w (λ e _ h'. absurd (cc))
        (λ r written h'.
          let m : M E.World (Result (OperationResult × Object (kind_of x))) =
            E.create_or_update (kind_of x) (bare x) (overwrite x) in
          on_ok m (λ e. pure (failed e)) (λ r'. follow_up E c x r' >> run E c xs next) w (m w).1 r
            (ap (λ a. (a, (m w).1)) written)
          ∙ run-done xs next (follow_up E c x r (m w).1).1 v h')
        h

module _ (E : Env) (L : Library) (c : StroomCluster) (info : DatabaseConnectionInfo)
    (contents : Dict String String) where
  -- An error of `CreateOrUpdate` on an object of the plan is what `Reconcile` returns, in the world
  -- that the failed call left: once all objects before it are written, no object after it is.
  pub apply_static_content-failed :
      (xs ys : List Item) (x : Item) (e : Err) (w v u : E.World)
      → plan L c info contents ≡ xs ++ x ∷ ys
      → run E c xs (pure done) w ≡ (done, v)
      → E.create_or_update (kind_of x) (bare x) (overwrite x) v ≡ (err e, u)
      → apply_static_content E L c info (ok contents) w ≡ (failed e, u)
  apply_static_content-failed xs ys x e w v u split before fails =
      ap (λ m. m w) (run-plan E c L info contents)
      ∙ (ap (λ p. run E c p (pure done) w) split
          ∙ (ap (λ m. m w) (run-append E c xs (x ∷ ys) (pure done))
              ∙ (run-done E c xs (run E c (x ∷ ys) (pure done)) w v before
                  ∙ on_err (E.create_or_update (kind_of x) (bare x) (overwrite x))
                      (λ e'. pure (failed e')) (λ r. follow_up E c x r >> run E c ys (pure done)) v
                      u e fails)))
