-- ===== src/Cluster/Plan/Stored.antt =====
-- internal/controller/stroomcluster_controller.go: what a cluster's `Reconcile` has stored when it
-- ends.
use stroom_k8s_operator.Base.{
  String, ◌≡◌, refl, ap, ◌≢◌, true, false, Bool-cases, inl, inr, some, List, [], ◌∷◌, ◌++◌, All,
  sym, ap, ◌∙◌,
}
use stroom_k8s_operator.Base.Dict.{Dict}
use stroom_k8s_operator.Base.State.{Err, not_found, bad_request, failure, ok, M, pure, on_cases}
use stroom_k8s_operator.Kube.Meta.{NamespacedName, ObjectMeta}
use stroom_k8s_operator.Kube.Core.{ServiceAccount}
use stroom_k8s_operator.Kube.Env.{Env, Kind, Object, Library, key_of}
use stroom_k8s_operator.Kube.Outcome.{Outcome, done}
use stroom_k8s_operator.Api.StroomCluster.{StroomCluster, get_base_name}
use stroom_k8s_operator.Database.{DatabaseConnectionInfo}
use stroom_k8s_operator.DatabaseServer.Reconcile.{proceeds}
use stroom_k8s_operator.Cluster.Config.{create_service_account}
use stroom_k8s_operator.Cluster.Apply.{get_or_create_object, missing}
use stroom_k8s_operator.Cluster.Files.{StaticFiles, all_static_files}
use stroom_k8s_operator.Cluster.Reconcile.{create_children}
use stroom_k8s_operator.Cluster.Plan.{
  Apart, Distinct, Item, config_map, stateful_set, service, ingress, kind_of, bare, overwrite,
  follow_up, write, run, plan, run-plan,
}
use stroom_k8s_operator.Cluster.Plan.Store.{Look, Stores, follow_up-Shows, run-Shows}

kind_of-ne : (x : Item) → kind_of x ≢ Kind.persistent_volume_claim
kind_of-ne (config_map new) e = cc
kind_of-ne (stateful_set n new) e = cc
kind_of-ne (service new) e = cc
kind_of-ne (ingress new) e = cc

-- The metadata that the operator decides on.
abbrev pub HasMeta : ObjectMeta → ObjectMeta → Type 0
HasMeta new m =
    (m.labels ≡ new.labels)
    × (m.annotations ≡ new.annotations)
    × (m.owner_references ≡ new.owner_references)

-- A stored object with all that an item of the plan asks for.
abbrev pub Carries : (x : Item) → Object (kind_of x) → Type 0
Carries (config_map new) o = HasMeta new.meta o.meta × (o.items ≡ new.items)
Carries (stateful_set n new) o = HasMeta new.meta o.meta × (o.spec ≡ new.spec)
Carries (service new) o = HasMeta new.meta o.meta × (o.spec ≡ new.spec)
Carries (ingress new) o = HasMeta new.meta o.meta × (o.spec ≡ new.spec)

overwrite-Carries : (x : Item) (o : Object (kind_of x)) → Carries x (overwrite x o)
overwrite-Carries (config_map new) o = ((refl, refl, refl), refl)
overwrite-Carries (stateful_set n new) o = ((refl, refl, refl), refl)
overwrite-Carries (service new) o = ((refl, refl, refl), refl)
overwrite-Carries (ingress new) o = ((refl, refl, refl), refl)

module _ (E : Env) (look : Look E) (S : Stores E look) (c : StroomCluster) where
  -- The object of an item, as one call of `CreateOrUpdate` left it.
  abbrev pub Written : Item → E.World → Type 0
  Written x w =
      (o : Object (kind_of x)) × (look w (kind_of x) (key_of (kind_of x) (bare x))
        ≡ some (overwrite x o))

  write-Written :
      (x : Item) (ys : List Item) (w : E.World)
      → Apart x ys
      → (write E c x (run E c ys (pure done)) w).0 ≡ done
      → Written x (write E c x (run E c ys (pure done)) w).1
  write-Written x ys w apart =
      on_cases (λ r. r.0 ≡ done → Written x r.1)
        (E.create_or_update (kind_of x) (bare x) (overwrite x)) _ _ w (λ e _ h. cc)
        (λ r written _. (
          r.1,
          (run-Shows E look S c _ _ _ (kind_of-ne x) ys apart).at _ (
              (follow_up-Shows E look S c _ _ _ (kind_of-ne x) x r).at _
                (S.written w (kind_of x) (bare x) (overwrite x) r written)),
        ))

  -- A pass that ends well leaves the last object under each key as the plan has it.
  pub run-Written :
      (xs ys : List Item) (x : Item) (w : E.World)
      → Apart x ys
      → (run E c (xs ++ x ∷ ys) (pure done) w).0 ≡ done
      → Written x (run E c (xs ++ x ∷ ys) (pure done) w).1
  run-Written [] ys x w apart = write-Written x ys w apart
  run-Written (y ∷ xs) ys x w apart =
      on_cases (λ r. r.0 ≡ done → Written x r.1)
        (E.create_or_update (kind_of y) (bare y) (overwrite y)) _ _ w (λ e _ h. cc)
        (λ r written.
          run-Written xs ys x
            (follow_up E c y r (E.create_or_update (kind_of y) (bare y) (overwrite y) w).1).1 apart)

  -- Where every item has a key of its own, a pass that ends well leaves them all.
  pub run-All-Written :
      (xs : List Item) (w : E.World)
      → Distinct xs
      → (run E c xs (pure done) w).0 ≡ done
      → All (λ x. Written x (run E c xs (pure done) w).1) xs
  run-All-Written [] w apart h = tt
  run-All-Written (x ∷ xs) w apart h = (
    write-Written x xs w apart.0 h,
    on_cases (λ r. r.0 ≡ done → All (λ y. Written y r.1) xs)
        (E.create_or_update (kind_of x) (bare x) (overwrite x)) _ _ w (λ e _ h'. cc)
        (λ r written.
          run-All-Written xs
            (follow_up E c x r (E.create_or_update (kind_of x) (bare x) (overwrite x) w).1).1
            apart.1)
        h,
  )

-- A missing object never lets the caller go on.
missing-proceeds :
    (E : Env) (k : Kind) (make : M E.World (Object k)) (e : Err) (w : E.World)
    → proceeds (missing E k make e w).0 ≡ false
missing-proceeds E k make not_found w =
    on_cases (λ r. proceeds r.0 ≡ false) (E.create k (make w).0) _ _ (make w).1 (λ e _. refl)
      (λ o _. refl)
missing-proceeds E k make (bad_request m) w = refl
missing-proceeds E k make (failure m) w = refl

module _ (E : Env) (L : Library) (c : StroomCluster) where
  abbrev pub account_name : NamespacedName
  account_name = record { namespace = c.namespace; name = get_base_name c }

  -- The service account is looked up first, and a new one ends the call.
  abbrev pub account : M E.World Outcome
  account =
      get_or_create_object E Kind.service_account (get_base_name c) c.namespace
        (pure (create_service_account L c))

  pub account_found :
      (w : E.World)
      → proceeds (account w).0 ≡ true
      → (o : ServiceAccount) × ((E.get Kind.service_account account_name w).0 ≡ ok o)
        × (account w ≡ (done, (E.get Kind.service_account account_name w).1))
  unfolding get_or_create_object
  account_found w =
      on_cases
        (λ r.
          proceeds r.0 ≡ true
          → (o : ServiceAccount) × ((E.get Kind.service_account account_name w).0 ≡ ok o)
            × (r ≡ (done, (E.get Kind.service_account account_name w).1)))
        (E.get Kind.service_account account_name) _ _ w
        (λ e gone goes.
          let stopped =
            missing-proceeds E Kind.service_account (pure (create_service_account L c)) e
              (E.get Kind.service_account account_name w).1 in
          absurd (cc))
        (λ o found goes. (o, found, refl))

module _ (E : Env) (L : Library) (files : StaticFiles) (c : StroomCluster)
    (info : DatabaseConnectionInfo) (contents : Dict String String)
    (read : all_static_files files ≡ ok contents) where
  -- A call that ends with no more to do has found the service account and passed over the plan.
  pub create_children-done :
      (w : E.World)
      → (create_children E L files c info w).0 ≡ done
      → (proceeds (account E L c w).0 ≡ true)
        × (create_children E L files c info w
            ≡ run E c (plan L c info contents) (pure done) (account E L c w).1)
  unfolding create_children
  create_children-done w h = elim (Bool-cases (proceeds (account E L c w).0)) [
    | inl goes ↦
        (goes, rw (goes, read) (ap (λ m. m (account E L c w).1) (run-plan E c L info contents)))
    | inr stays ↦
        let same : (account E L c w).0 ≡ done = rw stays at h in
        let goes : proceeds (account E L c w).0 ≡ true = rw same in absurd (cc)
  ]

  -- When `Reconcile` ends its work on the children of a cluster with neither an error nor a
  -- request to be called again, then every object of the plan is stored with the labels, the
  -- annotations, the owner and the content that the plan gives it, if no later object of the plan
  -- has the same kind and name. The API server stores what is written to it.
  pub create_children-Carries :
      (look : Look E) (S : Stores E look) (xs ys : List Item) (x : Item) (w : E.World)
      → plan L c info contents ≡ xs ++ x ∷ ys
      → Apart x ys
      → (create_children E L files c info w).0 ≡ done
      → (o : Object (kind_of x)) × (look
            (create_children E L files c info w).1
            (kind_of x)
            (key_of (kind_of x) (bare x))
          ≡ some o)
        × Carries x o
  create_children-Carries look S xs ys x w split apart h =
      let (goes, passed) = create_children-done w h in
      let same = passed ∙ ap (λ p. run E c p (pure done) (account E L c w).1) split in
      let (o, there) =
        run-Written E look S c xs ys x (account E L c w).1 apart (sym (ap (λ r. r.0) same) ∙ h) in
      (
        overwrite x o,
        ap (λ r. look r.1 (kind_of x) (key_of (kind_of x) (bare x))) same ∙ there,
        overwrite-Carries x o,
      )
