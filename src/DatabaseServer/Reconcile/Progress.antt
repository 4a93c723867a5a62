-- ===== src/DatabaseServer/Reconcile/Progress.antt =====
-- internal/controller/databaseserver_controller.go: how repeated calls of `Reconcile` reach the
-- state Deployed.
use stroom_k8s_operator.Base.{
  ◌<◌, String, ◌≡◌, refl, sym, ◌∙◌, ◌⊎◌, inl, inr, Bool, true, false, List, [], ◌∷◌, ◌++◌, All,
  Bool-cases,
}
use mathlib.Core.Path.{subst}
use stroom_k8s_operator.Base.State.{ok, M, pure}
use stroom_k8s_operator.Kube.Meta.{NamespacedName}
use stroom_k8s_operator.Kube.Env.{Env, Kind, Object, Library, key_of}
use stroom_k8s_operator.Kube.Outcome.{Outcome, done, requeued}
use stroom_k8s_operator.Api.DatabaseServer.{
  DatabaseServer, is_being_deleted, get_base_name, get_service_name, get_secret_name,
  get_config_map_name, get_init_config_map_name,
}
use stroom_k8s_operator.DatabaseServer.Names.{
  KeepsNames, create_config_map-key, create_db_init_config_map-key, create_stateful_set-key,
  create_service-key,
}
use stroom_k8s_operator.DatabaseServer.Resources.{
  generate_password, create_secret, create_config_map, create_db_init_config_map,
  create_stateful_set, create_service,
}
use stroom_k8s_operator.DatabaseServer.Reconcile.{
  get_or_create_object, step, set_status_deployed, set_status_undeployed, create_children,
  check_if_deleted, reconcile,
}
use stroom_k8s_operator.DatabaseServer.Children.{
  Key, Serves, secret_key, config_key, init_key, stateful_set_key, children, absent_of,
  absent_of_lt,
}

module _ (E : Env) (has : E.World → Key → Bool) (S : Serves E has) where
  -- An object that is there is left alone.
  get_or_create_object-found :
      (k : Kind) (name namespace : String) (make : M E.World (Object k)) (w : E.World)
      → has w (k, record { namespace = namespace; name = name }) ≡ true
      → get_or_create_object E k name namespace make w ≡ (done, w)
  unfolding get_or_create_object
  get_or_create_object-found k name namespace make w there =
      let (o, found) = S.found w k _ there in rw found

  -- An object that is not there is created, and the caller asks to be called again.
  get_or_create_object-absent :
      (k : Kind) (name namespace : String) (make : M E.World (Object k)) (w : E.World)
      → key_of k (make w).0 ≡ record { namespace = namespace; name = name }
      → ((c : Key) → has (make w).1 c ≡ has w c)
      → has w (k, record { namespace = namespace; name = name }) ≡ false
      → get_or_create_object E k name namespace make w
        ≡ (requeued, (E.create k (make w).0 (make w).1).1)
  unfolding get_or_create_object
  get_or_create_object-absent k name namespace make w named same gone =
      let gone' : has (make w).1 (k, key_of k (make w).0) ≡ false = rw (named, same) gone in
      let (o, made) = S.create _ k _ gone' in rw (S.absent w k _ gone, made)

  -- What is created is `make`'s object, and `halt` sets a status at most.
  module _ (k : Kind) (name namespace : String) (make : M E.World (Object k))
      (halt : M E.World (Unit {0})) (w : E.World)
      (named : key_of k (make w).0 ≡ record { namespace = namespace; name = name })
      (same : (c : Key) → has (make w).1 c ≡ has w c)
      (quiet : (v : E.World) (c : Key) → has (halt v).1 c ≡ has v c) where
    abbrev after_creation : E.World
    after_creation = (halt (E.create k (make w).0 (make w).1).1).1

    -- A step either goes on in the same world, or creates its object and stops.
    step_cases :
        (Q : Outcome × E.World → Type 0) (next : M E.World Outcome)
        → (has w (k, record { namespace = namespace; name = name }) ≡ true → Q (next w))
        → (has w (k, record { namespace = namespace; name = name }) ≡ false
            → Q (requeued, after_creation))
        → Q (step E (get_or_create_object E k name namespace make) halt next w)
    step_cases Q next there gone =
        elim (Bool-cases (has w (k, record { namespace = namespace; name = name }))) [
          | inl h ↦ rw (get_or_create_object-found k name namespace make w h) (there h)
          | inr h ↦ rw (get_or_create_object-absent k name namespace make w named same h) (gone h)
        ]

    -- The creation leaves fewer objects to create.
    creation_less :
        (xs ys : List Key)
        → has w (k, record { namespace = namespace; name = name }) ≡ false
        → absent_of
            (has after_creation)
            (xs ++ (k, record { namespace = namespace; name = name }) ∷ ys)
          < absent_of (has w) (xs ++ (k, record { namespace = namespace; name = name }) ∷ ys)
    creation_less xs ys gone =
        let gone' : has (make w).1 (k, key_of k (make w).0) ≡ false = rw (named, same) gone in
        absent_of_lt (has w) (has after_creation)
          (λ c there. quiet _ c ∙ S.kept _ k _ c (same c ∙ there)) xs ys _ gone
          (quiet _ _
            ∙ subst (λ n. has (E.create k (make w).0 (make w).1).1 (k, n) ≡ true) named
                (S.created _ k _ gone'))

module _ (E : Env) (has : E.World → Key → Bool) (S : Serves E has) (L : Library)
    (names : KeepsNames L) (db : DatabaseServer) where
  -- Fewer objects are missing and the caller asks to be called again, or none was missing and the
  -- status is set.
  abbrev pub Progresses : E.World → Outcome × E.World → Type 0
  Progresses w r =
      ((r.0 ≡ requeued) × (absent_of (has r.1) (children db) < absent_of (has w) (children db)))
      ⊎ (All (λ c. has w c ≡ true) (children db) × (r ≡ set_status_deployed E db w))

  create_secret-key :
      (w : E.World)
      → key_of Kind.secret (create_secret E db w).0
        ≡ record { namespace = db.namespace; name = get_secret_name db }
  unfolding create_secret
  create_secret-key w = refl

  create_secret-has : (w : E.World) (c : Key) → has (create_secret E db w).1 c ≡ has w c
  unfolding create_secret generate_password
  create_secret-has w c = S.generate _ _ _ _ _ _ c ∙ S.generate w _ _ _ _ _ c

  set_status_undeployed-has :
      (w : E.World) (c : Key) → has (set_status_undeployed E db w).1 c ≡ has w c
  unfolding set_status_undeployed
  set_status_undeployed-has w c = S.status w _ _ c

  one_step :
      (k : Kind) (name : String) (make : M E.World (Object k)) (halt : M E.World (Unit {0}))
      (w : E.World) (xs ys : List Key) (next : M E.World Outcome)
      → key_of k (make w).0 ≡ record { namespace = db.namespace; name = name }
      → ((c : Key) → has (make w).1 c ≡ has w c)
      → ((v : E.World) (c : Key) → has (halt v).1 c ≡ has v c)
      → children db ≡ xs ++ (k, record { namespace = db.namespace; name = name }) ∷ ys
      → (has w (k, record { namespace = db.namespace; name = name }) ≡ true → Progresses w (next w))
      → Progresses w (step E (get_or_create_object E k name db.namespace make) halt next w)
  one_step k name make halt w xs ys next named same quiet split there =
      step_cases E has S k name db.namespace make halt w named same quiet (Progresses w) next there
        (λ gone. inl (
          refl,
          subst
              (λ cs.
                absent_of
                  (has (after_creation E has S k name db.namespace make halt w named same quiet)) cs
                < absent_of (has w) cs)
              (sym split)
              (creation_less E has S k name db.namespace make halt w named same quiet xs ys gone),
        ))

  create_children-Progresses : (w : E.World) → Progresses w (create_children E L db w)
  unfolding create_children
  create_children-Progresses w =
      one_step Kind.secret (get_secret_name db) (create_secret E db) (pure tt) w [] _ _
        (create_secret-key w) (create_secret-has w) (λ v c. refl) refl
        (λ h1.
          one_step Kind.config_map (get_config_map_name db) (pure (create_config_map L db))
            (pure tt) w (secret_key db ∷ []) _ _ (create_config_map-key L names db) (λ c. refl)
            (λ v c. refl) refl
            (λ h2.
              one_step Kind.config_map (get_init_config_map_name db)
                (pure (create_db_init_config_map L db)) (pure tt) w
                (secret_key db ∷ config_key db ∷ []) _ _ (create_db_init_config_map-key L names db)
                (λ c. refl) (λ v c. refl) refl
                (λ h3.
                  one_step Kind.stateful_set (get_base_name db) (pure (create_stateful_set L db))
                    (set_status_undeployed E db) w
                    (secret_key db ∷ config_key db ∷ init_key db ∷ []) _ _
                    (create_stateful_set-key L names db) (λ c. refl) set_status_undeployed-has refl
                    (λ h4.
                      one_step Kind.service (get_service_name db) (pure (create_service L db))
                        (set_status_undeployed E db) w
                        (secret_key db ∷ config_key db ∷ init_key db ∷ stateful_set_key db ∷ []) _ _
                        (create_service-key L names db) (λ c. refl) set_status_undeployed-has refl
                        (λ h5. inr ((h1, (h2, (h3, (h4, (h5, tt))))), refl))))))

  reconcile-live :
      (request : NamespacedName) (w : E.World)
      → E.get Kind.database_server request w ≡ (ok db, w)
      → is_being_deleted db ≡ false
      → reconcile E L request w ≡ create_children E L db w
  unfolding reconcile check_if_deleted
  reconcile-live request w read live = rw (read, live) refl

  -- Against an API server on which only the operator acts, each call of `Reconcile` on a server
  -- that exists and is not being deleted either creates an object that was missing and asks to be
  -- called again, with fewer of the five objects missing than before, or finds all five and does
  -- nothing but set the status to Deployed. `SetControllerReference` keeps the objects' names.
  pub reconcile-Progresses :
      (request : NamespacedName) (w : E.World)
      → E.get Kind.database_server request w ≡ (ok db, w)
      → is_being_deleted db ≡ false
      → Progresses w (reconcile E L request w)
  reconcile-Progresses request w read live =
      subst (Progresses w) (sym (reconcile-live request w read live)) (create_children-Progresses w)
