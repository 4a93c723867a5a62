-- ===== src/Operator/Server.antt =====
-- internal/controller/databaseserver_controller.go: the calls of `Reconcile`.
use stroom_k8s_operator.Base.{String, Option, none, some, if◌then◌else◌}
use stroom_k8s_operator.Base.State.{Err, not_found, bad_request, failure, M, pure, ◌>>◌}
use stroom_k8s_operator.Base.Keeps.{
  Keeps, Keeps-pure, Keeps-bind, Keeps-if, Keeps-then, Keeps-on, keeps_rules,
}
use stroom_k8s_operator.Kube.Meta.{NamespacedName}
use stroom_k8s_operator.Kube.Env.{Env, Kind, Object, Library}
use stroom_k8s_operator.Kube.Outcome.{Outcome, done, failed}
use stroom_k8s_operator.Api.DatabaseServer.{DatabaseServer}
use stroom_k8s_operator.DatabaseServer.Resources.{generate_password, create_secret}
use stroom_k8s_operator.DatabaseServer.Reconcile.{
  proceeds, missing, get_or_create_object, set_status_undeployed, set_status_deployed, step,
  release, check_if_deleted, create_children, go_on, reconcile,
}
use stroom_k8s_operator.Operator.Calls.{IsSpared}

module _ (E : Env) (L : Library) (P : E.World → Type 0) (K : IsSpared E P) where
  missing-kept :
      (k : Kind) (make : M E.World (Object k)) (e : Err)
      → Keeps P make
      → ((o : Object k) → Keeps P (E.create k o))
      → Keeps P (missing E k make e)
  missing-kept k make not_found made created = search (keeps_rules, made, created)
  missing-kept k make (bad_request m) made created = Keeps-pure (failed (bad_request m))
  missing-kept k make (failure m) made created = Keeps-pure (failed (failure m))

  get_or_create_object-kept :
      (k : Kind) (name namespace : String) (make : M E.World (Object k))
      → Keeps P make
      → ((o : Object k) → Keeps P (E.create k o))
      → Keeps P (get_or_create_object E k name namespace make)
  unfolding get_or_create_object
  get_or_create_object-kept k name namespace make made created =
      Keeps-on (E.get k (record { namespace = namespace; name = name })) (missing E k make)
        (λ _. pure done) (K.get k _) (λ e. missing-kept k make e made created)
        (λ _. Keeps-pure done)

  create_secret-kept : (db : DatabaseServer) → Keeps P (create_secret E db)
  unfolding create_secret generate_password
  create_secret-kept db = search (keeps_rules, K.must_generate)

  set_status_undeployed-kept : (db : DatabaseServer) → Keeps P (set_status_undeployed E db)
  unfolding set_status_undeployed
  set_status_undeployed-kept db = search (keeps_rules, K.update_status)

  set_status_deployed-kept : (db : DatabaseServer) → Keeps P (set_status_deployed E db)
  unfolding set_status_deployed
  set_status_deployed-kept db = search (keeps_rules, K.update_status)

  step-kept :
      (first : M E.World Outcome) (halt : M E.World (Unit {0})) (next : M E.World Outcome)
      → Keeps P first
      → Keeps P halt
      → Keeps P next
      → Keeps P (step E first halt next)
  step-kept first halt next kf kh kn =
      Keeps-bind first (λ r. if proceeds r then next else (halt >> pure r)) kf
        (λ r.
          Keeps-if (proceeds r) next (halt >> pure r) kn
            (Keeps-then halt (pure r) kh (Keeps-pure r)))

  create_children-kept : (db : DatabaseServer) → Keeps P (create_children E L db)
  unfolding create_children
  create_children-kept db =
      step-kept _ (pure tt) _
        (get_or_create_object-kept Kind.secret _ _ _ (create_secret-kept db) K.create_secret)
        (Keeps-pure tt)
        (step-kept _ (pure tt) _
          (get_or_create_object-kept Kind.config_map _ _ _ (Keeps-pure _) K.create_config_map)
          (Keeps-pure tt)
          (step-kept _ (pure tt) _
            (get_or_create_object-kept Kind.config_map _ _ _ (Keeps-pure _) K.create_config_map)
            (Keeps-pure tt)
            (step-kept _ (set_status_undeployed E db) _
              (get_or_create_object-kept Kind.stateful_set _ _ _ (Keeps-pure _)
                K.create_stateful_set)
              (set_status_undeployed-kept db)
              (step-kept _ (set_status_undeployed E db) _
                (get_or_create_object-kept Kind.service _ _ _ (Keeps-pure _) K.create_service)
                (set_status_undeployed-kept db) (set_status_deployed-kept db)))))

  release-kept : (db : DatabaseServer) → Keeps P (release E L db)
  unfolding release
  release-kept db = search (keeps_rules, K.update_server)

  check_if_deleted-kept : (db : DatabaseServer) → Keeps P (check_if_deleted E L db)
  unfolding check_if_deleted
  check_if_deleted-kept db = search (keeps_rules, release-kept, K.get)

  go_on-kept : (r : Option Outcome) (m : M E.World Outcome) → Keeps P m → Keeps P (go_on E L r m)
  go_on-kept none m k = k
  go_on-kept (some r) m k = Keeps-pure r

  pub reconcile-kept : (request : NamespacedName) → Keeps P (reconcile E L request)
  unfolding reconcile
  reconcile-kept request =
      search (keeps_rules, K.get, check_if_deleted-kept, go_on-kept, create_children-kept)
