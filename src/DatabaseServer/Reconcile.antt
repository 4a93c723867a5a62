-- ===== src/DatabaseServer/Reconcile.antt =====
-- internal/controller/databaseserver_controller.go.
pub mod Deleting
pub mod Progress
pub mod Repeat
use stroom_k8s_operator.Base.{
  String, Bool, true, false, not, ◌&&◌, Option, none, some, string_eq, if◌then◌else◌,
}
use stroom_k8s_operator.Base.Int.{pos, ℤ_eq}
use stroom_k8s_operator.Base.State.{Err, not_found, M, pure, ◌>>=◌, ◌>>◌, on}
use stroom_k8s_operator.Kube.Meta.{NamespacedName}
use stroom_k8s_operator.Kube.Env.{Env, Kind, Object, Library}
use stroom_k8s_operator.Kube.Outcome.{Outcome, done, failed, requeued}
use stroom_k8s_operator.Api.Common.{is_zero, namespaced_name, stroom_cluster_finalizer_name}
use stroom_k8s_operator.Api.DatabaseServer.{
  DatabaseServer, is_being_deleted, get_base_name, get_service_name, get_secret_name,
  get_config_map_name, get_init_config_map_name,
}
use stroom_k8s_operator.Database.{database_port}
use stroom_k8s_operator.DatabaseServer.Resources.{
  create_secret, create_config_map, create_db_init_config_map, create_stateful_set, create_service,
}

-- `err == nil && result.IsZero()`
abbrev pub proceeds : Outcome → Bool
proceeds r = elim r.error [ some e ↦ false | none ↦ not r.requeue && ℤ_eq r.requeue_after (pos 0) ]

-- Whether an object is being deleted, and an error.
pub record Deletion : Type 0 where
  pub deleted : Bool
  pub error : Option Err

abbrev pub stops : Deletion → Option Outcome
stops d = elim d.error [ some e ↦ some (failed e) | none ↦ if d.deleted then some done else none ]

module _ (E : Env) where
  open E use {World}

  -- `onCreate`, which makes the object and creates it.
  abbrev pub creation : (k : Kind) → M World (Object k) → M World Outcome
  creation k make = make >>= λ o. on (E.create k o) (λ e. pure (failed e)) (λ _. pure requeued)

  abbrev pub missing : (k : Kind) → M World (Object k) → Err → M World Outcome
  missing k make not_found = creation k make
  missing k make e = pure (failed e)

  -- getOrCreateObject, which each of the three controllers has a copy of.
  unfoldable pub get_or_create_object :
      (k : Kind) → String → String → M World (Object k) → M World Outcome
  get_or_create_object k name namespace make =
      on (E.get k (record { namespace = namespace; name = name })) (missing k make) (λ _. pure done)

  unfoldable pub set_status_undeployed : DatabaseServer → M World (Unit {0})
  set_status_undeployed db =
      E.update_status Kind.database_server
        (record db { status = record { state = "Undeployed"; address = ""; port = pos 0 } })
      >>= λ _. pure tt

  unfoldable pub set_status_deployed : DatabaseServer → M World Outcome
  set_status_deployed db =
      on
        (E.update_status Kind.database_server (record db {
          status = record {
            state = "Deployed";
            address = get_service_name db;
            port = database_port;
          };
        }))
        (λ e. pure (failed e)) (λ _. pure done)

  -- `next` after a step that has nothing to do; else `halt`, and the step's outcome.
  abbrev pub step : M World Outcome → M World (Unit {0}) → M World Outcome → M World Outcome
  step first halt next = first >>= λ r. if proceeds r then next else (halt >> pure r)

module _ (E : Env) (L : Library) where
  open E use {World}

  -- From the test of the claim on.
  unfoldable pub release : DatabaseServer → M World Deletion
  release db =
      on
        (E.update Kind.database_server
          (record db { meta = L.remove_finalizer db.meta stroom_cluster_finalizer_name }))
        (λ e. pure (record { deleted = true; error = some e }))
        (λ _. pure (record { deleted = true; error = none }))

  unfoldable pub check_if_deleted : DatabaseServer → M World Deletion
  unfolding release
  check_if_deleted db =
      if not (is_being_deleted db)
      then pure (record { deleted = false; error = none })
      else if L.contains_finalizer db.meta stroom_cluster_finalizer_name
      then (if is_zero db.stroom_cluster_ref
          then release db
          else on (E.get Kind.stroom_cluster (namespaced_name db.stroom_cluster_ref))
              (λ e. release db) (λ _. pure (record { deleted = true; error = none })))
      else pure (record { deleted = true; error = none })

  -- The child objects, in their order, and the status.
  unfoldable pub create_children : DatabaseServer → M World Outcome
  unfolding get_or_create_object create_secret create_config_map create_db_init_config_map
      create_stateful_set create_service set_status_undeployed set_status_deployed
  create_children db =
      step E
        (get_or_create_object E Kind.secret (get_secret_name db) db.namespace (create_secret E db))
        (pure tt)
        (step E
          (get_or_create_object E Kind.config_map (get_config_map_name db) db.namespace
            (pure (create_config_map L db)))
          (pure tt)
          (step E
            (get_or_create_object E Kind.config_map (get_init_config_map_name db) db.namespace
              (pure (create_db_init_config_map L db)))
            (pure tt)
            (step E
              (get_or_create_object E Kind.stateful_set (get_base_name db) db.namespace
                (pure (create_stateful_set L db)))
              (set_status_undeployed E db)
              (step E
                (get_or_create_object E Kind.service (get_service_name db) db.namespace
                  (pure (create_service L db)))
                (set_status_undeployed E db) (set_status_deployed E db)))))

  abbrev pub get_failure : Err → Outcome
  get_failure not_found = done
  get_failure e = failed e

  abbrev pub go_on : Option Outcome → M World Outcome → M World Outcome
  go_on (some r) m = pure r
  go_on none m = m

  unfoldable pub reconcile : NamespacedName → M World Outcome
  unfolding check_if_deleted create_children
  reconcile request =
      on (E.get Kind.database_server request) (λ e. pure (get_failure e))
        (λ db. check_if_deleted db >>= λ deletion. go_on (stops deletion) (create_children db))
