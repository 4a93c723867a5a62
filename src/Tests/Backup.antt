-- ===== src/Tests/Backup.antt =====
-- The theorem on a DatabaseBackup that cannot be read, at a concrete client.
use stroom_k8s_operator.Base.{refl}
use stroom_k8s_operator.Base.State.{not_found, bad_request, Result, err}
use stroom_k8s_operator.Kube.Meta.{NamespacedName}
use stroom_k8s_operator.Kube.Env.{Env, Kind, Object}
use stroom_k8s_operator.Backup.{reconcile}
use stroom_k8s_operator.Backup.Unread.{Continues, reconcile-Continues}
use stroom_k8s_operator.Tests.Client.{client, library, empty_world}

-- A client that cannot read backups, and finds nothing else.
abbrev unreachable : (k : Kind) → Result (Object k)
unreachable Kind.database_backup = err (bad_request "malformed name")
unreachable _ = err not_found

abbrev failing_client : Env
failing_client = record client { get = λ k n w. (unreachable k, w) }

abbrev request : NamespacedName
request = record { namespace = "stroom"; name = "nightly" }

reconcile-Continues_example :
    Continues failing_client library empty_world
      (reconcile failing_client library request empty_world).0
      (reconcile failing_client library request empty_world).1
reconcile-Continues_example =
    reconcile-Continues failing_client library request (bad_request "malformed name") empty_world
      empty_world (λ e. cc) refl
