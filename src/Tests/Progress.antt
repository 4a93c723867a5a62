-- ===== src/Tests/Progress.antt =====
-- The theorem on repeated calls of the DatabaseServer's `Reconcile`, at a client that stores the
-- keys of the objects that it was told to create.
use stroom_k8s_operator.Base.{
  ℕ, ◌≡◌, refl, sym, Bool, true, false, List, [], ◌∷◌, ◌==◌, ==_self, string_eq, nat_eq, ◌&&◌, ◌||◌,
  if◌then◌else◌, Bool-cases, inl, inr,
}
use stroom_k8s_operator.Base.Int.{pos}
use stroom_k8s_operator.Base.State.{not_found, Result, ok, err}
use stroom_k8s_operator.Kube.Meta.{empty_meta}
use stroom_k8s_operator.Kube.Core.{CronJob, empty_pod_spec}
use stroom_k8s_operator.Kube.Env.{Env, Kind, Object, key_of, created}
use stroom_k8s_operator.Api.DatabaseServer.{is_being_deleted}
use stroom_k8s_operator.Api.DatabaseBackup.{empty_database_backup}
use stroom_k8s_operator.DatabaseServer.Names.{KeepsNames}
use stroom_k8s_operator.DatabaseServer.Children.{Key, Serves}
use stroom_k8s_operator.DatabaseServer.Reconcile.{reconcile}
use stroom_k8s_operator.DatabaseServer.Reconcile.Progress.{Progresses, reconcile-Progresses}
use stroom_k8s_operator.Tests.Client.{library}
use stroom_k8s_operator.Tests.Samples.{sample_cluster, sample_server, scaler, stateful_set}

abbrev pub number : Kind → ℕ
number Kind.database_server = 0
number Kind.stroom_cluster = 1
number Kind.stroom_task_autoscaler = 2
number Kind.database_backup = 3
number Kind.secret = 4
number Kind.config_map = 5
number Kind.stateful_set = 6
number Kind.service = 7
number Kind.service_account = 8
number Kind.ingress = 9
number Kind.persistent_volume_claim = 10
number Kind.cron_job_v1 = 11
number Kind.cron_job_v1beta1 = 12
number Kind.pod = 13
number Kind.pod_metrics = 14

abbrev pub job : CronJob
job = record {
  meta = empty_meta;
  spec = record {
    schedule = "";
    concurrency_policy = "";
    ttl_seconds_after_finished = pos 0;
    template = empty_pod_spec;
  };
}

-- The object that the client returns for a key that it has.
abbrev pub stored : (k : Kind) → Object k
stored Kind.database_server = sample_server
stored Kind.stroom_cluster = sample_cluster
stored Kind.stroom_task_autoscaler = scaler
stored Kind.database_backup = empty_database_backup
stored Kind.secret = record { meta = empty_meta; type = ""; items = [] }
stored Kind.config_map = record { meta = empty_meta; items = [] }
stored Kind.stateful_set = stateful_set
stored Kind.service = record {
  meta = empty_meta;
  spec = record { type = ""; cluster_ip = ""; selector = []; ports = [] };
}
stored Kind.service_account = record { meta = empty_meta }
stored Kind.ingress = record {
  meta = empty_meta;
  spec = record { ingress_class_name = ""; tls = []; rules = [] };
}
stored Kind.persistent_volume_claim = record { meta = empty_meta; spec = "" }
stored Kind.cron_job_v1 = job
stored Kind.cron_job_v1beta1 = job
stored Kind.pod = record { meta = empty_meta }
stored Kind.pod_metrics = record { meta = empty_meta; timestamp = pos 0; containers = [] }

abbrev pub same_key : Key → Key → Bool
same_key a b = number a.0 == number b.0 && (a.1.name == b.1.name && a.1.namespace == b.1.namespace)

pub same_key_self : (a : Key) → same_key a a ≡ true
same_key_self a = rw (==_self (number a.0), ==_self (a.1.name), ==_self (a.1.namespace))

abbrev pub has : List Key → Key → Bool
has [] c = false
has (k ∷ ks) c = same_key k c || has ks c

pub has_more : (k : Key) (ks : List Key) (c : Key) → has ks c ≡ true → has (k ∷ ks) c ≡ true
has_more k ks c h = elim (Bool-cases (same_key k c)) [ inl same ↦ rw same | inr other ↦ rw other h ]

abbrev pub looked_up : (k : Kind) → Bool → Result (Object k)
looked_up k there = if there then ok (stored k) else err not_found

abbrev pub storing_client : Env
storing_client = record {
  World = List Key;
  get = λ k n w. (looked_up k (has w (k, n)), w);
  list = λ k n l w. (ok [], w);
  create = λ k o w. (ok o, (k, key_of k o) ∷ w);
  update = λ k o w. (ok o, w);
  update_status = λ k o w. (ok o, w);
  delete = λ k o w. (ok tt, w);
  create_or_update = λ k o f w. (ok (created, o), (k, key_of k o) ∷ w);
  Db = Unit {0};
  sql_open = λ s w. (ok tt, w);
  sql_close = λ db w. (ok tt, w);
  sql_exec = λ db s args w. (ok tt, w);
  sql_query = λ db s args w. (ok [], w);
  sql_query_row = λ db s args w. (ok [], w);
  now = λ w. (pos 0, w);
  must_generate = λ n d s u r w. ("secret", w);
}

storing_client-Serves : Serves storing_client has
storing_client-Serves = record {
  found = λ w k n there. (stored k, rw there);
  absent = λ w k n gone. rw gone;
  create = λ w k o gone. (o, refl);
  created = λ w k o gone. rw (same_key_self (k, key_of k o));
  kept = λ w k o c there. has_more (k, key_of k o) w c there;
  status = λ w k o c. refl;
  generate = λ w n d s u r c. refl;
}

pub library-KeepsNames : KeepsNames library
library-KeepsNames o m m' set =
    let same : record m { owner_references = o ∷ [] } ≡ m' = cc in rw (sym same) (refl, refl)

abbrev server_world : List Key
server_world = (Kind.database_server, record { namespace = "stroom"; name = "dev-db" }) ∷ []

pub sample_server-live : is_being_deleted sample_server ≡ false
unfolding is_being_deleted
sample_server-live = refl

sample_server-read :
    storing_client.get Kind.database_server
      (record { namespace = "stroom"; name = "dev-db" })
      server_world
    ≡ (ok sample_server, server_world)
unfolding string_eq nat_eq
sample_server-read = refl

reconcile-Progresses_example :
    Progresses storing_client has storing_client-Serves library library-KeepsNames sample_server
      server_world
      (reconcile storing_client library
        (record { namespace = "stroom"; name = "dev-db" })
        server_world)
reconcile-Progresses_example =
    reconcile-Progresses storing_client has storing_client-Serves library library-KeepsNames
      sample_server (record { namespace = "stroom"; name = "dev-db" }) server_world
      sample_server-read sample_server-live
