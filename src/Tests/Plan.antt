-- ===== src/Tests/Plan.antt =====
-- The theorems on the child objects of a StroomCluster, at an API server that stores objects.
use stroom_k8s_operator.Base.{
  String, ◌≡◌, refl, ◌≢◌, false, none, some, List, [], ◌∷◌, ◌++◌, All, string_eq, ◌==◌, ==_self,
}
use mathlib.Core.Path.{subst}
use stroom_k8s_operator.DatabaseServer.Children.{Key}
use stroom_k8s_operator.Base.Int.{pos}
use stroom_k8s_operator.Base.State.{Result, ok, err, failure, pure}
use stroom_k8s_operator.Kube.Core.{ServiceAccount, StatefulSet, Ingress}
use stroom_k8s_operator.Kube.Owner.{controlled}
use stroom_k8s_operator.Kube.Env.{Env, Kind, Object, OperationResult, created, key_of}
use stroom_k8s_operator.Kube.Outcome.{done, failed}
use stroom_k8s_operator.Api.StroomCluster.{
  get_base_name, get_node_set_headless_service_name, get_node_set_name, get_node_set_service_name,
  log_sender_is_zero,
}
use stroom_k8s_operator.Database.{DatabaseConnectionInfo}
use stroom_k8s_operator.Cluster.Files.{StaticFiles, all_static_files, read_files}
use stroom_k8s_operator.Cluster.Config.{create_service_account, create_config_map}
use stroom_k8s_operator.Cluster.Reconcile.{create_children, apply_static_content}
use stroom_k8s_operator.Cluster.Plan.{
  Apart, Distinct, Item, key, config_map, stateful_set, service, bare, run, run-plan, plan,
  ingress_items,
}
use stroom_k8s_operator.Cluster.StatefulSet.{create_stateful_set}
use stroom_k8s_operator.Cluster.Services.{create_service}
use stroom_k8s_operator.Cluster.Ingresses.{create_ingresses}
use stroom_k8s_operator.Cluster.Plan.Stored.{Carries, create_children-Carries}
use stroom_k8s_operator.Cluster.Plan.Frame.{create_children-others}
use stroom_k8s_operator.Cluster.Plan.Failure.{apply_static_content-failed}
use stroom_k8s_operator.Cluster.Plan.Settled.{create_children_settled}
use stroom_k8s_operator.Tests.Client.{client, library}
use stroom_k8s_operator.Tests.Samples.{node_set, sample_cluster}
use stroom_k8s_operator.Tests.Objects.{Objects, put, ne_of_kind}
use stroom_k8s_operator.Tests.Store.{object_client, at, object_client-Stores}

abbrev pub info : DatabaseConnectionInfo
info = record {
  database_server = none;
  host = "db";
  port = pos 3306;
  secret_name = "stroom-dev-db-db";
  user_name = "stroomuser";
}

abbrev files : StaticFiles
files = record { read_dir = ok ("start.sh" ∷ []); read_file = λ name. ok "exec java" }

files_read : all_static_files files ≡ ok (("start.sh", "exec java") ∷ [])
unfolding all_static_files read_files
files_read = refl

abbrev pub contents : List (String × String)
contents = ("start.sh", "exec java") ∷ []

run-plan_example :
    apply_static_content client library sample_cluster info (ok contents)
    ≡ run client sample_cluster (plan library sample_cluster info contents) (pure done)
run-plan_example = run-plan client sample_cluster library info contents

-- The service account is there.
abbrev account : ServiceAccount
account = record { meta = (create_service_account library sample_cluster).meta }

abbrev start : Objects
start =
    put Kind.service_account (record { namespace = "stroom"; name = "stroom-dev" })
      (create_service_account library sample_cluster) (λ k n. none)

ends : (create_children object_client library files sample_cluster info start).0 ≡ done
unfolding create_children string_eq get_base_name controlled get_node_set_headless_service_name
    get_node_set_name get_node_set_service_name
ends = refl

-- The second object of the plan, and what comes after it.
abbrev second : Item
second = stateful_set node_set (create_stateful_set library sample_cluster node_set info)

abbrev headless : Item
headless = service (
    create_service library sample_cluster node_set
      (get_node_set_headless_service_name sample_cluster node_set) "None")

abbrev cluster_ip : Item
cluster_ip = service (
    create_service library sample_cluster node_set
      (get_node_set_service_name sample_cluster node_set) "")

abbrev first : Item
first = config_map (create_config_map library sample_cluster contents)

abbrev later : List Item
later =
    headless
    ∷ cluster_ip
    ∷ ingress_items library sample_cluster info (create_ingresses sample_cluster)

plan_split : plan library sample_cluster info contents ≡ (first ∷ []) ++ second ∷ later
unfolding log_sender_is_zero
plan_split = refl

ne_of_name : (a b : Key) → (a.1.name == b.1.name) ≡ false → a ≢ b
ne_of_name a b h e =
    let same : (b.1.name == b.1.name) ≡ false = subst (λ p. (p.1.name == b.1.name) ≡ false) e h in
    let self = ==_self (b.1.name) in absurd (cc)

ingress_items-apart :
    (k : Key) (is : List Ingress)
    → k.0 ≢ Kind.ingress
    → All (λ x. k ≢ key x) (ingress_items library sample_cluster info is)
ingress_items-apart k [] h = tt
ingress_items-apart k (i ∷ is) h = (ne_of_kind k _ h, ingress_items-apart k is h)

second-Apart : Apart second later
second-Apart =
    (ne_of_kind _ _ (λ e. cc), (ne_of_kind _ _ (λ e. cc), ingress_items-apart _ _ (λ e. cc)))

create_children-Carries_example :
    (o : StatefulSet) × (at
        (create_children object_client library files sample_cluster info start).1
        Kind.stateful_set
        (key_of Kind.stateful_set (bare second))
      ≡ some o)
    × Carries second o
create_children-Carries_example =
    create_children-Carries object_client library files sample_cluster info contents files_read at
      object_client-Stores (first ∷ []) later second start plan_split second-Apart ends

abbrev secret_key : Key
secret_key = (Kind.secret, record { namespace = "stroom"; name = "stroom-dev" })

secret-apart : All (λ x. secret_key ≢ key x) (plan library sample_cluster info contents)
unfolding log_sender_is_zero
secret-apart = (
  ne_of_kind _ _ (λ e. cc),
  (
    ne_of_kind _ _ (λ e. cc),
    (ne_of_kind _ _ (λ e. cc), (ne_of_kind _ _ (λ e. cc), ingress_items-apart _ _ (λ e. cc))),
  ),
)

create_children-others_example :
    at
      (create_children object_client library files sample_cluster info start).1
      Kind.secret
      (record { namespace = "stroom"; name = "stroom-dev" })
    ≡ at start Kind.secret (record { namespace = "stroom"; name = "stroom-dev" })
create_children-others_example =
    create_children-others object_client at object_client-Stores sample_cluster Kind.secret
      (record { namespace = "stroom"; name = "stroom-dev" }) library files info contents start
      files_read (λ e. cc) (ne_of_kind _ _ (λ e. cc)) secret-apart

apart : Distinct (first ∷ second ∷ later)
unfolding create_service controlled get_node_set_headless_service_name get_node_set_name
    get_node_set_service_name get_base_name create_ingresses string_eq
apart = (
  (
    ne_of_kind _ _ (λ e. cc),
    (
      ne_of_kind _ _ (λ e. cc),
      (
        ne_of_kind _ _ (λ e. cc),
        ingress_items-apart (key first) (create_ingresses sample_cluster) (λ e. cc),
      ),
    ),
  ),
  (
    (
      ne_of_kind _ _ (λ e. cc),
      (
        ne_of_kind _ _ (λ e. cc),
        ingress_items-apart (key second) (create_ingresses sample_cluster) (λ e. cc),
      ),
    ),
    (
      (
        ne_of_name _ _ refl,
        ingress_items-apart (key headless) (create_ingresses sample_cluster) (λ e. cc),
      ),
      (
        ingress_items-apart (key cluster_ip) (create_ingresses sample_cluster) (λ e. cc),
        ((ne_of_name _ _ refl, tt), (tt, tt)),
      ),
    ),
  ),
)

create_children_settled_example :
    create_children object_client library files sample_cluster info
      (create_children object_client library files sample_cluster info start).1
    ≡ (done, (create_children object_client library files sample_cluster info start).1)
unfolding log_sender_is_zero
create_children_settled_example =
    create_children_settled object_client at object_client-Stores library files sample_cluster info
      contents files_read start apart ends

-- A server that takes no StatefulSet.
abbrev answer : (k : Kind) → Object k → Objects → Result (OperationResult × Object k) × Objects
answer Kind.stateful_set o w = (err (failure "quota"), w)
answer _ o w = (ok (created, o), w)

abbrev full_client : Env
full_client = record object_client { create_or_update = λ k o f w. answer k o w }

apply_static_content-failed_example :
    apply_static_content full_client library sample_cluster info (ok contents) start
    ≡ (failed (failure "quota"), start)
unfolding log_sender_is_zero
apply_static_content-failed_example =
    apply_static_content-failed full_client library sample_cluster info contents (first ∷ []) later
      second (failure "quota") start start start refl refl refl
