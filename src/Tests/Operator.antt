-- ===== src/Tests/Operator.antt =====
-- The theorems on the whole program, at an API server that creates an object only once.
use mathlib.Core.Path.{subst}
use stroom_k8s_operator.Base.{◌≡◌, refl, sym, ◌∙◌, string_eq, Option, none, some, [], ◌∷◌}
use stroom_k8s_operator.Base.State.{Result, ok, err, failure}
use stroom_k8s_operator.Kube.Meta.{NamespacedName, empty_meta}
use stroom_k8s_operator.Kube.Core.{Secret}
use stroom_k8s_operator.Kube.Env.{Env, Kind, Object, key_of}
use stroom_k8s_operator.Cluster.Files.{StaticFiles}
use stroom_k8s_operator.DatabaseServer.Children.{Key}
use stroom_k8s_operator.Metrics.{new_node_metric_map}
use stroom_k8s_operator.DatabaseServer.Reconcile as Server
use stroom_k8s_operator.Cluster.Reconcile as Cluster
use stroom_k8s_operator.Operator.Steps.{
  State, Reach, here, next, stroom_cluster, database_server, others, Reach-kept,
}
use stroom_k8s_operator.Operator.Secrets.{IsSeparate, IsThere, IsThere-IsSpared, Reach-there}
use stroom_k8s_operator.Tests.Client.{library}
use stroom_k8s_operator.Tests.Samples.{leaving_cluster, sample_cluster, sample_server}
use stroom_k8s_operator.Tests.Objects.{Objects, put, put_others, ne_of_kind}
use stroom_k8s_operator.Tests.Store.{object_client, at, create_or_update-others}

abbrev created_once :
    (k : Kind) → Object k → Option (Object k) → Objects → Result (Object k) × Objects
created_once k o none w = (ok o, put k (key_of k o) o w)
created_once k o (some x) w = (err (failure "already exists"), w)

abbrev strict_client : Env
strict_client = record object_client { create = λ k o w. created_once k o (w k (key_of k o)) w }

created_once_kept :
    (k k' : Kind) (o : Object k) (o' : Object k') (w : Objects) (n : NamespacedName)
    (found : Option (Object k'))
    → w k' (key_of k' o') ≡ found
    → w k n ≡ some o
    → (created_once k' o' found w).1 k n ≡ some o
created_once_kept k k' o o' w n none absent there =
    put_others k' (key_of k' o') o' w k n (λ e.
      let missing : w k n ≡ none = subst (λ (p : Key). w p.0 p.1 ≡ none) (sym e) absent in
      absurd (cc))
    ∙ there
created_once_kept k k' o o' w n (some x) present there = there

strict_client-IsSeparate : IsSeparate strict_client at
strict_client-IsSeparate = record {
  get = λ k k' n w m. refl;
  list = λ k k' n l w m. refl;
  now = λ k w m. refl;
  must_generate = λ k x d s u r w m. refl;
  sql_open = λ k s w m. refl;
  sql_close = λ k db w m. refl;
  sql_exec = λ k db s args w m. refl;
  sql_query = λ k db s args w m. refl;
  sql_query_row = λ k db s args w m. refl;
  update = λ k k' o apart w m.
      put_others k' (key_of k' o) o w k m (ne_of_kind (k, m) (k', key_of k' o) apart);
  update_status = λ k k' o apart w m. refl;
  delete = λ k k' o apart w m. refl;
  write = λ k k' o f apart w m.
      create_or_update-others k' o f w (w k' (key_of k' o)) k m
        (ne_of_kind (k, m) (k', key_of k' o) apart);
  create = λ k k' o o' w n there. created_once_kept k k' o o' w n (w k' (key_of k' o')) refl there;
}

abbrev password_name : NamespacedName
password_name = record { namespace = "stroom"; name = "stroom-dev-db-db" }

abbrev password : Secret
password = record {
  meta = record empty_meta { namespace = "stroom"; name = "stroom-dev-db-db" };
  type = "Opaque";
  items = ("root", "a") ∷ ("stroomuser", "b") ∷ [];
}

abbrev cluster_name : NamespacedName
cluster_name = record { namespace = "stroom"; name = "dev" }

abbrev server_name : NamespacedName
server_name = record { namespace = "stroom"; name = "dev-db" }

-- A server, a cluster and a Secret with passwords.
abbrev stored : Objects
stored = put Kind.secret password_name password (
    put Kind.database_server server_name sample_server
      (put Kind.stroom_cluster cluster_name sample_cluster (λ k n. none)))

-- Others leave the Secret alone.
abbrev Elsewhere : Objects → Objects → Type 0
Elsewhere w v = v Kind.secret password_name ≡ w Kind.secret password_name

abbrev files : StaticFiles
files = record { read_dir = ok ("start.sh" ∷ []); read_file = λ name. ok "exec java" }

abbrev at_start : State strict_client
at_start = record { world = stored; metrics = new_node_metric_map }

-- A call for the server, and then one for the cluster.
abbrev served : State strict_client
served = record {
  world = (Server.reconcile strict_client library server_name stored).1;
  metrics = new_node_metric_map;
}

abbrev clustered : State strict_client
clustered = record {
  world = (Cluster.reconcile strict_client library files cluster_name served.world).1;
  metrics = new_node_metric_map;
}

-- Then somebody deletes the cluster.
abbrev deleted : State strict_client
deleted = record clustered {
  world = put Kind.stroom_cluster cluster_name leaving_cluster clustered.world;
}

all_calls : Reach strict_client library files Elsewhere at_start deleted
all_calls =
    next
      (next (next here (database_server at_start server_name)) (stroom_cluster served cluster_name))
      (others clustered deleted.world (
        put_others Kind.stroom_cluster cluster_name leaving_cluster clustered.world Kind.secret
          password_name
          (ne_of_kind (Kind.secret, password_name) (Kind.stroom_cluster, cluster_name)
            (λ e. absurd (cc)))))

left :
    (w v : Objects)
    → Elsewhere w v
    → w Kind.secret password_name ≡ some password
    → v Kind.secret password_name ≡ some password
left w v same there = same ∙ there

Reach-there_example : deleted.world Kind.secret password_name ≡ some password
unfolding string_eq
Reach-there_example =
    Reach-there strict_client at strict_client-IsSeparate Kind.secret password_name password tt
      library files Elsewhere at_start deleted left all_calls refl

Reach-kept_example : deleted.world Kind.secret password_name ≡ some password
unfolding string_eq
Reach-kept_example =
    Reach-kept strict_client library files Elsewhere
      (IsThere strict_client at strict_client-IsSeparate Kind.secret password_name password tt)
      (IsThere-IsSpared strict_client at strict_client-IsSeparate Kind.secret password_name password
        tt)
      left all_calls refl
