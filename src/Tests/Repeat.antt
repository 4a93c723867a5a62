-- ===== src/Tests/Repeat.antt =====
-- The theorem on repeated calls of the DatabaseServer's `Reconcile` until they end, at a client that
-- always finds the server.
use stroom_k8s_operator.Base.{
  ◌≡◌, refl, Bool, true, List, [], ◌∷◌, Bool-cases, inl, inr, string_eq, nat_eq,
}
use stroom_k8s_operator.Base.State.{ok}
use stroom_k8s_operator.Kube.Meta.{NamespacedName}
use stroom_k8s_operator.Kube.Env.{Env, Kind, key_of}
use stroom_k8s_operator.DatabaseServer.Children.{Key, Serves}
use stroom_k8s_operator.DatabaseServer.Reconcile.Repeat.{repeat, Deploys, repeat_six}
use stroom_k8s_operator.Tests.Client.{library}
use stroom_k8s_operator.Tests.Samples.{sample_server}
use stroom_k8s_operator.Tests.Progress.{
  storing_client, looked_up, has, same_key, same_key_self, has_more, stored, sample_server-live,
  library-KeepsNames,
}

abbrev server : NamespacedName
server = record { namespace = "stroom"; name = "dev-db" }

abbrev finds : List Key → Key → Bool
finds w c = has ((Kind.database_server, server) ∷ w) c

abbrev server_client : Env
server_client = record storing_client { get = λ k n w. (looked_up k (finds w (k, n)), w) }

finds_more : (k : Key) (w : List Key) (c : Key) → finds w c ≡ true → finds (k ∷ w) c ≡ true
finds_more k w c h = elim (Bool-cases (same_key (Kind.database_server, server) c)) [
  | inl same ↦ rw same
  | inr other ↦ rw other (has_more k w c (rw other at h))
]

finds_new : (k : Key) (w : List Key) → finds (k ∷ w) k ≡ true
finds_new k w = elim (Bool-cases (same_key (Kind.database_server, server) k)) [
  | inl same ↦ rw same
  | inr other ↦ rw (other, same_key_self k)
]

server_client-Serves : Serves server_client finds
server_client-Serves = record {
  found = λ w k n there. (stored k, rw there);
  absent = λ w k n gone. rw gone;
  create = λ w k o gone. (o, refl);
  created = λ w k o gone. finds_new (k, key_of k o) w;
  kept = λ w k o c there. finds_more (k, key_of k o) w c there;
  status = λ w k o c. refl;
  generate = λ w n d s u r c. refl;
}

server_read :
    (v : List Key) → server_client.get Kind.database_server server v ≡ (ok sample_server, v)
unfolding string_eq nat_eq
server_read v = refl

repeat_six_example :
    Deploys server_client finds server_client-Serves library library-KeepsNames sample_server server
      sample_server-live
      (λ v. (sample_server.status, server_read v))
      (repeat server_client library 5 server [])
repeat_six_example =
    repeat_six server_client finds server_client-Serves library library-KeepsNames sample_server
      server sample_server-live (λ v. (sample_server.status, server_read v)) []
