-- ===== src/Tests/Client.antt =====
-- A client that keeps a small world, and a library.
use stroom_k8s_operator.Base.{
  ℕ, suc, String, Bool, false, Option, none, some, List, [], ◌∷◌, ◌==◌, string_eq, if◌then◌else◌,
  ◌||◌,
}
use stroom_k8s_operator.Base.Int.{ℤ, pos, ◌*ℤ◌, quot, pos_part}
use stroom_k8s_operator.Base.Text.{itoa}
use stroom_k8s_operator.Base.Dict.{lookup}
use stroom_k8s_operator.Base.State.{not_found, Result, ok, err}
use stroom_k8s_operator.Kube.Core.{Secret, StatefulSet}
use stroom_k8s_operator.Kube.Env.{Env, Kind, Object, Library, SqlValue, int, text, created}
use stroom_k8s_operator.Api.DatabaseServer.{DatabaseServer}
use stroom_k8s_operator.Api.StroomCluster.{StroomCluster}

-- What the client finds, how often it was told to create or update an object or set a status, and
-- the numbers that statements wrote.
pub record World : Type 0 where
  pub server : Option DatabaseServer
  pub cluster : Option StroomCluster
  pub secret : Option Secret
  pub stateful_sets : List StatefulSet
  pub creations : ℕ
  pub updates : ℕ
  pub passwords : ℕ
  pub limits : List ℤ

abbrev pub empty_world : World
empty_world = record {
  server = none;
  cluster = none;
  secret = none;
  stateful_sets = [];
  creations = 0;
  updates = 0;
  passwords = 0;
  limits = [];
}

abbrev found {ℓ} : {A : Type ℓ} → Option A → Result A
found none = err not_found
found (some a) = ok a

abbrev fetch : (k : Kind) → World → Result (Object k)
fetch Kind.database_server w = found w.server
fetch Kind.stroom_cluster w = found w.cluster
fetch Kind.secret w = found w.secret
fetch _ w = err not_found

abbrev listed : (k : Kind) → World → List (Object k)
listed Kind.stateful_set w = w.stateful_sets
listed _ w = []

abbrev written : List SqlValue → List ℤ → List ℤ
written (int l ∷ rest) limits = l ∷ limits
written _ limits = limits

abbrev pub client : Env
client = record {
  World = World;
  get = λ k n w. (fetch k w, w);
  list = λ k n l w. (ok (listed k w), w);
  create = λ k o w. (ok o, record w { creations = suc w.creations });
  update = λ k o w. (ok o, record w { updates = suc w.updates });
  update_status = λ k o w. (ok o, record w { updates = suc w.updates });
  delete = λ k o w. (ok tt, w);
  create_or_update = λ k o f w. (ok (created, o), record w { creations = suc w.creations });
  Db = Unit {0};
  sql_open = λ s w. (ok tt, w);
  sql_close = λ db w. (ok tt, w);
  sql_exec = λ db s args w. (ok tt, record w { limits = written args w.limits });
  sql_query = λ db s args w. (ok ((text "stroom-dev-node-data-0" ∷ int (pos 2) ∷ []) ∷ []), w);
  sql_query_row = λ db s args w. (ok (int (pos 5) ∷ int (pos 9) ∷ []), w);
  now = λ w. (pos 1000, w);
  must_generate = λ n d s u r w. (itoa (pos w.passwords), record w { passwords = suc w.passwords });
}

abbrev includes : List String → String → Bool
includes [] f = false
includes (g ∷ gs) f = g == f || includes gs f

abbrev without : List String → String → List String
without [] f = []
without (g ∷ gs) f = let rest = without gs f in if g == f then rest else g ∷ rest

-- A quantity is one CPU or, written "500m", half of one. A float is its numerator and denominator.
abbrev pub library : Library
library = record {
  contains_finalizer = λ m f. includes m.finalizers f;
  add_finalizer = λ m f. record m { finalizers = f ∷ m.finalizers };
  remove_finalizer = λ m f. record m { finalizers = without m.finalizers f };
  set_controller_reference = λ o m. ok (record m { owner_references = o ∷ [] });
  limits_cpu = λ r. lookup "cpu" r.limits;
  milli_value = λ q. if q == "500m" then pos 500 else pos 1000;
  size = λ r. pos 0;
  Float = ℤ × ℤ;
  float = λ n. (n, pos 1);
  hundred = (pos 100, pos 1);
  div = λ a b. (a.0 *ℤ b.1, a.1 *ℤ b.0);
  mul = λ a b. (a.0 *ℤ b.0, a.1 *ℤ b.1);
  floor = λ a. (quot a.0 (pos_part a.1), pos 1);
  to_int = λ a. a.0;
}
