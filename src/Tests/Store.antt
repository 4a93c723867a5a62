-- ===== src/Tests/Store.antt =====
-- An API server that stores objects of every kind by their names.
use stroom_k8s_operator.Base.{◌≡◌, refl, sym, ap, ◌∙◌, ◌≢◌, Option, none, some, [], string_eq}
use stroom_k8s_operator.Base.Int.{pos}
use stroom_k8s_operator.Base.State.{Result, not_found, ok, err}
use stroom_k8s_operator.Kube.Meta.{NamespacedName}
use stroom_k8s_operator.Kube.Env.{
  Env, Kind, Object, OperationResult, created, updated, unchanged, key_of,
}
use stroom_k8s_operator.DatabaseServer.Children.{Key}
use stroom_k8s_operator.Cluster.Plan.Store.{Look, Stores}
use stroom_k8s_operator.Tests.Objects.{Object-discrete, Objects, put, put_self, put_others}

abbrev fetched : {A : Type 0} → Option A → Result A
fetched none = err not_found
fetched (some a) = ok a

fetched-ok : {A : Type 0} (x : Option A) (a : A) → fetched x ≡ ok a → x ≡ some a
fetched-ok none a h = cc
fetched-ok (some b) a h = cc

-- `CreateOrUpdate` on an object that is there, and on one that is not.
abbrev overwritten :
    (k : Kind)
    → NamespacedName
    → (x y : Object k) → Dec (y ≡ x)
    → Objects
    → Result (OperationResult × Object k) × Objects
overwritten k n x y (yes same) w = (ok (unchanged, x), w)
overwritten k n x y (no differ) w = (ok (updated, x), put k n y w)

abbrev pub create_or_update :
    (k : Kind)
    → Object k
    → (Object k → Object k)
    → Option (Object k)
    → Objects
    → Result (OperationResult × Object k) × Objects
create_or_update k o f none w = (ok (created, o), put k (key_of k o) (f o) w)
create_or_update k o f (some x) w = overwritten k (key_of k o) x (f x) (Object-discrete k (f x) x) w

abbrev pub object_client : Env
object_client = record {
  World = Objects;
  get = λ k n w. (fetched (w k n), w);
  list = λ k n l w. (ok [], w);
  create = λ k o w. (ok o, put k (key_of k o) o w);
  update = λ k o w. (ok o, put k (key_of k o) o w);
  update_status = λ k o w. (ok o, w);
  delete = λ k o w. (ok tt, w);
  create_or_update = λ k o f w. create_or_update k o f (w k (key_of k o)) w;
  Db = Unit {0};
  sql_open = λ s w. (ok tt, w);
  sql_close = λ db w. (ok tt, w);
  sql_exec = λ db s args w. (ok tt, w);
  sql_query = λ db s args w. (ok [], w);
  sql_query_row = λ db s args w. (ok [], w);
  now = λ w. (pos 0, w);
  must_generate = λ n d s u r w. ("secret", w);
}

abbrev pub at : Look object_client
at w = w

module _ (k : Kind) (o : Object k) (f : Object k → Object k) (w : Objects) where
  create_or_update-written :
      (found : Option (Object k)) (r : OperationResult × Object k)
      → w k (key_of k o) ≡ found
      → (create_or_update k o f found w).0 ≡ ok r
      → (create_or_update k o f found w).1 k (key_of k o) ≡ some (f r.1)
  create_or_update-written none r at_key = λ h.
      let same : (created, o) ≡ r = cc in
      put_self k (key_of k o) (f o) w ∙ ap (λ q. some (f q.1)) same
  create_or_update-written (some x) r at_key =
      elim (Object-discrete k (f x) x)
        as (λ d.
          (overwritten k (key_of k o) x (f x) d w).0 ≡ ok r
          → (overwritten k (key_of k o) x (f x) d w).1 k (key_of k o) ≡ some (f r.1)) [
            | yes same ↦ λ h.
                let result : (unchanged, x) ≡ r = cc in
                at_key ∙ (ap some (sym same) ∙ ap (λ q. some (f q.1)) result)
            | no differ ↦ λ h.
                let result : (updated, x) ≡ r = cc in
                put_self k (key_of k o) (f x) w ∙ ap (λ q. some (f q.1)) result
          ]

  create_or_update-settled :
      (x : Object k) → f x ≡ x → create_or_update k o f (some x) w ≡ (ok (unchanged, x), w)
  create_or_update-settled x same =
      elim (Object-discrete k (f x) x)
        as (λ d. overwritten k (key_of k o) x (f x) d w ≡ (ok (unchanged, x), w)) [
          | yes s ↦ refl
          | no differ ↦ absurd (differ same)
        ]

  pub create_or_update-others :
      (found : Option (Object k)) (k' : Kind) (n : NamespacedName)
      → (let a : Key = (k', n) in a ≢ (k, key_of k o))
      → (create_or_update k o f found w).1 k' n ≡ w k' n
  create_or_update-others none k' n apart = put_others k (key_of k o) (f o) w k' n apart
  create_or_update-others (some x) k' n apart =
      elim (Object-discrete k (f x) x)
        as (λ d. (overwritten k (key_of k o) x (f x) d w).1 k' n ≡ w k' n) [
          | yes s ↦ refl
          | no differ ↦ put_others k (key_of k o) (f x) w k' n apart
        ]

pub object_client-Stores : Stores object_client at
object_client-Stores = record {
  found = λ w k n o there. rw there;
  get_found = λ w k n o read. fetched-ok (w k n) o read;
  get_world = λ w k n. refl;
  written = λ w k o f r h. create_or_update-written k o f w (w k (key_of k o)) r refl h;
  settled = λ w k o f x there same. rw there (create_or_update-settled k o f w x same);
  write_others =
      λ w k o f k' n apart. create_or_update-others k o f w (w k (key_of k o)) k' n apart;
  create_others = λ w k o k' n apart. put_others k (key_of k o) o w k' n apart;
  delete_others = λ w k o k' n other. refl;
}
