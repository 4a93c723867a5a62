-- ===== src/DatabaseServer/Children.antt =====
-- internal/controller/databaseserver_controller.go: the objects that `Reconcile` creates, and an API
-- server that stores them.
use stroom_k8s_operator.Base.{
  ℕ, ◌+◌, ◌<◌, ◌≤◌, ◌≡◌, inl, inr, Bool, true, false, List, [], ◌∷◌, ◌++◌, arith, Bool-cases,
  if◌then◌else◌,
}
use stroom_k8s_operator.Base.Int.{ℤ}
use stroom_k8s_operator.Base.State.{not_found, ok, err}
use stroom_k8s_operator.Kube.Meta.{NamespacedName}
use stroom_k8s_operator.Kube.Env.{Env, Kind, Object, key_of}
use stroom_k8s_operator.Api.DatabaseServer.{
  DatabaseServer, get_base_name, get_service_name, get_secret_name, get_config_map_name,
  get_init_config_map_name,
}

abbrev pub Key : Type 0
Key = Kind × NamespacedName

-- An API server on which only the operator acts: it finds what was created, reports what was not,
-- creates an object that it does not have, and loses nothing. `has` tells what it has.
pub record Serves (E : Env) (has : E.World → Key → Bool) : Type 0 where
  pub found :
      (w : E.World) (k : Kind) (n : NamespacedName)
      → has w (k, n) ≡ true
      → (o : Object k) × (E.get k n w ≡ (ok o, w))
  pub absent :
      (w : E.World) (k : Kind) (n : NamespacedName)
      → has w (k, n) ≡ false
      → E.get k n w ≡ (err not_found, w)
  pub create :
      (w : E.World) (k : Kind) (o : Object k)
      → has w (k, key_of k o) ≡ false
      → (o' : Object k) × ((E.create k o w).0 ≡ ok o')
  pub created :
      (w : E.World) (k : Kind) (o : Object k)
      → has w (k, key_of k o) ≡ false
      → has (E.create k o w).1 (k, key_of k o) ≡ true
  pub kept :
      (w : E.World) (k : Kind) (o : Object k) (c : Key)
      → has w c ≡ true
      → has (E.create k o w).1 c ≡ true
  pub status :
      (w : E.World) (k : Kind) (o : Object k) (c : Key) → has (E.update_status k o w).1 c ≡ has w c
  pub generate :
      (w : E.World) (n d s : ℤ) (u r : Bool) (c : Key)
      → has (E.must_generate n d s u r w).1 c ≡ has w c

-- The keys of a server's objects, in the order in which `Reconcile` creates them.
abbrev pub secret_key : DatabaseServer → Key
secret_key db = (Kind.secret, record { namespace = db.namespace; name = get_secret_name db })

abbrev pub config_key : DatabaseServer → Key
config_key db =
    (Kind.config_map, record { namespace = db.namespace; name = get_config_map_name db })

abbrev pub init_key : DatabaseServer → Key
init_key db =
    (Kind.config_map, record { namespace = db.namespace; name = get_init_config_map_name db })

abbrev pub stateful_set_key : DatabaseServer → Key
stateful_set_key db =
    (Kind.stateful_set, record { namespace = db.namespace; name = get_base_name db })

abbrev pub service_key : DatabaseServer → Key
service_key db = (Kind.service, record { namespace = db.namespace; name = get_service_name db })

abbrev pub children : DatabaseServer → List Key
children db =
    secret_key db ∷ config_key db ∷ init_key db ∷ stateful_set_key db ∷ service_key db ∷ []

-- How many of the objects are not there.
abbrev pub absent_of : (Key → Bool) → List Key → ℕ
absent_of has [] = 0
absent_of has (c ∷ cs) = (if has c then 0 else 1) + absent_of has cs

module _ (f g : Key → Bool) (more : (c : Key) → f c ≡ true → g c ≡ true) where
  absent_of_le : (cs : List Key) → absent_of g cs ≤ absent_of f cs
  absent_of_le [] = omega arith
  absent_of_le (c ∷ cs) = elim (Bool-cases (f c)) [
    | inl there ↦ rw (there, more c there) (omega (arith, absent_of_le cs))
    | inr gone ↦ elim (Bool-cases (g c)) [
      | inl there ↦ rw (gone, there) (omega (arith, absent_of_le cs))
      | inr still ↦ rw (gone, still) (omega (arith, absent_of_le cs))
    ]
  ]

  pub absent_of_lt :
      (xs ys : List Key) (c : Key)
      → f c ≡ false
      → g c ≡ true
      → absent_of g (xs ++ c ∷ ys) < absent_of f (xs ++ c ∷ ys)
  absent_of_lt [] ys c gone there = rw (gone, there) (omega (arith, absent_of_le ys))
  absent_of_lt (x ∷ xs) ys c gone there = elim (Bool-cases (f x)) [
    | inl a ↦ rw (a, more x a) (omega (arith, absent_of_lt xs ys c gone there))
    | inr a ↦ elim (Bool-cases (g x)) [
      | inl b ↦ rw (a, b) (omega (arith, absent_of_lt xs ys c gone there))
      | inr b ↦ rw (a, b) (omega (arith, absent_of_lt xs ys c gone there))
    ]
  ]
