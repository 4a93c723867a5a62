-- ===== src/Cluster/Plan/Store.antt =====
-- The API server as a store of objects, as the writes of a plan see it.
use stroom_k8s_operator.Base.{String, ◌≡◌, ap, ◌∙◌, ◌≢◌, Option, some, List, [], ◌∷◌, All}
use stroom_k8s_operator.Base.Int.{ℤ}
use stroom_k8s_operator.Base.State.{ok, M, pure, ◌>>◌}
use stroom_k8s_operator.Base.Keeps.{
  Keeps, Keeps-pure, Keeps-bind, Keeps-then, Keeps-on, keeps_rules,
}
use stroom_k8s_operator.Kube.Outcome.{Outcome, done, failed}
use stroom_k8s_operator.Kube.Meta.{NamespacedName}
use stroom_k8s_operator.Kube.Env.{Env, Kind, Object, OperationResult, unchanged, key_of}
use stroom_k8s_operator.Api.StroomCluster.{StroomCluster, NodeSet}
use stroom_k8s_operator.DatabaseServer.Children.{Key}
use stroom_k8s_operator.Cluster.Pvcs.{delete_pvc, delete_pvcs_at, delete_pvcs}
use stroom_k8s_operator.Cluster.Plan.{
  Item, config_map, stateful_set, service, ingress, kind_of, bare, overwrite, key, follow_up, write,
  run,
}

-- The objects of a world, by kind and name.
abbrev pub Look : Env → Type 0
Look E = E.World → (k : Kind) → NamespacedName → Option (Object k)

-- Documented behaviour of the API server and of `CreateOrUpdate`, where only the operator acts and
-- the server adds no defaults: a read changes nothing and returns what is stored; a write that
-- succeeds stores the object that the function made from the one it was given; it leaves an object
-- that the function does not change alone; a write or a deletion reaches no other object.
pub record Stores (E : Env) (look : Look E) : Type 0 where
  pub found :
      (w : E.World) (k : Kind) (n : NamespacedName) (o : Object k)
      → look w k n ≡ some o
      → E.get k n w ≡ (ok o, w)
  pub get_found :
      (w : E.World) (k : Kind) (n : NamespacedName) (o : Object k)
      → (E.get k n w).0 ≡ ok o
      → look w k n ≡ some o
  pub get_world : (w : E.World) (k : Kind) (n : NamespacedName) → (E.get k n w).1 ≡ w
  pub written :
      (w : E.World) (k : Kind) (o : Object k) (f : Object k → Object k)
      (r : OperationResult × Object k)
      → (E.create_or_update k o f w).0 ≡ ok r
      → look (E.create_or_update k o f w).1 k (key_of k o) ≡ some (f r.1)
  pub settled :
      (w : E.World) (k : Kind) (o : Object k) (f : Object k → Object k) (x : Object k)
      → look w k (key_of k o) ≡ some x
      → f x ≡ x
      → E.create_or_update k o f w ≡ (ok (unchanged, x), w)
  pub write_others :
      (w : E.World) (k : Kind) (o : Object k) (f : Object k → Object k) (k' : Kind)
      (n : NamespacedName)
      → let a : Key = (k', n) in
        a ≢ (k, key_of k o) → look (E.create_or_update k o f w).1 k' n ≡ look w k' n
  pub create_others :
      (w : E.World) (k : Kind) (o : Object k) (k' : Kind) (n : NamespacedName)
      → let a : Key = (k', n) in a ≢ (k, key_of k o) → look (E.create k o w).1 k' n ≡ look w k' n
  pub delete_others :
      (w : E.World) (k : Kind) (o : Object k) (k' : Kind) (n : NamespacedName)
      → k' ≢ k
      → look (E.delete k o w).1 k' n ≡ look w k' n

module _ (E : Env) (look : Look E) (S : Stores E look) (c : StroomCluster) (k : Kind)
    (n : NamespacedName) (o : Option (Object k)) where
  -- What is stored under one name.
  abbrev pub Shows : E.World → Type 0
  Shows w = look w k n ≡ o

  pub get-Shows : (k' : Kind) (n' : NamespacedName) → Keeps Shows (E.get k' n')
  get-Shows k' n' = record { at = λ w h. ap (λ v. look v k n) (S.get_world w k' n') ∙ h }

  -- The claims that are deleted are the only objects that a deletion of claims reaches.
  module _ (other : k ≢ Kind.persistent_volume_claim) where
    delete-Shows :
        (claim : Object Kind.persistent_volume_claim)
        → Keeps Shows (E.delete Kind.persistent_volume_claim claim)
    delete-Shows claim = record { at = λ w h. S.delete_others w _ claim k n other ∙ h }

    delete_pvc-Shows : (name : String) → Keeps Shows (delete_pvc E c name)
    unfolding delete_pvc
    delete_pvc-Shows name = search (keeps_rules, get-Shows, delete-Shows)

    delete_pvcs_at-Shows : (s : NodeSet) (is : List ℤ) → Keeps Shows (delete_pvcs_at E c s is)
    unfolding delete_pvcs_at
    delete_pvcs_at-Shows s [] = Keeps-pure tt
    delete_pvcs_at-Shows s (i ∷ is) =
        Keeps-bind _ _ (delete_pvc-Shows _) (λ _. delete_pvcs_at-Shows s is)

    delete_pvcs-Shows : (s : NodeSet) (old new : ℤ) → Keeps Shows (delete_pvcs E c s old new)
    unfolding delete_pvcs
    delete_pvcs-Shows s old new = search (keeps_rules, delete_pvcs_at-Shows)

    pub follow_up-Shows :
        (x : Item) (r : OperationResult × Object (kind_of x)) → Keeps Shows (follow_up E c x r)
    follow_up-Shows (config_map new) r = Keeps-pure tt
    follow_up-Shows (stateful_set s new) r = search (keeps_rules, delete_pvcs-Shows)
    follow_up-Shows (service new) r = Keeps-pure tt
    follow_up-Shows (ingress new) r = Keeps-pure tt

    -- A write reaches its own name only.
    pub write-Shows :
        (x : Item) (next : M E.World Outcome)
        → (let a : Key = (k, n) in a ≢ key x)
        → Keeps Shows next
        → Keeps Shows (write E c x next)
    write-Shows x next apart kept =
        let first : Keeps Shows (E.create_or_update (kind_of x) (bare x) (overwrite x)) = record {
          at = λ w h. S.write_others w _ (bare x) (overwrite x) k n apart ∙ h;
        } in
        Keeps-on (E.create_or_update (kind_of x) (bare x) (overwrite x)) (λ e. pure (failed e))
          (λ r. follow_up E c x r >> next) first (λ e. Keeps-pure (failed e))
          (λ r. Keeps-then (follow_up E c x r) next (follow_up-Shows x r) kept)

    pub run-Shows :
        (xs : List Item)
        → All (λ x. let a : Key = (k, n) in a ≢ key x) xs
        → Keeps Shows (run E c xs (pure done))
    run-Shows [] h = Keeps-pure done
    run-Shows (x ∷ xs) h = write-Shows x _ h.0 (run-Shows xs h.1)
