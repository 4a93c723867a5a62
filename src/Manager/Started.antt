-- ===== src/Manager/Started.antt =====
-- cmd/main.go: what is set up when the manager is started.
use stroom_k8s_operator.Base.{String, ◌≡◌, List, [], ◌∷◌, All}
use stroom_k8s_operator.Base.State.{Err, Result, ok, err, M, pure, on, on_cases}
use stroom_k8s_operator.Base.Keeps.{Keeps}
use stroom_k8s_operator.Kube.Env.{Kind}
use stroom_k8s_operator.Manager.Runtime.{Runtime, Group, Builder, Reconciler, Options}
use stroom_k8s_operator.Manager.Setup
use stroom_k8s_operator.Manager.Main.{
  Flags, Exit, exited, returned, panicked, init, run_manager, main, program,
}

-- What is registered before the start.
pub data Entry : Type 0 where
  types : Group → Entry
  controller : Builder → Entry
  healthz readyz : String → Entry

abbrev pub types_added : List Entry
types_added = types Group.stroom ∷ types Group.metrics ∷ types Group.client_go ∷ []

-- The types of three packages, a controller for each kind of resource, of which two hear of the
-- StatefulSets that their resources own, and the two checks; the last one first.
abbrev pub required : List Entry
required =
    readyz "readyz"
    ∷ healthz "healthz"
    ∷ controller (record { reconciles = Kind.database_backup; owns = [] })
    ∷ controller (record { reconciles = Kind.stroom_task_autoscaler; owns = [] })
    ∷ controller (record { reconciles = Kind.database_server; owns = Kind.stateful_set ∷ [] })
    ∷ controller (record { reconciles = Kind.stroom_cluster; owns = Kind.stateful_set ∷ [] })
    ∷ types_added

-- Every call but the start keeps the property.
pub record IsKept (R : Runtime) (P : R.World → Type 0) : Type 0 where
  pub add_to_scheme : (g : Group) → Keeps P (R.add_to_scheme g)
  pub new_manager : (o : Options) → Keeps P (R.new_manager o)
  pub complete : (m : R.Mgr) (b : Builder) (r : Reconciler) → Keeps P (R.complete m b r)
  pub add_healthz_check : (m : R.Mgr) (n : String) → Keeps P (R.add_healthz_check m n)
  pub add_readyz_check : (m : R.Mgr) (n : String) → Keeps P (R.add_readyz_check m n)

-- A call that returns no error registers what it is given, for good; and the start keeps `P` where
-- all that is required is registered.
pub record Registers (R : Runtime) (Has : Entry → R.World → Type 0) (P : R.World → Type 0)
    : Type 0 where
  pub types_registered :
      (g : Group) (w : R.World) (u : Unit {0})
      → (R.add_to_scheme g w).0 ≡ ok u
      → Has (types g) (R.add_to_scheme g w).1
  pub controller_registered :
      (m : R.Mgr) (b : Builder) (r : Reconciler) (w : R.World) (u : Unit {0})
      → (R.complete m b r w).0 ≡ ok u
      → Has (controller b) (R.complete m b r w).1
  pub healthz_registered :
      (m : R.Mgr) (n : String) (w : R.World) (u : Unit {0})
      → (R.add_healthz_check m n w).0 ≡ ok u
      → Has (healthz n) (R.add_healthz_check m n w).1
  pub readyz_registered :
      (m : R.Mgr) (n : String) (w : R.World) (u : Unit {0})
      → (R.add_readyz_check m n w).0 ≡ ok u
      → Has (readyz n) (R.add_readyz_check m n w).1
  pub has_kept : (e : Entry) → IsKept R (Has e)
  pub kept : IsKept R P
  pub start : (m : R.Mgr) (w : R.World) → All (λ e. Has e w) required → P w → P (R.start m w).1

module _ (R : Runtime) (Has : Entry → R.World → Type 0) (P : R.World → Type 0)
    (S : Registers R Has P) where
  abbrev HasAll : List Entry → R.World → Type 0
  HasAll es w = All (λ e. Has e w) es

  -- What the code keeps where the entries are registered.
  Guarded : List Entry → M R.World Exit → Type 0
  Guarded es m = (w : R.World) → HasAll es w → P w → P (m w).1

  -- Code that registers further entries, or returns an error.
  Adds : {A : Type 0} → List Entry → M R.World (Result A) → List Entry → Type 0
  Adds es m fs =
      (w : R.World) → HasAll es w → P w → P (m w).1 × ((a : _) → (m w).0 ≡ ok a → HasAll fs (m w).1)

  HasAll-kept :
      {A : Type 0} (m : M R.World (Result A)) (w : R.World) (es : List Entry)
      → ((e : Entry) → Keeps (Has e) m)
      → HasAll es w
      → HasAll es (m w).1
  HasAll-kept m w [] k h = tt
  HasAll-kept m w (e ∷ es) k h = ((k e).at w h.0, HasAll-kept m w es k h.1)

  adds :
      {A : Type 0} (m : M R.World (Result A)) (e : Entry) (es : List Entry)
      → ((w : R.World) (a : A) → (m w).0 ≡ ok a → Has e (m w).1)
      → ((x : Entry) → Keeps (Has x) m)
      → Keeps P m
      → Adds es m (e ∷ es)
  unfolding Adds
  adds m e es registered k kp =
      λ w h p. (kp.at w p, λ a done. (registered w a done, HasAll-kept m w es k h))

  Adds-on :
      (m n : M R.World (Result (Unit {0}))) (es fs gs : List Entry)
      → Adds es m fs
      → Adds fs n gs
      → Adds es (on m (λ e. pure (err e)) (λ _. n)) gs
  unfolding Adds
  Adds-on m n es fs gs am an = λ w h p.
      on_cases (λ r. P r.1 × ((a : Unit {0}) → r.0 ≡ ok a → HasAll gs r.1)) m (λ e. pure (err e))
        (λ _. n) w (λ e _. ((am w h p).0, λ a broken. absurd (cc)))
        (λ a done. an (m w).1 ((am w h p).1 a done) (am w h p).0)

  Guarded-on :
      {A : Type 0} (m : M R.World (Result A)) (x : Err → Exit) (next : A → M R.World Exit)
      (es fs : List Entry)
      → Adds es m fs
      → ((a : A) → Guarded fs (next a))
      → Guarded es (on m (λ e. pure (x e)) next)
  unfolding Adds Guarded
  Guarded-on m x next es fs am gn = λ w h p.
      on_cases (λ r. P r.1) m (λ e. pure (x e)) next w (λ e _. (am w h p).0)
        (λ a done. gn a (m w).1 ((am w h p).1 a done) (am w h p).0)

  scheme-kept : (g : Group) (e : Entry) → Keeps (Has e) (R.add_to_scheme g)
  scheme-kept g e = (S.has_kept e).add_to_scheme g

  Adds-types : (g : Group) (es : List Entry) → Adds es (R.add_to_scheme g) (types g ∷ es)
  Adds-types g es =
      adds (R.add_to_scheme g) (types g) es (S.types_registered g) (scheme-kept g)
        (S.kept.add_to_scheme g)

  Adds-controller :
      (m : R.Mgr) (b : Builder) (r : Reconciler) (es : List Entry)
      → Adds es (R.complete m b r) (controller b ∷ es)
  Adds-controller m b r es =
      adds (R.complete m b r) (controller b) es (S.controller_registered m b r)
        (λ e. (S.has_kept e).complete m b r) (S.kept.complete m b r)

  Adds-healthz :
      (m : R.Mgr) (n : String) (es : List Entry)
      → Adds es (R.add_healthz_check m n) (healthz n ∷ es)
  Adds-healthz m n es =
      adds (R.add_healthz_check m n) (healthz n) es (S.healthz_registered m n)
        (λ e. (S.has_kept e).add_healthz_check m n) (S.kept.add_healthz_check m n)

  Adds-readyz :
      (m : R.Mgr) (n : String) (es : List Entry) → Adds es (R.add_readyz_check m n) (readyz n ∷ es)
  Adds-readyz m n es =
      adds (R.add_readyz_check m n) (readyz n) es (S.readyz_registered m n)
        (λ e. (S.has_kept e).add_readyz_check m n) (S.kept.add_readyz_check m n)

  -- The manager itself is no entry.
  Adds-manager : (o : Options) (es : List Entry) → Adds es (R.new_manager o) es
  unfolding Adds
  Adds-manager o es = λ w h p. (
    (S.kept.new_manager o).at w p,
    λ a made. HasAll-kept (R.new_manager o) w es (λ e. (S.has_kept e).new_manager o) h,
  )

  start-Guarded :
      (m : R.Mgr) → Guarded required (on (R.start m) (λ e. pure (exited 1)) (λ _. pure returned))
  unfolding Guarded
  start-Guarded m = λ w h p.
      on_cases (λ r. P r.1) (R.start m) (λ e. pure (exited 1)) (λ _. pure returned) w
        (λ e _. S.start m w h p) (λ _ _. S.start m w h p)

  init-Adds : Adds [] (init R) types_added
  unfolding init
  init-Adds =
      Adds-on _ _ [] _ _ (Adds-types Group.client_go [])
        (Adds-on _ _ _ _ _ (Adds-types Group.metrics _) (Adds-types Group.stroom _))

  run_manager-Guarded : (m : R.Mgr) → Guarded types_added (run_manager R m)
  unfolding run_manager Setup.stroom_cluster Setup.database_server Setup.stroom_task_autoscaler
      Setup.database_backup
  run_manager-Guarded m =
      Guarded-on _ (λ e. exited 1) _ _ _ (Adds-controller m _ _ _)
        (λ _.
          Guarded-on _ (λ e. exited 1) _ _ _ (Adds-controller m _ _ _)
            (λ _.
              Guarded-on _ (λ e. exited 1) _ _ _ (Adds-controller m _ _ _)
                (λ _.
                  Guarded-on _ (λ e. exited 1) _ _ _ (Adds-controller m _ _ _)
                    (λ _.
                      Guarded-on _ (λ e. exited 1) _ _ _ (Adds-healthz m _ _)
                        (λ _.
                          Guarded-on _ (λ e. exited 1) _ _ _ (Adds-readyz m _ _)
                            (λ _. start-Guarded m))))))

  -- The program starts its manager only when the types of the three packages are in the scheme,
  -- the controllers of the four kinds of resources are complete, those of the StroomCluster and
  -- of the DatabaseServer as owners of StatefulSets, and both checks are added: whatever the other
  -- calls keep, and a start keeps after all of that, the program keeps, whichever calls fail. A
  -- call that returns no error registers what it is given, and no later call undoes that.
  pub program-kept : (flags : Flags) (w : R.World) → P w → P (program R flags w).1
  unfolding program main Adds Guarded
  program-kept flags w p =
      Guarded-on (init R) (λ e. panicked e) (λ _. main R flags) [] types_added init-Adds
        (λ _.
          Guarded-on (R.new_manager _) (λ e. exited 1) (run_manager R) types_added types_added
            (Adds-manager _ types_added) run_manager-Guarded)
        w tt p
