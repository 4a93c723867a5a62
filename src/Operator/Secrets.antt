-- ===== src/Operator/Secrets.antt =====
-- internal/controller: the objects that the operator never changes once they are there, the Secrets
-- with the passwords among them.
use mathlib.Core.Path.{subst}
use stroom_k8s_operator.Base.{String, Bool, ◌≡◌, ◌∙◌, ◌≢◌, some, List}
use stroom_k8s_operator.Base.Int.{ℤ}
use stroom_k8s_operator.Base.State.{M}
use stroom_k8s_operator.Base.Keeps.{Keeps}
use stroom_k8s_operator.Kube.Meta.{Labels, NamespacedName}
use stroom_k8s_operator.Kube.Env.{Env, Kind, Object, Library, SqlValue}
use stroom_k8s_operator.Cluster.Files.{StaticFiles}
use stroom_k8s_operator.Cluster.Plan.Store.{Look}
use stroom_k8s_operator.Operator.Calls.{IsSpared}
use stroom_k8s_operator.Operator.Steps.{State, Reach, Reach-kept}

-- What is stored under the kind is the same after the call.
abbrev pub Untouched : {A : Type 0} (E : Env) → Look E → Kind → M E.World A → Type 0
Untouched E look k m = (w : E.World) (n : NamespacedName) → look (m w).1 k n ≡ look w k n

-- Documented behaviour of the API server: reading, MySQL, the clock and the generator change no
-- object, a write reaches objects of its kind only, and an object that exists is not created again.
pub record IsSeparate (E : Env) (look : Look E) : Type 0 where
  pub get : (k k' : Kind) (n : NamespacedName) → Untouched E look k (E.get k' n)
  pub list : (k k' : Kind) (n : String) (l : Labels) → Untouched E look k (E.list k' n l)
  pub now : (k : Kind) → Untouched E look k E.now
  pub must_generate :
      (k : Kind) (n d s : ℤ) (u r : Bool) → Untouched E look k (E.must_generate n d s u r)
  pub sql_open : (k : Kind) (s : String) → Untouched E look k (E.sql_open s)
  pub sql_close : (k : Kind) (db : E.Db) → Untouched E look k (E.sql_close db)
  pub sql_exec :
      (k : Kind) (db : E.Db) (s : String) (args : List SqlValue)
      → Untouched E look k (E.sql_exec db s args)
  pub sql_query :
      (k : Kind) (db : E.Db) (s : String) (args : List SqlValue)
      → Untouched E look k (E.sql_query db s args)
  pub sql_query_row :
      (k : Kind) (db : E.Db) (s : String) (args : List SqlValue)
      → Untouched E look k (E.sql_query_row db s args)
  pub update : (k k' : Kind) (o : Object k') → k ≢ k' → Untouched E look k (E.update k' o)
  pub update_status :
      (k k' : Kind) (o : Object k') → k ≢ k' → Untouched E look k (E.update_status k' o)
  pub delete : (k k' : Kind) (o : Object k') → k ≢ k' → Untouched E look k (E.delete k' o)
  pub write :
      (k k' : Kind) (o : Object k') (f : Object k' → Object k')
      → k ≢ k'
      → Untouched E look k (E.create_or_update k' o f)
  pub create :
      (k k' : Kind) (o : Object k) (o' : Object k') (w : E.World) (n : NamespacedName)
      → look w k n ≡ some o
      → look (E.create k' o' w).1 k n ≡ some o

-- The kinds of objects that the operator reads or creates, and does no more with.
abbrev pub IsLeft : Kind → Type 0
IsLeft Kind.database_server = ⊥
IsLeft Kind.stroom_cluster = ⊥
IsLeft Kind.config_map = ⊥
IsLeft Kind.stateful_set = ⊥
IsLeft Kind.service = ⊥
IsLeft Kind.ingress = ⊥
IsLeft Kind.persistent_volume_claim = ⊥
IsLeft _ = Unit

module _ (E : Env) (look : Look E) (S : IsSeparate E look) (k : Kind) (n : NamespacedName)
    (o : Object k) (spared : IsLeft k) where
  abbrev pub IsThere : E.World → Type 0
  IsThere w = look w k n ≡ some o

  untouched-kept : {A : Type 0} (m : M E.World A) → Untouched E look k m → Keeps IsThere m
  untouched-kept m same = record { at = λ w there. same w n ∙ there }

  -- A kind that the operator writes is another one.
  other : (k' : Kind) → ¬ IsLeft k' → k ≢ k'
  other k' written e = written (subst IsLeft e spared)

  pub IsThere-IsSpared : IsSpared E IsThere
  IsThere-IsSpared = record {
    get = λ k' n'. untouched-kept _ (S.get k k' n');
    list = λ k' n' l. untouched-kept _ (S.list k k' n' l);
    now = untouched-kept _ (S.now k);
    must_generate = λ x d s u r. untouched-kept _ (S.must_generate k x d s u r);
    sql_open = λ s. untouched-kept _ (S.sql_open k s);
    sql_close = λ db. untouched-kept _ (S.sql_close k db);
    sql_exec = λ db s args. untouched-kept _ (S.sql_exec k db s args);
    sql_query = λ db s args. untouched-kept _ (S.sql_query k db s args);
    sql_query_row = λ db s args. untouched-kept _ (S.sql_query_row k db s args);
    create_secret = λ x. record { at = λ w h. S.create k Kind.secret o x w n h };
    create_config_map = λ x. record { at = λ w h. S.create k Kind.config_map o x w n h };
    create_stateful_set = λ x. record { at = λ w h. S.create k Kind.stateful_set o x w n h };
    create_service = λ x. record { at = λ w h. S.create k Kind.service o x w n h };
    create_service_account = λ x. record { at = λ w h. S.create k Kind.service_account o x w n h };
    create_cron_job = λ x. record { at = λ w h. S.create k Kind.cron_job_v1 o x w n h };
    update_server = λ x.
        untouched-kept _ (S.update k Kind.database_server x (other Kind.database_server (λ h. h)));
    update_cluster = λ x.
        untouched-kept _ (S.update k Kind.stroom_cluster x (other Kind.stroom_cluster (λ h. h)));
    update_status = λ x.
        untouched-kept _
          (S.update_status k Kind.database_server x (other Kind.database_server (λ h. h)));
    delete_ingress =
        λ x. untouched-kept _ (S.delete k Kind.ingress x (other Kind.ingress (λ h. h)));
    delete_claim = λ x.
        untouched-kept _
          (S.delete k Kind.persistent_volume_claim x (other Kind.persistent_volume_claim (λ h. h)));
    write_config_map =
        λ x f. untouched-kept _ (S.write k Kind.config_map x f (other Kind.config_map (λ h. h)));
    write_stateful_set = λ x f.
        untouched-kept _ (S.write k Kind.stateful_set x f (other Kind.stateful_set (λ h. h)));
    write_service =
        λ x f. untouched-kept _ (S.write k Kind.service x f (other Kind.service (λ h. h)));
    write_ingress =
        λ x f. untouched-kept _ (S.write k Kind.ingress x f (other Kind.ingress (λ h. h)));
  }

  -- A Secret, or another object of a kind that the operator only reads or creates, stays as it is
  -- once it is there, whatever the four controllers are called for, in whichever order and with
  -- whatever results, if others leave it alone. The API server is one where reads, MySQL, the clock
  -- and the password generator change no object, a write reaches objects of its kind only, and an
  -- object that exists is not created again.
  pub Reach-there :
      (L : Library) (files : StaticFiles) (Others : E.World → E.World → Type 0) (s t : State E)
      → ((w v : E.World) → Others w v → look w k n ≡ some o → look v k n ≡ some o)
      → Reach E L files Others s t
      → look s.world k n ≡ some o
      → look t.world k n ≡ some o
  Reach-there L files Others s t left reached there =
      Reach-kept E L files Others IsThere IsThere-IsSpared left reached there
