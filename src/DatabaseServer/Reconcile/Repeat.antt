-- ===== src/DatabaseServer/Reconcile/Repeat.antt =====
-- internal/controller/databaseserver_controller.go: `Reconcile`, called again for as long as it asks
-- for it.
use stroom_k8s_operator.Base.{
  ℕ, zero, suc, ◌<◌, ◌≡◌, refl, sym, ap, ◌∙◌, inl, inr, Bool, true, false, All, arith,
  if◌then◌else◌,
}
use mathlib.Core.Path.{subst}
use stroom_k8s_operator.Base.State.{ok, M, pure, ◌>>=◌, on_cases}
use stroom_k8s_operator.Kube.Meta.{NamespacedName}
use stroom_k8s_operator.Kube.Env.{Env, Kind, Library}
use stroom_k8s_operator.Kube.Outcome.{Outcome, requeued}
use stroom_k8s_operator.Api.DatabaseServer.{
  DatabaseServer, DatabaseServerStatus, is_being_deleted, get_base_name, get_service_name,
  get_secret_name, get_config_map_name, get_init_config_map_name,
}
use stroom_k8s_operator.DatabaseServer.Names.{KeepsNames}
use stroom_k8s_operator.DatabaseServer.Reconcile.{set_status_deployed, reconcile}
use stroom_k8s_operator.DatabaseServer.Reconcile.Progress.{Progresses, reconcile-Progresses}
use stroom_k8s_operator.DatabaseServer.Children.{Key, Serves, children, absent_of}

module _ (E : Env) (L : Library) where
  open E use {World}

  -- One call, and up to `n` more.
  pub repeat : ℕ → NamespacedName → M World Outcome
  repeat zero request = reconcile E L request
  repeat (suc n) request =
      reconcile E L request >>= λ r. if r.requeue then repeat n request else pure r

-- The server with a status.
abbrev pub with_status : DatabaseServer → DatabaseServerStatus → DatabaseServer
with_status db st = record db { status = st }

children-with_status :
    (db : DatabaseServer) (st : DatabaseServerStatus) → children (with_status db st) ≡ children db
unfolding get_base_name get_service_name get_secret_name get_config_map_name
    get_init_config_map_name
children-with_status db st = refl

is_being_deleted-with_status :
    (db : DatabaseServer) (st : DatabaseServerStatus)
    → is_being_deleted (with_status db st) ≡ is_being_deleted db
unfolding is_being_deleted
is_being_deleted-with_status db st = refl

-- There are five objects to create.
absent_of-children : (f : Key → Bool) (db : DatabaseServer) → absent_of f (children db) < 6
absent_of-children f db = ground arith

set_status_deployed-once :
    (E : Env) (db : DatabaseServer) (w : E.World) → (set_status_deployed E db w).0.requeue ≡ false
unfolding set_status_deployed
set_status_deployed-once E db w =
    on_cases (λ (r : Outcome × E.World). r.0.requeue ≡ false)
      (E.update_status Kind.database_server _) _ _ w (λ e _. refl) (λ o _. refl)

module _ (E : Env) (L : Library) (request : NamespacedName) (n : ℕ) (w : E.World) where
  repeat_more :
      (reconcile E L request w).0 ≡ requeued
      → repeat E L (suc n) request w ≡ repeat E L n request (reconcile E L request w).1
  unfolding repeat
  repeat_more h = rw h

  repeat_stop :
      (reconcile E L request w).0.requeue ≡ false
      → repeat E L (suc n) request w ≡ reconcile E L request w
  unfolding repeat
  repeat_stop h =
      ap
        (λ b.
          (if b then repeat E L n request else pure (reconcile E L request w).0)
            (reconcile E L request w).1)
        h

module _ (E : Env) (has : E.World → Key → Bool) (S : Serves E has) (L : Library)
    (names : KeepsNames L) (db : DatabaseServer) (request : NamespacedName)
    (live : is_being_deleted db ≡ false)
    (read : (v : E.World)
      → (st : DatabaseServerStatus) × (E.get Kind.database_server request v
          ≡ (ok (with_status db st), v))) where
  -- All five objects are there, and what is returned is the result of setting the status.
  abbrev pub Deploys : Outcome × E.World → Type 0
  Deploys r =
      (v : E.World) × (st : DatabaseServerStatus) × All (λ c. has v c ≡ true) (children db)
      × (r ≡ set_status_deployed E (with_status db st) v)

  one_call :
      (w : E.World)
      → (st : DatabaseServerStatus) × Progresses E has S L names
          (with_status db st)
          w
          (reconcile E L request w)
  one_call w =
      let (st, at) = read w in
      (
        st,
        reconcile-Progresses E has S L names (with_status db st) request w at
            (is_being_deleted-with_status db st ∙ live),
      )

  repeat-Deploys :
      (n : ℕ) (w : E.World)
      → absent_of (has w) (children db) < suc n
      → Deploys (repeat E L n request w)
  unfolding repeat get_base_name get_service_name get_secret_name get_config_map_name
      get_init_config_map_name
  repeat-Deploys zero w few =
      let (st, progress) = one_call w in
      elim progress [
        | inl (again, less) ↦ absurd (omega arith)
        | inr (all, result) ↦ (w, st, all, result)
      ]
  repeat-Deploys (suc n) w few =
      let (st, progress) = one_call w in
      elim progress [
        | inl (again, less) ↦
            subst Deploys (sym (repeat_more E L request n w again))
              (repeat-Deploys n (reconcile E L request w).1 (omega arith))
        | inr (all, result) ↦
            let once =
              ap (λ r. r.0.requeue) result ∙ set_status_deployed-once E (with_status db st) w in
            (w, st, all, repeat_stop E L request n w once ∙ result)
      ]

  -- Called again for as long as it asks for it, `Reconcile` ends after at most six calls, however
  -- many of the five objects are missing at first: all of them are there, and what the last call
  -- did and returned is the setting of the status to Deployed. Only the operator acts on the API
  -- server, the DatabaseServer is not being deleted, and every read of it returns it with some
  -- status.
  pub repeat_six : (w : E.World) → Deploys (repeat E L 5 request w)
  repeat_six w = repeat-Deploys 5 w (absent_of-children (has w) db)
