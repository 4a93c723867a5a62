-- ===== src/Tests/Objects.antt =====
-- Objects of every kind, stored by their names.
use native.Mathlib.Decide.{ℕ_discrete}
use stroom_k8s_operator.Base.{
  ◌≡◌, refl, sym, ap, ◌≢◌, ◌⊎◌, inl, inr, Bool, true, false, ◌&&◌, Option, none, some, ◌==◌,
  ==_self, string_eq, Bool-cases, arith,
}
use stroom_k8s_operator.Kube.Meta.{NamespacedName}
use stroom_k8s_operator.Kube.Env.{Kind, Object}
use stroom_k8s_operator.DatabaseServer.Children.{Key}

-- Equality of two objects is decided field by field.
pub Object-discrete : (k : Kind) → Discrete (Object k)
Object-discrete Kind.database_server = hlevel (string_eq.dec, ℕ_discrete)
Object-discrete Kind.stroom_cluster = hlevel (string_eq.dec, ℕ_discrete)
Object-discrete Kind.stroom_task_autoscaler = hlevel (string_eq.dec, ℕ_discrete)
Object-discrete Kind.database_backup = hlevel (string_eq.dec, ℕ_discrete)
Object-discrete Kind.secret = hlevel (string_eq.dec, ℕ_discrete)
Object-discrete Kind.config_map = hlevel (string_eq.dec, ℕ_discrete)
Object-discrete Kind.stateful_set = hlevel (string_eq.dec, ℕ_discrete)
Object-discrete Kind.service = hlevel (string_eq.dec, ℕ_discrete)
Object-discrete Kind.service_account = hlevel (string_eq.dec, ℕ_discrete)
Object-discrete Kind.ingress = hlevel (string_eq.dec, ℕ_discrete)
Object-discrete Kind.persistent_volume_claim = hlevel (string_eq.dec, ℕ_discrete)
Object-discrete Kind.cron_job_v1 = hlevel (string_eq.dec, ℕ_discrete)
Object-discrete Kind.cron_job_v1beta1 = hlevel (string_eq.dec, ℕ_discrete)
Object-discrete Kind.pod = hlevel (string_eq.dec, ℕ_discrete)
Object-discrete Kind.pod_metrics = hlevel (string_eq.dec, ℕ_discrete)

-- An object as one of another kind, if that is the same kind.
abbrev pub cast : (k k' : Kind) → Object k → Option (Object k')
cast Kind.database_server Kind.database_server o = some o
cast Kind.stroom_cluster Kind.stroom_cluster o = some o
cast Kind.stroom_task_autoscaler Kind.stroom_task_autoscaler o = some o
cast Kind.database_backup Kind.database_backup o = some o
cast Kind.secret Kind.secret o = some o
cast Kind.config_map Kind.config_map o = some o
cast Kind.stateful_set Kind.stateful_set o = some o
cast Kind.service Kind.service o = some o
cast Kind.service_account Kind.service_account o = some o
cast Kind.ingress Kind.ingress o = some o
cast Kind.persistent_volume_claim Kind.persistent_volume_claim o = some o
cast Kind.cron_job_v1 Kind.cron_job_v1 o = some o
cast Kind.cron_job_v1beta1 Kind.cron_job_v1beta1 o = some o
cast Kind.pod Kind.pod o = some o
cast Kind.pod_metrics Kind.pod_metrics o = some o
cast _ _ o = none

cast_self : (k : Kind) (o : Object k) → cast k k o ≡ some o
cast_self Kind.database_server o = refl
cast_self Kind.stroom_cluster o = refl
cast_self Kind.stroom_task_autoscaler o = refl
cast_self Kind.database_backup o = refl
cast_self Kind.secret o = refl
cast_self Kind.config_map o = refl
cast_self Kind.stateful_set o = refl
cast_self Kind.service o = refl
cast_self Kind.service_account o = refl
cast_self Kind.ingress o = refl
cast_self Kind.persistent_volume_claim o = refl
cast_self Kind.cron_job_v1 o = refl
cast_self Kind.cron_job_v1beta1 o = refl
cast_self Kind.pod o = refl
cast_self Kind.pod_metrics o = refl

cast_cases : (k k' : Kind) (o : Object k) → (k ≡ k') ⊎ (cast k k' o ≡ none)
cast_cases Kind.database_server Kind.database_server o = inl refl
cast_cases Kind.stroom_cluster Kind.stroom_cluster o = inl refl
cast_cases Kind.stroom_task_autoscaler Kind.stroom_task_autoscaler o = inl refl
cast_cases Kind.database_backup Kind.database_backup o = inl refl
cast_cases Kind.secret Kind.secret o = inl refl
cast_cases Kind.config_map Kind.config_map o = inl refl
cast_cases Kind.stateful_set Kind.stateful_set o = inl refl
cast_cases Kind.service Kind.service o = inl refl
cast_cases Kind.service_account Kind.service_account o = inl refl
cast_cases Kind.ingress Kind.ingress o = inl refl
cast_cases Kind.persistent_volume_claim Kind.persistent_volume_claim o = inl refl
cast_cases Kind.cron_job_v1 Kind.cron_job_v1 o = inl refl
cast_cases Kind.cron_job_v1beta1 Kind.cron_job_v1beta1 o = inl refl
cast_cases Kind.pod Kind.pod o = inl refl
cast_cases Kind.pod_metrics Kind.pod_metrics o = inl refl
cast_cases _ _ o = inr refl

abbrev pub Objects : Type 0
Objects = (k : Kind) → NamespacedName → Option (Object k)

abbrev pub same_name : NamespacedName → NamespacedName → Bool
same_name m n = m.name == n.name && m.namespace == n.namespace

abbrev pub replaced : {A : Type 0} → Option A → Bool → Option A → Option A
replaced none same old = old
replaced (some a) true old = some a
replaced (some a) false old = old

abbrev pub put : (k : Kind) → NamespacedName → Object k → Objects → Objects
put k n o w k' n' = replaced (cast k k' o) (same_name n n') (w k' n')

pub put_self :
    (k : Kind) (n : NamespacedName) (o : Object k) (w : Objects) → put k n o w k n ≡ some o
put_self k n o w = rw (cast_self k o, ==_self n.name, ==_self n.namespace)

same_name→eq : (m n : NamespacedName) → same_name m n ≡ true → m ≡ n
same_name→eq m n h = ground arith

replaced-false : {A : Type 0} (new old : Option A) → replaced new false old ≡ old
replaced-false none old = refl
replaced-false (some a) old = refl

pub put_others :
    (k : Kind) (n : NamespacedName) (o : Object k) (w : Objects) (k' : Kind) (n' : NamespacedName)
    → (let a : Key = (k', n') in a ≢ (k, n))
    → put k n o w k' n' ≡ w k' n'
put_others k n o w k' n' apart = elim (cast_cases k k' o) [
  | inr other ↦ rw other
  | inl same ↦ elim (Bool-cases (same_name n n')) [
    | inl named ↦ absurd (apart (λ i. (sym same i, sym (same_name→eq n n' named) i)))
    | inr differ ↦ rw differ (replaced-false (cast k k' o) (w k' n'))
  ]
]

-- Keys of different kinds.
pub ne_of_kind : (a b : Key) → a.0 ≢ b.0 → a ≢ b
ne_of_kind a b h e = h (ap (λ p. p.0) e)
