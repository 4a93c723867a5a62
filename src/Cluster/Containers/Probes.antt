-- ===== src/Cluster/Containers/Probes.antt =====
-- internal/controller/stroomcluster.go: the timings of the probes of a node set's container.
use stroom_k8s_operator.Base.{
  String, if◌then◌else◌, ◌≡◌, refl, ◌⊎◌, ◌≢◌, inl, inr, Option, some, none, Bool-cases, arith,
}
use stroom_k8s_operator.Base.Int.{ℤ, pos, ℤ_eq, ℤ_eq-false}
use stroom_k8s_operator.Kube.Core.{Probe}
use stroom_k8s_operator.Api.Common.{ProbeTimings}
use stroom_k8s_operator.Api.StroomCluster.{StroomCluster, NodeSet}
use stroom_k8s_operator.Database.{DatabaseConnectionInfo}
use stroom_k8s_operator.Cluster.Config.{admin_port_name}
use stroom_k8s_operator.Cluster.Containers.{create_probe, startup_probe, node_container}

-- All timings but the period are the given ones.
abbrev pub Follows : ProbeTimings → Probe → Type 0
Follows t p =
    (p.initial_delay_seconds ≡ t.initial_delay_seconds)
    × (p.timeout_seconds ≡ t.timeout_seconds)
    × (p.success_threshold ≡ t.success_threshold)
    × (p.failure_threshold ≡ t.failure_threshold)

-- Where a period is given, the initial delay stands in its place; otherwise there is none.
abbrev pub IsDelayed : ProbeTimings → Probe → Type 0
IsDelayed t p =
    ((t.period_seconds ≢ pos 0) × (p.period_seconds ≡ t.initial_delay_seconds))
    ⊎ ((t.period_seconds ≡ pos 0) × (p.period_seconds ≡ pos 0))

-- There is a probe of which both hold.
abbrev pub IsTimed : (ProbeTimings → Probe → Type 0) → ProbeTimings → Option Probe → Type 0
IsTimed Period t (some p) = Follows t p × Period t p
IsTimed Period t none = ⊥

unless_zero_self : (x : ℤ) → (if ℤ_eq x (pos 0) then pos 0 else x) ≡ x
unless_zero_self x = elim (Bool-cases (ℤ_eq x (pos 0))) [
  | inl none' ↦ rw none' (ground arith)
  | inr given ↦ rw given refl
]

create_probe-Follows :
    (t : ProbeTimings) (port_name : String) → Follows t (create_probe t port_name)
unfolding create_probe
create_probe-Follows t port_name =
    (unless_zero_self _, unless_zero_self _, unless_zero_self _, unless_zero_self _)

create_probe-IsDelayed :
    (t : ProbeTimings) (port_name : String) → IsDelayed t (create_probe t port_name)
unfolding create_probe
create_probe-IsDelayed t port_name = elim (Bool-cases (ℤ_eq t.period_seconds (pos 0))) [
  | inl none' ↦ inr (ground arith, rw none' refl)
  | inr given ↦ inl (ℤ_eq-false _ _ given, rw given refl)
]

-- The readiness and the liveness probe of a node set's container take all timings but the period
-- from the node set; where a period is given they have the initial delay in its place, and
-- otherwise none. The startup probe takes all of them, the period included.
pub node_container-IsTimed :
    (c : StroomCluster) (n : NodeSet) (info : DatabaseConnectionInfo)
    → IsTimed IsDelayed n.readiness_probe_timings (node_container c n info).readiness_probe
      × IsTimed IsDelayed n.liveness_probe_timings (node_container c n info).liveness_probe
      × IsTimed
          (λ t p. p.period_seconds ≡ t.period_seconds)
          n.startup_probe_timings
          (node_container c n info).startup_probe
unfolding node_container startup_probe
node_container-IsTimed c n info = (
  (
    create_probe-Follows n.readiness_probe_timings admin_port_name,
    create_probe-IsDelayed n.readiness_probe_timings admin_port_name,
  ),
  (
    create_probe-Follows n.liveness_probe_timings admin_port_name,
    create_probe-IsDelayed n.liveness_probe_timings admin_port_name,
  ),
  ((refl, refl, refl, refl), refl),
)
