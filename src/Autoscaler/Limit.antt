-- ===== src/Autoscaler/Limit.antt =====
-- internal/controller/stroomtaskautoscaler_controller.go: the new task limit that `scaleStroomNode`
-- chooses for a node.
use mathlib.Core.Option.{some-injective}
use stroom_k8s_operator.Base.{
  inl, inr, ◌≢◌, Bool-cases, refl, sym, ◌≡◌, ◌⊎◌, Bool, ◌&&◌, ◌||◌, Option, none, some, arith,
  if◌then◌else◌,
}
use stroom_k8s_operator.Base.Int.{
  ℤ, pos, ◌+ℤ◌, ◌-ℤ◌, ◌≤ℤ◌, ◌<ℤ◌, ltb_ℤ, int64, int64-eq, InInt64, +ℤ_parts, -ℤ_parts, eq_of_parts,
}
use stroom_k8s_operator.Api.Autoscaler.{StroomTaskAutoscalerSpec}

unfoldable pub is_outside_bounds : StroomTaskAutoscalerSpec → ℤ → Bool
is_outside_bounds o cpu_percent =
    ltb_ℤ cpu_percent o.min_cpu_percent || ltb_ℤ o.max_cpu_percent cpu_percent

abbrev raised : StroomTaskAutoscalerSpec → ℤ → ℤ
raised o task_limit =
    let sum = int64 (task_limit +ℤ o.step_amount) in
    if ltb_ℤ o.max_task_limit sum then o.max_task_limit else sum

abbrev lowered : StroomTaskAutoscalerSpec → ℤ → ℤ
lowered o task_limit =
    let difference = int64 (task_limit -ℤ o.step_amount) in
    if ltb_ℤ difference o.min_task_limit then o.min_task_limit else difference

-- The new limit; `none` where the code returns at an idle node.
unfoldable pub new_task_limit : StroomTaskAutoscalerSpec → ℤ → ℤ → ℤ → Option ℤ
unfolding int64 ◌+ℤ◌ ◌-ℤ◌
new_task_limit o cpu_percent active_tasks task_limit =
    if ltb_ℤ cpu_percent o.min_cpu_percent && ltb_ℤ task_limit o.max_task_limit
    then if ltb_ℤ active_tasks task_limit then none else some (raised o task_limit)
    else if ltb_ℤ o.max_cpu_percent cpu_percent && ltb_ℤ o.min_task_limit task_limit
    then some (lowered o task_limit)
    else some task_limit

-- A step that moves the limit up: the CPU is under its band, every task of the limit is active,
-- and the new limit is the old one plus the step, or the maximum if that is less.
pub record Raises (o : StroomTaskAutoscalerSpec) (cpu active old new : ℤ) : Type 0 where
  pub idle_cpu : cpu <ℤ o.min_cpu_percent
  pub busy_node : old ≤ℤ active
  pub up : old <ℤ new
  pub at_most_max : new ≤ℤ o.max_task_limit
  pub step_or_max : (new ≡ old +ℤ o.step_amount) ⊎ (new ≡ o.max_task_limit)

-- A step that moves the limit down.
pub record Lowers (o : StroomTaskAutoscalerSpec) (cpu old new : ℤ) : Type 0 where
  pub busy_cpu : o.max_cpu_percent <ℤ cpu
  pub down : new <ℤ old
  pub at_least_min : o.min_task_limit ≤ℤ new
  pub step_or_min : (new ≡ old -ℤ o.step_amount) ⊎ (new ≡ o.min_task_limit)

lt_of_ne : (a b : ℤ) → a ≤ℤ b → b ≢ a → a <ℤ b
lt_of_ne a b le ne = elim (Bool-cases (ltb_ℤ a b)) [
  | inl l ↦ ground arith
  | inr l ↦ absurd (ne (eq_of_parts b a (ground arith)))
]

module _ (o : StroomTaskAutoscalerSpec) (cpu active old : ℤ) where
  raised-Raises :
      (new : ℤ)
      → pos 0 ≤ℤ o.step_amount
      → InInt64 (old +ℤ o.step_amount)
      → cpu <ℤ o.min_cpu_percent
      → old <ℤ o.max_task_limit
      → old ≤ℤ active
      → raised o old ≡ new
      → new ≢ old
      → Raises o cpu active old new
  raised-Raises new forward fits low room busy h moved =
      let sum = old +ℤ o.step_amount in
      elim (Bool-cases (ltb_ℤ o.max_task_limit sum)) [
        | inl past ↦
            let at : o.max_task_limit ≡ new = rw (int64-eq sum fits, past) at h in
            rw (← at) (record {
              idle_cpu = low;
              busy_node = busy;
              up = room;
              at_most_max = omega arith;
              step_or_max = inr refl;
            })
        | inr within ↦
            let at : sum ≡ new = rw (int64-eq sum fits, within) at h in
            let grown : old ≤ℤ sum = omega (arith, +ℤ_parts old o.step_amount) in
            record {
              idle_cpu = low;
              busy_node = busy;
              up = lt_of_ne old new (rw (← at) grown) moved;
              at_most_max = rw (← at) (ground arith);
              step_or_max = inl (sym at);
            }
      ]

  lowered-Lowers :
      (new : ℤ)
      → pos 0 ≤ℤ o.step_amount
      → InInt64 (old -ℤ o.step_amount)
      → o.max_cpu_percent <ℤ cpu
      → o.min_task_limit <ℤ old
      → lowered o old ≡ new
      → new ≢ old
      → Lowers o cpu old new
  lowered-Lowers new forward fits high room h moved =
      let difference = old -ℤ o.step_amount in
      elim (Bool-cases (ltb_ℤ difference o.min_task_limit)) [
        | inl past ↦
            let at : o.min_task_limit ≡ new = rw (int64-eq difference fits, past) at h in
            rw (← at) (record {
              busy_cpu = high;
              down = room;
              at_least_min = omega arith;
              step_or_min = inr refl;
            })
        | inr within ↦
            let at : difference ≡ new = rw (int64-eq difference fits, within) at h in
            let shrunk : difference ≤ℤ old = omega (arith, -ℤ_parts old o.step_amount) in
            record {
              busy_cpu = high;
              down = lt_of_ne new old (rw (← at) shrunk) (λ e. moved (sym e));
              at_least_min = rw (← at) (ground arith);
              step_or_min = inl (sym at);
            }
      ]

  -- A chosen limit that differs from the old one raises or lowers it by the step, cut at the
  -- maximum or the minimum, and only for a CPU usage on the matching side of its band, and upwards
  -- only if the node is at capacity. The step is not negative and the sums fit an int64.
  pub new_task_limit-moves :
      (new : ℤ)
      → pos 0 ≤ℤ o.step_amount
      → InInt64 (old +ℤ o.step_amount)
      → InInt64 (old -ℤ o.step_amount)
      → new_task_limit o cpu active old ≡ some new
      → new ≢ old
      → Raises o cpu active old new ⊎ Lowers o cpu old new
  unfolding new_task_limit
  new_task_limit-moves new forward up down h moved =
      elim (Bool-cases (ltb_ℤ cpu o.min_cpu_percent && ltb_ℤ old o.max_task_limit)) [
        | inl low ↦ elim (Bool-cases (ltb_ℤ active old)) [
          | inl idle ↦ cc (rw (low, idle) at h)
          | inr busy ↦
              let at : raised o old ≡ new = some-injective _ _ (rw (low, busy) at h) in
              inl
                (raised-Raises new forward up (ground arith) (ground arith) (ground arith) at moved)
        ]
        | inr kept ↦ elim (Bool-cases (ltb_ℤ o.max_cpu_percent cpu && ltb_ℤ o.min_task_limit old)) [
          | inl high ↦
              let at : lowered o old ≡ new = some-injective _ _ (rw (kept, high) at h) in
              inr (lowered-Lowers new forward down (ground arith) (ground arith) at moved)
          | inr same ↦ absurd (moved (sym (some-injective _ _ (rw (kept, same) at h))))
        ]
      ]
