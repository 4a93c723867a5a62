-- ===== src/Metrics/Window.antt =====
-- internal/controller/stroomtaskautoscaler.go: the sliding window mean of CPU usage.
use mathlib.Core.Path.{ap₂, ◌∙◌}
use native.Mathlib.Omega.{arith}
use stroom_k8s_operator.Base.{
  ℕ, suc, ◌+◌, ◌*◌, ◌/◌, ◌≤◌, ◌<◌, String, ◌≡◌, refl, ◌≢◌, inl, inr, Option, none, some, List, [],
  ◌∷◌, length, All, ltb, string_eq, if◌then◌else◌, Bool, Bool-cases, Option-cases,
}
use stroom_k8s_operator.Base.Int.{ℤ, pos, pos_part, neg_part, ◌+ℤ◌, int64, quot}
use stroom_k8s_operator.Base.Dict.{lookup}
use stroom_k8s_operator.Kube.Meta.{Time, Quantity}
use stroom_k8s_operator.Metrics.{
  StroomNodeMetric, StroomNodeMetricMap, Mean, absent, mean, is_within, window_mean,
  get_sliding_window_mean,
}
use stroom_k8s_operator.Metrics.Retention.{samples}
use stroom_k8s_operator.Metrics.Minutes.{max_minutes, plus_minutes, is_within_iff}

-- Whether a sample lies in a window, by arithmetic on its time.
unfoldable pub is_young : ℕ → Time → StroomNodeMetric → Bool
is_young n now x =
    ltb (pos_part now + neg_part (plus_minutes x.time n))
      (pos_part (plus_minutes x.time n) + neg_part now)

-- The samples of a window.
abbrev pub young : ℕ → Time → List StroomNodeMetric → List StroomNodeMetric
young n now [] = []
young n now (x ∷ xs) = let rest = young n now xs in if is_young n now x then x ∷ rest else rest

is_within-is_young :
    (n : ℕ) (now : Time) (x : StroomNodeMetric)
    → n ≤ max_minutes
    → is_within (pos n) now x ≡ is_young n now x
unfolding is_young
is_within-is_young n now x h = ground (arith, is_within_iff n now x h)

-- The number of a quotient, if there is something to divide by.
abbrev pub average : ℕ → ℕ → Mean
average sum count = if ltb 0 count then mean (pos (sum / count)) else absent

positive : (xs : List StroomNodeMetric) → xs ≢ [] → 0 < length xs
positive [] h = absurd (h refl)
positive (x ∷ xs) h = omega arith

module _ (milli_value : Quantity → ℤ) where
  -- A usage that is present and not negative.
  abbrev pub IsUsage : Option Quantity → Type 0
  IsUsage none = ⊥
  IsUsage (some q) = neg_part (milli_value q) ≡ 0

  abbrev pub usage : Option Quantity → ℕ
  usage none = 0
  usage (some q) = pos_part (milli_value q)

  abbrev pub total : List StroomNodeMetric → ℕ
  total [] = 0
  total (x ∷ xs) = usage x.cpu_usage + total xs

  abbrev pub AllUsed : List StroomNodeMetric → Type 0
  AllUsed = All (λ x. IsUsage x.cpu_usage)

  window_mean_step :
      (s : ℕ) (u : ℤ)
      → neg_part u ≡ 0
      → s + pos_part u < 0x8000000000000000
      → int64 (pos s +ℤ u) ≡ pos (s + pos_part u)
  unfolding int64 ◌+ℤ◌
  window_mean_step s u nonneg small = ground arith

  window_mean-eq :
      (n : ℕ) (now : Time) (xs : List StroomNodeMetric) (s c : ℕ)
      → n ≤ max_minutes
      → AllUsed xs
      → s + total (young n now xs) < 0x8000000000000000
      → window_mean milli_value (pos n) now xs (pos s) c
        ≡ average (s + total (young n now xs)) (c + length (young n now xs))
  unfolding window_mean quot
  window_mean-eq n now [] s c h used small = ground arith
  window_mean-eq n now (x ∷ xs) s c h used small = elim (Bool-cases (is_young n now x)) [
    | inl y ↦ elim (Option-cases x.cpu_usage) [
      | inl e ↦ absurd (rw e at used.0)
      | inr (q, e) ↦
          let nonneg : neg_part (milli_value q) ≡ 0 = rw e at used.0 in
          let fits : s + (pos_part (milli_value q) + total (young n now xs)) < 0x8000000000000000 =
            rw (y, e) at small in
          rw
            (
              is_within-is_young n now x h,
              y,
              e,
              window_mean_step s (milli_value q) nonneg (omega arith),
            )
            (window_mean-eq n now xs (s + pos_part (milli_value q)) (suc c) h used.1 (omega arith)
              ∙ ap₂ average (omega arith) (omega arith))
    ]
    | inr o ↦
        rw (is_within-is_young n now x h, o) (window_mean-eq n now xs s c h used.1 (rw o at small))
  ]

  -- For a pod whose samples all hold a usage that is not negative, with a sum over the window
  -- below 2 ^ 63, and for a window of at most `max_minutes`, the sliding window mean is the sum
  -- of the usages younger than the window over their number, rounded down. Without such a sample,
  -- or without the pod, there is no mean.
  pub get_sliding_window_mean-eq :
      (p : String) (n : ℕ) (now : Time) (m : StroomNodeMetricMap)
      → n ≤ max_minutes
      → AllUsed (samples p m)
      → total (young n now (samples p m)) < 0x8000000000000000
      → get_sliding_window_mean milli_value p (pos n) now m
        ≡ average (total (young n now (samples p m))) (length (young n now (samples p m)))
  unfolding get_sliding_window_mean
  get_sliding_window_mean-eq p n now m h used small = elim (Option-cases (lookup p m.items)) [
    | inl unknown ↦ rw (unknown, get_sliding_window_mean)
    | inr (metrics, known) ↦
        let fits : 0 + total (young n now metrics) < 0x8000000000000000 =
          let bound : total (young n now metrics) < 0x8000000000000000 = rw known at small in
          omega arith in
        rw (known, get_sliding_window_mean)
          (window_mean-eq n now metrics 0 0 h (rw known at used) fits
            ∙ ap₂ average (omega arith) (omega arith))
  ]

  abbrev UsageIn : ℕ → ℕ → StroomNodeMetric → Type 0
  UsageIn lo hi x = (lo ≤ usage x.cpu_usage) × (usage x.cpu_usage ≤ hi)

  total_bounds :
      (lo hi : ℕ) (xs : List StroomNodeMetric)
      → All (UsageIn lo hi) xs
      → (length xs * lo ≤ total xs) × (total xs ≤ length xs * hi)
  total_bounds lo hi [] inside = omega arith
  total_bounds lo hi (x ∷ xs) inside = omega (arith, total_bounds lo hi xs inside.1)

  average_bounds :
      (lo hi sum count : ℕ)
      → 0 < count
      → count * lo ≤ sum
      → sum ≤ count * hi
      → (v : ℕ) × (average sum count ≡ mean (pos v)) × (lo ≤ v) × (v ≤ hi)
  average_bounds lo hi sum count some_count low high =
      (sum / count, ground arith, grind arith, grind arith)

  -- For a pod whose samples all hold a usage that is not negative, with a sum over the window
  -- below 2 ^ 63, and for a window of at most `max_minutes`: if the window holds a sample and all
  -- its usages lie between two numbers, then there is a mean, and it lies between them too.
  pub get_sliding_window_mean_bounds :
      (p : String) (n lo hi : ℕ) (now : Time) (m : StroomNodeMetricMap)
      → n ≤ max_minutes
      → AllUsed (samples p m)
      → total (young n now (samples p m)) < 0x8000000000000000
      → young n now (samples p m) ≢ []
      → All (UsageIn lo hi) (young n now (samples p m))
      → (v : ℕ) × (get_sliding_window_mean milli_value p (pos n) now m ≡ mean (pos v))
        × (lo ≤ v)
        × (v ≤ hi)
  get_sliding_window_mean_bounds p n lo hi now m h used small inhabited inside =
      let xs = young n now (samples p m) in
      let (low, high) = total_bounds lo hi xs inside in
      rw (get_sliding_window_mean-eq p n now m h used small)
        (average_bounds lo hi (total xs) (length xs) (positive xs inhabited) low high)
