-- ===== src/Metrics/Minutes.antt =====
-- internal/controller/stroomtaskautoscaler.go: the conversions of minutes to durations, and the
-- comparisons of times, in arithmetic.
use stroom_k8s_operator.Base.{ℕ, ◌+◌, ◌*◌, ◌≤◌, ◌≡◌, ◌↔◌, true, arith}
use stroom_k8s_operator.Base.Int.{ℤ, pos, pos_part, neg_part, ◌+ℤ◌, ◌-ℤ◌, ◌<ℤ◌, +ℤ_parts}
use stroom_k8s_operator.Kube.Meta.{Time}
use stroom_k8s_operator.Metrics.{StroomNodeMetric, minutes, add, after, neg, is_within}

-- The most minutes whose nanoseconds fit an int64.
abbrev pub max_minutes : ℕ
max_minutes = 153722867

-- So many minutes after a time.
abbrev pub plus_minutes : Time → ℕ → Time
plus_minutes t n = t +ℤ pos (60000000000 * n)

pub minutes-eq : (n : ℕ) → n ≤ max_minutes → minutes (pos n) ≡ pos (60000000000 * n)
unfolding minutes
minutes-eq n h = ground arith

-- A sample is younger than an age if the age, added to its time, lies after the current time.
abbrev pub IsYoung : ℕ → Time → StroomNodeMetric → Type 0
IsYoung n now metric = now <ℤ plus_minutes metric.time n

-- A negative number of minutes.
minutes-neg :
    (n : ℕ)
    → n ≤ max_minutes
    → pos_part (minutes (neg (pos n))) + 60000000000 * n ≡ neg_part (minutes (neg (pos n)))
unfolding minutes ◌-ℤ◌
minutes-neg n h = ground arith

add_parts :
    (t d : ℤ)
    → pos_part (add t d) + neg_part t + neg_part d ≡ neg_part (add t d) + pos_part t + pos_part d
unfolding add
add_parts t d = +ℤ_parts t d

pub is_within_iff :
    (n : ℕ) (now : Time) (metric : StroomNodeMetric)
    → n ≤ max_minutes
    → (is_within (pos n) now metric ≡ true) ↔ IsYoung n now metric
unfolding is_within after
is_within_iff n now metric h = ground (
  arith,
  minutes-neg n h,
  add_parts now (minutes (neg (pos n))),
  +ℤ_parts metric.time (pos (60000000000 * n)),
)

pub after-add_iff :
    (n : ℕ) (now last : Time)
    → n ≤ max_minutes
    → (after now (add last (minutes (pos n))) ≡ true) ↔ (plus_minutes last n <ℤ now)
unfolding after
after-add_iff n now last h =
    rw (minutes-eq n h) (
      ground (arith, add_parts last (pos (60000000000 * n)), +ℤ_parts last (pos (60000000000 * n))))
