-- ===== src/Autoscaler/Scale/Writes.antt =====
-- internal/controller/stroomtaskautoscaler_controller.go: what `scaleStroomNode` may write.
use stroom_k8s_operator.Base.{
  String, ◌≡◌, refl, ◌≢◌, inl, inr, none, some, List, [], ◌∷◌, arith, Bool-cases, Option-cases,
}
use stroom_k8s_operator.Base.Int.{
  ℤ, pos, ℤ_eq, ◌≤ℤ◌, ◌+ℤ◌, ◌-ℤ◌, InInt32, InInt64, +ℤ_parts, -ℤ_parts, one_sign, ℤ_eq-false,
}
use stroom_k8s_operator.Base.State.{pure, Result, ok, err, M, on_cases}
use stroom_k8s_operator.Base.Keeps.{Keeps, Keeps-pure, Keeps-bind, keeps_rules}
use stroom_k8s_operator.Kube.Meta.{Time, NamespacedName, Quantity, to_string}
use stroom_k8s_operator.Kube.Env.{Env, Kind, Library, SqlValue, int, text}
use stroom_k8s_operator.Api.StroomCluster.{StroomCluster, NodeSet}
use stroom_k8s_operator.Api.Autoscaler.{StroomTaskAutoscalerSpec}
use stroom_k8s_operator.Database.{
  DatabaseConnectionInfo, get_database_connection_info, open_database,
}
use stroom_k8s_operator.Metrics.{
  StroomNodeMetricMap, Mean, absent, mean, nil_usage, get_sliding_window_mean,
}
use stroom_k8s_operator.Autoscaler.Limit.{new_task_limit, new_task_limit-moves}
use stroom_k8s_operator.Autoscaler.Scale.{
  panicked, cpu_percent_of, NodeTasks, Scaled, scan_row, returned, get_node_tasks,
  update_node_task_limit, adjust, scale_at, scale_stroom_node, node_tasks_query, task_limit_update,
}

abbrev pub InRange : StroomTaskAutoscalerSpec → ℤ → Type 0
InRange o limit = (o.min_task_limit ≤ℤ limit) × (limit ≤ℤ o.max_task_limit)

-- Settings as the resource's schema and its int32 columns admit them.
pub record IsSane (o : StroomTaskAutoscalerSpec) : Type 0 where
  pub step_forward : pos 0 ≤ℤ o.step_amount
  pub step_fits : InInt32 o.step_amount
  pub min_fits : InInt32 o.min_task_limit
  pub max_fits : InInt32 o.max_task_limit

-- A property of the world that reading keeps, under which every reported limit is in range, and
-- that setting a limit in range keeps.
pub record IsKept (E : Env) (o : StroomTaskAutoscalerSpec) (P : E.World → Type 0) : Type 0 where
  pub get : (k : Kind) (n : NamespacedName) → Keeps P (E.get k n)
  pub sql_open : (s : String) → Keeps P (E.sql_open s)
  pub sql_close : (db : E.Db) → Keeps P (E.sql_close db)
  pub sql_query_row :
      (db : E.Db) (args : List SqlValue) → Keeps P (E.sql_query_row db node_tasks_query args)
  pub reported :
      (db : E.Db) (args : List SqlValue) (w : E.World) (tasks : NodeTasks)
      → P w
      → scan_row (E.sql_query_row db node_tasks_query args w).0 ≡ ok tasks
      → InRange o tasks.task_limit
  pub sql_exec :
      (db : E.Db) (limit : ℤ) (node task : String)
      → InRange o limit
      → Keeps P (E.sql_exec db task_limit_update (int limit ∷ text node ∷ text task ∷ []))

new_task_limit-InRange :
    (o : StroomTaskAutoscalerSpec) (cpu active old new : ℤ)
    → IsSane o
    → InRange o old
    → new_task_limit o cpu active old ≡ some new
    → new ≢ old
    → InRange o new
new_task_limit-InRange o cpu active old new sane range h moved =
    let up : InInt64 (old +ℤ o.step_amount) =
      omega
        (arith, sane, +ℤ_parts old o.step_amount, one_sign (old +ℤ o.step_amount), one_sign old) in
    let down : InInt64 (old -ℤ o.step_amount) =
      omega
        (arith, sane, -ℤ_parts old o.step_amount, one_sign (old -ℤ o.step_amount), one_sign old) in
    elim (new_task_limit-moves o cpu active old new sane.step_forward up down h moved) [
      | inl r ↦ (omega (arith, r, range), r.at_most_max)
      | inr l ↦ (l.at_least_min, omega (arith, l, range))
    ]

module _ (E : Env) (L : Library) (o : StroomTaskAutoscalerSpec) (P : E.World → Type 0)
    (K : IsKept E o P) (sane : IsSane o) where
  open_database-kept :
      (info : DatabaseConnectionInfo) (n d : String) → Keeps P (open_database E info n d)
  unfolding open_database
  open_database-kept info n d = search (keeps_rules, K.get, K.sql_open)

  get_node_tasks-kept :
      (c : StroomCluster) (info : DatabaseConnectionInfo) (node task : String)
      → Keeps P (get_node_tasks E c info node task)
  unfolding get_node_tasks
  get_node_tasks-kept c info node task =
      search (keeps_rules, open_database-kept, K.sql_query_row, K.sql_close)

  get_node_tasks-reported :
      (c : StroomCluster) (info : DatabaseConnectionInfo) (node task : String) (w : E.World)
      (tasks : NodeTasks)
      → P w
      → (get_node_tasks E c info node task w).0 ≡ ok tasks
      → InRange o tasks.task_limit
  unfolding get_node_tasks
  get_node_tasks-reported c info node task w tasks p h =
      let opened = open_database E info c.namespace c.spec.app_database_name in
      let p' = (open_database-kept info c.namespace c.spec.app_database_name).at w p in
      on_cases (λ r. r.0 ≡ ok tasks → InRange o tasks.task_limit) opened _ _ w (λ e _ x. cc)
        (λ db _ x. K.reported db _ (opened w).1 tasks p' x) h

  update_node_task_limit-kept :
      (c : StroomCluster) (info : DatabaseConnectionInfo) (node task : String) (limit : ℤ)
      → InRange o limit
      → Keeps P (update_node_task_limit E c info node task limit)
  unfolding update_node_task_limit
  update_node_task_limit-kept c info node task limit range =
      search (keeps_rules, open_database-kept, K.sql_exec, K.sql_close)

  adjust-kept :
      (c : StroomCluster) (pod : NamespacedName) (info : DatabaseConnectionInfo) (cpu : ℤ)
      (found : Result NodeTasks)
      → ((tasks : NodeTasks) → found ≡ ok tasks → InRange o tasks.task_limit)
      → Keeps P (adjust E c pod o info cpu found)
  unfolding adjust
  adjust-kept c pod info cpu (err e) range = Keeps-pure _
  adjust-kept c pod info cpu (ok tasks) range =
      elim (Option-cases (new_task_limit o cpu tasks.active_tasks tasks.task_limit)) [
        | inl idle ↦ rw (idle, adjust) (Keeps-pure _)
        | inr (new, chosen) ↦ elim (Bool-cases (ℤ_eq new tasks.task_limit)) [
          | inl same ↦ rw (chosen, adjust, same) (Keeps-pure _)
          | inr moved ↦
              let in_range =
                new_task_limit-InRange o cpu tasks.active_tasks tasks.task_limit new sane
                  (range tasks refl) chosen (ℤ_eq-false new tasks.task_limit moved) in
              rw (chosen, adjust, moved)
                (Keeps-bind _ _
                  (update_node_task_limit-kept c info pod.name o.task_name new in_range)
                  (λ e. Keeps-pure (returned e)))
        ]
      ]

  after_tasks :
      (c : StroomCluster) (pod : NamespacedName) (cpu : ℤ) (info : DatabaseConnectionInfo)
      → Keeps P (λ w.
        let r = get_node_tasks E c info pod.name o.task_name w in adjust E c pod o info cpu r.0 r.1)
  after_tasks c pod cpu info = record {
    at = λ w p.
        (adjust-kept c pod info cpu (get_node_tasks E c info pod.name o.task_name w).0
            (λ tasks e. get_node_tasks-reported c info pod.name o.task_name w tasks p e)).at
          (get_node_tasks E c info pod.name o.task_name w).1
          ((get_node_tasks-kept c info pod.name o.task_name).at w p);
  }

  scale_at-kept :
      (c : StroomCluster) (pod : NamespacedName) (cpu : ℤ) → Keeps P (scale_at E c pod o cpu)
  unfolding scale_at get_database_connection_info
  scale_at-kept c pod cpu = search (keeps_rules, K.get, after_tasks)

  by_mean :
      (c : StroomCluster) (pod : NamespacedName) (limit : Quantity) (found : Mean)
      → Keeps P (elim found as (λ _. M E.World Scaled) [
        | absent ↦ pure (returned none)
        | nil_usage ↦ pure panicked
        | mean avg ↦ scale_at E c pod o (cpu_percent_of L avg limit)
      ])
  by_mean c pod limit absent = Keeps-pure (returned none)
  by_mean c pod limit nil_usage = Keeps-pure panicked
  by_mean c pod limit (mean avg) = scale_at-kept c pod (cpu_percent_of L avg limit)

  -- Whatever else the world does, a call of `scaleStroomNode` keeps every property of the world
  -- that reading keeps, that bounds the reported limits by the minimum and the maximum, and that
  -- setting a limit between them keeps: no limit out of the range is ever written, if the limits
  -- and the step fit an int32 and the step is not negative.
  pub scale_stroom_node-kept :
      (c : StroomCluster) (node_set : NodeSet) (pod : NamespacedName) (now : Time)
      (m : StroomNodeMetricMap)
      → Keeps P (scale_stroom_node E L c node_set pod o now m)
  unfolding scale_stroom_node
  scale_stroom_node-kept c node_set pod now m =
      elim (Option-cases (L.limits_cpu node_set.resources)) [
        | inl unlimited ↦ rw (unlimited, scale_stroom_node) (Keeps-pure _)
        | inr (limit, limited) ↦
            rw (limited, scale_stroom_node)
              (by_mean c pod limit (
                get_sliding_window_mean L.milli_value (to_string pod) o.metrics_sliding_window_mins
                  now m))
      ]
