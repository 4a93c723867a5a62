-- ===== src/Api/Autoscaler.antt =====
-- api/v1/stroomtaskautoscaler_types.go.
use stroom_k8s_operator.Base.{String}
use stroom_k8s_operator.Base.Int.{ℤ}
use stroom_k8s_operator.Kube.Meta.{ObjectMeta}
use stroom_k8s_operator.Api.Common.{ResourceRef}

pub record StroomTaskAutoscalerSpec : Type 0 where
  pub stroom_cluster_ref : ResourceRef
  pub task_name : String
  pub adjustment_interval_mins : ℤ
  pub metrics_sliding_window_mins : ℤ
  pub min_cpu_percent : ℤ
  pub max_cpu_percent : ℤ
  pub min_task_limit : ℤ
  pub max_task_limit : ℤ
  pub step_amount : ℤ

pub record StroomTaskAutoscaler : Type 0 where
  pub meta : ObjectMeta
  pub open meta use *
  pub spec : StroomTaskAutoscalerSpec
