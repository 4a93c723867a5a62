-- ===== src/Manager/Runtime.antt =====
-- The calls of controller-runtime's manager that cmd/main.go makes.
use stroom_k8s_operator.Base.{String, Bool, List}
use stroom_k8s_operator.Base.State.{Result, M}
use stroom_k8s_operator.Kube.Env.{Kind}
use stroom_k8s_operator.Metrics.{StroomNodeMetricMap}

-- The packages whose types are added to the scheme.
pub data Group : Type 0 where
  client_go metrics stroom : Group

-- What `For` and `Owns` tell the builder of a controller: the kind that it reconciles, and the
-- kinds of objects whose changes lead to a call for their owner.
pub record Builder : Type 0 where
  pub reconciles : Kind
  pub owns : List Kind

-- What a controller calls, with the state that it holds.
pub data Reconciler : Type 0 where
  stroom_cluster database_server database_backup : Reconciler
  stroom_task_autoscaler : StroomNodeMetricMap → Reconciler

-- The fields of ctrl.Options that are set, other than the scheme.
pub record Options : Type 0 where
  pub health_probe_bind_address : String
  pub leader_election : Bool
  pub leader_election_id : String

pub record Runtime : Type 1 where
  pub World : Type 0
  pub Mgr : Type 0
  pub add_to_scheme : Group → M World (Result (Unit {0}))
  -- ctrl.NewManager(ctrl.GetConfigOrDie(), options). Without a configuration it exits as `main`
  -- does on an error.
  pub new_manager : Options → M World (Result Mgr)
  -- Complete(r)
  pub complete : Mgr → Builder → Reconciler → M World (Result (Unit {0}))
  pub add_healthz_check : Mgr → String → M World (Result (Unit {0}))
  pub add_readyz_check : Mgr → String → M World (Result (Unit {0}))
  pub start : Mgr → M World (Result (Unit {0}))
