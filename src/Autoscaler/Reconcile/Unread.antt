-- ===== src/Autoscaler/Reconcile/Unread.antt =====
-- internal/controller/stroomtaskautoscaler_controller.go: a pod whose metrics cannot be read.
use stroom_k8s_operator.Base.{◌≡◌, refl, ap, ◌∙◌, false, List, [], ◌∷◌, ◌++◌, ◌==◌, string_eq}
use stroom_k8s_operator.Base.State.{Err, ok, err, M, pure, ◌>>=◌, on_ok, on_err}
use stroom_k8s_operator.Kube.Meta.{to_string}
use stroom_k8s_operator.Kube.Core.{Pod}
use stroom_k8s_operator.Kube.Env.{Env, Kind, Library, key_of}
use stroom_k8s_operator.Api.StroomCluster.{
  StroomCluster, NodeSet, frontend_node_role, get_node_set_selector_labels,
}
use stroom_k8s_operator.Api.Autoscaler.{StroomTaskAutoscaler}
use stroom_k8s_operator.Metrics.{StroomNodeMetricMap, delete_pod_data}
use stroom_k8s_operator.Autoscaler.Reconcile.{
  Step, next, return, panic, default_result, visit_pod, visit_pods, visit_node_sets,
}

module _ (E : Env) (L : Library) (cluster : StroomCluster) (node_set : NodeSet)
    (scaler : StroomTaskAutoscaler) where
  -- What the loop does after a pod.
  abbrev after : List Pod → Step → M E.World Step
  after pods step = elim step.0 [
    | next ↦ visit_pods E L cluster node_set scaler pods step.1
    | return r ↦ pure step
    | panic ↦ pure step
  ]

  after-append :
      (xs ys : List Pod)
      → ((m : StroomNodeMetricMap) (w : E.World)
          → visit_pods E L cluster node_set scaler (xs ++ ys) m w
            ≡ (visit_pods E L cluster node_set scaler xs m >>= after ys) w)
      → (step : Step) (w : E.World) → after (xs ++ ys) step w ≡ (after xs step >>= after ys) w
  after-append xs ys rest (next, m) w = rest m w
  after-append xs ys rest (return r, m) w = refl
  after-append xs ys rest (panic, m) w = refl

  visit_pods-append :
      (xs ys : List Pod) (m : StroomNodeMetricMap) (w : E.World)
      → visit_pods E L cluster node_set scaler (xs ++ ys) m w
        ≡ (visit_pods E L cluster node_set scaler xs m >>= after ys) w
  unfolding visit_pods
  visit_pods-append [] ys m w = refl
  visit_pods-append (x ∷ xs) ys m w =
      after-append xs ys (visit_pods-append xs ys) (visit_pod E L cluster node_set scaler x m w).0
        (visit_pod E L cluster node_set scaler x m w).1

  visit_pod_unread :
      (p : Pod) (e : Err) (m : StroomNodeMetricMap) (w v : E.World)
      → E.get Kind.pod_metrics (key_of Kind.pod p) (E.now w).1 ≡ (err e, v)
      → visit_pod E L cluster node_set scaler p m w
        ≡ ((return default_result, delete_pod_data (to_string (key_of Kind.pod p)) m), v)
  unfolding visit_pod
  visit_pod_unread p e m w v h =
      on_err (E.get Kind.pod_metrics (key_of Kind.pod p)) _ _ (E.now w).1 v e h

  visit_pods-unread :
      (xs ys : List Pod) (p : Pod) (e : Err) (m m' : StroomNodeMetricMap) (w u v : E.World)
      → visit_pods E L cluster node_set scaler xs m w ≡ ((next, m'), u)
      → E.get Kind.pod_metrics (key_of Kind.pod p) (E.now u).1 ≡ (err e, v)
      → visit_pods E L cluster node_set scaler (xs ++ p ∷ ys) m w
        ≡ ((return default_result, delete_pod_data (to_string (key_of Kind.pod p)) m'), v)
  unfolding visit_pods
  visit_pods-unread xs ys p e m m' w u v before h =
      visit_pods-append xs (p ∷ ys) m w
      ∙ (ap (λ r. after (p ∷ ys) r.0 r.1) before
          ∙ ap (λ r. after ys r.0 r.1) (visit_pod_unread p e m' u v h))

  -- What the loop does after a node set's pods.
  abbrev after_pods : List NodeSet → Step → M E.World Step
  after_pods node_sets step = elim step.0 [
    | next ↦ visit_node_sets E L cluster scaler node_sets step.1
    | return r ↦ pure step
    | panic ↦ pure step
  ]

  -- Where the metrics of a pod cannot be read, whatever the error, `Reconcile` ends there: it
  -- returns as if all pods were done, once it has forgotten that pod, and looks at no later pod of
  -- the node set and at no later node set. The pods before it did not end the call.
  pub visit_node_sets-unread :
      (xs ys : List Pod) (p : Pod) (node_sets : List NodeSet) (e : Err) (m m' : StroomNodeMetricMap)
      (w t u v : E.World)
      → (node_set.role == frontend_node_role) ≡ false
      → E.list Kind.pod cluster.namespace (get_node_set_selector_labels cluster node_set) w
        ≡ (ok (xs ++ p ∷ ys), t)
      → visit_pods E L cluster node_set scaler xs m t ≡ ((next, m'), u)
      → E.get Kind.pod_metrics (key_of Kind.pod p) (E.now u).1 ≡ (err e, v)
      → visit_node_sets E L cluster scaler (node_set ∷ node_sets) m w
        ≡ ((return default_result, delete_pod_data (to_string (key_of Kind.pod p)) m'), v)
  unfolding visit_node_sets
  visit_node_sets-unread xs ys p node_sets e m m' w t u v role listed before h = rw role (
      on_ok (E.list Kind.pod cluster.namespace (get_node_set_selector_labels cluster node_set)) _
        (λ pods. visit_pods E L cluster node_set scaler pods m >>= after_pods node_sets) w t
        (xs ++ p ∷ ys) listed
      ∙ ap (λ r. after_pods node_sets r.0 r.1) (visit_pods-unread xs ys p e m m' t u v before h))
