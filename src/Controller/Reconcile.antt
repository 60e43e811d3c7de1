-- ===== src/Controller/Reconcile.antt =====
-- internal/controller/optiscaler_controller.go: `Reconcile`, over what it reads of the cluster and of
-- Prometheus.
pub mod Effects
pub mod Writes
pub mod Total
pub mod Acts
pub mod Scales
pub mod Cooldown
mod Examples
use silver_leaf.Prelude.{
  ℕ, ℤ, pos, ◌*ℤ◌, Bool, true, false, not, ◌&&◌, ◌||◌, String, Option, none, some, List, [], ◌∷◌,
  ◌++◌, str_eq, concat, ltb_ℤ, if◌then◌else◌,
}
use silver_leaf.Go.Error.{Result, ok, err}
use silver_leaf.Go.Map.{Entry, lookup, assign}
use silver_leaf.Go.Time
use silver_leaf.Go.Time.{Time, Duration, seconds}
use silver_leaf.Go.Float.{Float, Format, nought}
use silver_leaf.Api.{OptiScalerSpec}
use silver_leaf.Api.Status.{OptiScaler, OptiScalerStatus, DecisionRecord, no_source, mode_protected}
use silver_leaf.Observation.{Metric, TargetObservation, Snapshot}
use silver_leaf.Capacity.Types.{Analysis, Confidence, low, medium, high}
use silver_leaf.Policy.Types.{
  Action, scale_target, scale_dependency, prescale_target, hold, protected_mode, CapacityDecision,
  action_text,
}
use silver_leaf.Policy.Threshold
use silver_leaf.Policy.Threshold.{evaluate}
use silver_leaf.Controller.Learning.{scales_target}
use silver_leaf.Controller.Observe.{Sampled, max_telemetry_age, request_rates_observation}
use silver_leaf.Decision.{RecordInput, new_record}
use silver_leaf.Controller.Spec.{validate_spec}
use silver_leaf.Controller.Cluster.{Pod, Template, ReplicaSet, Deployment}
use silver_leaf.Controller.Pods.{target_readiness}
use silver_leaf.Controller.Learning.{class_text}
use silver_leaf.Controller.Histories.{PredictionHistory}
use silver_leaf.Controller.Assessment.{PredictionAssessment, quality_text, has_forecast}
use silver_leaf.Controller.Observe.{
  metric_value, float_pointer, effective_count_pointer, dependency_request_rate_records,
  target_concurrency_evidence,
}
use silver_leaf.Controller.Gather.{TargetAnswers, DependencyAnswers, workloads, observe_snapshot}
use silver_leaf.Controller.Status.{
  control_mode, condition_reason, rejected_actions, is_protected, should_update_scale,
  set_conditions,
}
use silver_leaf.Controller.Decide.{Decided, decide_capacity}
use silver_leaf.Controller.World.{
  Found, found, not_found, failed, World, Effect, scale_written, status_written, Run, Library, fail,
}
use silver_leaf.Controller.Record.{brief, observed_p95, record_of}
use silver_leaf.Controller.Observe.{Answer}
use silver_leaf.Controller.Finish.{
  is_scale, update_status, chosen_workload, chosen_key, acts, protected_as, protected_status,
  record_for, decided_status, scaled_status, finish_capacity, snapshot_of, decision_of,
  reconcile_capacity,
}
use silver_leaf.Controller.OneMetric.{
  threshold_input, threshold_record, threshold_status, finish_threshold,
}

module _ {F : Type 0} where
  -- the metrics that the specification names need the analysis of capacity
  pub uses_capacity : OptiScalerSpec F → Bool
  uses_capacity s =
      not (str_eq s.metric.utilization_query "")
      || elim s.dependencies [ [] ↦ false | _ ∷ _ ↦ true ]

module _ {F B : Type 0} ⦃fl : Float F⦄ ⦃format : Format F⦄ where
  -- with the answer about the one metric
  pub with_metric :
      Library F B
      → World F B
      → OptiScaler F
      → ℤ
      → List (Entry (PredictionHistory F))
      → Answer F
      → Run F
  with_metric l w r current m (err e) =
      protected_status l w r
        (record (r.status) { current_replicas = current; desired_replicas = current }) e m
  with_metric l w r current m (ok v) = finish_threshold l w r current v m

  -- `Reconcile` once the target's count is read, with the error of the Prometheus client
  pub with_client :
      Library F B
      → World F B
      → OptiScaler F
      → ℤ
      → List (Entry (PredictionHistory F))
      → Option String
      → Option (Run F)
  with_client l w r current m (some e) = some (
      protected_status l w r
        (record (r.status) { current_replicas = current; desired_replicas = current }) e m)
  with_client l w r current m none =
      if uses_capacity r.spec
      then reconcile_capacity l w r current m
      else some (with_metric l w r current m w.target.p95)

  pub with_scale :
      Library F B
      → World F B
      → OptiScaler F
      → List (Entry (PredictionHistory F))
      → Found ℤ
      → Option (Run F)
  with_scale l w r m (found current) = with_client l w r current m w.client_error
  with_scale l w r m (not_found e) = some (
      fail []
        (concat
          ("get scale target " ∷ r.namespace ∷ "/" ∷ r.spec.scale_target_ref.name ∷ ": " ∷ e ∷ []))
        m)
  with_scale l w r m (failed e) = some (fail [] e m)

  -- a resource whose specification is not valid
  pub reject_spec :
      Library F B → World F B → OptiScaler F → String → List (Entry (PredictionHistory F)) → Run F
  reject_spec l w r e m =
      update_status l w r
        (protected_as l w r (record (r.status) { desired_replicas = r.status.current_replicas })
          "InvalidConfiguration" e)
        [] m

  -- with the error of the specification
  pub with_validity :
      Library F B
      → World F B
      → OptiScaler F
      → List (Entry (PredictionHistory F))
      → Option String
      → Option (Run F)
  with_validity l w r m (some e) = some (reject_spec l w r e m)
  with_validity l w r m none = with_scale l w r m w.scale

  -- with the resource
  pub with_resource :
      Library F B
      → World F B
      → List (Entry (PredictionHistory F))
      → Found (OptiScaler F)
      → Option (Run F)
  with_resource l w m (found r) = with_validity l w r m (validate_spec r.spec)
  with_resource l w m (not_found _) =
      some (record { effects = []; requeued = false; error = none; histories = m })
  with_resource l w m (failed e) = some (fail [] e m)

  pub reconcile : Library F B → World F B → List (Entry (PredictionHistory F)) → Option (Run F)
  reconcile l w m = with_resource l w m w.resource
