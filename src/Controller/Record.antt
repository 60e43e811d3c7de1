-- ===== src/Controller/Record.antt =====
-- internal/controller/optiscaler_controller.go: the input of the record of a decision, in
-- `reconcileCapacity`.
use silver_leaf.Prelude.{
  ℤ, pos, Bool, not, ◌&&◌, String, Option, none, some, List, [], ◌∷◌, ◌++◌, ltb_ℤ, if◌then◌else◌,
}
use silver_leaf.Go.Time
use silver_leaf.Go.Time.{Time, Duration, seconds}
use silver_leaf.Go.Float.{Float, Format, nought}
use silver_leaf.Api.Status.{OptiScaler, no_source}
use silver_leaf.Observation.{Snapshot}
use silver_leaf.Capacity.Types.{Confidence, low, medium, high}
use silver_leaf.Policy.Types.{action_text}
use silver_leaf.Decision.{RecordInput}
use silver_leaf.Controller.Learning.{class_text}
use silver_leaf.Controller.Assessment.{PredictionAssessment, quality_text, has_forecast}
use silver_leaf.Controller.Observe.{
  metric_value, float_pointer, effective_count_pointer, dependency_request_rate_records,
  target_concurrency_evidence,
}
use silver_leaf.Controller.Status.{rejected_actions}
use silver_leaf.Controller.Decide.{Decided}

abbrev pub confidence_text : Confidence → String
confidence_text low = "LOW"
confidence_text medium = "MEDIUM"
confidence_text high = "HIGH"

abbrev pub filled : List String → List String → List String
filled [] fallback = fallback
filled (x ∷ xs) fallback = x ∷ xs

module _ {F : Type 0} ⦃fl : Float F⦄ where
  -- the input of a record that has only these fields
  abbrev pub brief : String → String → ℤ → RecordInput F
  brief action reason current = record {
    action = action;
    reason = reason;
    observed_metric = none;
    threshold = none;
    current_replicas = current;
    desired_replicas = current;
    observed_at = pos 0;
    slo_target_p95_milliseconds = nought;
    observed_target_p95_milliseconds = none;
    target_request_rate = none;
    target_successful_request_rate = none;
    target_error_rate = none;
    predictive_request_rate = none;
    predictive_demand_window_seconds = none;
    demand_observation_lag_seconds = none;
    dependency_request_rates = [];
    forecast_request_rate = none;
    forecast_horizon_seconds = none;
    request_rate_slope = none;
    forecast_confidence = "";
    forecast_fit_r2 = none;
    safe_per_replica_capacity = none;
    current_safe_capacity = none;
    ready_replicas = pos 0;
    effective_serving_replicas = none;
    aggregate_concurrency_slot_occupancy = none;
    hottest_replica_concurrency_slot_occupancy = none;
    physical_concurrency_limit = none;
    safe_operating_occupancy = none;
    readiness_lead_time_seconds = none;
    readiness_evidence_source = no_source;
    readiness_template_identity = "";
    control_loop_allowance_seconds = none;
    prediction_accepted = none;
    prediction_rejected_reason = "";
    detected_bottleneck = "";
    bottleneck_component = "";
    confidence = "";
    evidence = [];
    chosen_target = "";
    rejected_actions = [];
  }

module _ {F : Type 0} ⦃fl : Float F⦄ ⦃format : Format F⦄ where
  -- a value of the record under a condition
  abbrev pub given : Bool → F → Option F
  given b x = if b then float_pointer x else none

  -- the p95 latency that was observed, whether fresh or not
  pub observed_p95 : Snapshot F → Option F
  observed_p95 s = if s.target.p95_latency.valid then some s.target.p95_latency.value else none

  pub observed_time : Snapshot F → Time → Time
  observed_time s now =
      if s.target.p95_latency.valid && not (Time.is_zero s.target.p95_latency.observed_at)
      then s.target.p95_latency.observed_at
      else now

  -- the fields that are set whether prediction is enabled or not
  pub capacity_record : Snapshot F → Decided F → String → Time → RecordInput F
  capacity_record s x chosen now =
      let t = s.target in
      let d = x.decision in
      record (brief (action_text d.action) d.reason d.current_replicas) {
        observed_metric = observed_p95 s;
        desired_replicas = d.desired_replicas;
        observed_at = observed_time s now;
        slo_target_p95_milliseconds = s.slo_target_p95_milliseconds;
        observed_target_p95_milliseconds = observed_p95 s;
        detected_bottleneck = class_text x.analysis.classification;
        bottleneck_component = x.analysis.component;
        confidence = confidence_text x.analysis.confidence;
        evidence = x.analysis.evidence ++ target_concurrency_evidence t ∷ x.assessment.evidence;
        chosen_target = chosen;
        rejected_actions = filled x.analysis.rejected_actions (rejected_actions d.action);
        target_request_rate = metric_value t.request_rates.request_rate;
        target_successful_request_rate = metric_value t.request_rates.successful_request_rate;
        target_error_rate = metric_value t.request_rates.error_rate;
        predictive_request_rate = metric_value t.predictive_request_rate;
        ready_replicas = t.ready_replicas;
        effective_serving_replicas = effective_count_pointer t;
        aggregate_concurrency_slot_occupancy = metric_value t.aggregate_slot_occupancy;
        hottest_replica_concurrency_slot_occupancy = metric_value t.hottest_replica_occupancy;
        physical_concurrency_limit = float_pointer t.physical_concurrency_limit;
        safe_operating_occupancy = float_pointer t.safe_operating_occupancy;
        readiness_evidence_source = x.assessment.readiness.source;
        readiness_template_identity = x.assessment.readiness.template_identity;
        dependency_request_rates = dependency_request_rate_records s.dependencies;
        threshold = if d.has_threshold then some d.threshold else none;
      }

  -- the fields that only an enabled prediction sets
  pub with_prediction : PredictionAssessment F → RecordInput F → RecordInput F
  with_prediction a i =
      let known = a.readiness.available && a.has_demand_window in
      record i {
        predictive_demand_window_seconds =
            given (ltb_ℤ (pos 0) a.demand_window) (fl.of_duration a.demand_window);
        demand_observation_lag_seconds =
            given (ltb_ℤ (pos 0) a.demand_observation_lag)
              (fl.of_duration a.demand_observation_lag);
        forecast_confidence = quality_text a.trend.quality;
        prediction_accepted = some a.accepted;
        prediction_rejected_reason = a.rejected_reason;
        forecast_request_rate = given (has_forecast a) a.trend.request_rate;
        forecast_horizon_seconds = given known (fl.of_duration a.planning_horizon);
        request_rate_slope = given a.trend.has_trend a.trend.slope;
        forecast_fit_r2 = given a.trend.has_fit a.trend.r2;
        safe_per_replica_capacity = given a.has_safe_capacity a.safe_per_replica;
        current_safe_capacity = given a.has_current_capacity a.current_safe_capacity;
        readiness_lead_time_seconds =
            given a.readiness.available (fl.of_duration a.readiness.lead_time);
        control_loop_allowance_seconds =
            given (ltb_ℤ (pos 0) a.control_loop_allowance)
              (fl.of_duration a.control_loop_allowance);
      }

  pub record_of : OptiScaler F → Snapshot F → Decided F → String → Time → RecordInput F
  record_of r s x chosen now =
      let i = capacity_record s x chosen now in
      if r.spec.prediction.enabled then with_prediction x.assessment i else i
