-- ===== src/Decision.antt =====
-- internal/decision/record.go: the record of a decision, and its identifier. The texts that `fmt` and
-- `time` print are of Go.Float.Format; the hash is a parameter.
use silver_leaf.Prelude.{
  ℤ, pos, ◌-ℤ◌, ◌/ℤ◌, Bool, String, Option, none, some, List, [], ◌∷◌, concat, decimal,
}
use silver_leaf.Go.Time.{Time}
use silver_leaf.Go.Float.{Float, Format}
use silver_leaf.Api.Status.{EvidenceSource, DependencyRequestRate, DecisionRecord}

pub record RecordInput (F : Type 0) : Type 0 where
  pub action : String
  pub reason : String
  pub observed_metric : Option F
  pub threshold : Option F
  pub current_replicas : ℤ
  pub desired_replicas : ℤ
  pub observed_at : Time
  pub slo_target_p95_milliseconds : F
  pub observed_target_p95_milliseconds : Option F
  pub target_request_rate : Option F
  pub target_successful_request_rate : Option F
  pub target_error_rate : Option F
  pub predictive_request_rate : Option F
  pub predictive_demand_window_seconds : Option F
  pub demand_observation_lag_seconds : Option F
  pub dependency_request_rates : List (DependencyRequestRate F)
  pub forecast_request_rate : Option F
  pub forecast_horizon_seconds : Option F
  pub request_rate_slope : Option F
  pub forecast_confidence : String
  pub forecast_fit_r2 : Option F
  pub safe_per_replica_capacity : Option F
  pub current_safe_capacity : Option F
  pub ready_replicas : ℤ
  pub effective_serving_replicas : Option ℤ
  pub aggregate_concurrency_slot_occupancy : Option F
  pub hottest_replica_concurrency_slot_occupancy : Option F
  pub physical_concurrency_limit : Option F
  pub safe_operating_occupancy : Option F
  pub readiness_lead_time_seconds : Option F
  pub readiness_evidence_source : EvidenceSource
  pub readiness_template_identity : String
  pub control_loop_allowance_seconds : Option F
  pub prediction_accepted : Option Bool
  pub prediction_rejected_reason : String
  pub detected_bottleneck : String
  pub bottleneck_component : String
  pub confidence : String
  pub evidence : List String
  pub chosen_target : String
  pub rejected_actions : List String

-- `cloneFloat64`, `cloneBool` and `cloneInt32`: a pointer to a copy of the value
pub clone : {A : Type 0} → Option A → Option A
clone none = none
clone (some x) = some x

-- `Unix`, the seconds since 1970
pub unix : Time → ℤ
unix t = t /ℤ pos 1_000_000_000 -ℤ pos 62_135_596_800

module _ {F : Type 0} where
  pub clone_rate : DependencyRequestRate F → DependencyRequestRate F
  clone_rate r = record r {
    request_rate = clone r.request_rate;
    successful_request_rate = clone r.successful_request_rate;
    error_rate = clone r.error_rate;
  }

  pub clone_dependency_rates : List (DependencyRequestRate F) → List (DependencyRequestRate F)
  clone_dependency_rates [] = []
  clone_dependency_rates (r ∷ rs) = clone_rate r ∷ clone_dependency_rates rs

module _ {F : Type 0} ⦃fl : Float F⦄ ⦃format : Format F⦄ where
  pub pointer_value : Option F → String
  pointer_value none = ""
  pointer_value (some x) = format.general x

  -- what is hashed
  pub id_text : RecordInput F → String
  id_text i = concat (
      i.action
      ∷ "|"
      ∷ i.reason
      ∷ "|"
      ∷ pointer_value i.observed_metric
      ∷ "|"
      ∷ pointer_value i.threshold
      ∷ "|"
      ∷ decimal i.current_replicas
      ∷ "|"
      ∷ decimal i.desired_replicas
      ∷ "|"
      ∷ format.date_nano i.observed_at
      ∷ "|"
      ∷ format.fixed 4 i.slo_target_p95_milliseconds
      ∷ "|"
      ∷ pointer_value i.observed_target_p95_milliseconds
      ∷ "|"
      ∷ i.detected_bottleneck
      ∷ "|"
      ∷ i.bottleneck_component
      ∷ "|"
      ∷ i.confidence
      ∷ "|"
      ∷ i.chosen_target
      ∷ [])

  -- `hash` is the hexadecimal form of the first eight bytes of SHA-256
  pub id_of : (String → String) → RecordInput F → String
  id_of hash i = concat ("dec-" ∷ hash (id_text i) ∷ "-" ∷ decimal (unix i.observed_at) ∷ [])

  pub new_record : (String → String) → Time → RecordInput F → DecisionRecord F
  new_record hash now i = record {
    id = id_of hash i;
    timestamp = now;
    action = i.action;
    reason = i.reason;
    observed_metric = i.observed_metric;
    threshold = i.threshold;
    current_replicas = i.current_replicas;
    desired_replicas = i.desired_replicas;
    slo_target_p95_milliseconds = i.slo_target_p95_milliseconds;
    observed_target_p95_milliseconds = clone i.observed_target_p95_milliseconds;
    target_request_rate = clone i.target_request_rate;
    target_successful_request_rate = clone i.target_successful_request_rate;
    target_error_rate = clone i.target_error_rate;
    predictive_request_rate = clone i.predictive_request_rate;
    predictive_demand_window_seconds = clone i.predictive_demand_window_seconds;
    demand_observation_lag_seconds = clone i.demand_observation_lag_seconds;
    dependency_request_rates = clone_dependency_rates i.dependency_request_rates;
    forecast_request_rate = clone i.forecast_request_rate;
    forecast_horizon_seconds = clone i.forecast_horizon_seconds;
    request_rate_slope = clone i.request_rate_slope;
    forecast_confidence = i.forecast_confidence;
    forecast_fit_r2 = clone i.forecast_fit_r2;
    safe_per_replica_capacity = clone i.safe_per_replica_capacity;
    current_safe_capacity = clone i.current_safe_capacity;
    ready_replicas = i.ready_replicas;
    effective_serving_replicas = clone i.effective_serving_replicas;
    aggregate_concurrency_slot_occupancy = clone i.aggregate_concurrency_slot_occupancy;
    hottest_replica_concurrency_slot_occupancy = clone i.hottest_replica_concurrency_slot_occupancy;
    physical_concurrency_limit = clone i.physical_concurrency_limit;
    safe_operating_occupancy = clone i.safe_operating_occupancy;
    readiness_lead_time_seconds = clone i.readiness_lead_time_seconds;
    readiness_evidence_source = i.readiness_evidence_source;
    readiness_template_identity = i.readiness_template_identity;
    control_loop_allowance_seconds = clone i.control_loop_allowance_seconds;
    prediction_accepted = clone i.prediction_accepted;
    prediction_rejected_reason = i.prediction_rejected_reason;
    detected_bottleneck = i.detected_bottleneck;
    bottleneck_component = i.bottleneck_component;
    confidence = i.confidence;
    evidence = i.evidence;
    chosen_target = i.chosen_target;
    rejected_actions = i.rejected_actions;
  }
