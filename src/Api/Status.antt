-- ===== src/Api/Status.antt =====
-- api/v1alpha1/optiscaler_types.go: the resource with its status, and the record of a decision.
use silver_leaf.Prelude.{ℤ, Bool, String, Option, List}
use silver_leaf.Go.Time.{Time}
use silver_leaf.Api.{OptiScalerSpec}

-- `ReadinessEvidenceSource`; the zero value is the empty string
pub data EvidenceSource : Type 0 where
  no_source current_fresh_sample persisted_learned_sample : EvidenceSource

-- `ControlMode`; the zero value is the empty string
pub data ControlMode : Type 0 where
  no_mode mode_automatic mode_hold mode_protected : ControlMode

pub record DependencyRequestRate (F : Type 0) : Type 0 where
  pub name : String
  pub request_rate : Option F
  pub successful_request_rate : Option F
  pub error_rate : Option F

pub record DecisionRecord (F : Type 0) : Type 0 where
  pub id : String
  pub timestamp : Time
  pub action : String
  pub reason : String
  pub observed_metric : Option F
  pub threshold : Option F
  pub current_replicas : ℤ
  pub desired_replicas : ℤ
  pub slo_target_p95_milliseconds : F
  pub observed_target_p95_milliseconds : Option F
  pub target_request_rate : Option F
  pub target_successful_request_rate : Option F
  pub target_error_rate : Option F
  pub predictive_request_rate : Option F
  pub predictive_demand_window_seconds : Option F
  pub demand_observation_lag_seconds : Option F
  pub dependency_request_rates : List (DependencyRequestRate F)
  pub forecast_request_rate : Option F
  pub forecast_horizon_seconds : Option F
  pub request_rate_slope : Option F
  pub forecast_confidence : String
  pub forecast_fit_r2 : Option F
  pub safe_per_replica_capacity : Option F
  pub current_safe_capacity : Option F
  pub ready_replicas : ℤ
  pub effective_serving_replicas : Option ℤ
  pub aggregate_concurrency_slot_occupancy : Option F
  pub hottest_replica_concurrency_slot_occupancy : Option F
  pub physical_concurrency_limit : Option F
  pub safe_operating_occupancy : Option F
  pub readiness_lead_time_seconds : Option F
  pub readiness_evidence_source : EvidenceSource
  pub readiness_template_identity : String
  pub control_loop_allowance_seconds : Option F
  pub prediction_accepted : Option Bool
  pub prediction_rejected_reason : String
  pub detected_bottleneck : String
  pub bottleneck_component : String
  pub confidence : String
  pub evidence : List String
  pub chosen_target : String
  pub rejected_actions : List String

-- The fields of `OptiScalerStatus` that keep learned evidence.
pub record LearnedReadiness (F : Type 0) : Type 0 where
  pub lead_time_seconds : Option F
  pub observed_at : Option Time
  pub template_identity : String

-- `metav1.ConditionStatus`
pub data ConditionStatus : Type 0 where
  condition_true condition_false condition_unknown : ConditionStatus

-- `metav1.Condition`
pub record Condition : Type 0 where
  pub type_ : String
  pub status : ConditionStatus
  pub observed_generation : ℤ
  pub last_transition_time : Time
  pub reason : String
  pub message : String

pub record OptiScalerStatus (F : Type 0) : Type 0 where
  pub current_replicas : ℤ
  pub desired_replicas : ℤ
  pub observed_metric : Option F
  pub control_mode : ControlMode
  pub last_scale_time : Option Time
  pub last_decision : Option (DecisionRecord F)
  pub last_scale_decision : Option (DecisionRecord F)
  pub learned : LearnedReadiness F
  pub conditions : List Condition

pub record OptiScaler (F : Type 0) : Type 0 where
  pub namespace : String
  pub name : String
  pub generation : ℤ
  pub spec : OptiScalerSpec F
  pub status : OptiScalerStatus F
