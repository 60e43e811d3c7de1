-- ===== src/Controller/Assessment.antt =====
-- internal/controller/prediction.go: `predictionAssessment`, what the reconciler finds out about a
-- prediction. `Evidence` tells it in words.
pub mod Evidence
use silver_leaf.Prelude.{ℤ, Bool, ◌&&◌, String, List}
use silver_leaf.Go.Time.{Duration}
use silver_leaf.Forecast.Linear.{Forecast, Quality, quality_high, quality_medium, quality_low}
use silver_leaf.Forecast.Estimate.{CapacityEstimate}
use silver_leaf.Controller.Readiness.{ReadinessLeadEvidence}

-- The fields of the code that begin with `readiness`, and `hasReadiness`, are the evidence.
pub record PredictionAssessment (F : Type 0) : Type 0 where
  pub trend : Forecast F
  pub capacity_estimate : CapacityEstimate F
  pub safe_capacity_margin : F
  pub readiness : ReadinessLeadEvidence
  pub control_loop_allowance : Duration
  pub demand_window : Duration
  pub demand_observation_lag : Duration
  pub planning_horizon : Duration
  pub has_demand_window : Bool
  pub predictive_demand_valid : Bool
  pub ready_replicas : ℤ
  pub effective_serving_replicas : ℤ
  pub safe_per_replica : F
  pub has_safe_capacity : Bool
  pub current_safe_capacity : F
  pub has_current_capacity : Bool
  pub accepted : Bool
  pub rejected_reason : String
  pub evidence : List String

unfoldable pub quality_text : Quality → String
quality_text quality_high = "HIGH"
quality_text quality_medium = "MEDIUM"
quality_text quality_low = "LOW"

module _ {F : Type 0} where
  -- the forecast counts for a decision
  abbrev pub has_forecast : PredictionAssessment F → Bool
  has_forecast a =
      a.trend.has_request_rate && a.readiness.available && a.has_demand_window
      && a.predictive_demand_valid
