-- ===== src/Controller/Request.antt =====
-- internal/controller/prediction.go: what `evaluatePrediction` derives from each of its inputs, and how
-- it puts reasons together (`appendReason`).
use silver_leaf.Prelude.{
  ℤ, pos, ◌*ℤ◌, ◌/ℤ◌, ltb_ℤ, leb_ℤ, Bool, true, false, not, ◌&&◌, ◌||◌, String, Option, none, some,
  List, [], ◌∷◌, str_eq, concat, if◌then◌else◌,
}
use silver_leaf.Go.Error.{Result, ok, err}
use silver_leaf.Go.Time
use silver_leaf.Go.Time.{Time, Duration, seconds}
use silver_leaf.Go.Float.{Float, nought, finite_nonnegative}
use silver_leaf.Api.Status.{OptiScaler}
use silver_leaf.Observation.{Metric, TargetObservation, Snapshot, effective_replica_count}
use silver_leaf.Capacity.Types.{Analysis}
use silver_leaf.Policy.Types.{CapacityDecision}
use silver_leaf.Forecast.History.{Sample}
use silver_leaf.Forecast.Linear.{Forecast, Quality, quality_high, blank}
use silver_leaf.Forecast.Estimate.{CapacityEstimate}
use silver_leaf.Controller.Spec.{minimum_window, maximum_window}
use silver_leaf.Controller.Readiness.{
  TargetReadinessObservation, ReadinessLeadEvidence, unavailable,
}
use silver_leaf.Controller.Learning.{metric_usable}
use silver_leaf.Controller.Pods.{ready_only}
use silver_leaf.Controller.Assessment.{PredictionAssessment}

-- the arguments, with what the pods show
pub record PredictionRequest (F : Type 0) : Type 0 where
  pub resource : OptiScaler F
  pub snapshot : Snapshot F
  pub analysis : Analysis
  pub current : CapacityDecision F
  pub readiness : Result TargetReadinessObservation
  pub now : Time

-- `reconcileInterval`
abbrev pub reconcile_interval : Duration
reconcile_interval = seconds 15

unfoldable pub append_reason : String → String → String
append_reason current next =
    if str_eq next ""
    then current
    else if str_eq current ""
    then next
    else concat (current ∷ "; " ∷ next ∷ [])

unfoldable pub append_reasons : String → List String → String
append_reasons current [] = current
append_reasons current (next ∷ rest) = append_reasons (append_reason current next) rest

unfoldable pub demand_window_of : ℤ → Duration
demand_window_of window_seconds =
    if leb_ℤ minimum_window window_seconds && leb_ℤ window_seconds maximum_window
    then window_seconds *ℤ seconds 1
    else pos 0

abbrev pub lag_of : Duration → Duration
lag_of window = window /ℤ pos 2

unfoldable pub horizon_of : ReadinessLeadEvidence → Duration → Duration
horizon_of readiness window =
    if readiness.available && ltb_ℤ (pos 0) (lag_of window)
    then Time.sum (Time.sum readiness.lead_time reconcile_interval) (lag_of window)
    else pos 0

abbrev pub is_high : Quality → Bool
is_high quality_high = true
is_high _ = false

abbrev pub count_or_zero : Result ℤ → ℤ
count_or_zero (ok n) = n
count_or_zero (err _) = pos 0

abbrev pub is_ok : Result ℤ → Bool
is_ok (ok _) = true
is_ok (err _) = false

module _ {F : Type 0} where
  unfoldable pub key_of : OptiScaler F → String
  key_of resource = concat (resource.namespace ∷ "/" ∷ resource.name ∷ [])

  -- an error leaves the zero observation
  unfoldable pub observed : PredictionRequest F → TargetReadinessObservation
  observed q = elim q.readiness [ err _ ↦ ready_only (pos 0) | ok r ↦ r ]

  unfoldable pub trend_rejection : Forecast F → String
  trend_rejection t =
      if not (is_high t.quality) || not t.has_request_rate || not t.has_trend || not t.has_fit
      then t.reason
      else ""

  -- the error of `targetReadiness`, no Ready pods, or no evidence
  unfoldable pub readiness_rejection : PredictionRequest F → ReadinessLeadEvidence → String
  readiness_rejection q evidence = elim q.readiness [
    | err e ↦ concat ("readiness lead time unavailable: " ∷ e ∷ [])
    | ok r ↦
        if ltb_ℤ r.ready_replicas (pos 1)
        then "readiness lead time unavailable: no Ready target pods are available"
        else if not evidence.available
        then concat ("readiness lead time unavailable: " ∷ evidence.unavailable_reason ∷ [])
        else ""
  ]

module _ {F : Type 0} ⦃fl : Float F⦄ where
  -- the rate of the fast window as a sample, which is zero for one that is not usable
  unfoldable pub demand_sample : Metric F → Sample F
  demand_sample rate =
      if metric_usable rate
      then record { timestamp = rate.observed_at; request_rate = rate.value }
      else record { timestamp = pos 0; request_rate = nought }

  unfoldable pub demand_rejection : Metric F → String
  demand_rejection rate =
      if metric_usable rate
      then ""
      else concat (
          "predictive-demand telemetry unavailable: "
          ∷ (if str_eq rate.error ""
              then "fast predictive-demand metric is missing, stale, or non-finite"
              else rate.error)
          ∷ [])

  -- `EffectiveReplicaCount` with the Ready pods that were read
  unfoldable pub serving : PredictionRequest F → Result ℤ
  serving q =
      effective_replica_count q.snapshot.target.effective_serving_replicas
        (observed q).ready_replicas

  unfoldable pub error_rate_healthy : Metric F → F → Bool
  error_rate_healthy rate limit = metric_usable rate && fl.le rate.value limit

  unfoldable pub target_unsaturated : TargetObservation F → Bool
  target_unsaturated t =
      metric_usable t.hottest_replica_occupancy
      && finite_nonnegative t.safe_operating_occupancy
      && fl.lt t.hottest_replica_occupancy.value t.safe_operating_occupancy

  -- what the estimate of the capacity sets
  unfoldable pub with_capacity :
      Option (CapacityEstimate F) → Result ℤ → PredictionAssessment F → PredictionAssessment F
  with_capacity none served a = a
  with_capacity (some e) served a =
      let capacity = fl.mul e.safe_per_replica_capacity (fl.of_int (count_or_zero served)) in
      record a {
        capacity_estimate = e;
        safe_per_replica = e.safe_per_replica_capacity;
        has_safe_capacity = true;
        current_safe_capacity = capacity;
        has_current_capacity = is_ok served && finite_nonnegative capacity;
      }

  -- an assessment before anything is known
  abbrev pub no_assessment : PredictionAssessment F
  no_assessment = record {
    trend = blank;
    capacity_estimate = record {
      conservative_rps_per_work_unit = nought;
      estimated_per_replica_capacity = nought;
      safe_per_replica_capacity = nought;
    };
    safe_capacity_margin = nought;
    readiness = unavailable (ready_only (pos 0)) "";
    control_loop_allowance = pos 0;
    demand_window = pos 0;
    demand_observation_lag = pos 0;
    planning_horizon = pos 0;
    has_demand_window = false;
    predictive_demand_valid = false;
    ready_replicas = pos 0;
    effective_serving_replicas = pos 0;
    safe_per_replica = nought;
    has_safe_capacity = false;
    current_safe_capacity = nought;
    has_current_capacity = false;
    accepted = false;
    rejected_reason = "";
    evidence = [];
  }
