-- ===== src/Controller/Prediction.antt =====
-- internal/controller/prediction.go: `evaluatePrediction`, which assesses a prediction of demand and
-- advises on a decision. What `targetReadiness` read of the pods is an input; the histories are
-- passed in and out. No result stands for a panic of the estimate of the capacity.
pub mod Accepted
pub mod Total
pub mod Outcome
pub mod Cooldown
pub mod Examples
use silver_leaf.Prelude.{
  ℤ, pos, ◌*ℤ◌, ◌/ℤ◌, ltb_ℤ, leb_ℤ, eq_ℤ, Bool, true, false, not, ◌&&◌, ◌||◌, String, Option, none,
  some, List, [], ◌∷◌, str_eq, concat, if◌then◌else◌,
}
use silver_leaf.Go.Error.{Result, ok, err}
use silver_leaf.Go.Map.{Entry}
use silver_leaf.Go.Time
use silver_leaf.Go.Time.{Time, Duration, seconds}
use silver_leaf.Go.Float.{Float, Format, nought, finite_nonnegative}
use silver_leaf.Api.{OptiScalerSpec, PredictionSpec}
use silver_leaf.Api.Status.{OptiScaler}
use silver_leaf.Observation.{Metric, TargetObservation, Snapshot, effective_replica_count}
use silver_leaf.Capacity.Types.{Analysis, is_healthy}
use silver_leaf.Policy.Types.{ComponentInput, CapacityDecision, action_text, is_prescale, is_hold}
use silver_leaf.Policy.Prescale.{PrescaleInput, evaluate_prescale}
use silver_leaf.Forecast.History.{Sample, CapacitySample}
use silver_leaf.Forecast.Linear.{Forecast, Quality, quality_high, blank, linear_forecast}
use silver_leaf.Forecast.Estimate.{
  CapacityEstimate, Estimation, estimated, no_estimate, index_panic, safe_per_replica_capacity,
}
use silver_leaf.Controller.Spec.{minimum_window, maximum_window}
use silver_leaf.Controller.Readiness.{
  TargetReadinessObservation, ReadinessLeadEvidence, unavailable, resolve_readiness_lead,
}
use silver_leaf.Controller.Learning.{
  class_text, metric_usable, realization_reason, dependencies_healthy, capacity_sample_eligibility,
}
use silver_leaf.Controller.Histories.{
  PredictionHistory, extend, history_of, update_prediction_history,
}
use silver_leaf.Controller.Pods.{ready_only}
use silver_leaf.Controller.Assessment.{PredictionAssessment, quality_text}
use silver_leaf.Controller.Assessment.Evidence.{
  tenths, readiness_evidence_description, prediction_evidence,
}
use silver_leaf.Controller.Request.{
  PredictionRequest, reconcile_interval, append_reason, append_reasons, demand_window_of, lag_of,
  horizon_of, is_high, key_of, observed, trend_rejection, readiness_rejection, demand_sample,
  demand_rejection, serving, count_or_zero, is_ok, error_rate_healthy, target_unsaturated,
  with_capacity, no_assessment,
}

-- the decision and its assessment, and the histories after it
pub record Prediction (F : Type 0) : Type 0 where
  pub decision : CapacityDecision F
  pub assessment : PredictionAssessment F
  pub histories : List (Entry (PredictionHistory F))

module _ {F : Type 0} ⦃fl : Float F⦄ ⦃format : Format F⦄ where
  pub lead_evidence : PredictionRequest F → ReadinessLeadEvidence
  lead_evidence q = elim q.readiness [
    | err e ↦ unavailable (ready_only (pos 0)) e
    | ok r ↦ resolve_readiness_lead r q.resource.status.learned
  ]

  pub sample_rejection : PredictionRequest F → Option String
  sample_rejection q =
      capacity_sample_eligibility q.snapshot q.analysis q.resource.spec.prediction.max_error_rate
        (observed q).ready_replicas

  -- the efficiency of an eligible sample, or the zero sample
  pub capacity_sample : PredictionRequest F → CapacitySample F
  capacity_sample q =
      let t = q.snapshot.target in
      elim (sample_rejection q) [
        | some _ ↦ record { timestamp = pos 0; rps_per_work_unit = nought }
        | none ↦ record {
          timestamp = t.request_rates.successful_request_rate.observed_at;
          rps_per_work_unit =
              fl.div t.request_rates.successful_request_rate.value t.aggregate_slot_occupancy.value;
        }
      ]

  -- the histories that `updatePredictionHistory` returns
  pub history_after : PredictionRequest F → List (Entry (PredictionHistory F)) → PredictionHistory F
  history_after q m =
      extend (history_of (key_of q.resource) m)
        (demand_sample q.snapshot.target.predictive_request_rate) (capacity_sample q) q.now

  pub histories_after :
      PredictionRequest F → List (Entry (PredictionHistory F)) → List (Entry (PredictionHistory F))
  histories_after q m =
      update_prediction_history (key_of q.resource)
        (demand_sample q.snapshot.target.predictive_request_rate) (capacity_sample q) q.now m

  -- the assessment before the capacity is estimated
  pub observe : PredictionRequest F → PredictionHistory F → PredictionAssessment F
  observe q h =
      let evidence = lead_evidence q in
      let window = demand_window_of q.resource.spec.prediction.predictive_demand_window_seconds in
      let horizon = horizon_of evidence window in
      record no_assessment {
        safe_capacity_margin = q.resource.spec.prediction.safe_capacity_margin;
        predictive_demand_valid = metric_usable q.snapshot.target.predictive_request_rate;
        demand_window = window;
        demand_observation_lag = lag_of window;
        has_demand_window = ltb_ℤ (pos 0) (lag_of window);
        ready_replicas = (observed q).ready_replicas;
        effective_serving_replicas = count_or_zero (serving q);
        control_loop_allowance = reconcile_interval;
        readiness = evidence;
        planning_horizon = horizon;
        trend =
            linear_forecast h.demand_rates q.now
              (if leb_ℤ horizon (pos 0) then seconds 1 else horizon);
      }

  -- `capacityRejection` with all that is appended to it, in order
  pub rejection_of : PredictionRequest F → PredictionAssessment F → String
  rejection_of q a =
      append_reasons (elim (sample_rejection q) [ none ↦ "" | some reason ↦ reason ])
        (readiness_rejection q a.readiness
          ∷ (if a.has_demand_window
              then ""
              else "predictive-demand window must be configured between 2 and 120 seconds")
          ∷ demand_rejection q.snapshot.target.predictive_request_rate
          ∷ (if a.has_safe_capacity
              then ""
              else "insufficient healthy loaded capacity evidence: need at least 3 valid samples")
          ∷ trend_rejection a.trend
          ∷ (if a.readiness.available
              then ""
              else "planning horizon requires valid current or matching persisted readiness evidence")
          ∷ (if is_ok (serving q) && ltb_ℤ (count_or_zero (serving q)) a.ready_replicas
              then realization_reason q.snapshot.target
              else "")
          ∷ [])

  -- `capacityEvidenceValid`
  pub has_capacity_evidence : PredictionRequest F → PredictionAssessment F → Bool
  has_capacity_evidence q a =
      let t = q.snapshot.target in
      a.readiness.available
      && a.has_safe_capacity
      && a.has_current_capacity
      && is_ok (serving q)
      && ltb_ℤ (pos 0) (count_or_zero (serving q))
      && eq_ℤ (count_or_zero (serving q)) a.ready_replicas
      && eq_ℤ a.ready_replicas t.ready_replicas
      && eq_ℤ a.ready_replicas t.current_replicas

  pub prescale_input : PredictionRequest F → PredictionAssessment F → PrescaleInput F
  prescale_input q a =
      let rates = q.snapshot.target.request_rates in
      let spec = q.resource.spec in
      record {
        current = q.current;
        classification = q.analysis.classification;
        request_telemetry_valid =
            metric_usable rates.request_rate
            && metric_usable rates.successful_request_rate
            && metric_usable rates.error_rate;
        predictive_demand_valid = a.predictive_demand_valid;
        error_rate_healthy = error_rate_healthy rates.error_rate spec.prediction.max_error_rate;
        dependencies_healthy = elim (dependencies_healthy q.snapshot.dependencies) [
          | none ↦ true
          | some _ ↦ false
        ];
        target_unsaturated = target_unsaturated q.snapshot.target;
        capacity_evidence_valid = has_capacity_evidence q a;
        rejection_reason = rejection_of q a;
        forecast_quality = quality_text a.trend.quality;
        forecast_request_rate = a.trend.request_rate;
        request_rate_slope = a.trend.slope;
        safe_capacity = a.current_safe_capacity;
        horizon = a.planning_horizon;
        target = record {
          name = "target";
          current_replicas = q.current.current_replicas;
          min_replicas = spec.min_replicas;
          max_replicas = spec.max_replicas;
          scalable = true;
        };
        max_scale_up_step = spec.policy.max_scale_up_step;
        cooldown = spec.policy.cooldown_seconds *ℤ seconds 1;
        last_scale_time = q.resource.status.last_scale_time;
        now = q.now;
      }

  -- the reason of a decision that is accepted
  pub accepted_reason : PredictionAssessment F → String → String
  accepted_reason a reason = concat (
      reason
      ∷ " ("
      ∷ tenths F a.readiness.lead_time
      ∷ "s measured Pod creation-to-Ready + "
      ∷ tenths F a.control_loop_allowance
      ∷ "s control-loop allowance + "
      ∷ tenths F a.demand_observation_lag
      ∷ "s predictive-demand observation lag; "
      ∷ readiness_evidence_description F a.readiness
      ∷ ")"
      ∷ [])

  -- the reason of one that is not
  pub rejected_reason : PredictionRequest F → PredictionAssessment F → CapacityDecision F → String
  rejected_reason q a d =
      let reason = format.trim_prefix "prediction rejected: " d.reason in
      if not (is_hold q.current.action)
      then concat ("higher-priority " ∷ action_text q.current.action ∷ " decision retained" ∷ [])
      else if not (is_healthy q.analysis.classification)
      then concat
          ("current capacity classification is " ∷ class_text q.analysis.classification ∷ [])
      else if str_eq reason ""
      then rejection_of q a
      else reason

  pub conclude :
      PredictionRequest F
      → PredictionAssessment F
      → List (Entry (PredictionHistory F))
      → Prediction F
  conclude q a m =
      let d = evaluate_prescale (prescale_input q a) in
      let accepted = is_prescale d.action in
      let judged = record a {
        accepted = accepted;
        rejected_reason = if accepted then "" else rejected_reason q a d;
      } in
      record {
        decision = if accepted then record d { reason = accepted_reason a d.reason } else d;
        assessment = record judged {
          evidence =
              prediction_evidence q.snapshot judged q.resource.spec.prediction.max_error_rate;
        };
        histories = m;
      }

  -- the estimate from the capacity samples
  pub estimate : PredictionRequest F → PredictionHistory F → Estimation F
  estimate q h =
      safe_per_replica_capacity h.capacity_rates q.snapshot.target.physical_concurrency_limit
        q.resource.spec.prediction.safe_capacity_margin

  -- the rest of the code after the estimate
  pub conclude_estimate :
      PredictionRequest F
      → List (Entry (PredictionHistory F))
      → Estimation F
      → Option (Prediction F)
  conclude_estimate q m index_panic = none
  conclude_estimate q m no_estimate = some (
      conclude q (with_capacity none (serving q) (observe q (history_after q m)))
        (histories_after q m))
  conclude_estimate q m (estimated e) = some (
      conclude q (with_capacity (some e) (serving q) (observe q (history_after q m)))
        (histories_after q m))

  pub evaluate_prediction :
      PredictionRequest F → List (Entry (PredictionHistory F)) → Option (Prediction F)
  evaluate_prediction q m =
      if not q.resource.spec.prediction.enabled
      then some (record { decision = q.current; assessment = no_assessment; histories = m })
      else conclude_estimate q m (estimate q (history_after q m))
