-- ===== src/Controller/Prediction/Examples.antt =====
-- The theorems about the assessment, on a healthy service whose demand rises past what two replicas
-- serve safely.
use silver_leaf.Prelude.{
  ℕ, pos, ◌+ℤ◌, ◌-ℤ◌, ◌*ℤ◌, ◌/ℤ◌, ◌≡◌, refl, true, false, some, none, List, [], ◌∷◌, concat,
  decimal, arith,
}
use silver_leaf.Go.Error.{ok}
use silver_leaf.Go.Int32.{add32, wrap32}
use silver_leaf.Go.Map.{Entry, lookup}
use silver_leaf.Go.Time.{seconds}
use silver_leaf.Go.Milli.{Milli, fin, root, milli_float, milli_format}
use silver_leaf.Go.Milli.Laws.{Milli-IsIeee}
use silver_leaf.Api.{OptiScalerSpec}
use silver_leaf.Api.Status.{no_mode}
use silver_leaf.Observation.{
  Metric, Snapshot, derived, rate_usable, validate_rate, effective_replica_count,
}
use silver_leaf.Capacity.Types.{healthy, high}
use silver_leaf.Policy.Types.{hold}
use silver_leaf.Forecast.History.{Sample, CapacitySample, last?}
use silver_leaf.Forecast.Estimate.{CapacityEstimate, estimated}
use silver_leaf.Controller.Histories.{PredictionHistory, is_stale}
use silver_leaf.Controller.Histories.Bounded.{IsHistories}
use silver_leaf.Controller.Request.{PredictionRequest}
use silver_leaf.Controller.Prediction.{
  Prediction, conclude, histories_after, history_after, estimate, evaluate_prediction,
}
use silver_leaf.Controller.Prediction.Total.{
  evaluate_prediction-concluded, evaluate_prediction_total,
}
use silver_leaf.Controller.Prediction.Accepted.{
  IsAccepted, assessed, evaluate_prediction-IsAccepted,
}
use silver_leaf.Controller.Prediction.{
  lead_evidence, sample_rejection, capacity_sample, history_after, histories_after, observe,
  rejection_of, has_capacity_evidence, prescale_input, accepted_reason, rejected_reason, conclude,
  estimate,
}
use silver_leaf.Controller.Request.{
  append_reason, append_reasons, demand_window_of, horizon_of, key_of, observed, trend_rejection,
  readiness_rejection, demand_sample, demand_rejection, serving, error_rate_healthy,
  target_unsaturated, with_capacity,
}
use silver_leaf.Controller.Assessment.{quality_text}
use silver_leaf.Controller.Readiness.{
  unavailable, has_usable_sample, fresh_evidence, resolve_readiness_lead,
}
use silver_leaf.Controller.Learning.{
  metric_usable, dependencies_healthy, load_floor, load_error, replicas_error, telemetry_error,
  capacity_sample_eligibility, realization_reason, effective_count,
}
use silver_leaf.Controller.Histories.{extend, history_of}
use silver_leaf.Forecast.History.{
  in_window, last?, replace_last, trim, append_in_order, is_recent, prune_samples, append_sample,
  is_recent_capacity, is_new_capacity, append_capacity_sample,
}
use silver_leaf.Forecast.Linear.{
  linear_forecast, fit_samples, history_error, forecast_window, last_of, window_error,
  samples_error, bad_gap, fit_trend, statistics, sum_from, fold_rates, offset, measure, measured,
  residual_squares, extrapolate, grade,
}
use silver_leaf.Forecast.Estimate.{
  rank, insert, sort, is_positive, efficiencies, estimate_from, safe_per_replica_capacity,
}
use silver_leaf.Policy.Prescale.{
  reject, reason_or, reject_evidence, reject_forecast, desired_replicas, reject_target, rejection,
  prescale, advise, advise_hold, advise_class, evaluate_prescale,
}
use silver_leaf.Policy.Component.{validate_component, cooldown_active, step_up}
use silver_leaf.Go.Milli.{root}
use silver_leaf.Go.Map.{lookup}
use silver_leaf.Go.Int32.{add32, wrap32}
use silver_leaf.Observation.{
  effective_replica_count, validate_rate, rate_usable, invalid_rate, explain,
}

-- a metric that was observed at second 1100
abbrev pub metric : ℕ → Metric Milli
metric n = derived (fin (pos n)) (seconds 1100)

abbrev pub calm : Snapshot Milli
calm = record {
  slo_target_p95_milliseconds = fin (pos 500_000);
  target = record {
    name = "shop";
    current_replicas = pos 2;
    ready_replicas = pos 2;
    p95_latency = metric 300_000;
    aggregate_slot_occupancy = metric 10_000;
    hottest_replica_occupancy = metric 5_000;
    effective_serving_replicas = metric 2_000;
    physical_concurrency_limit = fin (pos 8_000);
    safe_operating_occupancy = fin (pos 6_000);
    request_rates = record {
      request_rate = metric 20_000;
      successful_request_rate = metric 20_000;
      error_rate = metric 0;
    };
    predictive_request_rate = metric 20_000;
  };
  dependencies = [];
}

abbrev pub spec : OptiScalerSpec Milli
spec = record {
  scale_target_ref = record { api_version = "apps/v1"; kind = "Deployment"; name = "shop" };
  min_replicas = pos 1;
  max_replicas = pos 6;
  metric = record {
    prometheus_query = "p95";
    utilization_query = "slots";
    hottest_replica_utilization_query = "hottest";
    serving_replica_count_query = "serving";
    physical_concurrency_limit = fin (pos 8_000);
    request_rate_query = "rate";
    error_request_rate_query = "errors";
    predictive_request_rate_query = "fast";
  };
  slo = record { target_p95_milliseconds = fin (pos 500_000) };
  policy = record {
    scale_up_threshold = fin (pos 500_000);
    scale_down_threshold = fin (pos 200_000);
    max_scale_up_step = pos 2;
    max_scale_down_step = pos 1;
    cooldown_seconds = pos 60;
  };
  dependencies = [];
  prometheus = record { address = "http://prometheus:9090" };
  prediction = record {
    enabled = true;
    safe_capacity_margin = fin (pos 750);
    max_error_rate = fin (pos 50);
    predictive_demand_window_seconds = pos 30;
  };
}

abbrev pub request : PredictionRequest Milli
request = record {
  resource = record {
    namespace = "web";
    name = "shop";
    generation = pos 1;
    spec = spec;
    status = record {
      current_replicas = pos 2;
      desired_replicas = pos 2;
      observed_metric = none;
      control_mode = no_mode;
      last_scale_time = none;
      last_decision = none;
      last_scale_decision = none;
      learned = record { lead_time_seconds = none; observed_at = none; template_identity = "" };
      conditions = [];
    };
  };
  snapshot = calm;
  analysis = record {
    classification = healthy;
    component = "target";
    evidence = [];
    rejected_actions = [];
    reason = "target SLO is currently satisfied";
    confidence = high;
  };
  current = record {
    action = hold;
    reason = "target SLO is currently satisfied";
    chosen_component = "target";
    current_replicas = pos 2;
    desired_replicas = pos 2;
    threshold = fin (pos 0);
    has_threshold = false;
  };
  readiness = ok (record {
    ready_replicas = pos 2;
    template_identity = "bbb";
    revision_error = "";
    fresh_lead_time = seconds 35;
    fresh_observed_at = seconds 1035;
    fresh_sample_count = pos 2;
    has_fresh_sample = true;
  });
  now = seconds 1100;
}

abbrev pub sample : ℕ → ℕ → Sample Milli
sample t rate = record { timestamp = seconds t; request_rate = fin (pos rate) }

abbrev pub capacity : ℕ → CapacitySample Milli
capacity t = record { timestamp = seconds t; rps_per_work_unit = fin (pos 1_000) }

abbrev pub histories : List (Entry (PredictionHistory Milli))
histories =
    record {
      key = "web/shop";
      value = record {
        demand_rates =
            sample 1000 10_000
            ∷ sample 1020 12_000
            ∷ sample 1040 14_000
            ∷ sample 1060 16_000
            ∷ sample 1080 18_000
            ∷ [];
        capacity_rates = capacity 1060 ∷ capacity 1080 ∷ [];
        last_updated = seconds 1080;
      };
    }
    ∷ []

pub histories-IsHistories : IsHistories (seconds 1080) histories
unfolding is_stale ◌-ℤ◌
histories-IsHistories = record {
  bounded = omega arith;
  distinct = (tt, tt);
  kept = (
    record {
      few_rates = omega arith;
      ordered_rates = ground arith;
      few_capacities = omega arith;
      ordered_capacities = ground arith;
    },
    tt,
  );
  fresh = (refl, tt);
}

evaluate_prediction_total_example :
    (p : Prediction Milli) × (evaluate_prediction request histories ≡ some p)
    × IsHistories (seconds 1100) p.histories
evaluate_prediction_total_example =
    evaluate_prediction_total Milli-IsIeee request (seconds 1080) histories histories-IsHistories
      refl

-- one request a second and slot, of eight slots, with a margin of three quarters
abbrev six : CapacityEstimate Milli
six = record {
  conservative_rps_per_work_unit = fin (pos 1_000);
  estimated_per_replica_capacity = fin (pos 8_000);
  safe_per_replica_capacity = fin (pos 6_000);
}

abbrev raised : Prediction Milli
raised =
    conclude request (assessed request histories (some six)) (histories_after request histories)

request-six : estimate request (history_after request histories) ≡ estimated six
unfolding lead_evidence sample_rejection capacity_sample history_after histories_after observe
    rejection_of has_capacity_evidence prescale_input accepted_reason rejected_reason conclude
    estimate append_reason append_reasons demand_window_of horizon_of key_of observed
    trend_rejection readiness_rejection demand_sample demand_rejection serving error_rate_healthy
    target_unsaturated with_capacity quality_text unavailable has_usable_sample fresh_evidence
    resolve_readiness_lead metric_usable dependencies_healthy load_floor load_error replicas_error
    telemetry_error capacity_sample_eligibility realization_reason effective_count extend history_of
    in_window last? replace_last trim append_in_order is_recent prune_samples append_sample
    is_recent_capacity is_new_capacity append_capacity_sample linear_forecast fit_samples
    history_error forecast_window last_of window_error samples_error bad_gap fit_trend statistics
    sum_from fold_rates offset measure measured residual_squares extrapolate grade rank insert sort
    is_positive efficiencies estimate_from safe_per_replica_capacity reject reason_or
    reject_evidence reject_forecast desired_replicas reject_target rejection prescale advise
    advise_hold advise_class evaluate_prescale validate_component cooldown_active step_up root
    lookup add32 wrap32 effective_replica_count validate_rate rate_usable invalid_rate explain ◌+ℤ◌
    ◌-ℤ◌ ◌*ℤ◌ ◌/ℤ◌ concat decimal
request-six = refl

raised-accepted : raised.assessment.accepted ≡ true
unfolding lead_evidence sample_rejection capacity_sample history_after histories_after observe
    rejection_of has_capacity_evidence prescale_input accepted_reason rejected_reason conclude
    estimate append_reason append_reasons demand_window_of horizon_of key_of observed
    trend_rejection readiness_rejection demand_sample demand_rejection serving error_rate_healthy
    target_unsaturated with_capacity quality_text unavailable has_usable_sample fresh_evidence
    resolve_readiness_lead metric_usable dependencies_healthy load_floor load_error replicas_error
    telemetry_error capacity_sample_eligibility realization_reason effective_count extend history_of
    in_window last? replace_last trim append_in_order is_recent prune_samples append_sample
    is_recent_capacity is_new_capacity append_capacity_sample linear_forecast fit_samples
    history_error forecast_window last_of window_error samples_error bad_gap fit_trend statistics
    sum_from fold_rates offset measure measured residual_squares extrapolate grade rank insert sort
    is_positive efficiencies estimate_from safe_per_replica_capacity reject reason_or
    reject_evidence reject_forecast desired_replicas reject_target rejection prescale advise
    advise_hold advise_class evaluate_prescale validate_component cooldown_active step_up root
    lookup add32 wrap32 effective_replica_count validate_rate rate_usable invalid_rate explain ◌+ℤ◌
    ◌-ℤ◌ ◌*ℤ◌ ◌/ℤ◌ concat decimal
raised-accepted = refl

evaluate_prediction-IsAccepted_example : IsAccepted request histories raised
unfolding ◌+ℤ◌
evaluate_prediction-IsAccepted_example =
    evaluate_prediction-IsAccepted Milli-IsIeee request histories raised
      (evaluate_prediction-concluded request histories refl (some six) request-six) raised-accepted
      refl (omega arith)
