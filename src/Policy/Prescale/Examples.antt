-- ===== src/Policy/Prescale/Examples.antt =====
-- The theorems about `EvaluatePrescale`, on a healthy target with growing demand.
use silver_leaf.Prelude.{pos, ◌+ℤ◌, ◌≡◌, ◌↔◌, ◌⊎◌, refl, true, false, none, arith}
use silver_leaf.Go.Milli.{Milli, fin, milli_float, milli_format}
use silver_leaf.Go.Milli.Laws.{Milli-IsIeee}
use silver_leaf.Capacity.Types.{healthy}
use silver_leaf.Policy.Types.{ComponentInput, CapacityDecision, hold, prescale_target}
use silver_leaf.Policy.Prescale.{PrescaleInput, evaluate_prescale}
use silver_leaf.Policy.Prescale.Gates.{IsAttested, IsForecast, HasRoom, evaluate_prescale_iff}
use silver_leaf.Policy.Prescale.Outcome.{IsRejected, IsRaised, evaluate_prescale-Outcome}

abbrev api : ComponentInput
api = record {
  name = "api";
  current_replicas = pos 2;
  min_replicas = pos 1;
  max_replicas = pos 6;
  scalable = true;
}

abbrev held : CapacityDecision Milli
held = record {
  action = hold;
  reason = "within SLO";
  chosen_component = "api";
  current_replicas = pos 2;
  desired_replicas = pos 2;
  threshold = fin (pos 0);
  has_threshold = false;
}

abbrev growing : PrescaleInput Milli
growing = record {
  current = held;
  classification = healthy;
  request_telemetry_valid = true;
  predictive_demand_valid = true;
  error_rate_healthy = true;
  dependencies_healthy = true;
  target_unsaturated = true;
  capacity_evidence_valid = true;
  rejection_reason = "";
  forecast_quality = "HIGH";
  forecast_request_rate = fin (pos 90_000);
  request_rate_slope = fin (pos 500);
  safe_capacity = fin (pos 60_000);
  horizon = pos 40_000_000_000;
  target = api;
  max_scale_up_step = pos 2;
  cooldown = pos 0;
  last_scale_time = none;
  now = pos 100_000_000_000;
}

evaluate_prescale_iff_example :
    ((evaluate_prescale growing).action ≡ prescale_target)
    ↔ (IsAttested growing × IsForecast growing × HasRoom growing)
unfolding ◌+ℤ◌
evaluate_prescale_iff_example = evaluate_prescale_iff Milli-IsIeee growing refl refl (ground arith)

evaluate_prescale-Outcome_example :
    (evaluate_prescale growing ≡ held)
    ⊎ (IsRejected growing (evaluate_prescale growing)
        ⊎ IsRaised growing (evaluate_prescale growing))
unfolding ◌+ℤ◌
evaluate_prescale-Outcome_example = evaluate_prescale-Outcome Milli-IsIeee growing (ground arith)
