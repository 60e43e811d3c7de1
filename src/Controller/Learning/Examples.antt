-- ===== src/Controller/Learning/Examples.antt =====
-- The theorems about the learning of capacity, on a healthy service of two replicas.
use silver_leaf.Prelude.{
  arith, ℤ, pos, ◌+ℤ◌, ◌-ℤ◌, ◌*ℤ◌, ◌/ℤ◌, ◌≡◌, ◌⊎◌, refl, false, none, [], All,
}
use silver_leaf.Go.Float.{◌≼◌}
use silver_leaf.Go.Milli.{Milli, fin, milli_float, milli_format}
use silver_leaf.Go.Milli.Laws.{Milli-IsIeee}
use silver_leaf.Observation.{
  Metric, TargetObservation, Snapshot, derived, rate_usable, validate_rate, effective_replica_count,
}
use silver_leaf.Capacity.Signals.{usable, collect}
use silver_leaf.Capacity.Specification.{IsComplete, exceeds}
use silver_leaf.Capacity.Evidence.{healthy_analysis}
use silver_leaf.Capacity.Analyze.{analyze, analyze_limits, attribute}
use silver_leaf.Policy.Types.{CapacityDecision, scale_target, hold}
use silver_leaf.Controller.Learning.{
  metric_usable, hold_target_scale, dependencies_healthy, load_floor, load_error, replicas_error,
  telemetry_error, capacity_sample_eligibility,
}
use silver_leaf.Controller.Learning.Hold.{RaisesTarget, hold_target_scale_cases, Unrealized}
use silver_leaf.Controller.Learning.Eligible.{IsLearnable, capacity_sample_eligibility_sound}

abbrev metric : ℤ → Metric Milli
metric n = derived (fin n) (pos 100_000_000_000)

abbrev target : TargetObservation Milli
target = record {
  name = "api";
  current_replicas = pos 2;
  ready_replicas = pos 2;
  p95_latency = metric (pos 300_000);
  aggregate_slot_occupancy = metric (pos 8_000);
  hottest_replica_occupancy = metric (pos 4_500);
  effective_serving_replicas = metric (pos 2_000);
  physical_concurrency_limit = fin (pos 8_000);
  safe_operating_occupancy = fin (pos 6_000);
  request_rates = record {
    request_rate = metric (pos 9_000);
    successful_request_rate = metric (pos 9_000);
    error_rate = metric (pos 0);
  };
  predictive_request_rate = metric (pos 9_000);
}

abbrev calm : Snapshot Milli
calm = record {
  slo_target_p95_milliseconds = fin (pos 500_000);
  target = target;
  dependencies = [];
}

abbrev scale_up : CapacityDecision Milli
scale_up = record {
  action = scale_target;
  reason = "hot";
  chosen_component = "target";
  current_replicas = pos 2;
  desired_replicas = pos 3;
  threshold = fin (pos 0);
  has_threshold = false;
}

hold_target_scale_cases_example :
    ((hold_target_scale scale_up target (pos 2) ≡ scale_up)
      × ((¬ Unrealized target) ⊎ (¬ RaisesTarget scale_up)))
    ⊎ (Unrealized target
        × RaisesTarget scale_up
        × ((hold_target_scale scale_up target (pos 2)).action ≡ hold)
        × ((hold_target_scale scale_up target (pos 2)).chosen_component ≡ "target")
        × ((hold_target_scale scale_up target (pos 2)).desired_replicas ≡ pos 2)
        × ((hold_target_scale scale_up target (pos 2)).current_replicas ≡ pos 2))
hold_target_scale_cases_example =
    hold_target_scale_cases Milli-IsIeee scale_up target (pos 2) (ground arith)

calm-eligible : capacity_sample_eligibility calm (analyze calm) (fin (pos 50)) (pos 2) ≡ none
unfolding capacity_sample_eligibility dependencies_healthy telemetry_error replicas_error load_error
    load_floor metric_usable analyze analyze_limits attribute collect usable healthy_analysis
    rate_usable validate_rate effective_replica_count ◌+ℤ◌ ◌-ℤ◌ ◌*ℤ◌ ◌/ℤ◌
calm-eligible = refl

capacity_sample_eligibility_sound_example :
    IsComplete calm
    × (fin (pos 300_000) ≼ fin (pos 500_000))
    × All (λ d. exceeds d ≡ false) calm.dependencies
    × IsLearnable target (fin (pos 50)) (pos 2)
capacity_sample_eligibility_sound_example =
    capacity_sample_eligibility_sound Milli-IsIeee calm (fin (pos 50)) (pos 2) calm-eligible
