-- ===== src/Capacity/Examples.antt =====
-- The theorems about the analyzer, on a service with one slow dependency.
use silver_leaf.Prelude.{ℤ, pos, ◌+ℤ◌, ◌*ℤ◌, ◌/ℤ◌, ◌≡◌, ◌≢◌, refl, true, [], ◌∷◌, arith}
use silver_leaf.Go.Milli.{Milli, fin, milli_float, milli_format}
use silver_leaf.Go.Milli.Laws.{Milli-IsIeee}
use silver_leaf.Observation.{
  Metric, RequestRates, TargetObservation, DependencyObservation, Snapshot, derived, rate_usable,
  validate_rate, effective_replica_count,
}
use silver_leaf.Capacity.Types.{dependency_saturated, uncertain}
use silver_leaf.Capacity.Specification.{IsComplete, is_saturated}
use silver_leaf.Capacity.Analyze.{analyze}
use silver_leaf.Capacity.Refinement.{analyze-class_of, analyze-IsComplete}

abbrev metric : ℤ → Metric Milli
metric n = derived (fin n) (pos 100_000_000_000)

abbrev rates : RequestRates Milli
rates = record {
  request_rate = metric (pos 9_000);
  successful_request_rate = metric (pos 9_000);
  error_rate = metric (pos 0);
}

abbrev target : TargetObservation Milli
target = record {
  name = "api";
  current_replicas = pos 2;
  ready_replicas = pos 2;
  p95_latency = metric (pos 900_000);
  aggregate_slot_occupancy = metric (pos 4_000);
  hottest_replica_occupancy = metric (pos 2_000);
  effective_serving_replicas = metric (pos 2_000);
  physical_concurrency_limit = fin (pos 8_000);
  safe_operating_occupancy = fin (pos 6_000);
  request_rates = rates;
  predictive_request_rate = metric (pos 9_000);
}

abbrev database : DependencyObservation Milli
database = record {
  name = "db";
  depends_on = "";
  current_replicas = pos 1;
  p95_latency = metric (pos 700_000);
  utilization = metric (pos 950);
  latency_threshold = fin (pos 200_000);
  utilization_threshold = fin (pos 800);
  scalable = true;
  min_replicas = pos 1;
  max_replicas = pos 4;
  request_rates = rates;
}

abbrev slow : Snapshot Milli
slow = record {
  slo_target_p95_milliseconds = fin (pos 500_000);
  target = target;
  dependencies = database ∷ [];
}

slow-IsComplete : IsComplete slow
unfolding rate_usable effective_replica_count validate_rate ◌+ℤ◌ ◌*ℤ◌ ◌/ℤ◌
slow-IsComplete = record {
  slo = refl;
  latency = refl;
  hottest = refl;
  serving = refl;
  count = (pos 2, refl);
  ready = ground arith;
  safe = refl;
  safe_positive = refl;
  physical = refl;
  safe_le_physical = refl;
  dependencies = (
    record {
      latency = refl;
      utilization = refl;
      latency_threshold = refl;
      utilization_threshold = refl;
    },
    tt,
  );
}

analyze-class_of_example :
    ((analyze slow).classification ≡ dependency_saturated) × ((analyze slow).component ≡ "db")
unfolding is_saturated
analyze-class_of_example = analyze-class_of Milli-IsIeee slow slow-IsComplete

slow-certain : (analyze slow).classification ≢ uncertain
slow-certain = rw (analyze-class_of_example.0) (λ e. ground arith)

analyze-IsComplete_example : IsComplete slow
analyze-IsComplete_example = analyze-IsComplete Milli-IsIeee slow slow-certain
