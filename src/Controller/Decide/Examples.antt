-- ===== src/Controller/Decide/Examples.antt =====
-- The theorem about a decision, on a saturated target.
use silver_leaf.Prelude.{
  ℕ, pos, ◌+ℤ◌, ◌-ℤ◌, ◌*ℤ◌, ◌/ℤ◌, ◌≡◌, ◌⊎◌, ◌&&◌, false, str_eq, refl, some, concat, decimal, arith,
}
use silver_leaf.Go.Error.{Result, err}
use silver_leaf.Go.Int32.{add32, wrap32}
use silver_leaf.Go.Time.{seconds}
use silver_leaf.Go.Milli.{Milli, milli_float, milli_format}
use silver_leaf.Go.Milli.Laws.{Milli-IsIeee}
use silver_leaf.Observation.{
  Snapshot, rate_usable, validate_rate, effective_replica_count, invalid_rate, explain,
}
use silver_leaf.Policy.Component.{validate_component, cooldown_active, step_up}
use silver_leaf.Policy.Bottleneck.{
  evaluate_capacity, hold_blocked, scale_component, scale_candidate, scale_saturated_dependency,
  decide, evaluate_target, evaluate_class,
}
use silver_leaf.Capacity.Analyze.{
  target_is_saturated, attribute_roots, attribute, analyze_limits, analyze,
}
use silver_leaf.Capacity.Signals.{uncertain_analysis, usable, metric_reason, collect}
use silver_leaf.Capacity.Evidence.{target_analysis, healthy_analysis}
use silver_leaf.Controller.Readiness.{TargetReadinessObservation}
use silver_leaf.Controller.Prediction.Examples.{
  calm, request, metric, histories, histories-IsHistories,
}
use silver_leaf.Controller.Prediction.{Prediction, evaluate_prediction}
use silver_leaf.Controller.Histories.Bounded.{IsHistories}
use silver_leaf.Controller.Prediction.Total.{evaluate_prediction_total}
use silver_leaf.Controller.Learning.{scales_target, realization_pending}
use silver_leaf.Controller.Gather.{DependencyAnswers}
use silver_leaf.Controller.Decide.{
  Decided, request_of, capacity_input, target_component, decided_of,
}
use silver_leaf.Controller.Decide.Licensed.{
  Licensed, asked, input, decided_from, decide_capacity-Licensed,
}

abbrev saturated : Snapshot Milli
saturated = record calm {
  target = record (calm.target) {
    p95_latency = metric 600_000;
    hottest_replica_occupancy = metric 7_000;
  };
}

abbrev none_read : ℕ → DependencyAnswers Milli
none_read = λ _. record {
  scale = err "not found";
  latency = err "no data";
  utilization = err "no data";
  requests = err "no data";
  errors = err "no data";
}

current-two :
    (evaluate_capacity {F = Milli} (
      capacity_input request.resource
        (analyze saturated)
        (pos 2)
        none_read
        (seconds 1100))).current_replicas
    ≡ pos 2
unfolding evaluate_capacity hold_blocked scale_component scale_candidate scale_saturated_dependency
    decide evaluate_target evaluate_class validate_component cooldown_active step_up capacity_input
    target_component target_is_saturated attribute_roots attribute analyze_limits analyze
    uncertain_analysis usable metric_reason collect target_analysis healthy_analysis rate_usable
    validate_rate effective_replica_count invalid_rate explain ◌+ℤ◌ ◌-ℤ◌ ◌*ℤ◌ ◌/ℤ◌ add32 wrap32
    concat decimal
current-two = refl

abbrev readiness : Result TargetReadinessObservation
readiness = request.readiness

-- the prediction that is asked for
returned :
    (p : Prediction Milli) × (evaluate_prediction
        (asked request.resource saturated readiness (pos 2) none_read (seconds 1100) histories)
        histories
      ≡ some p)
    × IsHistories (seconds 1100) p.histories
unfolding request_of
returned =
    evaluate_prediction_total Milli-IsIeee
      (asked request.resource saturated readiness (pos 2) none_read (seconds 1100) histories)
      (seconds 1080) histories histories-IsHistories refl

abbrev decided : Decided Milli
decided = decided_of request.resource saturated (analyze saturated) (pos 2) returned.0

decide_capacity-Licensed_example :
    Licensed
      (asked request.resource saturated readiness (pos 2) none_read (seconds 1100) histories)
      (input request.resource saturated readiness (pos 2) none_read (seconds 1100) histories)
      histories
      decided.decision
    × ((realization_pending saturated.target ≡ false)
        ⊎ ((scales_target decided.decision.action
              && str_eq decided.decision.chosen_component "target")
            ≡ false))
unfolding ◌+ℤ◌
decide_capacity-Licensed_example =
    decide_capacity-Licensed request.resource saturated readiness (pos 2) none_read (seconds 1100)
      histories Milli-IsIeee decided
      (decided_from request.resource saturated readiness (pos 2) none_read (seconds 1100) histories
        returned.0 returned.1)
      (rw current-two (omega arith))
