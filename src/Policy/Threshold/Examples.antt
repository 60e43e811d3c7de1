-- ===== src/Policy/Threshold/Examples.antt =====
-- The theorems about `Evaluate`, on three replicas under a hot metric.
use silver_leaf.Prelude.{
  pos, ◌+ℤ◌, ◌-ℤ◌, ◌*ℤ◌, ◌<ℤ◌, ◌≡◌, ◌≢◌, ◌↔◌, ◌⊎◌, refl, true, false, none, arith,
}
use silver_leaf.Go.Int32.{max_int32}
use silver_leaf.Go.Milli.{Milli, fin, milli_float}
use silver_leaf.Policy.Types.{scale_target, protected_mode}
use silver_leaf.Policy.Component.{cooldown_active}
use silver_leaf.Policy.Threshold.{Input, validate, validate_bounds, validate_telemetry, evaluate}
use silver_leaf.Policy.Threshold.Bounds.{Moves, evaluate-Moves}
use silver_leaf.Policy.Threshold.Gates.{
  RaisesCount, LowersCount, evaluate_direction, IsAcceptable, evaluate-protected_cases,
  evaluate_overflow,
}

abbrev hot : Input Milli
hot = record {
  current_replicas = pos 3;
  min_replicas = pos 1;
  max_replicas = pos 10;
  observed_metric = fin (pos 900);
  telemetry_valid = true;
  telemetry_observed_at = pos 100_000_000_000;
  max_telemetry_age = pos 60_000_000_000;
  now = pos 110_000_000_000;
  scale_up_threshold = fin (pos 800);
  scale_down_threshold = fin (pos 200);
  max_scale_up_step = pos 2;
  max_scale_down_step = pos 1;
  cooldown = pos 0;
  last_scale_time = none;
}

-- the same under a step that the count overflows with
abbrev huge_step : Input Milli
huge_step = record hot { max_scale_up_step = max_int32 }

evaluate_direction_example :
    ((pos 3 <ℤ (evaluate hot).desired_replicas) ↔ RaisesCount hot)
    × (((evaluate hot).desired_replicas <ℤ pos 3) ↔ LowersCount hot)
unfolding ◌+ℤ◌
evaluate_direction_example = evaluate_direction hot (ground arith) (ground arith) (ground arith)

evaluate-Moves_example :
    ((validate hot ≡ none) × Moves hot (evaluate hot))
    ⊎ (((evaluate hot).action ≡ protected_mode) × ((evaluate hot).desired_replicas ≡ pos 3))
unfolding ◌+ℤ◌
evaluate-Moves_example = evaluate-Moves hot (ground arith) (ground arith) (ground arith)

evaluate-protected_cases_example :
    (IsAcceptable hot × ((evaluate hot).action ≢ protected_mode))
    ⊎ ((¬ IsAcceptable hot)
        × ((evaluate hot).action ≡ protected_mode)
        × ((evaluate hot).desired_replicas ≡ pos 3)
        × ((evaluate hot).has_observed_metric ≡ false))
evaluate-protected_cases_example = evaluate-protected_cases hot

huge_step-RaisesCount : RaisesCount huge_step
unfolding validate validate_bounds validate_telemetry cooldown_active ◌+ℤ◌ ◌-ℤ◌ ◌*ℤ◌
huge_step-RaisesCount = (refl, refl, refl, ground arith)

evaluate_overflow_example :
    ((evaluate huge_step).action ≡ scale_target) × ((evaluate huge_step).desired_replicas <ℤ pos 0)
unfolding ◌+ℤ◌
evaluate_overflow_example =
    evaluate_overflow huge_step (ground arith) (ground arith) (ground arith) huge_step-RaisesCount
