-- ===== src/Policy/Bottleneck/Examples.antt =====
-- The theorems about `EvaluateCapacity`, on a saturated target.
use silver_leaf.Prelude.{pos, ◌+ℤ◌, ◌⊎◌, ◌≡◌, inl, refl, true, none, [], arith}
use silver_leaf.Go.Milli.{Milli, milli_float, milli_format}
use silver_leaf.Capacity.Types.{Analysis, target_saturated, high}
use silver_leaf.Policy.Types.{ComponentInput}
use silver_leaf.Policy.Component.{IsValid, cooldown_active, validate_component, step_up}
use silver_leaf.Go.Int32.{add32, wrap32}
use silver_leaf.Policy.Bottleneck.{
  CapacityInput, evaluate_capacity, evaluate_class, evaluate_target, decide, scale_component,
}
use silver_leaf.Policy.Bottleneck.Outcome.{Stays, Steps, MayScale}
use silver_leaf.Policy.Bottleneck.Gates.{evaluate_capacity-Steps, MayScale-Steps}

abbrev api : ComponentInput
api = record {
  name = "api";
  current_replicas = pos 2;
  min_replicas = pos 1;
  max_replicas = pos 6;
  scalable = true;
}

abbrev saturated : Analysis
saturated = record {
  classification = target_saturated;
  component = "target";
  evidence = [];
  rejected_actions = [];
  reason = "saturated";
  confidence = high;
}

abbrev busy : CapacityInput
busy = record {
  analysis = saturated;
  target = api;
  dependencies = λ _. none;
  max_scale_up_step = pos 2;
  max_scale_down_step = pos 1;
  cooldown = pos 0;
  last_scale_time = none;
  now = pos 100_000_000_000;
}

api-IsValid : IsValid api (pos 2) (pos 1)
api-IsValid = record {
  min_pos = ground arith;
  min_le = ground arith;
  le_max = ground arith;
  up_pos = ground arith;
  down_pos = ground arith;
}

busy-MayScale : MayScale busy api
unfolding cooldown_active
busy-MayScale = record {
  target_valid = api-IsValid;
  idle = refl;
  licensed = inl (refl, refl);
  valid = api-IsValid;
}

busy-current : (evaluate_capacity {F = Milli} busy).current_replicas ≡ pos 2
unfolding evaluate_capacity evaluate_class evaluate_target decide scale_component validate_component
    cooldown_active step_up add32 wrap32 ◌+ℤ◌
busy-current = refl

evaluate_capacity-Steps_example :
    Stays Milli (evaluate_capacity busy)
    ⊎ ((c : ComponentInput) × MayScale busy c × Steps Milli busy c (evaluate_capacity busy))
unfolding ◌+ℤ◌
evaluate_capacity-Steps_example = evaluate_capacity-Steps busy (rw busy-current (omega arith))

MayScale-Steps_example : Steps Milli busy api (evaluate_capacity busy)
unfolding ◌+ℤ◌
MayScale-Steps_example = MayScale-Steps busy api busy-MayScale (ground arith) (ground arith)
