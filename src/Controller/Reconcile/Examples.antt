-- ===== src/Controller/Reconcile/Examples.antt =====
-- The theorem about a run of `Reconcile`, on a saturated service without dependencies.
use silver_leaf.Prelude.{
  [], ◌∷◌, ◌≤ℤ◌, ◌+ℤ◌, ◌-ℤ◌, ◌*ℤ◌, ◌/ℤ◌, inl, true, arith, ℕ, pos, ◌≡◌, refl, false, some, none,
  ◌⊎◌, String,
}
use silver_leaf.Go.Error.{ok, err}
use silver_leaf.Go.Time.{Time, seconds}
use silver_leaf.Go.Int32.{max_int32}
use silver_leaf.Go.Milli.{Milli, fin, milli_float, milli_format}
use silver_leaf.Go.Milli.Laws.{Milli-IsIeee}
use silver_leaf.Observation.{
  effective_replica_count, rate_usable, validate_rate, invalid_rate, explain,
}
use silver_leaf.Capacity.Analyze.{target_is_saturated, attribute, analyze_limits, analyze}
use silver_leaf.Capacity.Signals.{usable, collect}
use silver_leaf.Capacity.Evidence.{target_analysis}
use silver_leaf.Policy.Types.{ComponentInput}
use silver_leaf.Policy.Component.{cooldown_active, IsValid}
use silver_leaf.Policy.Bottleneck.Outcome.{MayScale}
use silver_leaf.Controller.Learning.{realization_pending, metric_usable}
use silver_leaf.Controller.Gather.{
  hottest_or_idle, observe_target, observe_dependencies, observe_snapshot,
}
use silver_leaf.Controller.Decide.{
  Decided, decided_of, request_of, capacity_input, target_component,
}
use silver_leaf.Controller.Finish.{
  snapshot_of, chosen_workload, write_scale, scaled_status, update_status,
}
use silver_leaf.Controller.Spec.Examples.{spec-accepted}
use silver_leaf.Controller.Reconcile.Acts.{Reads, input_of}
use silver_leaf.Controller.Reconcile.Scales.{reconcile-write_scale, ScalesUp, reconcile-ScalesUp}
use silver_leaf.Api.Status.{OptiScaler, OptiScalerStatus}
use silver_leaf.Controller.Pods.{target_readiness}
use silver_leaf.Controller.Prediction.{Prediction, evaluate_prediction}
use silver_leaf.Controller.Reconcile.Total.{prediction_returns}
use silver_leaf.Controller.Reconcile.Cooldown.{reconcile_again-Quiet}
use silver_leaf.Controller.Histories.Bounded.{IsHistories}
use silver_leaf.Controller.Prediction.Examples.{request, histories, histories-IsHistories}
use silver_leaf.Controller.Revision.Examples.{same_image, shop, rolled_out}
use silver_leaf.Controller.Pods.Examples.{pods}
use silver_leaf.Controller.Observe.{
  Answer, is_fresh, metric_observation, configured_safe_capacity_margin,
}
use silver_leaf.Controller.World.{Run, World, Library, found, scale_written, status_written}
use silver_leaf.Controller.Reconcile.{reconcile}
use silver_leaf.Controller.Reconcile.Effects.{Quiet}
use silver_leaf.Controller.Reconcile.Writes.{WritesDecision}
use silver_leaf.Controller.Reconcile.Total.{reconcile_total}

abbrev answer : ℕ → Answer Milli
answer n = ok (record { value = fin (pos n); timestamp = seconds 1100 })

abbrev world : World Milli String
world = record {
  resource = found request.resource;
  scale = found (pos 2);
  client_error = none;
  details = ok shop;
  target = record {
    p95 = answer 600_000;
    slots = answer 10_000;
    hottest = answer 7_000;
    serving = answer 2_000;
    requests = answer 20_000;
    errors = answer 0;
    predictive = answer 20_000;
  };
  dependencies = λ _. record {
    scale = err "not found";
    latency = answer 0;
    utilization = answer 0;
    requests = answer 0;
    errors = answer 0;
  };
  pods = ok pods;
  replica_sets = ok rolled_out;
  scale_error = none;
  status_error = none;
  now = seconds 1100;
  recorded_at = seconds 1101;
  conditions_at = seconds 1102;
}

abbrev library : Library Milli String
library = record { hash = λ s. s; same_status = λ _ _. false; same_template = same_image }

reconcile_total_example :
    (run : Run Milli) × (reconcile library world histories ≡ some run)
    × (Quiet world run ⊎ WritesDecision library world histories run)
    × (IsHistories (seconds 1080) run.histories ⊎ IsHistories (seconds 1100) run.histories)
reconcile_total_example =
    reconcile_total Milli-IsIeee library world (seconds 1080) histories refl histories-IsHistories

-- the target as the policy sees it
abbrev target : ComponentInput
target = record {
  name = "target";
  current_replicas = pos 2;
  min_replicas = pos 1;
  max_replicas = pos 6;
  scalable = true;
}

target-IsValid : IsValid target (pos 2) (pos 1)
target-IsValid = record {
  min_pos = omega arith;
  min_le = omega arith;
  le_max = omega arith;
  up_pos = omega arith;
  down_pos = omega arith;
}

target-MayScale : MayScale (input_of world request.resource (pos 2) shop) target
unfolding capacity_input target_component cooldown_active target_is_saturated attribute
    analyze_limits analyze usable collect target_analysis rate_usable validate_rate
    effective_replica_count invalid_rate explain is_fresh metric_observation
    configured_safe_capacity_margin hottest_or_idle observe_target observe_dependencies
    observe_snapshot snapshot_of metric_usable ◌+ℤ◌ ◌-ℤ◌ ◌*ℤ◌ ◌/ℤ◌
target-MayScale = record {
  target_valid = target-IsValid;
  idle = refl;
  licensed = inl (refl, refl);
  valid = target-IsValid;
}

realized : realization_pending (snapshot_of world request.resource (pos 2) shop).target ≡ false
unfolding realization_pending effective_replica_count rate_usable validate_rate invalid_rate explain
    is_fresh metric_observation observe_target observe_snapshot snapshot_of ◌+ℤ◌ ◌-ℤ◌ ◌*ℤ◌ ◌/ℤ◌
realized = refl

-- two more replicas
reconcile-ScalesUp_example :
    (run : Run Milli) × (reconcile library world histories ≡ some run)
    × ScalesUp world run request.resource target
unfolding ◌+ℤ◌ ◌-ℤ◌
reconcile-ScalesUp_example =
    reconcile-ScalesUp Milli-IsIeee library world (seconds 1080) histories request.resource (pos 2)
      shop target refl histories-IsHistories
      (record {
        is_found = refl;
        is_valid = spec-accepted;
        is_scaled = refl;
        has_client = refl;
        is_read = refl;
      })
      target-MayScale (omega arith) (omega arith) (inl realized) refl

-- the prediction that is asked for
returned :
    (p : Prediction Milli) × (evaluate_prediction
        (request_of request.resource
          (snapshot_of world request.resource (pos 2) shop)
          (target_readiness same_image shop (ok pods) (ok rolled_out))
          (pos 2)
          world.dependencies
          (seconds 1100))
        histories
      ≡ some p)
    × (IsHistories (seconds 1080) p.histories ⊎ IsHistories (seconds 1100) p.histories)
unfolding request_of
returned = prediction_returns Milli-IsIeee (seconds 1080) histories histories-IsHistories (
    request_of request.resource (snapshot_of world request.resource (pos 2) shop)
      (target_readiness same_image shop (ok pods) (ok rolled_out)) (pos 2) world.dependencies
      (seconds 1100))

world-Reads : Reads world request.resource (pos 2) shop
world-Reads = record {
  is_found = refl;
  is_valid = spec-accepted;
  is_scaled = refl;
  has_client = refl;
  is_read = refl;
}

abbrev decided : Decided Milli
decided =
    let s = snapshot_of world request.resource (pos 2) shop in
    decided_of request.resource s (analyze s) (pos 2) returned.0

step_fits : pos 2 +ℤ pos 2 ≤ℤ max_int32
unfolding ◌+ℤ◌
step_fits = omega arith

abbrev first : Run Milli
first =
    write_scale library world request.resource (pos 2)
      (snapshot_of world request.resource (pos 2) shop) decided none

first-reconcile : reconcile library world histories ≡ some first
first-reconcile =
    reconcile-write_scale world request.resource (pos 2) shop target target-MayScale (omega arith)
      step_fits (inl realized) library histories returned.0 returned.1 refl world-Reads refl

abbrev after : OptiScalerStatus Milli
after =
    scaled_status library world request.resource (pos 2)
      (snapshot_of world request.resource (pos 2) shop) decided

-- the whole seconds of a time, as the API server keeps it
abbrev whole : Time → Time
whole t = t /ℤ seconds 1 *ℤ seconds 1

-- the resource with the status that was written
abbrev stored_resource : OptiScaler Milli
stored_resource = record (request.resource) {
  status = record after { last_scale_time = some (whole (seconds 1100)) };
}

-- thirty seconds later
abbrev later : World Milli String
later = record world { resource = found stored_resource; now = seconds 1130 }

first-effects :
    first.effects
    ≡ scale_written
        (chosen_workload request.resource decided.decision)
        decided.decision.current_replicas
        decided.decision.desired_replicas
      ∷ status_written after
      ∷ []
unfolding write_scale update_status
first-effects = refl

reconcile_again-Quiet_example :
    (second : Run Milli) × (reconcile library later first.histories ≡ some second)
    × Quiet later second
unfolding cooldown_active ◌+ℤ◌ ◌*ℤ◌ scaled_status ◌/ℤ◌
reconcile_again-Quiet_example =
    reconcile_again-Quiet Milli-IsIeee library world later whole (seconds 1080) histories first
      (chosen_workload request.resource decided.decision) decided.decision.current_replicas
      decided.decision.desired_replicas after stored_resource refl histories-IsHistories
      first-reconcile first-effects refl refl refl
