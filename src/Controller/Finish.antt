-- ===== src/Controller/Finish.antt =====
-- internal/controller/optiscaler_controller.go: the end of `reconcileCapacity`, `protectedStatus` and
-- `updateStatus`. Events and logs are left out.
use silver_leaf.Prelude.{
  ℤ, Bool, true, false, not, ◌&&◌, String, Option, none, some, List, [], ◌∷◌, ◌++◌, str_eq, concat,
  if◌then◌else◌,
}
use silver_leaf.Go.Error.{Result, ok, err}
use silver_leaf.Go.Map.{Entry, lookup, assign}
use silver_leaf.Go.Float.{Float, Format}
use silver_leaf.Api.Status.{OptiScaler, OptiScalerStatus, DecisionRecord, mode_protected}
use silver_leaf.Observation.{Snapshot}
use silver_leaf.Policy.Types.{
  Action, scale_target, scale_dependency, prescale_target, protected_mode, CapacityDecision,
  action_text,
}
use silver_leaf.Decision.{new_record}
use silver_leaf.Controller.Cluster.{Deployment}
use silver_leaf.Controller.Pods.{target_readiness}
use silver_leaf.Controller.Histories.{PredictionHistory}
use silver_leaf.Controller.Gather.{workloads, observe_snapshot}
use silver_leaf.Controller.Status.{
  control_mode, condition_reason, is_protected, should_update_scale, set_conditions,
}
use silver_leaf.Controller.Decide.{Decided, decide_capacity}
use silver_leaf.Controller.World.{World, Effect, scale_written, status_written, Run, Library, fail}
use silver_leaf.Controller.Record.{brief, observed_p95, record_of}

abbrev pub is_scale : Action → Bool
is_scale scale_target = true
is_scale scale_dependency = true
is_scale prescale_target = true
is_scale _ = false

module _ {F B : Type 0} ⦃fl : Float F⦄ where
  -- `updateStatus` after the effects before it, and the end of a run that is requeued
  unfoldable pub update_status :
      Library F B
      → World F B
      → OptiScaler F
      → OptiScalerStatus F
      → List (Effect F)
      → List (Entry (PredictionHistory F))
      → Run F
  update_status l w r status before m =
      if l.same_status r.status status
      then record { effects = before; requeued = true; error = none; histories = m }
      else record {
        effects = before ++ status_written status ∷ [];
        requeued = true;
        error = w.status_error;
        histories = m;
      }

module _ {F : Type 0} ⦃fl : Float F⦄ ⦃format : Format F⦄ where
  -- the name of the workload of the component that was chosen; empty for an unknown one
  unfoldable pub chosen_workload : OptiScaler F → CapacityDecision F → String
  chosen_workload r d =
      elim (lookup d.chosen_component
        (workloads (assign "target" r.spec.scale_target_ref.name []) r.spec.dependencies)) [
          | none ↦ ""
          | some name ↦ name
        ]

  -- `entry.key` in a text
  unfoldable pub chosen_key : OptiScaler F → CapacityDecision F → String
  chosen_key r d =
      elim (lookup d.chosen_component
        (workloads (assign "target" r.spec.scale_target_ref.name []) r.spec.dependencies)) [
          | none ↦ "/"
          | some name ↦ concat (r.namespace ∷ "/" ∷ name ∷ [])
        ]

  unfoldable pub acts : CapacityDecision F → Bool
  acts d = is_scale d.action && should_update_scale d.current_replicas d.desired_replicas

module _ {F B : Type 0} ⦃fl : Float F⦄ ⦃format : Format F⦄ where
  -- a status in protected mode, with its conditions
  unfoldable pub protected_as :
      Library F B
      → World F B
      → OptiScaler F
      → OptiScalerStatus F
      → String
      → String
      → OptiScalerStatus F
  protected_as l w r status condition reason =
      set_conditions w.conditions_at
        (record status {
          control_mode = mode_protected;
          last_decision = some (
              new_record l.hash w.recorded_at
                (brief (action_text protected_mode) reason status.current_replicas));
        })
        r.generation false true condition reason

  -- `protectedStatus`
  unfoldable pub protected_status :
      Library F B
      → World F B
      → OptiScaler F
      → OptiScalerStatus F
      → String
      → List (Entry (PredictionHistory F))
      → Run F
  protected_status l w r status reason m =
      update_status l w r
        (protected_as l w r
          (record status { desired_replicas = status.current_replicas; observed_metric = none })
          "TelemetryUnavailable" reason)
        [] m

  unfoldable pub record_for :
      Library F B → World F B → OptiScaler F → Snapshot F → Decided F → DecisionRecord F
  record_for l w r s x =
      new_record l.hash w.recorded_at (record_of r s x (chosen_workload r x.decision) w.now)

  -- the status of a decision before it is acted on
  unfoldable pub decided_status :
      Library F B → World F B → OptiScaler F → ℤ → Snapshot F → Decided F → OptiScalerStatus F
  decided_status l w r current s x =
      let d = x.decision in
      let is_target = str_eq d.chosen_component "target" in
      set_conditions w.conditions_at
        (record (r.status) {
          current_replicas = if is_target then d.current_replicas else current;
          desired_replicas = if is_target then d.desired_replicas else current;
          learned = x.learned;
          observed_metric = observed_p95 s;
          control_mode = control_mode d.action;
          last_decision = some (record_for l w r s x);
        })
        r.generation (not (is_protected d.action)) (is_protected d.action)
        (condition_reason d.action) d.reason

  -- the status after the scale was written
  unfoldable pub scaled_status :
      Library F B → World F B → OptiScaler F → ℤ → Snapshot F → Decided F → OptiScalerStatus F
  scaled_status l w r current s x =
      let d = x.decision in
      let status = decided_status l w r current s x in
      let is_target = str_eq d.chosen_component "target" in
      record status {
        current_replicas = if is_target then d.desired_replicas else status.current_replicas;
        desired_replicas = if is_target then d.desired_replicas else status.desired_replicas;
        last_scale_time = some w.now;
        last_scale_decision = some (record_for l w r s x);
      }

  -- the write of the scale, by its error, and what follows
  unfoldable pub write_scale :
      Library F B → World F B → OptiScaler F → ℤ → Snapshot F → Decided F → Option String → Run F
  write_scale l w r current s x (some e) =
      fail [] (concat ("update " ∷ chosen_key r x.decision ∷ " scale: " ∷ e ∷ [])) x.histories
  write_scale l w r current s x none =
      update_status l w r (scaled_status l w r current s x)
        (scale_written (chosen_workload r x.decision) x.decision.current_replicas
            x.decision.desired_replicas
          ∷ [])
        x.histories

  -- the end of `reconcileCapacity`
  unfoldable pub finish_capacity :
      Library F B → World F B → OptiScaler F → ℤ → Snapshot F → Decided F → Run F
  finish_capacity l w r current s x =
      if acts x.decision
      then write_scale l w r current s x w.scale_error
      else update_status l w r (decided_status l w r current s x) [] x.histories

  unfoldable pub snapshot_of : World F B → OptiScaler F → ℤ → Deployment B → Snapshot F
  snapshot_of w r current details =
      observe_snapshot r.namespace r.spec w.target w.dependencies current details.ready_replicas
        w.now

  unfoldable pub decision_of :
      Library F B
      → World F B
      → OptiScaler F
      → ℤ
      → Deployment B
      → List (Entry (PredictionHistory F))
      → Option (Decided F)
  decision_of l w r current details m =
      decide_capacity r (snapshot_of w r current details)
        (target_readiness l.same_template details w.pods w.replica_sets) current w.dependencies
        w.now m

  -- no result stands for a panic
  unfoldable pub act_on :
      Library F B
      → World F B
      → OptiScaler F
      → ℤ
      → Deployment B
      → Option (Decided F)
      → Option (Run F)
  act_on l w r current details none = none
  act_on l w r current details (some x) =
      some (finish_capacity l w r current (snapshot_of w r current details) x)

  -- with the Deployment that was read, or its error
  unfoldable pub with_details :
      Library F B
      → World F B
      → OptiScaler F
      → ℤ
      → List (Entry (PredictionHistory F))
      → Result (Deployment B)
      → Option (Run F)
  with_details l w r current m (err e) = some (
      fail []
        (concat (
          "get target Deployment " ∷ r.namespace ∷ "/" ∷ r.spec.scale_target_ref.name ∷ ": " ∷ e
          ∷ []))
        m)
  with_details l w r current m (ok details) =
      act_on l w r current details (decision_of l w r current details m)

  unfoldable pub reconcile_capacity :
      Library F B
      → World F B
      → OptiScaler F
      → ℤ
      → List (Entry (PredictionHistory F))
      → Option (Run F)
  reconcile_capacity l w r current m = with_details l w r current m w.details
