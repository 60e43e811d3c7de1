-- ===== src/Controller/Decide.antt =====
-- internal/controller/optiscaler_controller.go: the second part of `reconcileCapacity`, from the snapshot
-- to the decision that is acted on. No result stands for a panic.
pub mod Licensed
pub mod Cooldown
mod Examples
use silver_leaf.Prelude.{
  ℕ, ℤ, pos, ◌*ℤ◌, Bool, true, false, not, ◌&&◌, String, Option, none, some, List, [], ◌∷◌,
  if◌then◌else◌,
}
use silver_leaf.Go.Error.{Result, ok, err}
use silver_leaf.Go.Map.{Entry, lookup}
use silver_leaf.Go.Time.{Time, seconds}
use silver_leaf.Go.Float.{Float, Format}
use silver_leaf.Api.Status.{OptiScaler, LearnedReadiness}
use silver_leaf.Observation.{Snapshot}
use silver_leaf.Capacity.Types.{Analysis}
use silver_leaf.Capacity.Analyze.{analyze}
use silver_leaf.Policy.Types.{
  Action, scale_target, scale_dependency, prescale_target, hold, protected_mode, ComponentInput,
  CapacityDecision,
}
use silver_leaf.Policy.Bottleneck.{CapacityInput, evaluate_capacity}
use silver_leaf.Controller.Cluster.{Pod, Template, ReplicaSet, Deployment}
use silver_leaf.Controller.Readiness.{TargetReadinessObservation, persist_readiness_evidence}
use silver_leaf.Controller.Learning.{hold_target_scale, realization_reason}
use silver_leaf.Controller.Histories.{PredictionHistory}
use silver_leaf.Controller.Assessment.{PredictionAssessment}
use silver_leaf.Controller.Assessment.Evidence.{prediction_evidence}
use silver_leaf.Controller.Request.{PredictionRequest, no_assessment}
use silver_leaf.Controller.Prediction.{Prediction, evaluate_prediction}
use silver_leaf.Controller.Gather.{DependencyAnswers, components}

-- what is decided, with all that the status and the record need
pub record Decided (F : Type 0) : Type 0 where
  pub analysis : Analysis
  pub decision : CapacityDecision F
  pub assessment : PredictionAssessment F
  pub learned : LearnedReadiness F
  pub histories : List (Entry (PredictionHistory F))

abbrev pub same_action : Action → Action → Bool
same_action scale_target scale_target = true
same_action scale_dependency scale_dependency = true
same_action prescale_target prescale_target = true
same_action hold hold = true
same_action protected_mode protected_mode = true
same_action _ _ = false

module _ {F : Type 0} ⦃fl : Float F⦄ ⦃format : Format F⦄ where
  unfoldable pub target_component : OptiScaler F → ℤ → ComponentInput
  target_component r current = record {
    name = "target";
    current_replicas = current;
    min_replicas = r.spec.min_replicas;
    max_replicas = r.spec.max_replicas;
    scalable = true;
  }

  unfoldable pub capacity_input :
      OptiScaler F → Analysis → ℤ → (ℕ → DependencyAnswers F) → Time → CapacityInput
  capacity_input r analysis current deps now = record {
    analysis = analysis;
    target = target_component r current;
    dependencies = λ name. lookup name (components [] 0 r.spec.dependencies deps);
    max_scale_up_step = r.spec.policy.max_scale_up_step;
    max_scale_down_step = r.spec.policy.max_scale_down_step;
    cooldown = r.spec.policy.cooldown_seconds *ℤ seconds 1;
    last_scale_time = r.status.last_scale_time;
    now = now;
  }

  -- what the hold on capacity that is not realized yet changes of the assessment
  pub guarded_assessment :
      OptiScaler F
      → Snapshot F
      → CapacityDecision F
      → CapacityDecision F
      → PredictionAssessment F
      → PredictionAssessment F
  guarded_assessment r s before after a =
      let told = record a { rejected_reason = realization_reason s.target } in
      if not (same_action before.action after.action) && r.spec.prediction.enabled
      then record told { evidence = prediction_evidence s told r.spec.prediction.max_error_rate }
      else a

  unfoldable pub decided_of : OptiScaler F → Snapshot F → Analysis → ℤ → Prediction F → Decided F
  decided_of r s analysis current p =
      let held = hold_target_scale p.decision s.target current in
      record {
        analysis = analysis;
        decision = held;
        assessment = guarded_assessment r s p.decision held p.assessment;
        learned =
            if r.spec.prediction.enabled
            then persist_readiness_evidence r.status.learned p.assessment.readiness
            else r.status.learned;
        histories = p.histories;
      }

  unfoldable pub request_of :
      OptiScaler F
      → Snapshot F
      → Result TargetReadinessObservation
      → ℤ
      → (ℕ → DependencyAnswers F)
      → Time
      → PredictionRequest F
  request_of r s readiness current deps now = record {
    resource = r;
    snapshot = s;
    analysis = analyze s;
    current = evaluate_capacity (capacity_input r (analyze s) current deps now);
    readiness = readiness;
    now = now;
  }

  -- the assessment of a prediction that is not enabled is the empty one
  pub decide_capacity :
      OptiScaler F
      → Snapshot F
      → Result TargetReadinessObservation
      → ℤ
      → (ℕ → DependencyAnswers F)
      → Time
      → List (Entry (PredictionHistory F))
      → Option (Decided F)
  decide_capacity r s readiness current deps now m =
      elim (evaluate_prediction (request_of r s readiness current deps now) m) [
        | none ↦ none
        | some p ↦ some (decided_of r s (analyze s) current p)
      ]
