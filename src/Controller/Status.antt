-- ===== src/Controller/Status.antt =====
-- internal/controller/optiscaler_controller.go: what a decision means for the status, `controlMode`,
-- `conditionReason`, `rejectedActions`, `setConditions` and `shouldUpdateScale`.
use silver_leaf.Prelude.{
  ℤ, eq_ℤ, Bool, true, false, not, ◌&&◌, String, List, [], ◌∷◌, str_eq, if◌then◌else◌,
}
use silver_leaf.Go.Time.{Time}
use silver_leaf.Api.Status.{
  ControlMode, mode_automatic, mode_hold, mode_protected, Condition, ConditionStatus,
  condition_true, condition_false, condition_unknown, OptiScalerStatus,
}
use silver_leaf.Policy.Types.{
  Action, scale_target, scale_dependency, prescale_target, hold, protected_mode, action_text,
}

pub control_mode : Action → ControlMode
control_mode protected_mode = mode_protected
control_mode hold = mode_hold
control_mode _ = mode_automatic

pub condition_reason : Action → String
condition_reason protected_mode = "ProtectedMode"
condition_reason hold = "PolicyHold"
condition_reason _ = "PolicyScale"

pub rejected_actions : Action → List String
rejected_actions scale_target = action_text scale_dependency ∷ []
rejected_actions scale_dependency = action_text scale_target ∷ []
rejected_actions prescale_target =
    "SCALE_DEPENDENCY: dependencies are healthy; no dependency bottleneck is present" ∷ []
rejected_actions _ = action_text scale_target ∷ action_text scale_dependency ∷ []

abbrev pub is_protected : Action → Bool
is_protected protected_mode = true
is_protected _ = false

abbrev pub should_update_scale : ℤ → ℤ → Bool
should_update_scale current desired = not (eq_ℤ current desired)

-- `conditionStatus`
abbrev pub condition_status : Bool → ConditionStatus
condition_status true = condition_true
condition_status false = condition_false

abbrev pub same_status : ConditionStatus → ConditionStatus → Bool
same_status condition_true condition_true = true
same_status condition_false condition_false = true
same_status condition_unknown condition_unknown = true
same_status _ _ = false

-- the two conditions are the same but for their times
pub same_condition : Condition → Condition → Bool
same_condition p c =
    str_eq p.type_ c.type_
    && same_status p.status c.status
    && eq_ℤ p.observed_generation c.observed_generation
    && str_eq p.reason c.reason
    && str_eq p.message c.message

-- the inner loop: a condition that was there keeps its time
pub keep_transition : Condition → List Condition → Condition
keep_transition c [] = c
keep_transition c (p ∷ ps) =
    keep_transition
      (if same_condition p c then record c { last_transition_time = p.last_transition_time } else c)
      ps

module _ {F : Type 0} where
  unfoldable pub set_conditions :
      Time → OptiScalerStatus F → ℤ → Bool → Bool → String → String → OptiScalerStatus F
  set_conditions now status generation ready protected reason message =
      let condition = λ (type_ : String) (value : Bool).
        keep_transition
          (record {
            type_ = type_;
            status = condition_status value;
            observed_generation = generation;
            last_transition_time = now;
            reason = reason;
            message = message;
          })
          status.conditions in
      record status {
        conditions = condition "Ready" ready ∷ condition "ProtectedMode" protected ∷ [];
      }
