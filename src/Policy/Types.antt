-- ===== src/Policy/Types.antt =====
-- internal/policy/policy.go: actions, components and decisions. `Action` is a string type of which the
-- policy only ever assigns the five named constants.
use silver_leaf.Prelude.{ℤ, Bool, true, false, String}

pub data Action : Type 0 where
  scale_target scale_dependency prescale_target hold protected_mode : Action

pub record ComponentInput : Type 0 where
  pub name : String
  pub current_replicas : ℤ
  pub min_replicas : ℤ
  pub max_replicas : ℤ
  pub scalable : Bool

pub record CapacityDecision (F : Type 0) : Type 0 where
  pub action : Action
  pub reason : String
  pub chosen_component : String
  pub current_replicas : ℤ
  pub desired_replicas : ℤ
  pub threshold : F
  pub has_threshold : Bool

pub action_text : Action → String
action_text scale_target = "SCALE_TARGET"
action_text scale_dependency = "SCALE_DEPENDENCY"
action_text prescale_target = "PRESCALE_TARGET"
action_text hold = "HOLD"
action_text protected_mode = "PROTECTED_MODE"

abbrev pub is_prescale : Action → Bool
is_prescale prescale_target = true
is_prescale _ = false

abbrev pub is_hold : Action → Bool
is_hold hold = true
is_hold _ = false
