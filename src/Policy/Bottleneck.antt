-- ===== src/Policy/Bottleneck.antt =====
-- internal/policy/policy.go: `EvaluateCapacity`, the policy for a classified bottleneck.
pub mod Outcome
pub mod Gates
mod Examples
use silver_leaf.Prelude.{
  ℤ, eq_ℤ, Bool, true, false, not, String, Option, none, some, [], ◌∷◌, str_eq, concat,
  if◌then◌else◌,
}
use silver_leaf.Go.Time.{Time, Duration}
use silver_leaf.Go.Float.{Float, Format, nought}
use silver_leaf.Capacity.Types.{
  Classification, Analysis, healthy, target_saturated, dependency_saturated, capacity_blocked,
  uncertain, unknown,
}
use silver_leaf.Policy.Types.{
  ComponentInput, CapacityDecision, scale_target, scale_dependency, hold, protected_mode,
}
use silver_leaf.Policy.Component.{validate_component, cooldown_active, step_up}

-- `dependencies` is the map from names to components.
pub record CapacityInput : Type 0 where
  pub analysis : Analysis
  pub target : ComponentInput
  pub dependencies : String → Option ComponentInput
  pub max_scale_up_step : ℤ
  pub max_scale_down_step : ℤ
  pub cooldown : Duration
  pub last_scale_time : Option Time
  pub now : Time

module _ {F : Type 0} ⦃fl : Float F⦄ where
  -- a decision in protected mode about a component, at its current count
  abbrev pub protect : ComponentInput → String → CapacityDecision F
  protect c reason = record {
    action = protected_mode;
    reason = reason;
    chosen_component = c.name;
    current_replicas = c.current_replicas;
    desired_replicas = c.current_replicas;
    threshold = nought;
    has_threshold = false;
  }

  -- the same, as a hold
  abbrev pub hold_at : ComponentInput → String → CapacityDecision F
  hold_at c reason = record (protect c reason) { action = hold }

  -- the branch of a dependency that the analysis found to block capacity
  unfoldable pub hold_blocked : CapacityInput → CapacityDecision F
  hold_blocked i = elim (i.dependencies i.analysis.component) [
    | none ↦
        protect i.target
          "capacity-blocked analysis does not identify a configured non-scalable dependency"
    | some candidate ↦
        if candidate.scalable
        then protect i.target
            "capacity-blocked analysis does not identify a configured non-scalable dependency"
        else elim (validate_component candidate i.max_scale_up_step i.max_scale_down_step) [
          | some e ↦
              protect i.target (concat ("invalid blocked dependency configuration: " ∷ e ∷ []))
          | none ↦ hold_at candidate i.analysis.reason
        ]
  ]

  -- one bounded step up of the chosen component
  unfoldable pub scale_component : CapacityInput → ComponentInput → CapacityDecision F
  scale_component i c =
      let desired = step_up c.current_replicas i.max_scale_up_step c.max_replicas in
      if eq_ℤ desired c.current_replicas
      then hold_at c
          (concat (c.name ∷ " saturation signal present; maximum replicas already reached" ∷ []))
      else record (protect c
          (concat (c.name ∷ " saturation signal present; scaling by bounded step" ∷ []))) {
            action = if str_eq c.name i.target.name then scale_target else scale_dependency;
            desired_replicas = desired;
          }

module _ {F : Type 0} ⦃fl : Float F⦄ ⦃format : Format F⦄ where
  -- the branch of a saturated dependency that is configured
  unfoldable pub scale_candidate : CapacityInput → ComponentInput → CapacityDecision F
  scale_candidate i candidate =
      if not candidate.scalable
      then protect candidate (
          concat
            ("dependency " ∷ format.quoted candidate.name ∷ " is saturated but not scalable" ∷ []))
      else elim (validate_component candidate i.max_scale_up_step i.max_scale_down_step) [
        | some e ↦ protect candidate (concat ("invalid dependency configuration: " ∷ e ∷ []))
        | none ↦ scale_component i candidate
      ]

  unfoldable pub scale_saturated_dependency : CapacityInput → CapacityDecision F
  scale_saturated_dependency i = elim (i.dependencies i.analysis.component) [
    | none ↦
        protect i.target
          (concat ("dependency " ∷ format.quoted i.analysis.component ∷ " is not configured" ∷ []))
    | some candidate ↦ scale_candidate i candidate
  ]

  -- the branches after the check of the target, by classification; the cooldown comes after the
  -- blocked dependency and before all others
  unfoldable pub decide : CapacityInput → Classification → CapacityDecision F
  decide i capacity_blocked = hold_blocked i
  decide i class =
      if cooldown_active i.last_scale_time i.cooldown i.now
      then hold_at i.target "cooldown active"
      else elim class [
        | healthy ↦ hold_at i.target i.analysis.reason
        | dependency_saturated ↦ scale_saturated_dependency i
        | target_saturated ↦ scale_component i i.target
        | _ ↦ protect i.target "unsupported capacity classification"
      ]

  unfoldable pub evaluate_target : CapacityInput → CapacityDecision F
  evaluate_target i = elim (validate_component i.target i.max_scale_up_step i.max_scale_down_step) [
    | some e ↦ protect i.target (concat ("invalid target configuration: " ∷ e ∷ []))
    | none ↦ decide i i.analysis.classification
  ]

  -- uncertain evidence is set aside before anything else
  unfoldable pub evaluate_class : CapacityInput → Classification → CapacityDecision F
  evaluate_class i uncertain = protect i.target i.analysis.reason
  evaluate_class i _ = evaluate_target i

  unfoldable pub evaluate_capacity : CapacityInput → CapacityDecision F
  evaluate_capacity i = evaluate_class i i.analysis.classification
