-- ===== src/Policy/Prescale.antt =====
-- internal/policy/policy.go: `EvaluatePrescale`, which may turn the hold of a healthy service into a
-- bounded step up of the target, on the advice of the forecast.
pub mod Gates
pub mod Outcome
pub mod Cooldown
mod Examples
use silver_leaf.Prelude.{
  ℤ, pos, leb_ℤ, eq_ℤ, Bool, true, false, not, ◌||◌, String, Option, none, some, [], ◌∷◌, str_eq,
  concat, if◌then◌else◌,
}
use silver_leaf.Go.Time.{Time, Duration}
use silver_leaf.Go.Float.{Float, Format, nought, finite, finite_nonnegative}
use silver_leaf.Capacity.Types.{Classification, healthy}
use silver_leaf.Policy.Types.{Action, ComponentInput, CapacityDecision, prescale_target, hold}
use silver_leaf.Policy.Component.{validate_component, cooldown_active, step_up}

pub record PrescaleInput (F : Type 0) : Type 0 where
  pub current : CapacityDecision F
  pub classification : Classification
  pub request_telemetry_valid : Bool
  pub predictive_demand_valid : Bool
  pub error_rate_healthy : Bool
  pub dependencies_healthy : Bool
  pub target_unsaturated : Bool
  pub capacity_evidence_valid : Bool
  pub rejection_reason : String
  pub forecast_quality : String
  pub forecast_request_rate : F
  pub request_rate_slope : F
  pub safe_capacity : F
  pub horizon : Duration
  pub target : ComponentInput
  pub max_scale_up_step : ℤ
  pub cooldown : Duration
  pub last_scale_time : Option Time
  pub now : Time

module _ {F : Type 0} ⦃fl : Float F⦄ where
  -- the closure `reject`
  unfoldable pub reject : PrescaleInput F → String → CapacityDecision F
  reject i reason = record (i.current) {
    action = hold;
    desired_replicas = i.current.current_replicas;
    reason = concat ("prediction rejected: " ∷ reason ∷ []);
  }

  -- the closure `rejectReason`, as the reason it gives
  unfoldable pub reason_or : PrescaleInput F → String → String
  reason_or i fallback = if str_eq i.rejection_reason "" then fallback else i.rejection_reason

  -- the checks that may give the caller's reason
  unfoldable pub reject_evidence : PrescaleInput F → Option String
  reject_evidence i =
      if not i.request_telemetry_valid
      then some (
          reason_or i
            "fresh complete request, successful-request, and error-rate telemetry is required")
      else if not i.predictive_demand_valid
      then some (reason_or i "fresh predictive-demand telemetry is required")
      else if not i.error_rate_healthy
      then some (reason_or i "target error rate is not acceptable for healthy-capacity learning")
      else if not i.dependencies_healthy
      then some (reason_or i "dependencies are not healthy")
      else if not i.target_unsaturated
      then some (reason_or i "target local utilization is at or above its saturation threshold")
      else if not i.capacity_evidence_valid
      then some (reason_or i "measured readiness or healthy-capacity evidence is incomplete")
      else if str_eq i.rejection_reason ""
      then none
      else some i.rejection_reason

  -- the checks of the cooldown and of the forecast
  unfoldable pub reject_forecast : PrescaleInput F → Option String
  reject_forecast i =
      if cooldown_active i.last_scale_time i.cooldown i.now
      then some "cooldown is active"
      else if not (str_eq i.forecast_quality "HIGH")
      then some "forecast quality is not HIGH"
      else if leb_ℤ i.horizon (pos 0)
      then some "planning horizon is missing or invalid"
      else if not (finite_nonnegative i.forecast_request_rate)
          || not (finite i.safe_capacity)
          || fl.le i.safe_capacity nought
          || not (finite i.request_rate_slope)
          || fl.le i.request_rate_slope nought
      then some "forecast or safe-capacity value is invalid"
      else if fl.le i.forecast_request_rate i.safe_capacity
      then some "forecast demand does not exceed current safe capacity"
      else none

  unfoldable pub desired_replicas : PrescaleInput F → ℤ
  desired_replicas i = step_up i.target.current_replicas i.max_scale_up_step i.target.max_replicas

  -- the checks of the target and of the room above its count
  unfoldable pub reject_target : PrescaleInput F → Option String
  reject_target i = elim (validate_component i.target i.max_scale_up_step (pos 1)) [
    | some e ↦ some (concat ("invalid target scaling configuration: " ∷ e ∷ []))
    | none ↦
        if eq_ℤ (desired_replicas i) i.target.current_replicas
        then some "maximum replicas already reached"
        else none
  ]

  -- all checks, in the order of the code
  unfoldable pub rejection : PrescaleInput F → Option String
  rejection i = elim (reject_evidence i) [
    | some reason ↦ some reason
    | none ↦ elim (reject_forecast i) [ some reason ↦ some reason | none ↦ reject_target i ]
  ]

module _ {F : Type 0} ⦃fl : Float F⦄ ⦃format : Format F⦄ where
  unfoldable pub prescale : PrescaleInput F → CapacityDecision F
  prescale i = record (i.current) {
    action = prescale_target;
    chosen_component = i.target.name;
    current_replicas = i.target.current_replicas;
    desired_replicas = desired_replicas i;
    reason = concat (
        "forecast "
        ∷ format.fixed 2 i.forecast_request_rate
        ∷ " requests/s exceeds safe target capacity "
        ∷ format.fixed 2 i.safe_capacity
        ∷ " requests/s within "
        ∷ format.fixed 1 (fl.of_duration i.horizon)
        ∷ "s planning horizon"
        ∷ []);
  }

  -- advice on a healthy hold
  unfoldable pub advise : PrescaleInput F → CapacityDecision F
  advise i = elim (rejection i) [ some reason ↦ reject i reason | none ↦ prescale i ]

  -- only a hold is advised on
  unfoldable pub advise_hold : PrescaleInput F → Action → CapacityDecision F
  advise_hold i hold = advise i
  advise_hold i _ = i.current

  unfoldable pub advise_class : PrescaleInput F → Classification → CapacityDecision F
  advise_class i healthy = advise_hold i i.current.action
  advise_class i _ = i.current

  unfoldable pub evaluate_prescale : PrescaleInput F → CapacityDecision F
  evaluate_prescale i = advise_class i i.classification
