-- ===== src/Policy/Threshold.antt =====
-- internal/policy/policy.go: `Evaluate`, the policy of one metric and two thresholds.
pub mod Bounds
pub mod Gates
mod Examples
use silver_leaf.Prelude.{
  ℤ, pos, ltb_ℤ, eq_ℤ, Bool, true, false, not, ◌||◌, ◌&&◌, String, Option, none, some,
  if◌then◌else◌,
}
use silver_leaf.Go.Int32.{add32, sub32}
use silver_leaf.Go.Time
use silver_leaf.Go.Time.{Time, Duration, seconds}
use silver_leaf.Go.Float.{Float, nought}
use silver_leaf.Policy.Types.{Action, scale_target, hold, protected_mode}
use silver_leaf.Policy.Component.{cooldown_active, step_up}

pub record Input (F : Type 0) : Type 0 where
  pub current_replicas : ℤ
  pub min_replicas : ℤ
  pub max_replicas : ℤ
  pub observed_metric : F
  pub telemetry_valid : Bool
  pub telemetry_observed_at : Time
  pub max_telemetry_age : Duration
  pub now : Time
  pub scale_up_threshold : F
  pub scale_down_threshold : F
  pub max_scale_up_step : ℤ
  pub max_scale_down_step : ℤ
  pub cooldown : Duration
  pub last_scale_time : Option Time

pub record Decision (F : Type 0) : Type 0 where
  pub action : Action
  pub reason : String
  pub observed_metric : F
  pub has_observed_metric : Bool
  pub threshold : F
  pub has_threshold : Bool
  pub current_replicas : ℤ
  pub desired_replicas : ℤ

module _ {F : Type 0} ⦃fl : Float F⦄ where
  -- the checks of `validate` on the configuration
  validate_bounds : Input F → Option String
  validate_bounds i =
      if ltb_ℤ i.min_replicas (pos 1)
        || ltb_ℤ i.max_replicas i.min_replicas
        || ltb_ℤ i.current_replicas i.min_replicas
        || ltb_ℤ i.max_replicas i.current_replicas
      then some "invalid replica bounds"
      else if fl.is_nan i.scale_down_threshold
          || fl.is_inf i.scale_down_threshold
          || fl.is_nan i.scale_up_threshold
          || fl.is_inf i.scale_up_threshold
          || fl.lt i.scale_down_threshold nought
          || fl.lt i.scale_up_threshold nought
      then some "policy thresholds must be finite and nonnegative"
      else if fl.lt i.scale_up_threshold i.scale_down_threshold
      then some "scaleDownThreshold must not exceed scaleUpThreshold"
      else if ltb_ℤ i.max_scale_up_step (pos 1) || ltb_ℤ i.max_scale_down_step (pos 1)
      then some "scale steps must be at least 1"
      else none

  -- the checks of `validate` on the telemetry
  validate_telemetry : Input F → Option String
  validate_telemetry i =
      if not i.telemetry_valid
      then some "telemetry invalid or unavailable"
      else if fl.is_nan i.observed_metric || fl.is_inf i.observed_metric
      then some "telemetry value is not finite"
      else if Time.is_zero i.telemetry_observed_at
      then some "telemetry timestamp missing"
      else if Time.is_zero i.now
      then some "policy evaluation time missing"
      else if ltb_ℤ (pos 0) i.max_telemetry_age
          && ltb_ℤ i.max_telemetry_age (Time.sub i.now i.telemetry_observed_at)
      then some "telemetry is stale"
      else if Time.after i.telemetry_observed_at (Time.add i.now (seconds 30))
      then some "telemetry timestamp is in the future"
      else none

  pub validate : Input F → Option String
  validate i = elim (validate_bounds i) [ some e ↦ some e | none ↦ validate_telemetry i ]

  pub protected_decision : ℤ → String → Decision F
  protected_decision current reason = record {
    action = protected_mode;
    reason = reason;
    observed_metric = nought;
    has_observed_metric = false;
    threshold = nought;
    has_threshold = false;
    current_replicas = current;
    desired_replicas = current;
  }

  -- a decision on valid telemetry that leaves the replicas alone
  pub observed_decision : Input F → String → Decision F
  observed_decision i reason = record {
    action = hold;
    reason = reason;
    observed_metric = i.observed_metric;
    has_observed_metric = true;
    threshold = nought;
    has_threshold = false;
    current_replicas = i.current_replicas;
    desired_replicas = i.current_replicas;
  }

  -- a decision at a threshold: it holds if the bounded step leaves the count as it is
  pub crossed : Input F → F → ℤ → String → String → Decision F
  crossed i threshold desired held moved =
      let same = eq_ℤ desired i.current_replicas in
      record (observed_decision i (if same then held else moved)) {
        action = if same then hold else scale_target;
        threshold = threshold;
        has_threshold = true;
        desired_replicas = desired;
      }

  pub step_down : Input F → ℤ
  step_down i =
      let desired = sub32 i.current_replicas i.max_scale_down_step in
      if ltb_ℤ desired i.min_replicas then i.min_replicas else desired

  -- `Evaluate` on input that `validate` accepts
  pub evaluate_valid : Input F → Decision F
  evaluate_valid i =
      if cooldown_active i.last_scale_time i.cooldown i.now
      then observed_decision i "cooldown active"
      else if fl.lt i.scale_up_threshold i.observed_metric
      then crossed i i.scale_up_threshold
          (step_up i.current_replicas i.max_scale_up_step i.max_replicas)
          "scale-up threshold exceeded; maximum replicas already reached"
          "scale-up threshold exceeded"
      else if fl.lt i.observed_metric i.scale_down_threshold
      then crossed i i.scale_down_threshold (step_down i)
          "scale-down threshold crossed; minimum replicas already reached"
          "scale-down threshold crossed"
      else observed_decision i "metric within policy band"

  pub evaluate : Input F → Decision F
  evaluate i = elim (validate i) [
    | some e ↦ protected_decision i.current_replicas e
    | none ↦ evaluate_valid i
  ]
