-- ===== src/Policy/Threshold/Gates.antt =====
-- When `Evaluate` moves a replica count, and in which direction; what int32 overflow does to it.
use silver_leaf.Prelude.{
  pos, ◌+ℤ◌, ◌≤ℤ◌, ◌<ℤ◌, true, false, String, none, some, ◌≡◌, ◌≢◌, ap, ◌⊎◌, ◌↔◌, sym, ◌∙◌, arith,
  -ℤ_parts, Option-cases, inl, inr,
}
use silver_leaf.Go.Int32.{IsInt32, max_int32, sub32-eq_of_fits, add32-lt_of_overflow}
use silver_leaf.Go.Float.{Float, finite, nought}
use silver_leaf.Go.Time
use silver_leaf.Go.Time.{seconds}
use silver_leaf.Policy.Types.{scale_target, protected_mode}
use silver_leaf.Policy.Component.{cooldown_active, step_up, step_up_range, step_up-gt}
use silver_leaf.Policy.Threshold.{
  Input, Decision, validate, validate_bounds, validate_telemetry, protected_decision,
  observed_decision, crossed, step_down, evaluate_valid, evaluate,
}
use silver_leaf.Policy.Threshold.Bounds.{
  IsConfigured, validate-IsConfigured, step_down_range, evaluate_of_valid, evaluate_of_invalid,
}

module _ {F : Type 0} ⦃fl : Float F⦄ where
  step_down-lt :
      (i : Input F)
      → IsConfigured i
      → IsInt32 i.current_replicas
      → IsInt32 i.max_scale_down_step
      → i.min_replicas <ℤ i.current_replicas
      → step_down i <ℤ i.current_replicas
  unfolding step_down
  step_down-lt i c r d m = ground (
    arith,
    -ℤ_parts i.current_replicas i.max_scale_down_step,
    sub32-eq_of_fits i.current_replicas i.max_scale_down_step,
  )

  -- what raises the count
  abbrev pub RaisesCount : Input F → Type 0
  RaisesCount i =
      (validate i ≡ none)
      × (cooldown_active i.last_scale_time i.cooldown i.now ≡ false)
      × (fl.lt i.scale_up_threshold i.observed_metric ≡ true)
      × (i.current_replicas <ℤ i.max_replicas)

  -- what lowers the count
  abbrev pub LowersCount : Input F → Type 0
  LowersCount i =
      (validate i ≡ none)
      × (cooldown_active i.last_scale_time i.cooldown i.now ≡ false)
      × (fl.lt i.scale_up_threshold i.observed_metric ≡ false)
      × (fl.lt i.observed_metric i.scale_down_threshold ≡ true)
      × (i.min_replicas <ℤ i.current_replicas)

  evaluate_valid-direction :
      (i : Input F)
      → validate i ≡ none
      → IsConfigured i
      → IsInt32 i.current_replicas
      → IsInt32 i.max_scale_down_step
      → i.current_replicas +ℤ i.max_scale_up_step ≤ℤ max_int32
      → let desired = (evaluate_valid i).desired_replicas in
        ((i.current_replicas <ℤ desired) ↔ RaisesCount i)
        × ((desired <ℤ i.current_replicas) ↔ LowersCount i)
  unfolding evaluate_valid crossed observed_decision
  evaluate_valid-direction i valid c r d fits =
      let up =
        step_up_range i.current_replicas i.max_scale_up_step i.max_replicas c.up_pos
          (omega (arith, c)) c.le_max fits in
      let down = step_down_range i c r d in
      let down' = step_down-lt i c r d in
      ground (
        arith,
        up,
        down,
        step_up-gt i.current_replicas i.max_scale_up_step i.max_replicas,
        down',
        c,
        valid,
      )

  -- A count rises exactly when the checks pass, no cooldown is active, the metric is above the upper
  -- threshold and there is room below the maximum; it falls exactly when, with the same gates, the
  -- metric is not above the upper threshold but below the lower one, and there is room above the
  -- minimum. The counts are int32 values, and the step up does not overflow.
  pub evaluate_direction :
      (i : Input F)
      → IsInt32 i.current_replicas
      → IsInt32 i.max_scale_down_step
      → i.current_replicas +ℤ i.max_scale_up_step ≤ℤ max_int32
      → ((i.current_replicas <ℤ (evaluate i).desired_replicas) ↔ RaisesCount i)
        × (((evaluate i).desired_replicas <ℤ i.current_replicas) ↔ LowersCount i)
  evaluate_direction i r d fits = elim (Option-cases (validate i)) [
    | inl e ↦
        rw (evaluate_of_valid i e)
          (evaluate_valid-direction i e (validate-IsConfigured i e) r d fits)
    | inr (message, e) ↦
        rw (evaluate_of_invalid i message e) (unfold protected_decision in ground arith)
  ]

  -- finite, and not below zero
  abbrev NonNegative : F → Type 0
  NonNegative x = (finite x ≡ true) × (fl.lt x nought ≡ false)

  -- what the policy asks of its configuration and of the telemetry
  pub record IsAcceptable (i : Input F) : Type 0 where
    pub configured : IsConfigured i
    pub bounds : i.min_replicas ≤ℤ i.max_replicas
    pub down_threshold : NonNegative i.scale_down_threshold
    pub up_threshold : NonNegative i.scale_up_threshold
    pub ordered : fl.lt i.scale_up_threshold i.scale_down_threshold ≡ false
    pub available : i.telemetry_valid ≡ true
    pub number : finite i.observed_metric ≡ true
    pub timed : Time.is_zero i.telemetry_observed_at ≡ false
    pub clock : Time.is_zero i.now ≡ false
    pub recent :
        (i.max_telemetry_age ≤ℤ pos 0)
        ⊎ (Time.sub i.now i.telemetry_observed_at ≤ℤ i.max_telemetry_age)
    pub not_ahead : Time.after i.telemetry_observed_at (Time.add i.now (seconds 30)) ≡ false

  validate-IsAcceptable : (i : Input F) → validate i ≡ none → IsAcceptable i
  unfolding validate validate_bounds validate_telemetry
  validate-IsAcceptable i h =
      let configured = validate-IsConfigured i h in
      record {
        configured = configured;
        bounds = omega (arith, configured.min_le, configured.le_max);
        down_threshold = ground arith;
        up_threshold = ground arith;
        ordered = ground arith;
        available = ground arith;
        number = ground arith;
        timed = ground arith;
        clock = ground arith;
        recent = ground arith;
        not_ahead = ground arith;
      }

  IsAcceptable-validate : (i : Input F) → IsAcceptable i → validate i ≡ none
  unfolding validate validate_bounds validate_telemetry
  IsAcceptable-validate i a = let c = a.configured in ground arith

  protected :
      (i : Input F) (message : String)
      → validate i ≡ some message
      → evaluate i ≡ record {
        action = protected_mode;
        reason = message;
        observed_metric = nought;
        has_observed_metric = false;
        threshold = nought;
        has_threshold = false;
        current_replicas = i.current_replicas;
        desired_replicas = i.current_replicas;
      }
  unfolding protected_decision
  protected i message e = evaluate_of_invalid i message e

  -- Where bounds, steps, thresholds or telemetry are not acceptable, and only there, the answer is
  -- protected mode, with the current count, and without an observed metric: acceptable are bounds from
  -- one up that hold the count, positive steps, finite thresholds in order that are not negative, and a
  -- finite value that is available, timed, not older than the age allowed if one is set, and not more
  -- than thirty seconds ahead of a known present.
  pub evaluate-protected_cases :
      (i : Input F)
      → (IsAcceptable i × ((evaluate i).action ≢ protected_mode))
        ⊎ ((¬ IsAcceptable i)
            × ((evaluate i).action ≡ protected_mode)
            × ((evaluate i).desired_replicas ≡ i.current_replicas)
            × ((evaluate i).has_observed_metric ≡ false))
  evaluate-protected_cases i = elim (Option-cases (validate i)) [
    | inl e ↦ inl (
      validate-IsAcceptable i e,
      rw (evaluate_of_valid i e)
          (λ h. unfold evaluate_valid crossed observed_decision in ground arith),
    )
    | inr (other, e) ↦ inr (
      λ a.
          let fine = IsAcceptable-validate i a in
          let clash : none ≡ some other = sym fine ∙ e in ground arith,
      ap (λ (d : Decision F). d.action) (protected i other e),
      ap (λ (d : Decision F). d.desired_replicas) (protected i other e),
      ap (λ (d : Decision F). d.has_observed_metric) (protected i other e),
    )
  ]

  -- Nothing bounds the step up: where the sum of the count and the step passes the int32 range, the
  -- count asked for is negative, below any valid minimum, and the decision is to scale to it.
  pub evaluate_overflow :
      (i : Input F)
      → IsInt32 i.current_replicas
      → IsInt32 i.max_scale_up_step
      → max_int32 <ℤ i.current_replicas +ℤ i.max_scale_up_step
      → RaisesCount i
      → ((evaluate i).action ≡ scale_target) × ((evaluate i).desired_replicas <ℤ pos 0)
  evaluate_overflow i r u over (valid, idle, above, room) =
      let c = validate-IsConfigured i valid in
      let negative = add32-lt_of_overflow i.current_replicas i.max_scale_up_step r u over in
      rw (evaluate_of_valid i valid)
        (unfold evaluate_valid crossed observed_decision step_up in ground (arith, c))
