-- ===== src/Policy/Prescale/Gates.antt =====
-- When `EvaluatePrescale` raises the target, and by how much.
use silver_leaf.Prelude.{
  pos, ◌+ℤ◌, ◌≤ℤ◌, ◌<ℤ◌, true, false, none, ◌≡◌, ◌↔◌, arith, +ℤ_parts, Option-cases, inl, inr, refl,
  str_eq,
}
use silver_leaf.Go.Int32.{max_int32}
use silver_leaf.Go.Float.{Float, Format, IsIeee, nought, finite, finite_nonnegative}
use silver_leaf.Go.Order.{not_le_of_lt, lt_of_not_le, is_nan-nought}
use silver_leaf.Capacity.Types.{healthy}
use silver_leaf.Policy.Types.{prescale_target, hold}
use silver_leaf.Policy.Component.{
  IsValid, validate_component, validate_component-eq-none, IsValid-eq-none, cooldown_active,
  step_up, step_up_range, step_up-gt,
}
use silver_leaf.Policy.Prescale.{
  PrescaleInput, reject, reject_evidence, reject_forecast, desired_replicas, reject_target,
  rejection, prescale, advise, advise_hold, advise_class, evaluate_prescale,
}

module _ {F : Type 0} ⦃fl : Float F⦄ where
  -- The evidence that the caller attests, and its own reason left empty.
  pub record IsAttested (i : PrescaleInput F) : Type 0 where
    pub request_telemetry : i.request_telemetry_valid ≡ true
    pub predictive_demand : i.predictive_demand_valid ≡ true
    pub error_rate : i.error_rate_healthy ≡ true
    pub dependencies : i.dependencies_healthy ≡ true
    pub unsaturated : i.target_unsaturated ≡ true
    pub capacity_evidence : i.capacity_evidence_valid ≡ true
    pub no_reason : str_eq i.rejection_reason "" ≡ true

  -- A forecast, of high quality and over a real horizon, of demand that grows past what the target
  -- serves safely; and no cooldown.
  pub record IsForecast (i : PrescaleInput F) : Type 0 where
    pub idle : cooldown_active i.last_scale_time i.cooldown i.now ≡ false
    pub high : str_eq i.forecast_quality "HIGH" ≡ true
    pub ahead : pos 0 <ℤ i.horizon
    pub demand : finite_nonnegative i.forecast_request_rate ≡ true
    pub capacity : finite i.safe_capacity ≡ true
    pub capacity_pos : fl.lt nought i.safe_capacity ≡ true
    pub slope : finite i.request_rate_slope ≡ true
    pub rising : fl.lt nought i.request_rate_slope ≡ true
    pub exceeds : fl.lt i.safe_capacity i.forecast_request_rate ≡ true

  -- A valid target with room above its count.
  pub record HasRoom (i : PrescaleInput F) : Type 0 where
    pub valid : IsValid i.target i.max_scale_up_step (pos 1)
    pub room : i.target.current_replicas <ℤ i.target.max_replicas

  reject_evidence-eq-none : (i : PrescaleInput F) → (reject_evidence i ≡ none) ↔ IsAttested i
  unfolding reject_evidence
  reject_evidence-eq-none i = ground arith

  module _ (laws : IsIeee F) where
    reject_forecast-IsForecast : (i : PrescaleInput F) → reject_forecast i ≡ none → IsForecast i
    unfolding reject_forecast
    reject_forecast-IsForecast i h = ground (
      arith,
      is_nan-nought laws,
      lt_of_not_le laws i.safe_capacity nought,
      lt_of_not_le laws i.request_rate_slope nought,
      lt_of_not_le laws i.forecast_request_rate i.safe_capacity,
    )

    reject_forecast_of_gates : (i : PrescaleInput F) → IsForecast i → reject_forecast i ≡ none
    unfolding reject_forecast
    reject_forecast_of_gates i f = ground (
      arith,
      not_le_of_lt laws nought i.safe_capacity f.capacity_pos,
      not_le_of_lt laws nought i.request_rate_slope f.rising,
      not_le_of_lt laws i.safe_capacity i.forecast_request_rate f.exceeds,
    )

  module _ (i : PrescaleInput F)
      (fits : i.target.current_replicas +ℤ i.max_scale_up_step ≤ℤ max_int32) where
    reject_target-HasRoom : reject_target i ≡ none → HasRoom i
    unfolding reject_target desired_replicas
    reject_target-HasRoom h =
        elim (Option-cases (validate_component i.target i.max_scale_up_step (pos 1))) [
          | inl e ↦
              let v = validate_component-eq-none i.target i.max_scale_up_step (pos 1) e in
              ground (
                arith,
                +ℤ_parts i.target.current_replicas i.max_scale_up_step,
                step_up_range i.target.current_replicas i.max_scale_up_step i.target.max_replicas,
              )
          | inr (message, e) ↦ ground arith
        ]

    reject_target_of_room : HasRoom i → reject_target i ≡ none
    unfolding reject_target desired_replicas
    reject_target_of_room r =
        let e = IsValid-eq-none i.target i.max_scale_up_step (pos 1) r.valid in
        let raised : i.target.current_replicas
            <ℤ step_up i.target.current_replicas i.max_scale_up_step i.target.max_replicas =
          step_up-gt i.target.current_replicas i.max_scale_up_step i.target.max_replicas
            r.valid.up_pos (omega (arith, r.valid.min_pos, r.valid.min_le)) r.room fits in
        ground arith

    pub rejection-eq-none :
        IsIeee F → (rejection i ≡ none) ↔ (IsAttested i × IsForecast i × HasRoom i)
    unfolding rejection
    rejection-eq-none laws = ground (
      arith,
      reject_evidence-eq-none i,
      reject_forecast-IsForecast laws i,
      reject_forecast_of_gates laws i,
      reject_target-HasRoom,
      reject_target_of_room,
    )

module _ {F : Type 0} ⦃fl : Float F⦄ ⦃format : Format F⦄ where
  evaluate_prescale-eq-advise :
      (i : PrescaleInput F)
      → i.classification ≡ healthy
      → i.current.action ≡ hold
      → evaluate_prescale i ≡ advise i
  unfolding evaluate_prescale advise_class advise_hold
  evaluate_prescale-eq-advise i c h = ground arith

  -- With floats that meet the IEEE laws, on the hold of a healthy service, and where one step up does not overflow int32, the target is
  -- raised exactly when the evidence is attested, the forecast is one of demand past the safe
  -- capacity, of high quality and outside the cooldown, and the target is valid and has room.
  pub evaluate_prescale_iff :
      IsIeee F
      → (i : PrescaleInput F) → i.classification ≡ healthy
      → i.current.action ≡ hold
      → i.target.current_replicas +ℤ i.max_scale_up_step ≤ℤ max_int32
      → ((evaluate_prescale i).action ≡ prescale_target) ↔ (IsAttested i × IsForecast i × HasRoom i)
  unfolding advise prescale reject
  evaluate_prescale_iff laws i c h fits =
      let advised = evaluate_prescale-eq-advise i c h in
      let gates = rejection-eq-none i fits laws in
      elim (Option-cases (rejection i)) [
        | inl e ↦
            let acts : (evaluate_prescale i).action ≡ prescale_target =
              rw (advised, advise, e, advise) refl in
            ground arith
        | inr (reason, e) ↦
            let holds : (evaluate_prescale i).action ≡ hold =
              rw (advised, advise, e, advise) refl in
            ground arith
      ]
