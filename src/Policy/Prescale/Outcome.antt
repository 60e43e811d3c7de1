-- ===== src/Policy/Prescale/Outcome.antt =====
-- What `EvaluatePrescale` makes of a decision.
use silver_leaf.Prelude.{
  pos, ◌+ℤ◌, ◌≤ℤ◌, ◌<ℤ◌, true, false, ◌≡◌, ◌≢◌, sym, ap, ◌∙◌, arith, Option-cases, inl, inr, refl,
  ◌⊎◌,
}
use silver_leaf.Go.Int32.{max_int32}
use silver_leaf.Go.Float.{Float, Format, IsIeee}
use silver_leaf.Capacity.Types.{
  Classification, healthy, target_saturated, dependency_saturated, capacity_blocked, uncertain,
  unknown,
}
use silver_leaf.Policy.Types.{
  Action, CapacityDecision, scale_target, scale_dependency, prescale_target, hold, protected_mode,
  is_prescale,
}
use silver_leaf.Policy.Component.{step_up_range, step_up-gt}
use silver_leaf.Policy.Prescale.{
  PrescaleInput, reject, desired_replicas, rejection, prescale, advise, advise_hold, advise_class,
  evaluate_prescale,
}
use silver_leaf.Policy.Prescale.Gates.{
  IsAttested, IsForecast, HasRoom, rejection-eq-none, evaluate_prescale_iff,
}

module _ {F : Type 0} ⦃fl : Float F⦄ ⦃format : Format F⦄ where
  -- a decision that keeps the count of the one before it
  pub record IsRejected (i : PrescaleInput F) (d : CapacityDecision F) : Type 0 where
    pub action : d.action ≡ hold
    pub component : d.chosen_component ≡ i.current.chosen_component
    pub current : d.current_replicas ≡ i.current.current_replicas
    pub desired : d.desired_replicas ≡ i.current.current_replicas

  -- a decision that raises the target within its bounds, by at most one step
  pub record IsRaised (i : PrescaleInput F) (d : CapacityDecision F) : Type 0 where
    pub action : d.action ≡ prescale_target
    pub component : d.chosen_component ≡ i.target.name
    pub current : d.current_replicas ≡ i.target.current_replicas
    pub more : d.current_replicas <ℤ d.desired_replicas
    pub le_max : d.desired_replicas ≤ℤ i.target.max_replicas
    pub le_step : d.desired_replicas ≤ℤ d.current_replicas +ℤ i.max_scale_up_step

  abbrev Outcome : PrescaleInput F → CapacityDecision F → Type 0
  Outcome i d = (d ≡ i.current) ⊎ (IsRejected i d ⊎ IsRaised i d)

  prescale-IsRaised :
      (i : PrescaleInput F)
      → i.target.current_replicas +ℤ i.max_scale_up_step ≤ℤ max_int32
      → HasRoom i
      → IsRaised i (prescale i)
  unfolding prescale desired_replicas
  prescale-IsRaised i fits r =
      let start : pos 1 ≤ℤ i.target.current_replicas =
        omega (arith, r.valid.min_pos, r.valid.min_le) in
      let range =
        step_up_range i.target.current_replicas i.max_scale_up_step i.target.max_replicas
          r.valid.up_pos start r.valid.le_max fits in
      record {
        action = refl;
        component = refl;
        current = refl;
        more =
            step_up-gt i.target.current_replicas i.max_scale_up_step i.target.max_replicas
              r.valid.up_pos start r.room fits;
        le_max = range.1;
        le_step = range.2;
      }

  advise-Outcome :
      IsIeee F
      → (i : PrescaleInput F) → i.target.current_replicas +ℤ i.max_scale_up_step ≤ℤ max_int32
      → Outcome i (advise i)
  unfolding advise reject
  advise-Outcome laws i fits = elim (Option-cases (rejection i)) [
    | inr (reason, e) ↦
        rw (e, advise)
          (inr (inl (record { action = refl; component = refl; current = refl; desired = refl })))
    | inl e ↦
        let gates = (rejection-eq-none i fits laws).0 e in
        rw (e, advise) (inr (inr (prescale-IsRaised i fits gates.2)))
  ]

  advise_hold-Outcome :
      IsIeee F
      → (i : PrescaleInput F) → (action : Action)
      → i.target.current_replicas +ℤ i.max_scale_up_step ≤ℤ max_int32
      → Outcome i (advise_hold i action)
  unfolding advise_hold
  advise_hold-Outcome laws i hold fits = advise-Outcome laws i fits
  advise_hold-Outcome laws i _ fits = inl refl

  advise_class-Outcome :
      IsIeee F
      → (i : PrescaleInput F) → (class : Classification)
      → i.target.current_replicas +ℤ i.max_scale_up_step ≤ℤ max_int32
      → Outcome i (advise_class i class)
  unfolding advise_class
  advise_class-Outcome laws i healthy fits = advise_hold-Outcome laws i i.current.action fits
  advise_class-Outcome laws i _ fits = inl refl

  -- With floats that meet the IEEE laws, and where one step up of the target does not overflow int32, the outcome is the decision before it,
  -- or that decision as a hold that keeps its count, or a raise of the target that is at least one
  -- replica, at most one step, and at most the maximum.
  pub evaluate_prescale-Outcome :
      IsIeee F
      → (i : PrescaleInput F) → i.target.current_replicas +ℤ i.max_scale_up_step ≤ℤ max_int32
      → (evaluate_prescale i ≡ i.current)
        ⊎ (IsRejected i (evaluate_prescale i) ⊎ IsRaised i (evaluate_prescale i))
  unfolding evaluate_prescale
  evaluate_prescale-Outcome laws i fits = advise_class-Outcome laws i i.classification fits

  advise_hold-held :
      (i : PrescaleInput F) (action : Action)
      → is_prescale i.current.action ≡ false
      → is_prescale (advise_hold i action).action ≡ true
      → action ≡ hold
  unfolding advise_hold
  advise_hold-held i hold other h = refl
  advise_hold-held i scale_target other h = ground arith
  advise_hold-held i scale_dependency other h = ground arith
  advise_hold-held i prescale_target other h = ground arith
  advise_hold-held i protected_mode other h = ground arith

  advise_class-healthy :
      (i : PrescaleInput F) (class : Classification)
      → is_prescale i.current.action ≡ false
      → is_prescale (advise_class i class).action ≡ true
      → (class ≡ healthy) × (i.current.action ≡ hold)
  unfolding advise_class
  advise_class-healthy i healthy other h = (refl, advise_hold-held i i.current.action other h)
  advise_class-healthy i target_saturated other h = ground arith
  advise_class-healthy i dependency_saturated other h = ground arith
  advise_class-healthy i capacity_blocked other h = ground arith
  advise_class-healthy i uncertain other h = ground arith
  advise_class-healthy i (unknown _) other h = ground arith

  -- A decision for a saturated component is kept.
  pub evaluate_prescale_saturated :
      (i : PrescaleInput F)
      → (i.classification ≡ target_saturated) ⊎ (i.classification ≡ dependency_saturated)
      → evaluate_prescale i ≡ i.current
  unfolding evaluate_prescale advise_class
  evaluate_prescale_saturated i (inl e) = ap (advise_class i) e
  evaluate_prescale_saturated i (inr e) = ap (advise_class i) e

  -- Only the hold of a healthy service is made a raise.
  pub evaluate_prescale-healthy :
      (i : PrescaleInput F)
      → is_prescale i.current.action ≡ false
      → is_prescale (evaluate_prescale i).action ≡ true
      → (i.classification ≡ healthy) × (i.current.action ≡ hold)
  unfolding evaluate_prescale
  evaluate_prescale-healthy i other h = advise_class-healthy i i.classification other h

  not_raised_of_current :
      (i : PrescaleInput F)
      → is_prescale i.current.action ≡ false
      → is_prescale (evaluate_prescale i).action ≡ true
      → evaluate_prescale i ≢ i.current
  not_raised_of_current i other h same =
      let clash : true ≡ false =
        sym h ∙ ap (λ (d : CapacityDecision F). is_prescale d.action) same ∙ other in
      ground arith

  not_raised_of_IsRejected :
      (i : PrescaleInput F)
      → is_prescale (evaluate_prescale i).action ≡ true
      → ¬ IsRejected i (evaluate_prescale i)
  not_raised_of_IsRejected i h r =
      let clash : true ≡ false = sym h ∙ ap is_prescale r.action in ground arith

  -- The raise of a decision that was none has all its gates passed, and is bounded.
  pub evaluate_prescale-IsRaised :
      IsIeee F
      → (i : PrescaleInput F) → is_prescale i.current.action ≡ false
      → is_prescale (evaluate_prescale i).action ≡ true
      → i.target.current_replicas +ℤ i.max_scale_up_step ≤ℤ max_int32
      → (i.classification ≡ healthy)
        × (i.current.action ≡ hold)
        × IsAttested i
        × IsForecast i
        × IsRaised i (evaluate_prescale i)
  evaluate_prescale-IsRaised laws i other h fits =
      let (class, held) = evaluate_prescale-healthy i other h in
      elim (evaluate_prescale-Outcome laws i fits) [
        | inl same ↦ absurd (not_raised_of_current i other h same)
        | inr (inl rejected) ↦ absurd (not_raised_of_IsRejected i h rejected)
        | inr (inr raised) ↦
            let gates = (evaluate_prescale_iff laws i class held fits).0 raised.action in
            (class, held, gates.0, gates.1, raised)
      ]
