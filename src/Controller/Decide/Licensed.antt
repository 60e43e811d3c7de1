-- ===== src/Controller/Decide/Licensed.antt =====
-- What stands behind a decision that changes a count.
use silver_leaf.Prelude.{
  ℕ, ℤ, ◌+ℤ◌, ◌≤ℤ◌, false, ◌&&◌, ◌≡◌, refl, sym, ap, ◌∙◌, subst, ◌⊎◌, inl, inr, none, some, List,
  arith, Bool-cases, Option-cases, if◌then◌else◌, str_eq,
}
use silver_leaf.Go.Error.{Result}
use silver_leaf.Go.Map.{Entry}
use silver_leaf.Go.Int32.{max_int32}
use silver_leaf.Go.Time.{Time}
use silver_leaf.Go.Float.{Float, Format, IsIeee}
use silver_leaf.Api.Status.{OptiScaler}
use silver_leaf.Observation.{Snapshot}
use silver_leaf.Policy.Types.{
  scale_target, scale_dependency, ComponentInput, CapacityDecision, is_prescale,
}
use silver_leaf.Policy.Bottleneck.{CapacityInput, evaluate_capacity}
use silver_leaf.Policy.Bottleneck.Outcome.{Stays, Scales, Steps, MayScale}
use silver_leaf.Policy.Bottleneck.Gates.{evaluate_capacity-Sound, evaluate_capacity-Steps}
use silver_leaf.Capacity.Types.{target_saturated, dependency_saturated}
use silver_leaf.Capacity.Analyze.{analyze}
use silver_leaf.Controller.Readiness.{TargetReadinessObservation}
use silver_leaf.Controller.Learning.{hold_target_scale, scales_target, realization_pending}
use silver_leaf.Controller.Learning.Hold.{
  RaisesTarget, hold_target_scale_iff, hold_target_scale_realized,
}
use silver_leaf.Controller.Histories.{PredictionHistory}
use silver_leaf.Controller.Prediction.{Prediction, evaluate_prediction}
use silver_leaf.Controller.Prediction.Accepted.{IsAccepted, evaluate_prediction-IsAccepted}
use silver_leaf.Controller.Prediction.Outcome.{
  kept, held, accepted, evaluate_prediction-Judged, evaluate_prediction_saturated,
}
use silver_leaf.Controller.Request.{PredictionRequest}
use silver_leaf.Controller.Gather.{DependencyAnswers}
use silver_leaf.Controller.Decide.{Decided, capacity_input, decided_of, request_of, decide_capacity}

module _ {F : Type 0} ⦃fl : Float F⦄ ⦃format : Format F⦄ where
  -- What licenses a decision: it changes no count; or the analysis of capacity found its component to
  -- scale; or a prediction was accepted that asks for it.
  pub data Licensed (q : PredictionRequest F) (i : CapacityInput)
      (m : List (Entry (PredictionHistory F))) (d : CapacityDecision F) : Type 0 where
    stays : Stays F d → Licensed q i m d
    scales : (c : ComponentInput) → MayScale i c → Steps F i c d → Licensed q i m d
    predicted :
        (p : Prediction F)
        → evaluate_prediction q m ≡ some p
        → IsAccepted q m p
        → d ≡ p.decision
        → Licensed q i m d

  not_prescale_of_Stays : (d : CapacityDecision F) → Stays F d → is_prescale d.action ≡ false
  not_prescale_of_Stays d s = elim s.inactive [
    | inl h ↦ ap is_prescale h
    | inr h ↦ ap is_prescale h
  ]

  not_prescale_of_Scales :
      (i : CapacityInput) (c : ComponentInput) (d : CapacityDecision F)
      → Scales F i c d
      → is_prescale d.action ≡ false
  not_prescale_of_Scales i c d s = elim (Bool-cases (str_eq c.name i.target.name)) [
    | inl t ↦ ap is_prescale (s.action ∙ ap (λ b. if b then scale_target else scale_dependency) t)
    | inr t ↦ ap is_prescale (s.action ∙ ap (λ b. if b then scale_target else scale_dependency) t)
  ]

module _ (F : Type 0) ⦃fl : Float F⦄ ⦃format : Format F⦄ where
  pub evaluate_capacity_not_prescale :
      (i : CapacityInput) → is_prescale (evaluate_capacity {F = F} i).action ≡ false
  evaluate_capacity_not_prescale i = elim (evaluate_capacity-Sound {F = F} i) [
    | inl s ↦ not_prescale_of_Stays (evaluate_capacity i) s
    | inr (c, _, s) ↦ not_prescale_of_Scales i c (evaluate_capacity i) s
  ]

module _ {F : Type 0} ⦃fl : Float F⦄ ⦃format : Format F⦄ where
  module _ (r : OptiScaler F) (s : Snapshot F) (readiness : Result TargetReadinessObservation)
      (current : ℤ) (deps : ℕ → DependencyAnswers F) (now : Time)
      (m : List (Entry (PredictionHistory F))) where
    abbrev pub asked : PredictionRequest F
    asked = request_of r s readiness current deps now

    abbrev pub input : CapacityInput
    input = capacity_input r (analyze s) current deps now

    prediction-Licensed :
        IsIeee F
        → (p : Prediction F) → evaluate_prediction asked m ≡ some p
        → (evaluate_capacity {F = F} input).current_replicas +ℤ r.spec.policy.max_scale_up_step
          ≤ℤ max_int32
        → Licensed asked input m p.decision
    unfolding request_of capacity_input
    prediction-Licensed laws p e fits = elim (evaluate_prediction-Judged laws asked m p e fits) [
      | kept same ↦ elim (evaluate_capacity-Steps {F = F} input fits) [
        | inl st ↦ stays (subst (Stays F) (sym same) st)
        | inr (c, may, sc) ↦ scales c may (subst (Steps F input c) (sym same) sc)
      ]
      | held action same ↦ stays (record { unchanged = same; inactive = inl action })
      | accepted acc ↦
          predicted p e
            (evaluate_prediction-IsAccepted laws asked m p e acc
              (evaluate_capacity_not_prescale F input) fits)
            refl
    ]

    -- The hold on capacity that is not realized yet keeps the licence.
    held-Licensed :
        (d : CapacityDecision F)
        → Licensed asked input m d
        → Licensed asked input m (hold_target_scale d s.target current)
    held-Licensed d l = elim (hold_target_scale_iff d s.target current).1 [
      | inl same ↦ subst (Licensed asked input m) (sym same) l
      | inr (action, desired, kept_count) ↦
          stays (record { unchanged = desired ∙ sym kept_count; inactive = inl action })
    ]

    held-realized :
        (d : CapacityDecision F)
        → (realization_pending s.target ≡ false)
          ⊎ ((scales_target (hold_target_scale d s.target current).action
                && str_eq (hold_target_scale d s.target current).chosen_component "target")
              ≡ false)
    held-realized d =
        let held = hold_target_scale d s.target current in
        elim (Bool-cases (scales_target held.action && str_eq held.chosen_component "target")) [
          | inl raises ↦
              let both : RaisesTarget held = ground arith in
              inl ((hold_target_scale_iff d s.target current).0.0 both).1
          | inr other ↦ inr other
        ]

    pub decided_from :
        (p : Prediction F)
        → evaluate_prediction asked m ≡ some p
        → decide_capacity r s readiness current deps now m
          ≡ some (decided_of r s (analyze s) current p)
    unfolding decide_capacity
    decided_from p found = rw (found, decide_capacity) refl

    -- A decision of the policy that scales a saturated component is kept.
    pub decided_of_saturated :
        (c : ComponentInput) (p : Prediction F)
        → MayScale input c
        → evaluate_prediction asked m ≡ some p
        → (realization_pending s.target ≡ false)
          ⊎ (str_eq (evaluate_capacity {F = F} input).chosen_component "target" ≡ false)
        → (decided_of r s (analyze s) current p).decision ≡ evaluate_capacity input
    unfolding decided_of request_of analyze capacity_input
    decided_of_saturated c p may e realized =
        let class : (input.analysis.classification ≡ target_saturated)
            ⊎ (input.analysis.classification ≡ dependency_saturated) =
          elim may.licensed [ inl (t, _) ↦ inl t | inr (t, _, _) ↦ inr t ] in
        let same =
          evaluate_prediction_saturated asked m p e class
            (evaluate_capacity_not_prescale F input) in
        ap (λ (d : CapacityDecision F). hold_target_scale d s.target current) same
        ∙ hold_target_scale_realized (evaluate_capacity input) s.target current realized

    -- With floats that meet the IEEE laws, and where one step up of the count that the analysis of capacity decides on
    -- does not overflow int32, a decision for a snapshot either changes no count, in hold or protected mode; or scales, by
    -- one bounded step, a component with valid bounds that the analysis of that snapshot found saturated, outside the
    -- cooldown; or is the raise of the target by a prediction that was accepted, with all that stands behind it. And it
    -- does not scale the target while a Ready replica of it is known not to serve.
    pub decide_capacity-Licensed :
        IsIeee F
        → (x : Decided F) → decide_capacity r s readiness current deps now m ≡ some x
        → (evaluate_capacity {F = F} input).current_replicas +ℤ r.spec.policy.max_scale_up_step
          ≤ℤ max_int32
        → Licensed asked input m x.decision
          × ((realization_pending s.target ≡ false)
              ⊎ ((scales_target x.decision.action && str_eq x.decision.chosen_component "target")
                  ≡ false))
    unfolding decide_capacity decided_of
    decide_capacity-Licensed laws x e fits = elim (Option-cases (evaluate_prediction asked m)) [
      | inl panic ↦
          let nothing : decide_capacity r s readiness current deps now m ≡ none =
            rw (panic, decide_capacity) refl in
          let clash : none ≡ some x = sym nothing ∙ e in ground arith
      | inr (p, found) ↦
          let path : some (decided_of r s (analyze s) current p) ≡ some x =
            sym (decided_from p found) ∙ e in
          let same : decided_of r s (analyze s) current p ≡ x = cc path in
          subst
            (λ (y : Decided F).
              Licensed asked input m y.decision
              × ((realization_pending s.target ≡ false)
                  ⊎ ((scales_target y.decision.action
                        && str_eq y.decision.chosen_component "target")
                      ≡ false)))
            same
            (
              held-Licensed p.decision (prediction-Licensed laws p found fits),
              held-realized p.decision,
            )
    ]
