-- ===== src/Controller/Prediction/Outcome.antt =====
-- What the assessment of a prediction makes of a decision.
use silver_leaf.Prelude.{
  ◌+ℤ◌, ◌≤ℤ◌, true, false, ◌≡◌, refl, sym, ap, ◌∙◌, subst, ◌⊎◌, inl, inr, none, some, List, arith,
  Bool-cases,
}
use silver_leaf.Go.Map.{Entry}
use silver_leaf.Go.Int32.{max_int32}
use silver_leaf.Go.Float.{Float, Format, IsIeee}
use silver_leaf.Capacity.Types.{target_saturated, dependency_saturated}
use silver_leaf.Policy.Types.{CapacityDecision, hold, is_prescale}
use silver_leaf.Policy.Prescale.{evaluate_prescale}
use silver_leaf.Policy.Prescale.Outcome.{evaluate_prescale-Outcome, evaluate_prescale_saturated}
use silver_leaf.Controller.Histories.{PredictionHistory}
use silver_leaf.Controller.Request.{PredictionRequest, serving, with_capacity, no_assessment}
use silver_leaf.Controller.Assessment.{PredictionAssessment}
use silver_leaf.Controller.Prediction.{
  Prediction, prescale_input, conclude, observe, history_after, histories_after, estimate,
  evaluate_prediction,
}
use silver_leaf.Controller.Prediction.Total.{
  Estimation-cases, evaluate_prediction-concluded, evaluate_prediction-off, estimate-no_result,
}

-- A result keeps the decision, makes it a hold that changes no count, or accepts the prediction.
pub data Judged {F : Type 0} (q : PredictionRequest F) (p : Prediction F) : Type 0 where
  kept : p.decision ≡ q.current → Judged q p
  held :
      p.decision.action ≡ hold
      → p.decision.desired_replicas ≡ p.decision.current_replicas
      → Judged q p
  accepted : p.assessment.accepted ≡ true → Judged q p

module _ {F : Type 0} ⦃fl : Float F⦄ ⦃format : Format F⦄ where
  conclude_accepted :
      (q : PredictionRequest F) (a : PredictionAssessment F)
      (m : List (Entry (PredictionHistory F)))
      → (conclude q a m).assessment.accepted
        ≡ is_prescale (evaluate_prescale (prescale_input q a)).action
  unfolding conclude
  conclude_accepted q a m = refl

  pub conclude_unaccepted :
      (q : PredictionRequest F) (a : PredictionAssessment F)
      (m : List (Entry (PredictionHistory F)))
      → is_prescale (evaluate_prescale (prescale_input q a)).action ≡ false
      → (conclude q a m).decision ≡ evaluate_prescale (prescale_input q a)
  unfolding conclude
  conclude_unaccepted q a m other = rw (other, conclude) refl

  conclude-Judged :
      IsIeee F
      → (q : PredictionRequest F) (a : PredictionAssessment F)
        (m : List (Entry (PredictionHistory F)))
      → q.current.current_replicas +ℤ q.resource.spec.policy.max_scale_up_step ≤ℤ max_int32
      → Judged q (conclude q a m)
  unfolding prescale_input
  conclude-Judged laws q a m fits =
      elim (Bool-cases (is_prescale (evaluate_prescale (prescale_input q a)).action)) [
        | inl raises ↦ accepted (conclude_accepted q a m ∙ raises)
        | inr other ↦
            let same = conclude_unaccepted q a m other in
            elim (evaluate_prescale-Outcome laws (prescale_input q a) fits) [
              | inl before ↦ kept (same ∙ before)
              | inr (inl r) ↦ held (ap (λ (d : CapacityDecision F). d.action) same ∙ r.action) (
                  ap (λ (d : CapacityDecision F). d.desired_replicas) same
                  ∙ r.desired
                  ∙ sym r.current
                  ∙ sym (ap (λ (d : CapacityDecision F). d.current_replicas) same))
              | inr (inr r) ↦
                  let clash : true ≡ false = sym (ap is_prescale r.action) ∙ other in ground arith
            ]
      ]

  pub evaluate_prediction-Judged :
      IsIeee F
      → (q : PredictionRequest F) (m : List (Entry (PredictionHistory F))) (p : Prediction F)
      → evaluate_prediction q m ≡ some p
      → q.current.current_replicas +ℤ q.resource.spec.policy.max_scale_up_step ≤ℤ max_int32
      → Judged q p
  evaluate_prediction-Judged laws q m p e fits =
      elim (Bool-cases q.resource.spec.prediction.enabled) [
        | inr disabled ↦
            let path = sym (evaluate_prediction-off q m disabled) ∙ e in
            let same : record { decision = q.current; assessment = no_assessment; histories = m }
                ≡ p =
              cc path in
            kept (sym (ap (λ (r : Prediction F). r.decision) same))
        | inl on ↦ elim (Estimation-cases (estimate q (history_after q m))) [
          | inl panic ↦
              let clash : none ≡ some p = sym (estimate-no_result q m on panic) ∙ e in ground arith
          | inr (c, est) ↦
              let a = with_capacity c (serving q) (observe q (history_after q m)) in
              let path = sym (evaluate_prediction-concluded q m on c est) ∙ e in
              let found : conclude q a (histories_after q m) ≡ p = cc path in
              subst (Judged q) found (conclude-Judged laws q a (histories_after q m) fits)
        ]
      ]

  conclude_saturated :
      (q : PredictionRequest F) (a : PredictionAssessment F)
      (m : List (Entry (PredictionHistory F)))
      → (q.analysis.classification ≡ target_saturated)
        ⊎ (q.analysis.classification ≡ dependency_saturated)
      → is_prescale q.current.action ≡ false
      → (conclude q a m).decision ≡ q.current
  unfolding prescale_input
  conclude_saturated q a m class other =
      let same = evaluate_prescale_saturated (prescale_input q a) class in
      conclude_unaccepted q a m (ap (λ (d : CapacityDecision F). is_prescale d.action) same ∙ other)
      ∙ same

  -- The assessment of a prediction keeps a decision for a saturated component.
  pub evaluate_prediction_saturated :
      (q : PredictionRequest F) (m : List (Entry (PredictionHistory F))) (p : Prediction F)
      → evaluate_prediction q m ≡ some p
      → (q.analysis.classification ≡ target_saturated)
        ⊎ (q.analysis.classification ≡ dependency_saturated)
      → is_prescale q.current.action ≡ false
      → p.decision ≡ q.current
  evaluate_prediction_saturated q m p e class other =
      elim (Bool-cases q.resource.spec.prediction.enabled) [
        | inr disabled ↦
            let path = sym (evaluate_prediction-off q m disabled) ∙ e in
            let same : record { decision = q.current; assessment = no_assessment; histories = m }
                ≡ p =
              cc path in
            sym (ap (λ (r : Prediction F). r.decision) same)
        | inl on ↦ elim (Estimation-cases (estimate q (history_after q m))) [
          | inl panic ↦
              let clash : none ≡ some p = sym (estimate-no_result q m on panic) ∙ e in ground arith
          | inr (c, est) ↦
              let a = with_capacity c (serving q) (observe q (history_after q m)) in
              let path = sym (evaluate_prediction-concluded q m on c est) ∙ e in
              let same : conclude q a (histories_after q m) ≡ p = cc path in
              sym (ap (λ (r : Prediction F). r.decision) same)
              ∙ conclude_saturated q a (histories_after q m) class other
        ]
      ]
