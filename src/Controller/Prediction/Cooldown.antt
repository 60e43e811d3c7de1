-- ===== src/Controller/Prediction/Cooldown.antt =====
-- What the assessment of a prediction makes of a decision in the cooldown.
use silver_leaf.Prelude.{
  ◌*ℤ◌, true, false, ◌≡◌, ◌⊎◌, sym, ap, ◌∙◌, subst, inl, inr, none, some, List, arith, Bool-cases,
}
use silver_leaf.Go.Map.{Entry}
use silver_leaf.Go.Time.{seconds}
use silver_leaf.Go.Float.{Float, Format}
use silver_leaf.Policy.Types.{CapacityDecision, hold, is_prescale}
use silver_leaf.Policy.Component.{cooldown_active}
use silver_leaf.Policy.Prescale.Cooldown.{evaluate_prescale_cooldown}
use silver_leaf.Controller.Histories.{PredictionHistory}
use silver_leaf.Controller.Request.{PredictionRequest, serving, with_capacity, no_assessment}
use silver_leaf.Controller.Assessment.{PredictionAssessment}
use silver_leaf.Controller.Prediction.{
  Prediction, prescale_input, conclude, observe, history_after, histories_after, estimate,
  evaluate_prediction,
}
use silver_leaf.Controller.Prediction.Total.{
  Estimation-cases, evaluate_prediction-concluded, evaluate_prediction-off, estimate-no_result,
}
use silver_leaf.Controller.Prediction.Outcome.{conclude_unaccepted}

module _ {F : Type 0} where
  -- A result keeps the decision, or makes it a hold that changes no count.
  abbrev pub Waits : PredictionRequest F → CapacityDecision F → Type 0
  Waits q d = (d ≡ q.current) ⊎ ((d.action ≡ hold) × (d.desired_replicas ≡ d.current_replicas))

module _ {F : Type 0} ⦃fl : Float F⦄ ⦃format : Format F⦄ where
  conclude-Waits :
      (q : PredictionRequest F) (a : PredictionAssessment F)
      (m : List (Entry (PredictionHistory F)))
      → is_prescale q.current.action ≡ false
      → cooldown_active q.resource.status.last_scale_time
          (q.resource.spec.policy.cooldown_seconds *ℤ seconds 1)
          q.now
        ≡ true
      → Waits q (conclude q a m).decision
  unfolding prescale_input
  conclude-Waits q a m other active =
      elim (evaluate_prescale_cooldown (prescale_input q a) active) [
        | inl same ↦ inl (
            conclude_unaccepted q a m
              (ap (λ (d : CapacityDecision F). is_prescale d.action) same ∙ other)
            ∙ same)
        | inr r ↦
            let path = conclude_unaccepted q a m (ap is_prescale r.action) in
            inr (
              subst
                (λ (d : CapacityDecision F).
                  (d.action ≡ hold) × (d.desired_replicas ≡ d.current_replicas))
                (sym path) (r.action, r.desired ∙ sym r.current))
      ]

  pub evaluate_prediction-Waits :
      (q : PredictionRequest F) (m : List (Entry (PredictionHistory F))) (p : Prediction F)
      → evaluate_prediction q m ≡ some p
      → is_prescale q.current.action ≡ false
      → cooldown_active q.resource.status.last_scale_time
          (q.resource.spec.policy.cooldown_seconds *ℤ seconds 1)
          q.now
        ≡ true
      → Waits q p.decision
  evaluate_prediction-Waits q m p e other active =
      elim (Bool-cases q.resource.spec.prediction.enabled) [
        | inr disabled ↦
            let path = sym (evaluate_prediction-off q m disabled) ∙ e in
            let same : record { decision = q.current; assessment = no_assessment; histories = m }
                ≡ p =
              cc path in
            inl (sym (ap (λ (r : Prediction F). r.decision) same))
        | inl on ↦ elim (Estimation-cases (estimate q (history_after q m))) [
          | inl panic ↦
              let clash : none ≡ some p = sym (estimate-no_result q m on panic) ∙ e in ground arith
          | inr (c, est) ↦
              let a = with_capacity c (serving q) (observe q (history_after q m)) in
              let path = sym (evaluate_prediction-concluded q m on c est) ∙ e in
              let same : conclude q a (histories_after q m) ≡ p = cc path in
              subst (λ (r : Prediction F). Waits q r.decision) same
                (conclude-Waits q a (histories_after q m) other active)
        ]
      ]
