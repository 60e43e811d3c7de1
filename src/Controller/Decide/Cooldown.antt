-- ===== src/Controller/Decide/Cooldown.antt =====
-- What is decided in the cooldown.
use silver_leaf.Prelude.{
  ℕ, ℤ, ◌*ℤ◌, true, false, ◌≡◌, sym, ◌∙◌, subst, inl, inr, some, none, List, arith, Option-cases,
  refl,
}
use silver_leaf.Go.Error.{Result}
use silver_leaf.Go.Map.{Entry}
use silver_leaf.Go.Time.{Time, seconds}
use silver_leaf.Go.Float.{Float, Format}
use silver_leaf.Api.Status.{OptiScaler}
use silver_leaf.Observation.{Snapshot}
use silver_leaf.Capacity.Analyze.{analyze}
use silver_leaf.Policy.Types.{CapacityDecision}
use silver_leaf.Policy.Component.{cooldown_active}
use silver_leaf.Policy.Bottleneck.{evaluate_capacity}
use silver_leaf.Policy.Bottleneck.Outcome.{Stays}
use silver_leaf.Policy.Bottleneck.Gates.{evaluate_capacity-Sound}
use silver_leaf.Controller.Readiness.{TargetReadinessObservation}
use silver_leaf.Controller.Learning.{hold_target_scale}
use silver_leaf.Controller.Learning.Hold.{hold_target_scale_iff}
use silver_leaf.Controller.Histories.{PredictionHistory}
use silver_leaf.Controller.Prediction.{Prediction, evaluate_prediction}
use silver_leaf.Controller.Prediction.Cooldown.{evaluate_prediction-Waits}
use silver_leaf.Controller.Gather.{DependencyAnswers}
use silver_leaf.Controller.Decide.{Decided, capacity_input, decided_of, request_of, decide_capacity}
use silver_leaf.Controller.Decide.Licensed.{
  asked, input, decided_from, evaluate_capacity_not_prescale,
}

module _ {F : Type 0} ⦃fl : Float F⦄ ⦃format : Format F⦄ where
  module _ (r : OptiScaler F) (s : Snapshot F) (readiness : Result TargetReadinessObservation)
      (current : ℤ) (deps : ℕ → DependencyAnswers F) (now : Time)
      (m : List (Entry (PredictionHistory F)))
      (active : cooldown_active r.status.last_scale_time
          (r.spec.policy.cooldown_seconds *ℤ seconds 1)
          now
        ≡ true) where
    evaluate_capacity-Stays : Stays F (evaluate_capacity (input r s readiness current deps now m))
    unfolding capacity_input
    evaluate_capacity-Stays =
        elim (evaluate_capacity-Sound {F = F} (input r s readiness current deps now m)) [
          | inl stays ↦ stays
          | inr (c, may, _) ↦ let clash : true ≡ false = sym active ∙ may.idle in ground arith
        ]

    prediction-Stays :
        (p : Prediction F)
        → evaluate_prediction (asked r s readiness current deps now m) m ≡ some p
        → Stays F p.decision
    unfolding request_of
    prediction-Stays p e =
        elim (evaluate_prediction-Waits (asked r s readiness current deps now m) m p e
          (evaluate_capacity_not_prescale F (input r s readiness current deps now m)) active) [
            | inl same ↦ subst (Stays F) (sym same) evaluate_capacity-Stays
            | inr (action, kept) ↦ record { unchanged = kept; inactive = inl action }
          ]

    held-Stays :
        (d : CapacityDecision F) → Stays F d → Stays F (hold_target_scale d s.target current)
    held-Stays d h = elim (hold_target_scale_iff d s.target current).1 [
      | inl same ↦ subst (Stays F) (sym same) h
      | inr (action, desired, kept) ↦ record {
        unchanged = desired ∙ sym kept;
        inactive = inl action;
      }
    ]

    -- In the cooldown no decision changes a count.
    pub decide_capacity-Stays :
        (x : Decided F)
        → decide_capacity r s readiness current deps now m ≡ some x
        → Stays F x.decision
    unfolding decide_capacity decided_of
    decide_capacity-Stays x e =
        elim (Option-cases (evaluate_prediction (asked r s readiness current deps now m) m)) [
          | inl panic ↦
              let nothing : decide_capacity r s readiness current deps now m ≡ none =
                rw (panic, decide_capacity) refl in
              let clash : none ≡ some x = sym nothing ∙ e in ground arith
          | inr (p, found) ↦
              let path : some (decided_of r s (analyze s) current p) ≡ some x =
                sym (decided_from r s readiness current deps now m p found) ∙ e in
              let same : decided_of r s (analyze s) current p ≡ x = cc path in
              subst (λ (y : Decided F). Stays F y.decision) same
                (held-Stays p.decision (prediction-Stays p found))
        ]
