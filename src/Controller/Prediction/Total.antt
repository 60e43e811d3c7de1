-- ===== src/Controller/Prediction/Total.antt =====
-- The assessment of a prediction always has a result.
use silver_leaf.Prelude.{
  true, false, not, ◌≡◌, ◌≢◌, refl, ap, ◌∙◌, if◌then◌else◌, ◌⊎◌, inl, inr, Option, none, some, List,
  arith,
}
use silver_leaf.Go.Map.{Entry}
use silver_leaf.Go.Time.{Time}
use silver_leaf.Go.Float.{Float, Format, IsIeee}
use silver_leaf.Forecast.Estimate.{
  CapacityEstimate, Estimation, estimated, no_estimate, index_panic,
}
use silver_leaf.Forecast.Estimate.Safe.{safe_per_replica_capacity_no_panic}
use silver_leaf.Controller.Request.{
  PredictionRequest, key_of, demand_sample, serving, with_capacity, no_assessment,
}
use silver_leaf.Controller.Histories.{PredictionHistory, history_of}
use silver_leaf.Controller.Histories.Bounded.{
  IsHistories, history_of-IsKept, extend-IsKept, update_prediction_history-IsHistories,
}
use silver_leaf.Controller.Prediction.{
  Prediction, capacity_sample, history_after, histories_after, observe, conclude, conclude_estimate,
  estimate, evaluate_prediction,
}

module _ {F : Type 0} ⦃fl : Float F⦄ ⦃format : Format F⦄ where
  -- an estimate that is made or not
  abbrev pub estimation_of : Option (CapacityEstimate F) → Estimation F
  estimation_of none = no_estimate
  estimation_of (some e) = estimated e

  pub Estimation-cases :
      (e : Estimation F)
      → (e ≡ index_panic) ⊎ ((c : Option (CapacityEstimate F)) × (e ≡ estimation_of c))
  Estimation-cases index_panic = inl refl
  Estimation-cases no_estimate = inr (none, refl)
  Estimation-cases (estimated x) = inr (some x, refl)

  -- The estimate from the histories of a request is no panic.
  estimate_no_panic :
      IsIeee F
      → (q : PredictionRequest F) (before : Time) (m : List (Entry (PredictionHistory F)))
      → IsHistories before m
      → estimate q (history_after q m) ≢ index_panic
  unfolding estimate history_after
  estimate_no_panic laws q before m h =
      let kept =
        extend-IsKept laws (history_of (key_of q.resource) m)
          (demand_sample q.snapshot.target.predictive_request_rate) (capacity_sample q) q.now
          (history_of-IsKept (key_of q.resource) m h.kept) in
      safe_per_replica_capacity_no_panic laws (history_after q m).capacity_rates
        q.snapshot.target.physical_concurrency_limit q.resource.spec.prediction.safe_capacity_margin
        (omega (arith, kept.few_capacities))

  -- the result of a prediction that is not enabled
  abbrev pub off : PredictionRequest F → List (Entry (PredictionHistory F)) → Option (Prediction F)
  off q m = some (record { decision = q.current; assessment = no_assessment; histories = m })

  -- What is concluded, of an estimate that is made or not.
  pub evaluate_prediction-concluded :
      (q : PredictionRequest F) (m : List (Entry (PredictionHistory F)))
      → q.resource.spec.prediction.enabled ≡ true
      → (c : Option (CapacityEstimate F)) → estimate q (history_after q m) ≡ estimation_of c
      → evaluate_prediction q m
        ≡ some (
            conclude q
              (with_capacity c (serving q) (observe q (history_after q m)))
              (histories_after q m))
  unfolding evaluate_prediction conclude_estimate
  evaluate_prediction-concluded q m on none e =
      ap (λ b. if not b then off q m else conclude_estimate q m (estimate q (history_after q m))) on
      ∙ ap (conclude_estimate q m) e
  evaluate_prediction-concluded q m on (some x) e =
      ap (λ b. if not b then off q m else conclude_estimate q m (estimate q (history_after q m))) on
      ∙ ap (conclude_estimate q m) e

  pub evaluate_prediction-off :
      (q : PredictionRequest F) (m : List (Entry (PredictionHistory F)))
      → q.resource.spec.prediction.enabled ≡ false
      → evaluate_prediction q m ≡ off q m
  unfolding evaluate_prediction
  evaluate_prediction-off q m disabled =
      ap (λ b. if not b then off q m else conclude_estimate q m (estimate q (history_after q m)))
        disabled

  pub estimate-no_result :
      (q : PredictionRequest F) (m : List (Entry (PredictionHistory F)))
      → q.resource.spec.prediction.enabled ≡ true
      → estimate q (history_after q m) ≡ index_panic
      → evaluate_prediction q m ≡ none
  unfolding evaluate_prediction conclude_estimate
  estimate-no_result q m on panic =
      ap (λ b. if not b then off q m else conclude_estimate q m (estimate q (history_after q m))) on
      ∙ ap (conclude_estimate q m) panic

  -- With floats that meet the IEEE laws, where prediction is enabled and the histories are at most 128, one of each
  -- key, each of at most twenty samples of either kind in increasing order of time: the assessment does not
  -- panic, and its result leaves such histories, none of them last updated more than ten minutes before.
  pub evaluate_prediction_total :
      IsIeee F
      → (q : PredictionRequest F) (before : Time) (m : List (Entry (PredictionHistory F)))
      → IsHistories before m
      → q.resource.spec.prediction.enabled ≡ true
      → (p : Prediction F) × (evaluate_prediction q m ≡ some p) × IsHistories q.now p.histories
  unfolding conclude histories_after
  evaluate_prediction_total laws q before m h on =
      elim (Estimation-cases (estimate q (history_after q m))) [
        | inl panic ↦ absurd (estimate_no_panic laws q before m h panic)
        | inr (c, e) ↦ (
          conclude q (with_capacity c (serving q) (observe q (history_after q m)))
              (histories_after q m),
          evaluate_prediction-concluded q m on c e,
          update_prediction_history-IsHistories laws (key_of q.resource)
              (demand_sample q.snapshot.target.predictive_request_rate) (capacity_sample q) before
              q.now m h,
        )
      ]
