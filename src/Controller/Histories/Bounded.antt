-- ===== src/Controller/Histories/Bounded.antt =====
-- The invariant of the reconciler's histories, and that an update keeps it.
use silver_leaf.Prelude.{
  ◌≤◌, Bool, false, not, ◌≡◌, String, str_eq, List, [], ◌∷◌, length, keep, All, arith, Bool-cases,
  inl, inr, length-keep-le, ◌-ℤ◌, -ℤ_parts,
}
use silver_leaf.Go.Time
use silver_leaf.Go.Time.{Time, seconds}
use silver_leaf.Go.Map.{
  Entry, lookup, delete, assign, IsDistinct, keep-All_entries, keep-IsDistinct, assign-IsDistinct,
}
use silver_leaf.Go.Float.{Float, IsIeee}
use silver_leaf.Forecast.History.{Sample, CapacitySample, max_samples}
use silver_leaf.Forecast.History.Order.{Increasing}
use silver_leaf.Forecast.History.Invariant.{
  demand_time, capacity_time, append_sample-IsHistory, append_capacity_sample-IsHistory,
}
use silver_leaf.Controller.Histories.{
  PredictionHistory, evict, extend, history_of, is_stale, max_prediction_histories,
  update_prediction_history,
}
use silver_leaf.Controller.Histories.Evicted.{evict-All, evict-IsDistinct, delete-evict-lt}

-- What is kept of one resource: at most twenty samples of either kind, in increasing order of time.
pub record IsKept {F : Type 0} ⦃fl : Float F⦄ (h : PredictionHistory F) : Type 0 where
  pub few_rates : length h.demand_rates ≤ max_samples
  pub ordered_rates : Increasing demand_time h.demand_rates
  pub few_capacities : length h.capacity_rates ≤ max_samples
  pub ordered_capacities : Increasing capacity_time h.capacity_rates

-- What is kept of all resources at a time: at most 128 entries, one of each key, and none that was
-- last updated more than ten minutes before.
pub record IsHistories {F : Type 0} ⦃fl : Float F⦄ (now : Time)
    (m : List (Entry (PredictionHistory F))) : Type 0 where
  pub bounded : length m ≤ max_prediction_histories
  pub distinct : IsDistinct m
  pub kept : All (λ (e : Entry (PredictionHistory F)). IsKept e.value) m
  pub fresh : All (λ (e : Entry (PredictionHistory F)). is_stale now e ≡ false) m

not_stale : (now : Time) → Time.before now (now -ℤ seconds 600) ≡ false
unfolding ◌-ℤ◌
not_stale now = ground (arith, -ℤ_parts now (seconds 600))

module _ {F : Type 0} where
  keep-passes :
      (p : Entry (PredictionHistory F) → Bool) (m : List (Entry (PredictionHistory F)))
      → All
          (λ (e : Entry (PredictionHistory F)). p e ≡ false)
          (keep (λ (e : Entry (PredictionHistory F)). not (p e)) m)
  keep-passes p [] = tt
  keep-passes p (e ∷ es) = elim (Bool-cases (p e)) [
    | inl t ↦ rw t (keep-passes p es)
    | inr t ↦ rw t (t, keep-passes p es)
  ]

module _ {F : Type 0} ⦃fl : Float F⦄ where
  pub history_of-IsKept :
      (key : String) (m : List (Entry (PredictionHistory F)))
      → All (λ (e : Entry (PredictionHistory F)). IsKept e.value) m
      → IsKept (history_of key m)
  unfolding history_of lookup
  history_of-IsKept key [] h = record {
    few_rates = omega arith;
    ordered_rates = tt;
    few_capacities = omega arith;
    ordered_capacities = tt;
  }
  history_of-IsKept key (e ∷ es) (h, hs) = elim (Bool-cases (str_eq e.key key)) [
    | inl t ↦ rw (t, history_of) h
    | inr t ↦ rw (t, history_of) (history_of-IsKept key es hs)
  ]

  pub extend-IsKept :
      IsIeee F
      → (h : PredictionHistory F) (demand : Sample F) (capacity : CapacitySample F) (now : Time)
      → IsKept h
      → IsKept (extend h demand capacity now)
  unfolding extend
  extend-IsKept laws h demand capacity now k =
      let demands = append_sample-IsHistory h.demand_rates demand now k.ordered_rates in
      let capacities =
        append_capacity_sample-IsHistory laws h.capacity_rates capacity now k.few_capacities
          k.ordered_capacities in
      record {
        few_rates = demands.bounded;
        ordered_rates = demands.increasing;
        few_capacities = capacities.bounded;
        ordered_capacities = capacities.increasing;
      }

  -- With floats that meet the IEEE laws: an update of histories that hold at most 128 entries, one of
  -- each key, each with at most twenty samples of either kind in increasing order of time, leaves such
  -- histories, and none of the entries left was last updated more than ten minutes before.
  pub update_prediction_history-IsHistories :
      IsIeee F
      → (key : String) (demand : Sample F) (capacity : CapacitySample F) (before now : Time)
        (m : List (Entry (PredictionHistory F)))
      → IsHistories before m
      → IsHistories now (update_prediction_history key demand capacity now m)
  unfolding update_prediction_history assign extend is_stale delete
  update_prediction_history-IsHistories laws key demand capacity before now m h =
      let live = λ (e : Entry (PredictionHistory F)). not (is_stale now e) in
      let other = λ (e : Entry (PredictionHistory F)). not (str_eq e.key key) in
      let recent = keep live m in
      record {
        bounded = delete-evict-lt key recent (omega (arith, h.bounded, length-keep-le live m));
        distinct =
            assign-IsDistinct key (extend (history_of key m) demand capacity now) (evict key recent)
              (evict-IsDistinct key recent (keep-IsDistinct live m h.distinct));
        kept = (
          extend-IsKept laws (history_of key m) demand capacity now
              (history_of-IsKept key m h.kept),
          keep-All_entries (λ (e : Entry (PredictionHistory F)). IsKept e.value) other
              (evict key recent)
              (evict-All (λ (e : Entry (PredictionHistory F)). IsKept e.value) key recent
                (keep-All_entries (λ (e : Entry (PredictionHistory F)). IsKept e.value) live m
                  h.kept)),
        );
        fresh = (
          not_stale now,
          keep-All_entries (λ (e : Entry (PredictionHistory F)). is_stale now e ≡ false) other
              (evict key recent)
              (evict-All (λ (e : Entry (PredictionHistory F)). is_stale now e ≡ false) key recent
                (keep-passes (is_stale now) m)),
        );
      }
