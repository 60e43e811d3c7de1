-- ===== src/Controller/Histories/Examples.antt =====
-- The theorems about the histories, on those of two resources.
use silver_leaf.Prelude.{ℕ, pos, ◌-ℤ◌, ◌≡◌, refl, none, some, List, [], ◌∷◌, ◌⊎◌, arith}
use silver_leaf.Go.Time.{seconds}
use silver_leaf.Go.Map.{Entry, lookup}
use silver_leaf.Go.Milli.{Milli, fin, milli_float, milli_format}
use silver_leaf.Go.Milli.Laws.{Milli-IsIeee}
use silver_leaf.Forecast.History.{Sample, CapacitySample, append_sample, append_capacity_sample}
use silver_leaf.Controller.Histories.{
  PredictionHistory, is_stale, history_of, update_prediction_history,
}
use silver_leaf.Controller.Histories.Bounded.{IsHistories, update_prediction_history-IsHistories}
use silver_leaf.Controller.Histories.Kept.{lookup-update_prediction_history}

abbrev sample : ℕ → ℕ → Sample Milli
sample t rate = record { timestamp = seconds t; request_rate = fin (pos rate) }

abbrev capacity : ℕ → ℕ → CapacitySample Milli
capacity t rate = record { timestamp = seconds t; rps_per_work_unit = fin (pos rate) }

abbrev shop : PredictionHistory Milli
shop = record {
  demand_rates = sample 1000 10_000 ∷ sample 1015 12_000 ∷ [];
  capacity_rates = capacity 1015 7_000 ∷ [];
  last_updated = seconds 1015;
}

abbrev idle : PredictionHistory Milli
idle = record {
  demand_rates = sample 100 1_000 ∷ [];
  capacity_rates = [];
  last_updated = seconds 100;
}

abbrev two : List (Entry (PredictionHistory Milli))
two = record { key = "web/shop"; value = shop } ∷ record { key = "web/idle"; value = idle } ∷ []

two-IsHistories : IsHistories (seconds 600) two
unfolding is_stale ◌-ℤ◌
two-IsHistories = record {
  bounded = omega arith;
  distinct = ((refl, tt), (tt, tt));
  kept = (
    record {
      few_rates = omega arith;
      ordered_rates = ground arith;
      few_capacities = omega arith;
      ordered_capacities = ground arith;
    },
    (
      record {
        few_rates = omega arith;
        ordered_rates = ground arith;
        few_capacities = omega arith;
        ordered_capacities = ground arith;
      },
      tt,
    ),
  );
  fresh = (refl, (refl, tt));
}

update_prediction_history-IsHistories_example : IsHistories (seconds 1030) (
    update_prediction_history "web/shop"
      (sample 1030 14_000)
      (capacity 1030 7_500)
      (seconds 1030)
      two)
update_prediction_history-IsHistories_example =
    update_prediction_history-IsHistories Milli-IsIeee "web/shop" (sample 1030 14_000)
      (capacity 1030 7_500) (seconds 600) (seconds 1030) two two-IsHistories

lookup-update_prediction_history_example :
    (lookup "web/shop" (
        update_prediction_history "web/shop"
          (sample 1030 14_000)
          (capacity 1030 7_500)
          (seconds 1030)
          two)
      ≡ some (record {
        demand_rates =
            append_sample
              (history_of "web/shop" two).demand_rates
              (sample 1030 14_000)
              (seconds 1030);
        capacity_rates =
            append_capacity_sample
              (history_of "web/shop" two).capacity_rates
              (capacity 1030 7_500)
              (seconds 1030);
        last_updated = seconds 1030;
      }))
    × ((lookup "web/idle" (
            update_prediction_history "web/shop"
              (sample 1030 14_000)
              (capacity 1030 7_500)
              (seconds 1030)
              two)
          ≡ lookup "web/idle" two)
        ⊎ (lookup "web/idle" (
              update_prediction_history "web/shop"
                (sample 1030 14_000)
                (capacity 1030 7_500)
                (seconds 1030)
                two)
            ≡ none))
lookup-update_prediction_history_example =
    lookup-update_prediction_history "web/shop" "web/idle" (sample 1030 14_000)
      (capacity 1030 7_500) (seconds 1030) two ((refl, tt), (tt, tt)) refl
