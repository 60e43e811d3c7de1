-- ===== src/Forecast/History/Examples.antt =====
-- The theorems about the histories, on a rate that rises by the second.
use silver_leaf.Prelude.{ℕ, pos, ◌+ℤ◌, ◌-ℤ◌, ◌*ℤ◌, ◌≤ℤ◌, ◌≡◌, refl, some, List, [], ◌∷◌, arith}
use silver_leaf.Go.Time.{seconds}
use silver_leaf.Go.Milli.{Milli, fin, milli_float, milli_format}
use silver_leaf.Go.Milli.Laws.{Milli-IsIeee}
use silver_leaf.Forecast.History.{
  Sample, CapacitySample, in_window, last?, trim, is_recent, prune_samples, append_sample,
  is_recent_capacity, append_capacity_sample,
}
use silver_leaf.Forecast.History.Invariant.{
  IsHistory, demand_time, capacity_time, append_sample-IsHistory, append_capacity_sample-IsHistory,
}
use silver_leaf.Forecast.History.Latest.{append_sample-last}

-- a rate in thousandths at a second
abbrev sample : ℕ → ℕ → Sample Milli
sample t rate = record { timestamp = seconds t; request_rate = fin (pos rate) }

abbrev capacity : ℕ → ℕ → CapacitySample Milli
capacity t rate = record { timestamp = seconds t; rps_per_work_unit = fin (pos rate) }

abbrev rising : List (Sample Milli)
rising =
    sample 1000 10_000
    ∷ sample 1020 12_000
    ∷ sample 1040 14_000
    ∷ sample 1060 16_000
    ∷ sample 1080 18_000
    ∷ []

append_sample-IsHistory_example :
    IsHistory demand_time
      (is_recent (seconds 1100))
      (append_sample rising (sample 1100 20_000) (seconds 1100))
append_sample-IsHistory_example =
    append_sample-IsHistory rising (sample 1100 20_000) (seconds 1100) (ground arith)

append_capacity_sample-IsHistory_example :
    IsHistory capacity_time
      (is_recent_capacity (seconds 1100))
      (append_capacity_sample (capacity 1000 7_000 ∷ []) (capacity 1100 8_000) (seconds 1100))
append_capacity_sample-IsHistory_example =
    append_capacity_sample-IsHistory Milli-IsIeee (capacity 1000 7_000 ∷ []) (capacity 1100 8_000)
      (seconds 1100) (ground arith) (ground arith)

rising-last :
    (l : Sample Milli)
    → last? (prune_samples rising (seconds 1100)) ≡ some l
    → l.timestamp ≤ℤ seconds 1100
unfolding last? prune_samples trim is_recent in_window ◌+ℤ◌ ◌-ℤ◌ ◌*ℤ◌
rising-last l e = ground arith

append_sample-last_example :
    last? (append_sample rising (sample 1100 20_000) (seconds 1100)) ≡ some (sample 1100 20_000)
unfolding is_recent in_window ◌+ℤ◌ ◌-ℤ◌ ◌*ℤ◌
append_sample-last_example =
    append_sample-last rising (sample 1100 20_000) (seconds 1100) refl refl rising-last
