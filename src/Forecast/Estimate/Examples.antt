-- ===== src/Forecast/Estimate/Examples.antt =====
-- The theorems about the safe capacity, on three samples.
use silver_leaf.Prelude.{pos, ◌+ℤ◌, ◌-ℤ◌, ◌*ℤ◌, ◌/ℤ◌, ◌≡◌, refl, List, [], ◌∷◌, arith}
use silver_leaf.Go.Time.{seconds}
use silver_leaf.Go.Milli.{Milli, fin, milli_float}
use silver_leaf.Go.Milli.Laws.{Milli-IsIeee}
use silver_leaf.Forecast.History.{CapacitySample}
use silver_leaf.Forecast.Estimate.{
  CapacityEstimate, estimated, insert, sort, is_positive, efficiencies, rank, estimate_from,
  safe_per_replica_capacity,
}
use silver_leaf.Forecast.Estimate.Safe.{IsConservative, safe_per_replica_capacity-IsConservative}

abbrev measured : List (CapacitySample Milli)
measured =
    record { timestamp = seconds 1000; rps_per_work_unit = fin (pos 9_000) }
    ∷ record { timestamp = seconds 1015; rps_per_work_unit = fin (pos 7_000) }
    ∷ record { timestamp = seconds 1030; rps_per_work_unit = fin (pos 8_000) }
    ∷ []

-- the lowest of three, times 8 slots, times 0.75
abbrev estimate : CapacityEstimate Milli
estimate = record {
  conservative_rps_per_work_unit = fin (pos 7_000);
  estimated_per_replica_capacity = fin (pos 56_000);
  safe_per_replica_capacity = fin (pos 42_000);
}

measured-estimated :
    safe_per_replica_capacity measured (fin (pos 8_000)) (fin (pos 750)) ≡ estimated estimate
unfolding safe_per_replica_capacity estimate_from efficiencies sort insert rank is_positive ◌+ℤ◌
    ◌-ℤ◌ ◌*ℤ◌ ◌/ℤ◌
measured-estimated = refl

safe_per_replica_capacity-IsConservative_example :
    IsConservative measured (fin (pos 8_000)) (fin (pos 750)) estimate
safe_per_replica_capacity-IsConservative_example =
    safe_per_replica_capacity-IsConservative Milli-IsIeee measured (fin (pos 8_000)) (fin (pos 750))
      estimate (ground arith) measured-estimated
