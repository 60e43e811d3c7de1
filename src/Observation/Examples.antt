-- ===== src/Observation/Examples.antt =====
-- The theorems about package observation, on metrics in thousandths.
use silver_leaf.Prelude.{
  ℤ, pos, ◌+ℤ◌, ◌-ℤ◌, ◌*ℤ◌, ◌/ℤ◌, ◌≤ℤ◌, ◌≡◌, ◌↔◌, ◌⊎◌, refl, true, false, arith,
}
use silver_leaf.Go.Error.{ok}
use silver_leaf.Go.Float.{nought, finite, ◌≼◌}
use silver_leaf.Go.Milli.{Milli, fin, milli_float}
use silver_leaf.Go.Milli.Laws.{Milli-IsIeee}
use silver_leaf.Observation.{
  Metric, derived, validate_rate, rate_usable, derive_request_rates, effective_replica_count,
  mean_slot_occupancy,
}
use silver_leaf.Observation.Rates.{
  IsConsistent, derive_request_rates-valid_iff, successful_request_rate_range, error_rate_range,
}
use silver_leaf.Observation.Mean.{HasMean, mean_slot_occupancy-HasMean}
use silver_leaf.Observation.Replicas.{effective_replica_count_iff}
use silver_leaf.Observation.Validity.{validate_rate_cases}

-- a usable metric, at second 100
abbrev usable_metric : ℤ → Metric Milli
usable_metric n = derived (fin n) (pos 100_000_000_000)

abbrev requests : Metric Milli
requests = usable_metric (pos 40_000)

abbrev errors : Metric Milli
errors = usable_metric (pos 1_000)

abbrev two : Metric Milli
two = usable_metric (pos 2_000)

validate_rate_cases_example :
    ((rate_usable requests ≡ true) × (validate_rate requests "request rate" ≡ requests))
    ⊎ ((rate_usable requests ≡ false) × ((validate_rate requests "request rate").valid ≡ false))
validate_rate_cases_example = validate_rate_cases Milli-IsIeee requests "request rate"

derive_request_rates-valid_iff_example :
    let rates = derive_request_rates requests errors in
    ((rates.successful_request_rate.valid ≡ true) ↔ IsConsistent requests errors)
    × ((rates.error_rate.valid ≡ true)
        ↔ (IsConsistent requests errors × (milli_float.eq requests.value nought ≡ false)))
derive_request_rates-valid_iff_example = derive_request_rates-valid_iff Milli-IsIeee requests errors

successful_request_rate_range_example :
    (finite (fin (pos 39_000)) ≡ true)
    × (nought ≼ fin (pos 39_000))
    × (fin (pos 39_000) ≼ fin (pos 40_000))
unfolding derive_request_rates validate_rate rate_usable ◌+ℤ◌ ◌-ℤ◌ ◌/ℤ◌ ◌*ℤ◌
successful_request_rate_range_example =
    successful_request_rate_range Milli-IsIeee requests errors refl

error_rate_range_example :
    (finite (fin (pos 25)) ≡ true) × (nought ≼ fin (pos 25)) × (fin (pos 25) ≼ fin (pos 1_000))
unfolding derive_request_rates validate_rate rate_usable ◌+ℤ◌ ◌-ℤ◌ ◌/ℤ◌ ◌*ℤ◌
error_rate_range_example = error_rate_range Milli-IsIeee requests errors refl

effective_replica_count_iff_example : (effective_replica_count two (pos 3) ≡ ok (pos 2)) ↔ (
    (rate_usable two ≡ true)
    × (milli_float.eq two.value (milli_float.of_int (pos 2)) ≡ true)
    × (pos 0 ≤ℤ pos 2)
    × (pos 2 ≤ℤ pos 3))
effective_replica_count_iff_example =
    effective_replica_count_iff Milli-IsIeee two (pos 3) (pos 2) (ground arith)

slots-valid : (mean_slot_occupancy (usable_metric (pos 8_000)) two (pos 3)).valid ≡ true
unfolding mean_slot_occupancy effective_replica_count validate_rate rate_usable ◌+ℤ◌ ◌-ℤ◌ ◌*ℤ◌ ◌/ℤ◌
slots-valid = refl

mean_slot_occupancy-HasMean_example :
    HasMean
      (usable_metric (pos 8_000))
      two
      (pos 3)
      (mean_slot_occupancy (usable_metric (pos 8_000)) two (pos 3)).value
mean_slot_occupancy-HasMean_example =
    mean_slot_occupancy-HasMean Milli-IsIeee (usable_metric (pos 8_000)) two (pos 3) slots-valid
