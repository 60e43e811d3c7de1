-- ===== src/Observation/Rates.antt =====
-- The rates that `DeriveRequestRates` returns: when they are valid, and their ranges.
use silver_leaf.Prelude.{true, false, ◌≡◌, ◌↔◌, pos, arith, Bool-cases, inl, inr, ◌&&◌}
use silver_leaf.Go.Float.{Float, IsIeee, nought, finite, ◌≼◌}
use silver_leaf.Go.Order.{le_of_not_lt}
use silver_leaf.Observation.{Metric, rate_usable, derive_usable, derive_request_rates}
use silver_leaf.Observation.Validity.{
  rate_usable_number, validate_rate_lem, rate_usable-validate_rate,
}

module _ {F : Type 0} ⦃fl : Float F⦄ where
  -- Both rates are usable, and the rate of errors does not exceed the total.
  abbrev pub IsConsistent : Metric F → Metric F → Type 0
  IsConsistent requests errors =
      (rate_usable requests ≡ true)
      × (rate_usable errors ≡ true)
      × (fl.lt requests.value errors.value ≡ false)

module _ {F : Type 0} ⦃fl : Float F⦄ (laws : IsIeee F) where
  open laws use {sub_range, div_range}

  -- What is left of `DeriveRequestRates` for two usable metrics.
  derive_request_rates_of_usable :
      (requests errors : Metric F)
      → rate_usable requests ≡ true
      → rate_usable errors ≡ true
      → derive_request_rates requests errors ≡ derive_usable requests errors
  unfolding derive_request_rates
  derive_request_rates_of_usable requests errors r e =
      let same = (validate_rate_lem laws requests "request rate").0 r in
      let same' = (validate_rate_lem laws errors "error request rate").0 e in rw (same, same', r, e)

  derive_request_rates_of_unusable :
      (requests errors : Metric F)
      → (rate_usable requests && rate_usable errors) ≡ false
      → ((derive_request_rates requests errors).successful_request_rate.valid ≡ false)
        × ((derive_request_rates requests errors).error_rate.valid ≡ false)
  unfolding derive_request_rates
  derive_request_rates_of_unusable requests errors u =
      let r = rate_usable-validate_rate laws requests "request rate" in
      let e = rate_usable-validate_rate laws errors "error request rate" in rw (r, e) (ground arith)

  -- With floats that meet the IEEE laws: the successful rate is valid exactly when both counters' rates are usable and consistent; the
  -- error ratio is valid exactly when, besides, the total rate is not zero.
  pub derive_request_rates-valid_iff :
      (requests errors : Metric F)
      → let rates = derive_request_rates requests errors in
        ((rates.successful_request_rate.valid ≡ true) ↔ IsConsistent requests errors)
        × ((rates.error_rate.valid ≡ true)
            ↔ (IsConsistent requests errors × (fl.eq requests.value nought ≡ false)))
  derive_request_rates-valid_iff requests errors =
      elim (Bool-cases (rate_usable requests && rate_usable errors)) [
        | inl u ↦
            rw (derive_request_rates_of_usable requests errors (ground arith) (ground arith))
              (unfold derive_usable in ground arith)
        | inr u ↦
            let none_valid = derive_request_rates_of_unusable requests errors u in ground arith
      ]

  derive_request_rates_range :
      (requests errors : Metric F)
      → let rates = derive_request_rates requests errors in
        (rates.successful_request_rate.valid ≡ true
          → (finite rates.successful_request_rate.value ≡ true)
            × (nought ≼ rates.successful_request_rate.value)
            × (rates.successful_request_rate.value ≼ requests.value))
        × (rates.error_rate.valid ≡ true
            → (finite rates.error_rate.value ≡ true)
              × (nought ≼ rates.error_rate.value)
              × (rates.error_rate.value ≼ fl.of_int (pos 1)))
  derive_request_rates_range requests errors =
      elim (Bool-cases (rate_usable requests && rate_usable errors)) [
        | inl u ↦
            let r = rate_usable_number requests (ground arith) in
            let e = rate_usable_number errors (ground arith) in
            let order = le_of_not_lt laws requests.value errors.value r.0 e.0 in
            let difference = sub_range requests.value errors.value r.1 e.1 e.2 in
            let quotient = div_range requests.value errors.value r.1 e.1 e.2 in
            rw (derive_request_rates_of_usable requests errors (ground arith) (ground arith))
              (unfold derive_usable in ground (arith, order, difference, quotient))
        | inr u ↦
            let none_valid = derive_request_rates_of_unusable requests errors u in ground arith
      ]

  -- With floats that meet the IEEE laws, a valid successful rate is finite and lies between zero and the total rate.
  pub successful_request_rate_range :
      (requests errors : Metric F)
      → (derive_request_rates requests errors).successful_request_rate.valid ≡ true
      → let rate = (derive_request_rates requests errors).successful_request_rate.value in
        (finite rate ≡ true) × (nought ≼ rate) × (rate ≼ requests.value)
  successful_request_rate_range requests errors h = (derive_request_rates_range requests errors).0 h

  -- With floats that meet the IEEE laws, a valid error ratio is finite and lies between zero and one.
  pub error_rate_range :
      (requests errors : Metric F)
      → (derive_request_rates requests errors).error_rate.valid ≡ true
      → let rate = (derive_request_rates requests errors).error_rate.value in
        (finite rate ≡ true) × (nought ≼ rate) × (rate ≼ fl.of_int (pos 1))
  error_rate_range requests errors h = (derive_request_rates_range requests errors).1 h
