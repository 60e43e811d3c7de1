-- ===== src/Observation/Validity.antt =====
-- What `validateRate` does to a metric that is usable, and to one that is not.
use silver_leaf.Prelude.{true, false, String, ◌≡◌, ◌⊎◌, inl, inr, Bool-cases, arith}
use silver_leaf.Go.Float.{Float, IsIeee, nought, finite, ◌≼◌}
use silver_leaf.Go.Order.{lt-nought}
use silver_leaf.Observation.{Metric, validate_rate, rate_usable}

module _ {F : Type 0} ⦃fl : Float F⦄ where
  pub rate_usable_number :
      (m : Metric F)
      → rate_usable m ≡ true
      → (fl.is_nan m.value ≡ false) × (finite m.value ≡ true) × (nought ≼ m.value)
  unfolding rate_usable
  rate_usable_number m h = ground arith

module _ {F : Type 0} ⦃fl : Float F⦄ (laws : IsIeee F) where
  -- A usable metric passes unchanged, and any other comes out marked invalid.
  pub validate_rate_lem :
      (metric : Metric F) (name : String)
      → (rate_usable metric ≡ true → validate_rate metric name ≡ metric)
        × (rate_usable metric ≡ false → (validate_rate metric name).valid ≡ false)
  unfolding validate_rate rate_usable
  validate_rate_lem metric name = ground (arith, lt-nought laws metric.value)

  -- What is usable comes out usable, and nothing else does.
  pub rate_usable-validate_rate :
      (metric : Metric F) (name : String)
      → rate_usable (validate_rate metric name) ≡ rate_usable metric
  unfolding validate_rate rate_usable
  rate_usable-validate_rate metric name = ground (arith, lt-nought laws metric.value)

  -- With floats that meet the IEEE laws: a metric that is usable passes unchanged, and any other comes
  -- out marked invalid.
  pub validate_rate_cases :
      (metric : Metric F) (name : String)
      → ((rate_usable metric ≡ true) × (validate_rate metric name ≡ metric))
        ⊎ ((rate_usable metric ≡ false) × ((validate_rate metric name).valid ≡ false))
  validate_rate_cases metric name =
      let both = validate_rate_lem metric name in
      elim (Bool-cases (rate_usable metric)) [
        | inl u ↦ inl (u, both.0 u)
        | inr u ↦ inr (u, both.1 u)
      ]
