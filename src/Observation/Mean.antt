-- ===== src/Observation/Mean.antt =====
-- When `MeanSlotOccupancy` gives a mean, and which.
use silver_leaf.Prelude.{true, false, ◌≡◌, ◌↔◌, refl, pos, ℤ, eq_ℤ, arith, inl, inr, Bool-cases}
use silver_leaf.Go.Error.{Result-cases, ok}
use silver_leaf.Go.Float.{Float, IsIeee, finite}
use silver_leaf.Observation.{
  Metric, rate_usable, invalid_rate, effective_replica_count, mean_of_count, mean_slot_occupancy,
}
use silver_leaf.Observation.Validity.{validate_rate_lem, rate_usable-validate_rate}

module _ {F : Type 0} ⦃fl : Float F⦄ where
  -- The aggregate is usable, and its quotient by a positive count of serving replicas is finite.
  pub record HasMean (aggregate effective : Metric F) (ready : ℤ) (mean : F) : Type 0 where
    pub count : ℤ
    pub counted : effective_replica_count effective ready ≡ ok count
    pub serving : eq_ℤ count (pos 0) ≡ false
    pub usable : rate_usable aggregate ≡ true
    pub quotient : mean ≡ fl.div aggregate.value (fl.of_int count)
    pub finite_quotient : finite (fl.div aggregate.value (fl.of_int count)) ≡ true

module _ {F : Type 0} ⦃fl : Float F⦄ (laws : IsIeee F) where
  mean_of_count-valid :
      (aggregate : Metric F) (n : ℤ)
      → ((mean_of_count aggregate n).valid ≡ true) ↔ (
          (eq_ℤ n (pos 0) ≡ false)
          × (rate_usable aggregate ≡ true)
          × (finite (fl.div aggregate.value (fl.of_int n)) ≡ true))
  unfolding mean_of_count invalid_rate
  mean_of_count-valid aggregate n =
      let same = validate_rate_lem laws aggregate "aggregate concurrency-slot occupancy" in
      let usable =
        rate_usable-validate_rate laws aggregate "aggregate concurrency-slot occupancy" in
      elim (Bool-cases (rate_usable aggregate)) [
        | inl u ↦ rw (same.0 u, u) (unfold rate_usable in ground (arith, u))
        | inr u ↦ let invalid = same.1 u in rw (usable, u) (ground arith)
      ]

  mean_of_count-value :
      (aggregate : Metric F) (n : ℤ)
      → (mean_of_count aggregate n).valid ≡ true
      → rate_usable aggregate ≡ true
      → (mean_of_count aggregate n).value ≡ fl.div aggregate.value (fl.of_int n)
  unfolding mean_of_count invalid_rate
  mean_of_count-value aggregate n h u =
      let same = (validate_rate_lem laws aggregate "aggregate concurrency-slot occupancy").0 u in
      let valid = rw (same, u) at h in rw (same, u) (ground arith)

  mean_of_count-HasMean :
      (aggregate effective : Metric F) (ready n : ℤ)
      → effective_replica_count effective ready ≡ ok n
      → (mean_of_count aggregate n).valid ≡ true
      → HasMean aggregate effective ready (mean_of_count aggregate n).value
  mean_of_count-HasMean aggregate effective ready n e h =
      let gates = (mean_of_count-valid aggregate n).0 h in
      record {
        count = n;
        counted = e;
        serving = gates.0;
        usable = gates.1;
        quotient = mean_of_count-value aggregate n h gates.1;
        finite_quotient = gates.2;
      }

  -- With floats that meet the IEEE laws: a mean that is valid is the quotient of a usable aggregate by
  -- the count of serving replicas, a count that is returned and not zero, and it is finite.
  pub mean_slot_occupancy-HasMean :
      (aggregate effective : Metric F) (ready : ℤ)
      → (mean_slot_occupancy aggregate effective ready).valid ≡ true
      → HasMean aggregate effective ready (mean_slot_occupancy aggregate effective ready).value
  unfolding mean_slot_occupancy invalid_rate
  mean_slot_occupancy-HasMean aggregate effective ready h =
      elim (Result-cases (effective_replica_count effective ready)) [
        | inr (message, e) ↦ ground arith
        | inl (n, e) ↦
            let whole : mean_slot_occupancy aggregate effective ready ≡ mean_of_count aggregate n =
              rw (e, mean_slot_occupancy) refl in
            let valid : (mean_of_count aggregate n).valid ≡ true = rw whole at h in
            rw whole (mean_of_count-HasMean aggregate effective ready n e valid)
      ]
