-- ===== src/Observation/Replicas.antt =====
-- Which counts `EffectiveReplicaCount` accepts, and the mean that `MeanSlotOccupancy` takes over them.
use silver_leaf.Prelude.{true, false, ◌≡◌, ◌↔◌, pos, ℤ, ◌≤ℤ◌, arith}
use silver_leaf.Go.Int32.{IsInt32, max_int32}
use silver_leaf.Go.Error.{ok}
use silver_leaf.Go.Float.{Float, IsIeee, IsExact, ◌≼◌}
use silver_leaf.Go.Order.{eq_of_bounds, eq-sym, to_int-eq, le_of_not_lt, is_nan-of_int}
use silver_leaf.Observation.{Metric, rate_usable, effective_replica_count}
use silver_leaf.Observation.Validity.{
  rate_usable_number, validate_rate_lem, rate_usable-validate_rate,
}

module _ {F : Type 0} ⦃fl : Float F⦄ (laws : IsIeee F) where
  open laws use {
    eq-eq-le-le, le_trans, le-of_int, of_int-to_int, to_int_range, trunc_of_eq, lt-eq-not-le,
  }

  -- The checks of `EffectiveReplicaCount` on a usable metric.
  count_checked :
      (metric : Metric F) (ready n : ℤ)
      → rate_usable metric ≡ true
      → effective_replica_count metric ready ≡ ok n
      → (fl.eq (fl.trunc metric.value) metric.value ≡ true)
        × (fl.lt (fl.of_int max_int32) metric.value ≡ false)
        × (fl.to_int metric.value ≡ n)
        × (n ≤ℤ ready)
  unfolding effective_replica_count
  count_checked metric ready n u h =
      let same = (validate_rate_lem laws metric "effective serving replica count").0 u in
      let checked = rw (same, u) at h in ground arith

  effective_replica_count-usable :
      (metric : Metric F) (ready n : ℤ)
      → effective_replica_count metric ready ≡ ok n
      → rate_usable metric ≡ true
  unfolding effective_replica_count
  effective_replica_count-usable metric ready n h =
      let same = rate_usable-validate_rate laws metric "effective serving replica count" in
      ground arith

  effective_replica_count_of_int :
      (metric : Metric F) (ready n : ℤ)
      → IsInt32 ready
      → rate_usable metric ≡ true
      → fl.eq metric.value (fl.of_int n) ≡ true
      → pos 0 ≤ℤ n
      → n ≤ℤ ready
      → effective_replica_count metric ready ≡ ok n
  unfolding effective_replica_count
  effective_replica_count_of_int metric ready n r u equal low high =
      let same = (validate_rate_lem laws metric "effective serving replica count").0 u in
      let exact : IsExact n = omega arith in
      let back = to_int-eq laws metric.value n exact equal in
      let number = rate_usable_number metric u in
      let below : metric.value ≼ fl.of_int max_int32 =
        le_trans metric.value (fl.of_int n) (fl.of_int max_int32)
          (eq_of_bounds laws metric.value n equal).0
          (ground (arith, le-of_int n max_int32 exact (omega arith))) in
      let fits : fl.lt (fl.of_int max_int32) metric.value ≡ false = ground (
        arith,
        lt-eq-not-le (fl.of_int max_int32) metric.value (is_nan-of_int laws max_int32 (omega arith))
            number.0,
      ) in
      rw (same, u, trunc_of_eq metric.value n exact equal, fits, back) (ground arith)

  -- With floats that meet the IEEE laws, and for an int32 number of Ready replicas, a count is returned
  -- exactly when the metric is usable and its value equals that count, as floats, which lies between
  -- zero and the number of Ready replicas.
  pub effective_replica_count_iff :
      (metric : Metric F) (ready n : ℤ)
      → IsInt32 ready
      → (effective_replica_count metric ready ≡ ok n) ↔ (
          (rate_usable metric ≡ true)
          × (fl.eq metric.value (fl.of_int n) ≡ true)
          × (pos 0 ≤ℤ n)
          × (n ≤ℤ ready))
  effective_replica_count_iff metric ready n r = (accepted, complete)
    where
      accepted :
          effective_replica_count metric ready ≡ ok n
          → (rate_usable metric ≡ true)
            × (fl.eq metric.value (fl.of_int n) ≡ true)
            × (pos 0 ≤ℤ n)
            × (n ≤ℤ ready)
      accepted h =
          let u = effective_replica_count-usable metric ready n h in
          let c = count_checked metric ready n u h in
          let number = rate_usable_number metric u in
          let small =
            le_of_not_lt laws (fl.of_int max_int32) metric.value
              (is_nan-of_int laws max_int32 (omega arith)) number.0 c.1 in
          let exact : fl.eq (fl.of_int n) metric.value ≡ true =
            rw (← c.2) (of_int-to_int metric.value number.2 small c.0) in
          let range =
            to_int_range metric.value (pos 0) max_int32 (omega arith) (omega arith) number.2
              small in
          let low : pos 0 ≤ℤ n = rw (← c.2) (range.0) in
          (u, eq-sym laws (fl.of_int n) metric.value exact, low, c.3)

      complete :
          (rate_usable metric ≡ true)
            × (fl.eq metric.value (fl.of_int n) ≡ true)
            × (pos 0 ≤ℤ n)
            × (n ≤ℤ ready)
          → effective_replica_count metric ready ≡ ok n
      complete (u, equal, low, high) =
          effective_replica_count_of_int metric ready n r u equal low high
