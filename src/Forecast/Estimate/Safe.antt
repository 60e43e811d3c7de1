-- ===== src/Forecast/Estimate/Safe.antt =====
-- What a safe capacity of `SafePerReplicaCapacity` is worth, and that its index stays within the values.
use silver_leaf.Prelude.{
  ◌*◌, ◌≤◌, ◌<◌, pos, ◌≤ℤ◌, ltb, true, ◌≡◌, ◌≢◌, refl, Option-cases, some, List, length, get_elem?,
  All, arith, Bool-cases, inl, inr,
}
use mathlib.Core.List.{Memᴰ}
use silver_leaf.Go.Int32.{max_int32}
use silver_leaf.Go.Float.{Float, IsIeee}
use silver_leaf.Forecast.History.{CapacitySample}
use silver_leaf.Forecast.Estimate.{
  CapacityEstimate, estimated, index_panic, sort, is_positive, efficiencies, rank, estimate_from,
  safe_per_replica_capacity, minimum_capacity_samples,
}
use silver_leaf.Forecast.Estimate.Percentile.{
  count_below, All-sort, length-sort, count-sort, sort-Sorted, count_below-rank, efficiencies-valid,
  get_elem?-some, rank_range, rank-count_at_most, at_most-sort, count_at_most, member-sort,
  numbers_of_positive, IsNumber,
}

module _ {F : Type 0} ⦃fl : Float F⦄ where
  -- An estimate from at least three samples, all positive, and the 20th percentile of them: one of the
  -- values, of which at most a fifth are lower, and at least a fifth are no higher.
  pub record IsConservative (samples : List (CapacitySample F)) (limit margin : F)
      (e : CapacityEstimate F) : Type 0 where
    pub values : List F
    pub collected : efficiencies samples ≡ some values
    pub enough : minimum_capacity_samples ≤ length samples
    pub all_positive : All (λ x. is_positive x ≡ true) values
    pub member : Memᴰ e.conservative_rps_per_work_unit values
    pub few_below : 5 * count_below e.conservative_rps_per_work_unit values ≤ length samples
    pub fifth_at_most : length samples ≤ 5 * count_at_most e.conservative_rps_per_work_unit values
    pub capacity : e.estimated_per_replica_capacity ≡ fl.mul e.conservative_rps_per_work_unit limit
    pub safe : e.safe_per_replica_capacity ≡ fl.mul e.estimated_per_replica_capacity margin
    pub capacity_positive : is_positive e.estimated_per_replica_capacity ≡ true
    pub safe_positive : is_positive e.safe_per_replica_capacity ≡ true

  estimate_from-estimated :
      (value limit margin : F) (e : CapacityEstimate F)
      → estimate_from value limit margin ≡ estimated e
      → (e.conservative_rps_per_work_unit ≡ value)
        × (e.estimated_per_replica_capacity ≡ fl.mul value limit)
        × (e.safe_per_replica_capacity ≡ fl.mul (fl.mul value limit) margin)
        × (is_positive (fl.mul value limit) ≡ true)
        × (is_positive (fl.mul (fl.mul value limit) margin) ≡ true)
  unfolding estimate_from
  estimate_from-estimated value limit margin e h = ground arith

  estimate_from-no_panic : (value limit margin : F) → estimate_from value limit margin ≢ index_panic
  unfolding estimate_from
  estimate_from-no_panic value limit margin h = ground arith

module _ {F : Type 0} ⦃fl : Float F⦄ (laws : IsIeee F) where
  -- On at most 2^31 - 1 samples, the rank of the percentile is an index of the sorted values, so the
  -- function does not panic.
  pub safe_per_replica_capacity_no_panic :
      (samples : List (CapacitySample F)) (limit margin : F)
      → pos (length samples) ≤ℤ max_int32
      → safe_per_replica_capacity samples limit margin ≢ index_panic
  unfolding safe_per_replica_capacity
  safe_per_replica_capacity_no_panic samples limit margin few h =
      elim (Option-cases (efficiencies samples)) [
        | inl e ↦ ground arith
        | inr (values, e) ↦ elim (Bool-cases (ltb (length samples) minimum_capacity_samples)) [
          | inl short ↦ ground arith
          | inr long ↦
              let valid = efficiencies-valid laws samples values e in
              let at_least : minimum_capacity_samples ≤ length samples = ground arith in
              let index : rank F (length values) < length (sort values) = omega (
                arith,
                rank_range laws (length values) (omega (arith, valid.0, at_least))
                    (omega (arith, valid.0, few)),
                valid.0,
                at_least,
                length-sort values,
              ) in
              let found = get_elem?-some laws (sort values) (rank F (length values)) index in
              let no_panic = estimate_from-no_panic found.0 limit margin in
              let read = found.1 in ground arith
        ]
      ]

  -- With floats that meet the IEEE laws: an estimate on at most 2^31 - 1 samples comes from at least
  -- three, all of them finite and positive; the efficiency that it takes is one of theirs, of which at
  -- most a fifth are lower, and at least a fifth are no higher; its capacities are the products of
  -- that by the limit and by the margin, and are finite and positive.
  pub safe_per_replica_capacity-IsConservative :
      (samples : List (CapacitySample F)) (limit margin : F) (e : CapacityEstimate F)
      → pos (length samples) ≤ℤ max_int32
      → safe_per_replica_capacity samples limit margin ≡ estimated e
      → IsConservative samples limit margin e
  unfolding safe_per_replica_capacity
  safe_per_replica_capacity-IsConservative samples limit margin e few h =
      elim (Option-cases (efficiencies samples)) [
        | inl none_valid ↦ ground arith
        | inr (values, collected) ↦
            elim (Option-cases (get_elem? (sort values) (rank F (length values)))) [
              | inl missing ↦ ground arith
              | inr (value, read) ↦
                  let gate : estimate_from value limit margin ≡ estimated e = ground arith in
                  let enough : minimum_capacity_samples ≤ length samples = ground arith in
                  let made = estimate_from-estimated value limit margin e gate in
                  let valid = efficiencies-valid laws samples values collected in
                  let numbers = numbers_of_positive laws values valid.1 in
                  let below =
                    count_below-rank laws (sort values) (rank F (length values)) value
                      (All-sort IsNumber values numbers) (sort-Sorted laws values numbers) read in
                  let at_most =
                    rank-count_at_most laws (sort values) (rank F (length values)) value
                      (All-sort IsNumber values numbers) (sort-Sorted laws values numbers) read in
                  let range =
                    rank_range laws (length values) (omega (arith, valid.0, enough))
                      (omega (arith, valid.0, few)) in
                  record {
                    values = values;
                    collected = collected;
                    enough = enough;
                    all_positive = valid.1;
                    member = rw made.0 (member-sort values (rank F (length values)) value read);
                    few_below =
                        rw (made.0, ← valid.0)
                          (omega (arith, below, count-sort value values, range));
                    fifth_at_most =
                        rw (made.0, ← valid.0)
                          (omega (arith, at_most, at_most-sort value values, range));
                    capacity = rw (made.0, made.1) refl;
                    safe = rw (made.1, made.2) refl;
                    capacity_positive = rw made.1 made.3;
                    safe_positive = rw made.2 made.4;
                  }
            ]
      ]
