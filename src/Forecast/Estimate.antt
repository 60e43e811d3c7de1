-- ===== src/Forecast/Estimate.antt =====
-- internal/forecast/model.go: `SafePerReplicaCapacity`, from the nearest-rank 20th percentile of the
-- efficiency of healthy samples. `sort.Float64s` sorts in increasing order: insertion gives the same
-- list for values that are numbers, as all are that get there.
pub mod Percentile
pub mod Safe
mod Examples
use silver_leaf.Prelude.{
  ℕ, ℤ, pos, pos_part, ◌-ℤ◌, ltb, ltb_ℤ, Bool, true, false, not, ◌&&◌, ◌||◌, Option, none, some,
  List, [], ◌∷◌, length, get_elem?, map, if◌then◌else◌,
}
use silver_leaf.Go.Time
use silver_leaf.Go.Float.{Float, nought, finite}
use silver_leaf.Forecast.History.{CapacitySample}

abbrev pub minimum_capacity_samples : ℕ
minimum_capacity_samples = 3

pub record CapacityEstimate (F : Type 0) : Type 0 where
  pub conservative_rps_per_work_unit : F
  pub estimated_per_replica_capacity : F
  pub safe_per_replica_capacity : F

-- What the function does: an estimate, none, or a panic where the rank is no index of the values.
pub data Estimation (F : Type 0) : Type 0 where
  estimated : CapacityEstimate F → Estimation F
  no_estimate : Estimation F
  index_panic : Estimation F

module _ (F : Type 0) ⦃fl : Float F⦄ where
  -- `int(math.Ceil(0.20*float64(n))) - 1`, at least 0
  unfoldable pub rank : ℕ → ℕ
  rank n =
      let index = fl.to_int (fl.ceil (fl.mul (fl.literal 20 2) (fl.of_int (pos n)))) -ℤ pos 1 in
      if ltb_ℤ index (pos 0) then 0 else pos_part index

module _ {F : Type 0} ⦃fl : Float F⦄ where
  unfoldable pub insert : F → List F → List F
  insert x [] = x ∷ []
  insert x (y ∷ ys) = if fl.lt y x then y ∷ insert x ys else x ∷ y ∷ ys

  unfoldable pub sort : List F → List F
  sort [] = []
  sort (x ∷ xs) = insert x (sort xs)

  unfoldable pub is_positive : F → Bool
  is_positive x = finite x && not (fl.le x nought)

  -- the loop that collects the values, of which any invalid one ends it
  unfoldable pub efficiencies : List (CapacitySample F) → Option (List F)
  efficiencies [] = some []
  efficiencies (s ∷ ss) =
      if Time.is_zero s.timestamp || not (is_positive s.rps_per_work_unit)
      then none
      else elim (efficiencies ss) [ none ↦ none | some xs ↦ some (s.rps_per_work_unit ∷ xs) ]

  -- the estimate from the value of that rank
  unfoldable pub estimate_from : F → F → F → Estimation F
  estimate_from value limit margin =
      let capacity = fl.mul value limit in
      let safe = fl.mul capacity margin in
      if is_positive capacity && is_positive safe
      then estimated (record {
        conservative_rps_per_work_unit = value;
        estimated_per_replica_capacity = capacity;
        safe_per_replica_capacity = safe;
      })
      else no_estimate

  unfoldable pub safe_per_replica_capacity : List (CapacitySample F) → F → F → Estimation F
  safe_per_replica_capacity samples limit margin =
      if ltb (length samples) minimum_capacity_samples
        || not (is_positive limit)
        || not (is_positive margin)
        || fl.lt (fl.of_int (pos 1)) margin
      then no_estimate
      else elim (efficiencies samples) [
        | none ↦ no_estimate
        | some values ↦ elim (get_elem? (sort values) (rank F (length values))) [
          | none ↦ index_panic
          | some value ↦ estimate_from value limit margin
        ]
      ]
