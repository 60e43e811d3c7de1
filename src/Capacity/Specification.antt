-- ===== src/Capacity/Specification.antt =====
-- What `Analyze` promises, apart from how it finds it: when the evidence is complete, and which class
-- complete evidence belongs to.
use silver_leaf.Prelude.{
  pos, ℤ, ◌<ℤ◌, ◌≡◌, Bool, true, false, not, ◌&&◌, ◌||◌, String, List, [], ◌∷◌, str_eq, All, keep,
  if◌then◌else◌,
}
use silver_leaf.Go.Error.{ok}
use silver_leaf.Go.Float.{Float, nought, finite_nonnegative, ◌≼◌}
use silver_leaf.Observation.{DependencyObservation, Snapshot, rate_usable, effective_replica_count}
use silver_leaf.Capacity.Types.{
  Classification, healthy, target_saturated, dependency_saturated, capacity_blocked, uncertain,
}

module _ {F : Type 0} ⦃fl : Float F⦄ where
  -- Both metrics of a dependency are usable, and both its thresholds are valid.
  pub record IsMeasured (d : DependencyObservation F) : Type 0 where
    pub latency : rate_usable d.p95_latency ≡ true
    pub utilization : rate_usable d.utilization ≡ true
    pub latency_threshold : finite_nonnegative d.latency_threshold ≡ true
    pub utilization_threshold : finite_nonnegative d.utilization_threshold ≡ true

  pub record IsComplete (s : Snapshot F) : Type 0 where
    pub slo : finite_nonnegative s.slo_target_p95_milliseconds ≡ true
    pub latency : rate_usable s.target.p95_latency ≡ true
    pub hottest : rate_usable s.target.hottest_replica_occupancy ≡ true
    pub serving : rate_usable s.target.effective_serving_replicas ≡ true
    pub count :
        (n : ℤ) × (effective_replica_count s.target.effective_serving_replicas
            s.target.ready_replicas
          ≡ ok n)
    pub ready : pos 0 <ℤ s.target.ready_replicas
    pub safe : finite_nonnegative s.target.safe_operating_occupancy ≡ true
    pub safe_positive : fl.lt nought s.target.safe_operating_occupancy ≡ true
    pub physical : finite_nonnegative s.target.physical_concurrency_limit ≡ true
    pub safe_le_physical : s.target.safe_operating_occupancy ≼ s.target.physical_concurrency_limit
    pub dependencies : All IsMeasured s.dependencies

  abbrev pub exceeds : DependencyObservation F → Bool
  exceeds d =
      fl.lt d.latency_threshold d.p95_latency.value
      || fl.lt d.utilization_threshold d.utilization.value

  -- some dependency of that name exceeds a threshold
  unfoldable pub is_saturated : List (DependencyObservation F) → String → Bool
  is_saturated [] name = false
  is_saturated (d ∷ ds) name = exceeds d && str_eq d.name name || is_saturated ds name

  -- A saturated dependency, unless a saturated one downstream explains it: that is, it depends on
  -- one, and its own utilization is within its threshold.
  abbrev pub is_root : List (DependencyObservation F) → DependencyObservation F → Bool
  is_root ds d =
      is_saturated ds d.name
      && not (
          not (str_eq d.depends_on "")
          && is_saturated ds d.depends_on
          && fl.le d.utilization.value d.utilization_threshold)

  abbrev pub class_of_roots : List (DependencyObservation F) → Classification
  class_of_roots [] = uncertain
  class_of_roots (d ∷ []) = if d.scalable then dependency_saturated else capacity_blocked
  class_of_roots (d ∷ e ∷ ds) = uncertain

  abbrev pub component_of_roots : List (DependencyObservation F) → String
  component_of_roots [] = "target"
  component_of_roots (d ∷ []) = d.name
  component_of_roots (d ∷ e ∷ ds) = "multiple dependencies"

  abbrev pub class_of : Snapshot F → Classification
  class_of s =
      if fl.le s.target.p95_latency.value s.slo_target_p95_milliseconds
      then healthy
      else if fl.le s.target.safe_operating_occupancy s.target.hottest_replica_occupancy.value
      then target_saturated
      else class_of_roots (keep (is_root s.dependencies) s.dependencies)

  abbrev pub component_of : Snapshot F → String
  component_of s =
      if fl.le s.target.p95_latency.value s.slo_target_p95_milliseconds
      then "target"
      else if fl.le s.target.safe_operating_occupancy s.target.hottest_replica_occupancy.value
      then "target"
      else component_of_roots (keep (is_root s.dependencies) s.dependencies)
