-- ===== src/Capacity/Signals.antt =====
-- internal/capacity/analyzer.go: the tests on metrics, and the two loops over the dependencies, which
-- collect the saturated ones and then the root candidates among them.
use silver_leaf.Prelude.{
  Bool, false, not, ◌&&◌, ◌||◌, String, List, [], ◌∷◌, str_eq, concat, if◌then◌else◌,
}
use silver_leaf.Go.Time
use silver_leaf.Go.Float.{Float, Format, finite_nonnegative}
use silver_leaf.Observation.{Metric, DependencyObservation}
use silver_leaf.Capacity.Types.{Analysis, uncertain, low}

-- the analysis `uncertain(component, reason)`
unfoldable pub uncertain_analysis : String → String → Analysis
uncertain_analysis component reason = record {
  classification = uncertain;
  component = component;
  evidence = reason ∷ [];
  rejected_actions = [];
  reason = reason;
  confidence = low;
}

-- membership in a map keyed by component names
unfoldable pub has_key : String → List String → Bool
has_key name [] = false
has_key name (key ∷ keys) = str_eq key name || has_key name keys

module _ {F : Type 0} ⦃fl : Float F⦄ where
  unfoldable pub usable : Metric F → Bool
  usable metric =
      metric.valid
      && metric.fresh
      && finite_nonnegative metric.value
      && not (Time.is_zero metric.observed_at)

  unfoldable pub metric_reason : String → List (Metric F) → String
  metric_reason prefix [] = prefix
  metric_reason prefix (metric ∷ metrics) =
      if str_eq metric.error ""
      then metric_reason prefix metrics
      else concat (prefix ∷ ": " ∷ metric.error ∷ [])

  unfoldable pub latency_exceeded : DependencyObservation F → Bool
  latency_exceeded d = fl.lt d.latency_threshold d.p95_latency.value

  unfoldable pub utilization_exceeded : DependencyObservation F → Bool
  utilization_exceeded d = fl.lt d.utilization_threshold d.utilization.value

-- the loop over the dependencies ends early with an analysis, or has collected the keys of the map
-- `dependencySaturated`
pub data Scan : Type 0 where
  stopped : Analysis → Scan
  collected : List String → Scan

module _ {F : Type 0} ⦃fl : Float F⦄ ⦃format : Format F⦄ where
  unfoldable pub collect : List (DependencyObservation F) → List String → Scan
  unfolding uncertain_analysis usable latency_exceeded utilization_exceeded
  collect [] saturated = collected saturated
  collect (d ∷ ds) saturated =
      if not (usable d.p95_latency) || not (usable d.utilization)
      then stopped (
          uncertain_analysis d.name
            (concat ("dependency " ∷ format.quoted d.name ∷ " telemetry is incomplete" ∷ [])))
      else if not (finite_nonnegative d.latency_threshold)
          || not (finite_nonnegative d.utilization_threshold)
      then stopped (
          uncertain_analysis d.name
            (concat ("dependency " ∷ format.quoted d.name ∷ " threshold is invalid" ∷ [])))
      else collect ds
          (if latency_exceeded d || utilization_exceeded d then d.name ∷ saturated else saturated)

  -- downstream latency explains this component's latency, and its own utilization is within bounds
  unfoldable pub is_explained : List String → DependencyObservation F → Bool
  unfolding has_key
  is_explained saturated d =
      not (str_eq d.depends_on "")
      && has_key d.depends_on saturated
      && fl.le d.utilization.value d.utilization_threshold

  unfoldable pub root_candidates :
      List String → List (DependencyObservation F) → List (DependencyObservation F)
  unfolding has_key is_explained
  root_candidates saturated [] = []
  root_candidates saturated (d ∷ ds) =
      if not (has_key d.name saturated)
      then root_candidates saturated ds
      else if is_explained saturated d
      then root_candidates saturated ds
      else d ∷ root_candidates saturated ds
