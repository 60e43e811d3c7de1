-- ===== src/Controller/Spec.antt =====
-- internal/controller/optiscaler_controller.go: `validateSpec`. `none` is a nil error.
pub mod Valid
pub mod Queries
pub mod Examples
use silver_leaf.Prelude.{
  ℤ, pos, ltb_ℤ, eq_ℤ, Bool, true, false, not, ◌&&◌, ◌||◌, String, Option, none, some, List, [],
  ◌∷◌, str_eq, concat, if◌then◌else◌,
}
use silver_leaf.Go.Float.{Float, Format, nought}
use silver_leaf.Api.{
  ScaleTargetReference, MetricSpec, DependencySpec, DependencyThresholdsSpec, PolicySpec,
  PredictionSpec, OptiScalerSpec,
}
use silver_leaf.Capacity.Signals.{has_key}

-- `minimumPredictiveDemandWindowSeconds` and `maximumPredictiveDemandWindowSeconds`
abbrev pub minimum_window : ℤ
minimum_window = pos 2

abbrev pub maximum_window : ℤ
maximum_window = pos 120

-- the first error of the two
abbrev pub or_error : Option String → Option String → Option String
or_error none e = e
or_error (some e) _ = some e

-- a reference to anything but an apps/v1 Deployment
pub not_deployment : ScaleTargetReference → Bool
not_deployment r = not (str_eq r.api_version "apps/v1") || not (str_eq r.kind "Deployment")

abbrev pub outside_window : ℤ → Bool
outside_window seconds = ltb_ℤ seconds minimum_window || ltb_ℤ maximum_window seconds

-- `strings.TrimSpace(s) == ""`, given `TrimSpace`
abbrev pub is_blank : (String → String) → String → Bool
is_blank trim s = str_eq (trim s) ""

-- `validateRateQueryPair`
pub rate_query_pair_error : (String → String) → String → String → String → Option String
rate_query_pair_error trim request_rate_query error_request_rate_query component =
    let missing = is_blank trim request_rate_query in
    let missing' = is_blank trim error_request_rate_query in
    if missing && not missing' || not missing && missing'
    then some (
        concat (
          component ∷ " requestRateQuery and errorRequestRateQuery must be configured together"
          ∷ []))
    else none

module _ {F : Type 0} where
  pub names : List (DependencySpec F) → List String
  names [] = []
  names (d ∷ ds) = d.name ∷ names ds

module _ {F : Type 0} ⦃fl : Float F⦄ where
  -- `math.IsNaN(x) || math.IsInf(x, 0) || x < low`
  abbrev pub bad : F → F → Bool
  bad x low = fl.is_nan x || fl.is_inf x || fl.lt x low

  -- the checks of the policy
  pub policy_error : PolicySpec F → Option String
  policy_error p =
      if bad p.scale_up_threshold nought || bad p.scale_down_threshold nought
      then some "policy thresholds must be finite and nonnegative"
      else if fl.lt p.scale_up_threshold p.scale_down_threshold
      then some "scaleDownThreshold must not exceed scaleUpThreshold"
      else if ltb_ℤ p.max_scale_up_step (pos 1) || ltb_ℤ p.max_scale_down_step (pos 1)
      then some "scale steps must be at least 1"
      else none

module _ {F : Type 0} ⦃fl : Float F⦄ ⦃format : Format F⦄ where
  -- the checks before those of the prediction
  pub target_error : OptiScalerSpec F → Option String
  target_error s =
      if not_deployment s.scale_target_ref
      then some "scaleTargetRef must reference apps/v1 Deployment"
      else if is_blank format.trim_space s.scale_target_ref.name
      then some "scaleTargetRef.name is required"
      else if ltb_ℤ s.min_replicas (pos 1)
      then some "minReplicas must be at least 1"
      else if ltb_ℤ s.max_replicas s.min_replicas
      then some "maxReplicas must be at least minReplicas"
      else if is_blank format.trim_space s.metric.prometheus_query
      then some "metric.prometheusQuery is required"
      else if is_blank format.trim_space s.metric.utilization_query
          || is_blank format.trim_space s.metric.hottest_replica_utilization_query
          || is_blank format.trim_space s.metric.serving_replica_count_query
      then some
          "metric.utilizationQuery, hottestReplicaUtilizationQuery, and servingReplicaCountQuery are required for target capacity attribution"
      else if bad s.metric.physical_concurrency_limit (fl.of_int (pos 1))
      then some "metric.physicalConcurrencyLimit must be finite and at least 1"
      else rate_query_pair_error format.trim_space s.metric.request_rate_query
          s.metric.error_request_rate_query "metric"

  pub prediction_error : MetricSpec F → PredictionSpec F → Option String
  prediction_error m p =
      if not (eq_ℤ p.predictive_demand_window_seconds (pos 0))
        && outside_window p.predictive_demand_window_seconds
      then some "prediction.predictiveDemandWindowSeconds must be in [2,120]"
      else if not p.enabled
      then none
      else if is_blank format.trim_space m.request_rate_query
          || is_blank format.trim_space m.error_request_rate_query
      then some "prediction requires target requestRateQuery and errorRequestRateQuery"
      else if is_blank format.trim_space m.predictive_request_rate_query
      then some
          "prediction requires metric.predictiveRequestRateQuery; stable requestRateQuery is not a predictive fallback"
      else if outside_window p.predictive_demand_window_seconds
      then some
          "prediction.predictiveDemandWindowSeconds must be in [2,120] when prediction is enabled"
      else if bad p.safe_capacity_margin (fl.literal 1 6)
          || fl.lt (fl.of_int (pos 1)) p.safe_capacity_margin
      then some "prediction.safeCapacityMargin must be finite and in [0.000001,1]"
      else if bad p.max_error_rate nought || fl.lt (fl.of_int (pos 1)) p.max_error_rate
      then some "prediction.maxErrorRate must be finite and in [0,1]"
      else none

  -- `dependency %q` with the rest of the text
  pub about : DependencySpec F → String → String
  about d text = concat ("dependency " ∷ format.quoted d.name ∷ text ∷ [])

  -- the first checks of a dependency, with the names before it
  pub identity_error : List String → DependencySpec F → Option String
  identity_error seen d =
      if is_blank format.trim_space d.name || is_blank format.trim_space d.scale_target_ref.name
      then some "dependency name and scaleTargetRef.name are required"
      else if not_deployment d.scale_target_ref
      then some (about d " must reference apps/v1 Deployment")
      else if has_key d.name seen
      then some (concat ("dependency name " ∷ format.quoted d.name ∷ " is duplicated" ∷ []))
      else if str_eq d.name "target"
      then some "dependency name \"target\" is reserved"
      else none

  -- the checks after its name is recorded
  pub bounds_error : String → DependencySpec F → Option String
  bounds_error target d =
      if ltb_ℤ d.min_replicas (pos 1) || ltb_ℤ d.max_replicas d.min_replicas
      then some (about d " has invalid replica bounds")
      else if str_eq d.scale_target_ref.name target
      then some (about d " cannot be the primary scale target")
      else if is_blank format.trim_space d.metrics.latency_query
          || is_blank format.trim_space d.metrics.utilization_query
      then some (about d " metric queries are required")
      else or_error
          (rate_query_pair_error format.trim_space d.metrics.request_rate_query
            d.metrics.error_request_rate_query (concat ("dependency " ∷ d.name ∷ [])))
          (if bad d.thresholds.latency_milliseconds nought || bad d.thresholds.utilization nought
            then some (about d " thresholds must be finite and nonnegative")
            else none)

  -- the first loop over the dependencies
  pub dependencies_error : String → List String → List (DependencySpec F) → Option String
  dependencies_error target seen [] = none
  dependencies_error target seen (d ∷ ds) =
      or_error (identity_error seen d)
        (or_error (bounds_error target d) (dependencies_error target (d.name ∷ seen) ds))

  -- the second loop, over the names that the first recorded
  pub depends_on_error : List String → List (DependencySpec F) → Option String
  depends_on_error seen [] = none
  depends_on_error seen (d ∷ ds) =
      let rest = depends_on_error seen ds in
      if str_eq d.depends_on ""
      then rest
      else if str_eq d.depends_on d.name
      then some (about d " cannot depend on itself")
      else if not (has_key d.depends_on seen)
      then some (
          about d (concat (" refers to unconfigured dependsOn " ∷ format.quoted d.depends_on ∷ [])))
      else rest

  pub slo_error : OptiScalerSpec F → Option String
  slo_error s =
      if bad s.slo.target_p95_milliseconds nought
      then some "slo.targetP95Milliseconds must be finite and nonnegative"
      else none

  pub prometheus_error : OptiScalerSpec F → Option String
  prometheus_error s =
      if is_blank format.trim_space s.prometheus.address
      then some "prometheus.address is required"
      else none

  pub validate_spec : OptiScalerSpec F → Option String
  validate_spec s = or_error (target_error s) (
      or_error (prediction_error s.metric s.prediction) (
        or_error (slo_error s) (
          or_error (policy_error s.policy) (
            or_error (prometheus_error s) (
              or_error (dependencies_error s.scale_target_ref.name [] s.dependencies)
                (depends_on_error (names s.dependencies) s.dependencies))))))
