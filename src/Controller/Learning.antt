-- ===== src/Controller/Learning.antt =====
-- internal/controller/prediction.go: `capacitySampleEligibility` and `dependenciesHealthy`, of which a
-- reason is `some` and true is `none`. internal/controller/optiscaler_controller.go: the hold on a
-- target whose Ready replicas do not all serve yet.
pub mod Eligible
pub mod Hold
mod Examples
use silver_leaf.Prelude.{
  ℤ, pos, ltb_ℤ, eq_ℤ, Bool, true, false, not, ◌&&◌, ◌||◌, String, Option, none, some, List, [],
  ◌∷◌, str_eq, concat, decimal, if◌then◌else◌,
}
use silver_leaf.Go.Error.{ok, err}
use silver_leaf.Go.Time
use silver_leaf.Go.Float.{Float, Format, nought, finite, finite_nonnegative}
use silver_leaf.Observation.{
  Metric, TargetObservation, DependencyObservation, Snapshot, effective_replica_count,
}
use silver_leaf.Capacity.Types.{
  Classification, Analysis, healthy, target_saturated, dependency_saturated, capacity_blocked,
  uncertain, unknown, is_healthy,
}
use silver_leaf.Policy.Types.{
  Action, CapacityDecision, scale_target, scale_dependency, prescale_target, hold, protected_mode,
}

-- the string that a classification is
pub class_text : Classification → String
class_text healthy = "HEALTHY"
class_text target_saturated = "TARGET_SATURATED"
class_text dependency_saturated = "DEPENDENCY_SATURATED"
class_text capacity_blocked = "CAPACITY_BLOCKED"
class_text uncertain = "UNCERTAIN"
class_text (unknown text) = text

abbrev pub scales_target : Action → Bool
scales_target scale_target = true
scales_target prescale_target = true
scales_target _ = false

module _ {F : Type 0} ⦃fl : Float F⦄ where
  unfoldable pub metric_usable : Metric F → Bool
  metric_usable m =
      m.valid && m.fresh && not (Time.is_zero m.observed_at) && finite_nonnegative m.value

  -- the count that `EffectiveReplicaCount` returns, which is 0 with an error
  unfoldable pub effective_count : TargetObservation F → ℤ
  effective_count t = elim (effective_replica_count t.effective_serving_replicas t.ready_replicas) [
    | ok n ↦ n
    | err _ ↦ pos 0
  ]

  -- `targetCapacityRealizationPending`
  unfoldable pub realization_pending : TargetObservation F → Bool
  realization_pending t =
      elim (effective_replica_count t.effective_serving_replicas t.ready_replicas) [
        | ok n ↦ ltb_ℤ n t.ready_replicas
        | err _ ↦ false
      ]

  -- `targetCapacityRealizationReason`
  unfoldable pub realization_reason : TargetObservation F → String
  realization_reason t = concat (
      decimal t.ready_replicas
      ∷ " Kubernetes Ready replicas but only "
      ∷ decimal (effective_count t)
      ∷ " are traffic-bearing; newly requested capacity has not yet been realized"
      ∷ [])

  -- `holdTargetScaleForUnrealizedCapacity`
  pub hold_target_scale : CapacityDecision F → TargetObservation F → ℤ → CapacityDecision F
  hold_target_scale d t requested =
      if not (realization_pending t)
        || not (str_eq d.chosen_component "target")
        || not (scales_target d.action)
      then d
      else record d {
        action = hold;
        current_replicas = requested;
        desired_replicas = requested;
        reason = realization_reason t;
      }

module _ {F : Type 0} ⦃fl : Float F⦄ ⦃format : Format F⦄ where
  unfoldable pub dependencies_healthy : List (DependencyObservation F) → Option String
  dependencies_healthy [] = none
  dependencies_healthy (d ∷ ds) =
      let rest = dependencies_healthy ds in
      if not (metric_usable d.p95_latency) || not (metric_usable d.utilization)
      then some (concat ("dependency " ∷ format.quoted d.name ∷ " telemetry is incomplete" ∷ []))
      else if fl.lt d.latency_threshold d.p95_latency.value
          || fl.lt d.utilization_threshold d.utilization.value
      then some (
          concat (
            "dependency "
            ∷ format.quoted d.name
            ∷ " is saturated; prediction cannot override dependency evidence"
            ∷ []))
      else rest

  -- `Target.SafeOperatingOccupancy * capacityLearningUtilizationFraction`
  unfoldable pub load_floor : TargetObservation F → F
  load_floor t = fl.mul t.safe_operating_occupancy (fl.literal 3 1)

  -- the checks on the load of the replicas that serve
  unfoldable pub load_error : TargetObservation F → ℤ → Option String
  load_error t count =
      let mean = fl.div t.aggregate_slot_occupancy.value (fl.of_int count) in
      if fl.lt mean (load_floor t)
      then some (
          concat (
            "mean held-slot occupancy "
            ∷ format.fixed 2 mean
            ∷ " per serving replica is below the "
            ∷ format.fixed 0 (fl.of_int (pos 30))
            ∷ "% load-evidence floor "
            ∷ format.fixed 2 (load_floor t)
            ∷ []))
      else none

  -- the checks on the counts of replicas
  unfoldable pub replicas_error : TargetObservation F → ℤ → Option String
  replicas_error t ready =
      if ltb_ℤ ready (pos 1)
      then some "target has no Ready replicas for serving-replica capacity measurement"
      else if not (eq_ℤ ready t.ready_replicas) || not (eq_ℤ ready t.current_replicas)
      then some (
          concat (
            "target Deployment is still converging: "
            ∷ decimal ready
            ∷ " ready of "
            ∷ decimal t.current_replicas
            ∷ " requested replicas"
            ∷ []))
      else elim (effective_replica_count t.effective_serving_replicas ready) [
        | err message ↦ some message
        | ok n ↦
            if eq_ℤ n (pos 0)
            then some
                "no traffic-bearing replicas are available for per-replica capacity measurement"
            else if not (eq_ℤ n ready)
            then some (realization_reason t)
            else load_error t n
      ]

  -- the checks on the telemetry of the target
  unfoldable pub telemetry_error : TargetObservation F → F → Option String
  telemetry_error t max_error_rate =
      let rates = t.request_rates in
      if not (metric_usable t.hottest_replica_occupancy)
        || not (finite t.safe_operating_occupancy)
        || fl.le t.safe_operating_occupancy nought
      then some "target hottest-replica slot occupancy or safe operating boundary is unavailable"
      else if not (metric_usable t.aggregate_slot_occupancy)
          || fl.le t.aggregate_slot_occupancy.value nought
      then some
          "positive, fresh aggregate constrained-slot occupancy is required for capacity estimation"
      else if fl.le t.safe_operating_occupancy t.hottest_replica_occupancy.value
      then some
          "hottest traffic-bearing target replica is at or above its safe operating occupancy boundary"
      else if not (metric_usable rates.request_rate)
          || not (metric_usable rates.successful_request_rate)
          || not (metric_usable rates.error_rate)
      then some "complete fresh request, successful-request, and error-rate telemetry is required"
      else if fl.lt max_error_rate rates.error_rate.value
      then some (
          concat (
            "target error rate "
            ∷ format.fixed 4 rates.error_rate.value
            ∷ " exceeds healthy-capacity learning limit "
            ∷ format.fixed 4 max_error_rate
            ∷ []))
      else none

  unfoldable pub capacity_sample_eligibility : Snapshot F → Analysis → F → ℤ → Option String
  capacity_sample_eligibility s analysis max_error_rate ready =
      if not (is_healthy analysis.classification)
      then some
          (concat ("current capacity classification is " ∷ class_text analysis.classification ∷ []))
      else elim (dependencies_healthy s.dependencies) [
        | some reason ↦ some reason
        | none ↦ elim (telemetry_error s.target max_error_rate) [
          | some reason ↦ some reason
          | none ↦ replicas_error s.target ready
        ]
      ]
