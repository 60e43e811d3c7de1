-- ===== src/Controller/Gather.antt =====
-- internal/controller/optiscaler_controller.go: the first part of `reconcileCapacity`, which reads the
-- cluster and Prometheus into a snapshot. What it reads is an input.
pub mod Workloads
use silver_leaf.Prelude.{
  ℕ, suc, ℤ, pos, true, false, not, ◌&&◌, String, Option, none, some, List, [], ◌∷◌, concat,
  if◌then◌else◌,
}
use silver_leaf.Go.Error.{Result, ok, err}
use silver_leaf.Go.Map.{Entry, assign}
use silver_leaf.Go.Time.{Time}
use silver_leaf.Go.Float.{Float, Format, nought}
use silver_leaf.Api.{OptiScalerSpec, DependencySpec}
use silver_leaf.Observation.{
  Metric, TargetObservation, DependencyObservation, Snapshot, invalid_rate,
}
use silver_leaf.Policy.Types.{ComponentInput}
use silver_leaf.Controller.Learning.{metric_usable}
use silver_leaf.Controller.Observe.{
  Answer, metric_observation, request_rates_observation, configured_safe_capacity_margin,
}

-- the answers to the queries about the target
pub record TargetAnswers (F : Type 0) : Type 0 where
  pub p95 : Answer F
  pub slots : Answer F
  pub hottest : Answer F
  pub serving : Answer F
  pub requests : Answer F
  pub errors : Answer F
  pub predictive : Answer F

-- the count of a dependency, and the answers about it
pub record DependencyAnswers (F : Type 0) : Type 0 where
  pub scale : Result ℤ
  pub latency : Answer F
  pub utilization : Answer F
  pub requests : Answer F
  pub errors : Answer F

-- the count that was read, which is zero with an error
abbrev pub count_of : Result ℤ → ℤ
count_of (ok n) = n
count_of (err _) = pos 0

module _ {F : Type 0} ⦃fl : Float F⦄ where
  -- With no replica that serves and no work, the hottest replica has none.
  unfoldable pub hottest_or_idle : Metric F → Metric F → Metric F → Metric F
  hottest_or_idle serving slots hottest =
      if serving.valid
        && fl.eq serving.value nought
        && metric_usable slots
        && fl.eq slots.value nought
        && not hottest.valid
      then record {
        value = nought;
        observed_at = slots.observed_at;
        valid = true;
        fresh = slots.fresh;
        error = "";
      }
      else hottest

  -- an error makes the metric invalid
  pub invalid_with : Option String → Metric F → Metric F
  invalid_with none m = m
  invalid_with (some e) m = record m { valid = false; fresh = false; error = e }

module _ {F : Type 0} ⦃fl : Float F⦄ ⦃format : Format F⦄ where
  unfoldable pub observe_target :
      OptiScalerSpec F → TargetAnswers F → ℤ → ℤ → Time → TargetObservation F
  observe_target s w current ready now =
      let slots = metric_observation s.metric.utilization_query w.slots now in
      let serving = metric_observation s.metric.serving_replica_count_query w.serving now in
      record {
        name = s.scale_target_ref.name;
        current_replicas = current;
        ready_replicas = ready;
        p95_latency = metric_observation s.metric.prometheus_query w.p95 now;
        aggregate_slot_occupancy = slots;
        hottest_replica_occupancy =
            hottest_or_idle serving slots
              (metric_observation s.metric.hottest_replica_utilization_query w.hottest now);
        effective_serving_replicas = serving;
        physical_concurrency_limit = s.metric.physical_concurrency_limit;
        safe_operating_occupancy =
            fl.mul s.metric.physical_concurrency_limit
              (configured_safe_capacity_margin s.prediction.safe_capacity_margin);
        request_rates =
            request_rates_observation s.metric.request_rate_query w.requests
              s.metric.error_request_rate_query w.errors now;
        predictive_request_rate =
            if s.prediction.enabled
            then metric_observation s.metric.predictive_request_rate_query w.predictive now
            else invalid_rate "";
      }

  -- the error of a dependency's count
  pub scale_error : String → DependencySpec F → Result ℤ → Option String
  scale_error namespace d (ok _) = none
  scale_error namespace d (err e) =
      some (
        concat
          ("get dependency scale " ∷ namespace ∷ "/" ∷ d.scale_target_ref.name ∷ ": " ∷ e ∷ []))

  pub observe_dependency :
      String → DependencySpec F → DependencyAnswers F → Time → DependencyObservation F
  observe_dependency namespace d w now =
      let failed = scale_error namespace d w.scale in
      let latency = metric_observation d.metrics.latency_query w.latency now in
      let utilization = metric_observation d.metrics.utilization_query w.utilization now in
      record {
        name = d.name;
        depends_on = d.depends_on;
        current_replicas = count_of w.scale;
        p95_latency = invalid_with failed latency;
        utilization = elim failed [
          | none ↦ utilization
          | some _ ↦ record utilization { valid = false; fresh = false }
        ];
        latency_threshold = d.thresholds.latency_milliseconds;
        utilization_threshold = d.thresholds.utilization;
        scalable = d.scalable;
        min_replicas = d.min_replicas;
        max_replicas = d.max_replicas;
        request_rates =
            request_rates_observation d.metrics.request_rate_query w.requests
              d.metrics.error_request_rate_query w.errors now;
      }

  -- the loop over the dependencies, of which the answers are numbered
  unfoldable pub observe_dependencies :
      String
      → ℕ
      → List (DependencySpec F)
      → (ℕ → DependencyAnswers F)
      → Time
      → List (DependencyObservation F)
  observe_dependencies namespace i [] w now = []
  observe_dependencies namespace i (d ∷ ds) w now =
      observe_dependency namespace d (w i) now ∷ observe_dependencies namespace (suc i) ds w now

  -- the map of the components, and that of the workloads' names
  pub components :
      List (Entry ComponentInput)
      → ℕ
      → List (DependencySpec F)
      → (ℕ → DependencyAnswers F)
      → List (Entry ComponentInput)
  components m i [] w = m
  components m i (d ∷ ds) w =
      components
        (assign d.name
          (record {
            name = d.name;
            current_replicas = count_of (w i).scale;
            min_replicas = d.min_replicas;
            max_replicas = d.max_replicas;
            scalable = d.scalable;
          })
          m)
        (suc i) ds w

  pub workloads : List (Entry String) → List (DependencySpec F) → List (Entry String)
  workloads m [] = m
  workloads m (d ∷ ds) = workloads (assign d.name d.scale_target_ref.name m) ds

  unfoldable pub observe_snapshot :
      String
      → OptiScalerSpec F
      → TargetAnswers F
      → (ℕ → DependencyAnswers F)
      → ℤ
      → ℤ
      → Time
      → Snapshot F
  observe_snapshot namespace s w deps current ready now = record {
    slo_target_p95_milliseconds = s.slo.target_p95_milliseconds;
    target = observe_target s w current ready now;
    dependencies = observe_dependencies namespace 0 s.dependencies deps now;
  }
