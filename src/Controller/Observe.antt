-- ===== src/Controller/Observe.antt =====
-- internal/controller/optiscaler_controller.go: what the reconciler makes of the answers of Prometheus,
-- `metricObservation` and `requestRatesObservation`, and of single values, `metricValuePointer`,
-- `configuredSafeCapacityMargin` and `targetConcurrencyEvidence`. The answers are inputs.
use silver_leaf.Prelude.{
  ℤ, pos, ltb_ℤ, leb_ℤ, Bool, true, not, ◌&&◌, ◌||◌, String, Option, none, some, List, [], ◌∷◌,
  str_eq, concat, decimal, if◌then◌else◌,
}
use silver_leaf.Go.Error.{Result, ok, err}
use silver_leaf.Go.Time
use silver_leaf.Go.Time.{Time, Duration, seconds}
use silver_leaf.Go.Float.{Float, Format, nought, finite}
use silver_leaf.Api.Status.{DependencyRequestRate}
use silver_leaf.Observation.{
  Metric, RequestRates, TargetObservation, DependencyObservation, invalid_rate,
  derive_request_rates, effective_replica_count,
}
use silver_leaf.Controller.Spec.{is_blank}
use silver_leaf.Controller.Learning.{metric_usable}

-- `maxTelemetryAge`
abbrev pub max_telemetry_age : Duration
max_telemetry_age = seconds 120

-- a value and its time, as `Client.Query` returns them
pub record Sampled (F : Type 0) : Type 0 where
  pub value : F
  pub timestamp : Time

-- an answer of Prometheus: a sample or an error
abbrev pub Answer : Type 0 → Type 0
Answer F = Result (Sampled F)

unfoldable pub is_fresh : Time → Time → Bool
is_fresh now t =
    not (Time.after t (Time.add now (seconds 30))) && leb_ℤ (Time.sub now t) max_telemetry_age

module _ {F : Type 0} ⦃fl : Float F⦄ ⦃format : Format F⦄ where
  unfoldable pub metric_observation : String → Answer F → Time → Metric F
  metric_observation query answer now =
      if is_blank format.trim_space query
      then invalid_rate "Prometheus query is missing"
      else elim answer [
        | err e ↦ invalid_rate e
        | ok v ↦ record {
          value = v.value;
          observed_at = v.timestamp;
          valid = true;
          fresh = is_fresh now v.timestamp;
          error =
              if is_fresh now v.timestamp
              then ""
              else "telemetry is stale or timestamp is in the future";
        }
      ]

  pub request_rates_observation : String → Answer F → String → Answer F → Time → RequestRates F
  request_rates_observation rate_query rate error_query errors now =
      derive_request_rates (metric_observation rate_query rate now)
        (metric_observation error_query errors now)

  -- `metricValuePointer`
  pub metric_value : Metric F → Option F
  metric_value m =
      if not m.valid
        || not m.fresh
        || Time.is_zero m.observed_at
        || fl.is_nan m.value
        || fl.is_inf m.value
        || fl.lt m.value nought
      then none
      else some m.value

  -- `floatPointer`
  pub float_pointer : F → Option F
  float_pointer x = if fl.is_nan x || fl.is_inf x then none else some x

  -- `effectiveServingReplicaCountPointer`
  pub effective_count_pointer : TargetObservation F → Option ℤ
  effective_count_pointer t =
      elim (effective_replica_count t.effective_serving_replicas t.ready_replicas) [
        | err _ ↦ none
        | ok n ↦ some n
      ]

  -- the value, or 0.75
  unfoldable pub configured_safe_capacity_margin : F → F
  configured_safe_capacity_margin x =
      if finite x && fl.lt nought x && fl.le x (fl.of_int (pos 1)) then x else fl.literal 75 2

  pub dependency_request_rate_records :
      List (DependencyObservation F) → List (DependencyRequestRate F)
  dependency_request_rate_records [] = []
  dependency_request_rate_records (d ∷ ds) =
      record {
        name = d.name;
        request_rate = metric_value d.request_rates.request_rate;
        successful_request_rate = metric_value d.request_rates.successful_request_rate;
        error_rate = metric_value d.request_rates.error_rate;
      }
      ∷ dependency_request_rate_records ds

  -- a metric's error, or a text in its place
  pub error_or : Metric F → String → String
  error_or m fallback = if str_eq m.error "" then fallback else m.error

  -- the evidence for a count of replicas that serve
  pub concurrency_evidence_of : TargetObservation F → ℤ → String
  concurrency_evidence_of t effective =
      let aggregate = t.aggregate_slot_occupancy.value in
      let mean =
        if ltb_ℤ (pos 0) effective then fl.div aggregate (fl.of_int effective) else nought in
      if not (metric_usable t.hottest_replica_occupancy)
      then concat (
          "requested replicas "
          ∷ decimal t.current_replicas
          ∷ ", Ready replicas "
          ∷ decimal t.ready_replicas
          ∷ ", effective serving replicas "
          ∷ decimal effective
          ∷ "; aggregate slot occupancy "
          ∷ format.fixed 2 aggregate
          ∷ "; hottest replica occupancy unavailable: "
          ∷ error_or t.hottest_replica_occupancy
              "hottest traffic-bearing replica occupancy is unavailable"
          ∷ [])
      else concat (
          "requested replicas "
          ∷ decimal t.current_replicas
          ∷ "; Ready replicas "
          ∷ decimal t.ready_replicas
          ∷ "; effective serving replicas "
          ∷ decimal effective
          ∷ "; aggregate held-slot occupancy "
          ∷ format.fixed 2 aggregate
          ∷ "; hottest traffic-bearing replica "
          ∷ format.fixed 2 t.hottest_replica_occupancy.value
          ∷ " slots; physical concurrency ceiling "
          ∷ format.fixed 2 t.physical_concurrency_limit
          ∷ " slots/replica; safe operating boundary "
          ∷ format.fixed 2 t.safe_operating_occupancy
          ∷ " slots/replica; mean occupancy "
          ∷ format.fixed 2 mean
          ∷ " slots per serving replica"
          ∷ [])

  pub target_concurrency_evidence : TargetObservation F → String
  target_concurrency_evidence t =
      if not (metric_usable t.aggregate_slot_occupancy)
      then concat (
          "target constrained-slot evidence unavailable: "
          ∷ error_or t.aggregate_slot_occupancy
              "aggregate constrained-slot occupancy telemetry is unavailable"
          ∷ [])
      else elim (effective_replica_count t.effective_serving_replicas t.ready_replicas) [
        | err e ↦ concat (
            "requested replicas "
            ∷ decimal t.current_replicas
            ∷ ", Kubernetes Ready replicas "
            ∷ decimal t.ready_replicas
            ∷ "; effective serving replicas unavailable: "
            ∷ e
            ∷ [])
        | ok effective ↦ concurrency_evidence_of t effective
      ]
