-- ===== src/Observation.antt =====
-- internal/observation/observation.go: one Prometheus result as a typed metric, the request rates
-- derived from two counters, and the count of replicas that serve traffic.
pub mod Validity
pub mod Rates
pub mod Replicas
pub mod Mean
mod Examples
use silver_leaf.Prelude.{
  ℤ, pos, ltb_ℤ, eq_ℤ, Bool, true, false, not, ◌&&◌, ◌||◌, String, List, [], ◌∷◌, str_eq, concat,
  decimal, if◌then◌else◌,
}
use silver_leaf.Go.Int32.{max_int32}
use silver_leaf.Go.Error.{Result, ok, err}
use silver_leaf.Go.Time
use silver_leaf.Go.Time.{Time}
use silver_leaf.Go.Float.{Float, nought, finite}

pub record Metric (F : Type 0) : Type 0 where
  pub value : F
  pub observed_at : Time
  pub valid : Bool
  pub fresh : Bool
  pub error : String

pub record RequestRates (F : Type 0) : Type 0 where
  pub request_rate : Metric F
  pub successful_request_rate : Metric F
  pub error_rate : Metric F

pub record TargetObservation (F : Type 0) : Type 0 where
  pub name : String
  pub current_replicas : ℤ
  pub ready_replicas : ℤ
  pub p95_latency : Metric F
  pub aggregate_slot_occupancy : Metric F
  pub hottest_replica_occupancy : Metric F
  pub effective_serving_replicas : Metric F
  pub physical_concurrency_limit : F
  pub safe_operating_occupancy : F
  pub request_rates : RequestRates F
  pub predictive_request_rate : Metric F

pub record DependencyObservation (F : Type 0) : Type 0 where
  pub name : String
  pub depends_on : String
  pub current_replicas : ℤ
  pub p95_latency : Metric F
  pub utilization : Metric F
  pub latency_threshold : F
  pub utilization_threshold : F
  pub scalable : Bool
  pub min_replicas : ℤ
  pub max_replicas : ℤ
  pub request_rates : RequestRates F

pub record Snapshot (F : Type 0) : Type 0 where
  pub slo_target_p95_milliseconds : F
  pub target : TargetObservation F
  pub dependencies : List (DependencyObservation F)

module _ {F : Type 0} ⦃fl : Float F⦄ where
  -- the zero `Metric` with an error
  unfoldable pub invalid_rate : String → Metric F
  invalid_rate reason = record {
    value = nought;
    observed_at = pos 0;
    valid = false;
    fresh = false;
    error = reason;
  }

  -- sets the error, if there is none yet
  unfoldable pub explain : Metric F → String → Metric F
  explain metric reason =
      if str_eq metric.error "" then record metric { error = reason } else metric

  unfoldable pub validate_rate : Metric F → String → Metric F
  unfolding invalid_rate explain
  validate_rate metric name =
      if not metric.valid
      then explain metric (concat (name ∷ " is unavailable" ∷ []))
      else if not metric.fresh
      then explain (record metric { valid = false }) (concat (name ∷ " is stale" ∷ []))
      else if Time.is_zero metric.observed_at
      then invalid_rate (concat (name ∷ " timestamp is missing" ∷ []))
      else if fl.is_nan metric.value || fl.is_inf metric.value || fl.lt metric.value nought
      then invalid_rate (concat (name ∷ " must be finite and nonnegative" ∷ []))
      else metric

  unfoldable pub rate_usable : Metric F → Bool
  rate_usable metric =
      metric.valid
      && metric.fresh
      && not (Time.is_zero metric.observed_at)
      && not (fl.is_nan metric.value)
      && not (fl.is_inf metric.value)
      && fl.le nought metric.value

  -- a metric that `DeriveRequestRates` computes from others
  abbrev pub derived : F → Time → Metric F
  derived value observed_at = record {
    value = value;
    observed_at = observed_at;
    valid = true;
    fresh = true;
    error = "";
  }

  -- `DeriveRequestRates` once both rates are validated and usable
  derive_usable : Metric F → Metric F → RequestRates F
  unfolding invalid_rate
  derive_usable requests errors =
      let observed_at =
        if Time.before errors.observed_at requests.observed_at
        then errors.observed_at
        else requests.observed_at in
      if fl.lt requests.value errors.value
      then record {
        request_rate = requests;
        successful_request_rate = invalid_rate "error request rate exceeds total request rate";
        error_rate = invalid_rate "error request rate exceeds total request rate";
      }
      else record {
        request_rate = requests;
        successful_request_rate = derived (fl.sub requests.value errors.value) observed_at;
        error_rate =
            if fl.eq requests.value nought
            then invalid_rate "error rate is undefined when request rate is zero"
            else derived (fl.div errors.value requests.value) observed_at;
      }

  unfoldable pub derive_request_rates : Metric F → Metric F → RequestRates F
  unfolding invalid_rate derive_usable
  derive_request_rates request_rate error_request_rate =
      let requests = validate_rate request_rate "request rate" in
      let errors = validate_rate error_request_rate "error request rate" in
      if not (rate_usable requests)
      then record {
        request_rate = requests;
        successful_request_rate =
            invalid_rate "successful request rate requires a valid request rate";
        error_rate = invalid_rate "error rate requires valid request and error rates";
      }
      else if not (rate_usable errors)
      then record {
        request_rate = requests;
        successful_request_rate =
            invalid_rate "successful request rate requires valid error telemetry";
        error_rate = invalid_rate "error rate requires valid request and error rates";
      }
      else derive_usable requests errors

  unfoldable pub effective_replica_count : Metric F → ℤ → Result ℤ
  effective_replica_count observed ready_replicas =
      let metric = validate_rate observed "effective serving replica count" in
      let count = fl.to_int metric.value in
      if not (rate_usable metric)
      then err metric.error
      else if not (fl.eq (fl.trunc metric.value) metric.value)
          || fl.lt (fl.of_int max_int32) metric.value
      then err (
          concat (
            "effective serving replica count must be an integer in [0,"
            ∷ decimal ready_replicas
            ∷ "]"
            ∷ []))
      else if ltb_ℤ ready_replicas count
      then err (
          concat (
            "effective serving replicas "
            ∷ decimal count
            ∷ " exceed Kubernetes Ready replicas "
            ∷ decimal ready_replicas
            ∷ []))
      else ok count

  -- the occupancy for a count that `EffectiveReplicaCount` returned
  mean_of_count : Metric F → ℤ → Metric F
  unfolding invalid_rate
  mean_of_count observed count =
      let aggregate = validate_rate observed "aggregate concurrency-slot occupancy" in
      let normalized = fl.div aggregate.value (fl.of_int count) in
      if eq_ℤ count (pos 0)
      then invalid_rate "target has no traffic-bearing replicas for slot-occupancy normalization"
      else if not (rate_usable aggregate)
      then aggregate
      else if fl.is_nan normalized || fl.is_inf normalized
      then invalid_rate "normalized target slot occupancy is non-finite"
      else record aggregate { value = normalized }

  unfoldable pub mean_slot_occupancy : Metric F → Metric F → ℤ → Metric F
  unfolding invalid_rate mean_of_count
  mean_slot_occupancy aggregate effective_replicas ready_replicas =
      elim (effective_replica_count effective_replicas ready_replicas) [
        | err message ↦ invalid_rate message
        | ok count ↦ mean_of_count aggregate count
      ]
