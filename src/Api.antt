-- ===== src/Api.antt =====
-- api/v1alpha1/optiscaler_types.go: the specification of an OptiScaler resource; Api.Status has
-- its status.
pub mod Status
use silver_leaf.Prelude.{ℤ, Bool, String, List}

pub record ScaleTargetReference : Type 0 where
  pub api_version : String
  pub kind : String
  pub name : String

pub record MetricSpec (F : Type 0) : Type 0 where
  pub prometheus_query : String
  pub utilization_query : String
  pub hottest_replica_utilization_query : String
  pub serving_replica_count_query : String
  pub physical_concurrency_limit : F
  pub request_rate_query : String
  pub error_request_rate_query : String
  pub predictive_request_rate_query : String

pub record DependencyMetricsSpec : Type 0 where
  pub latency_query : String
  pub utilization_query : String
  pub request_rate_query : String
  pub error_request_rate_query : String

pub record DependencyThresholdsSpec (F : Type 0) : Type 0 where
  pub latency_milliseconds : F
  pub utilization : F

pub record DependencySpec (F : Type 0) : Type 0 where
  pub name : String
  pub depends_on : String
  pub scale_target_ref : ScaleTargetReference
  pub metrics : DependencyMetricsSpec
  pub thresholds : DependencyThresholdsSpec F
  pub scalable : Bool
  pub min_replicas : ℤ
  pub max_replicas : ℤ

pub record SloSpec (F : Type 0) : Type 0 where
  pub target_p95_milliseconds : F

pub record PolicySpec (F : Type 0) : Type 0 where
  pub scale_up_threshold : F
  pub scale_down_threshold : F
  pub max_scale_up_step : ℤ
  pub max_scale_down_step : ℤ
  pub cooldown_seconds : ℤ

pub record PrometheusSpec : Type 0 where
  pub address : String

pub record PredictionSpec (F : Type 0) : Type 0 where
  pub enabled : Bool
  pub safe_capacity_margin : F
  pub max_error_rate : F
  pub predictive_demand_window_seconds : ℤ

pub record OptiScalerSpec (F : Type 0) : Type 0 where
  pub scale_target_ref : ScaleTargetReference
  pub min_replicas : ℤ
  pub max_replicas : ℤ
  pub metric : MetricSpec F
  pub slo : SloSpec F
  pub policy : PolicySpec F
  pub dependencies : List (DependencySpec F)
  pub prometheus : PrometheusSpec
  pub prediction : PredictionSpec F
