-- ===== src/Controller/Spec/Examples.antt =====
-- The theorems about `validateSpec`, on a service with one database.
use silver_leaf.Prelude.{pos, ◌+ℤ◌, ◌-ℤ◌, ◌*ℤ◌, ◌/ℤ◌, ◌≡◌, refl, true, none, [], ◌∷◌, arith}
use silver_leaf.Go.Milli.{Milli, fin, milli_float, milli_format}
use silver_leaf.Go.Milli.Laws.{Milli-IsIeee}
use silver_leaf.Api.{DependencySpec, OptiScalerSpec}
use silver_leaf.Capacity.Signals.{has_key}
use silver_leaf.Policy.Component.{validate_component}
use silver_leaf.Controller.Spec.{
  not_deployment, policy_error, rate_query_pair_error, target_error, prediction_error,
  identity_error, bounds_error, dependencies_error, names, depends_on_error, slo_error,
  prometheus_error, validate_spec,
}
use silver_leaf.Controller.Prediction.Examples.{spec}
use silver_leaf.Controller.Spec.Valid.{
  IsValidSpec, validate_spec-IsValidSpec, validate_spec-validate_component,
}

abbrev database : DependencySpec Milli
database = record {
  name = "db";
  depends_on = "";
  scale_target_ref = record { api_version = "apps/v1"; kind = "Deployment"; name = "db" };
  metrics = record {
    latency_query = "l";
    utilization_query = "u";
    request_rate_query = "";
    error_request_rate_query = "";
  };
  thresholds = record { latency_milliseconds = fin (pos 200_000); utilization = fin (pos 800) };
  scalable = true;
  min_replicas = pos 1;
  max_replicas = pos 4;
}

abbrev service : OptiScalerSpec Milli
service = record {
  scale_target_ref = record { api_version = "apps/v1"; kind = "Deployment"; name = "api" };
  min_replicas = pos 1;
  max_replicas = pos 6;
  metric = record {
    prometheus_query = "p95";
    utilization_query = "u";
    hottest_replica_utilization_query = "h";
    serving_replica_count_query = "n";
    physical_concurrency_limit = fin (pos 8_000);
    request_rate_query = "r";
    error_request_rate_query = "e";
    predictive_request_rate_query = "p";
  };
  slo = record { target_p95_milliseconds = fin (pos 500_000) };
  policy = record {
    scale_up_threshold = fin (pos 800);
    scale_down_threshold = fin (pos 200);
    max_scale_up_step = pos 2;
    max_scale_down_step = pos 1;
    cooldown_seconds = pos 60;
  };
  dependencies = database ∷ [];
  prometheus = record { address = "http://prometheus" };
  prediction = record {
    enabled = true;
    safe_capacity_margin = fin (pos 750);
    max_error_rate = fin (pos 50);
    predictive_demand_window_seconds = pos 30;
  };
}

service-accepted : validate_spec service ≡ none
unfolding validate_spec target_error not_deployment rate_query_pair_error prediction_error slo_error
    policy_error prometheus_error dependencies_error identity_error bounds_error names
    depends_on_error has_key ◌+ℤ◌ ◌-ℤ◌ ◌*ℤ◌ ◌/ℤ◌
service-accepted = refl

-- the specification of the tests of the prediction
pub spec-accepted : validate_spec spec ≡ none
unfolding validate_spec target_error not_deployment rate_query_pair_error prediction_error slo_error
    policy_error prometheus_error dependencies_error identity_error bounds_error names
    depends_on_error has_key ◌+ℤ◌ ◌-ℤ◌ ◌*ℤ◌ ◌/ℤ◌
spec-accepted = refl

validate_spec-IsValidSpec_example : IsValidSpec service
validate_spec-IsValidSpec_example = validate_spec-IsValidSpec Milli-IsIeee service service-accepted

validate_spec-validate_component_example :
    validate_component
      (record {
        name = "target";
        current_replicas = pos 3;
        min_replicas = pos 1;
        max_replicas = pos 6;
        scalable = true;
      })
      (pos 2)
      (pos 1)
    ≡ none
validate_spec-validate_component_example =
    validate_spec-validate_component Milli-IsIeee service "target" (pos 3) service-accepted
      (ground arith) (ground arith)
