-- ===== src/Controller/OneMetric.antt =====
-- internal/controller/optiscaler_controller.go: the end of `Reconcile`, where the specification names one
-- metric only. Events and logs are left out.
use silver_leaf.Prelude.{
  ℤ, ◌*ℤ◌, true, not, ◌&&◌, String, Option, none, some, List, [], ◌∷◌, concat, if◌then◌else◌,
}
use silver_leaf.Go.Map.{Entry}
use silver_leaf.Go.Time.{seconds}
use silver_leaf.Go.Float.{Float, Format}
use silver_leaf.Api.Status.{OptiScaler, OptiScalerStatus}
use silver_leaf.Policy.Types.{action_text}
use silver_leaf.Policy.Threshold.{Input, evaluate}
use silver_leaf.Controller.Learning.{scales_target}
use silver_leaf.Controller.Observe.{Sampled, max_telemetry_age, request_rates_observation}
use silver_leaf.Decision.{RecordInput, new_record}
use silver_leaf.Controller.Histories.{PredictionHistory}
use silver_leaf.Controller.Observe.{metric_value}
use silver_leaf.Controller.Status.{
  control_mode, condition_reason, is_protected, should_update_scale, set_conditions,
}
use silver_leaf.Controller.World.{World, scale_written, Run, Library, fail}
use silver_leaf.Controller.Record.{brief}
use silver_leaf.Controller.Finish.{update_status}

module _ {F B : Type 0} ⦃fl : Float F⦄ ⦃format : Format F⦄ where
  -- the input of the policy of one metric
  unfoldable pub threshold_input : World F B → OptiScaler F → ℤ → Sampled F → Input F
  threshold_input w r current v = record {
    current_replicas = current;
    min_replicas = r.spec.min_replicas;
    max_replicas = r.spec.max_replicas;
    observed_metric = v.value;
    telemetry_valid = true;
    telemetry_observed_at = v.timestamp;
    max_telemetry_age = max_telemetry_age;
    now = w.now;
    scale_up_threshold = r.spec.policy.scale_up_threshold;
    scale_down_threshold = r.spec.policy.scale_down_threshold;
    max_scale_up_step = r.spec.policy.max_scale_up_step;
    max_scale_down_step = r.spec.policy.max_scale_down_step;
    cooldown = r.spec.policy.cooldown_seconds *ℤ seconds 1;
    last_scale_time = r.status.last_scale_time;
  }

  unfoldable pub threshold_record : World F B → OptiScaler F → ℤ → Sampled F → RecordInput F
  threshold_record w r current v =
      let d = evaluate (threshold_input w r current v) in
      let rates =
        request_rates_observation r.spec.metric.request_rate_query w.target.requests
          r.spec.metric.error_request_rate_query w.target.errors w.now in
      record (brief (action_text d.action) d.reason current) {
        observed_metric = some v.value;
        desired_replicas = d.desired_replicas;
        observed_at = v.timestamp;
        target_request_rate = metric_value rates.request_rate;
        target_successful_request_rate = metric_value rates.successful_request_rate;
        target_error_rate = metric_value rates.error_rate;
        threshold = if d.has_threshold then some d.threshold else none;
      }

  -- the status of a decision by one metric
  unfoldable pub threshold_status :
      Library F B → World F B → OptiScaler F → ℤ → Sampled F → OptiScalerStatus F
  threshold_status l w r current v =
      let d = evaluate (threshold_input w r current v) in
      set_conditions w.conditions_at
        (record (r.status) {
          current_replicas = current;
          observed_metric = some v.value;
          desired_replicas = d.desired_replicas;
          control_mode = control_mode d.action;
          last_decision = some (new_record l.hash w.recorded_at (threshold_record w r current v));
        })
        r.generation (not (is_protected d.action)) (is_protected d.action)
        (condition_reason d.action) d.reason

  -- the write of the scale, by its error, and what follows
  unfoldable pub write_target :
      Library F B
      → World F B
      → OptiScaler F
      → ℤ
      → Sampled F
      → List (Entry (PredictionHistory F))
      → Option String
      → Run F
  write_target l w r current v m (some e) =
      fail []
        (concat
          ("update " ∷ r.namespace ∷ "/" ∷ r.spec.scale_target_ref.name ∷ " scale: " ∷ e ∷ []))
        m
  write_target l w r current v m none =
      let desired = (evaluate (threshold_input w r current v)).desired_replicas in
      let status = threshold_status l w r current v in
      update_status l w r
        (record status {
          current_replicas = desired;
          desired_replicas = desired;
          last_scale_time = some w.now;
          last_scale_decision = status.last_decision;
        })
        (scale_written r.spec.scale_target_ref.name current desired ∷ []) m

  -- the end of `Reconcile`, with one metric
  unfoldable pub finish_threshold :
      Library F B
      → World F B
      → OptiScaler F
      → ℤ
      → Sampled F
      → List (Entry (PredictionHistory F))
      → Run F
  finish_threshold l w r current v m =
      let d = evaluate (threshold_input w r current v) in
      if scales_target d.action && should_update_scale current d.desired_replicas
      then write_target l w r current v m w.scale_error
      else update_status l w r (threshold_status l w r current v) [] m
