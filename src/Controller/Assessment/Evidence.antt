-- ===== src/Controller/Assessment/Evidence.antt =====
-- internal/controller/prediction.go: `predictionEvidence` and `readinessEvidenceDescription`, the
-- assessment of a prediction in words.
use silver_leaf.Prelude.{
  pos, ltb_ℤ, Bool, not, ◌&&◌, String, List, [], ◌∷◌, str_eq, concat, decimal, if◌then◌else◌,
}
use silver_leaf.Go.Time.{Duration}
use silver_leaf.Go.Float.{Float, Format}
use silver_leaf.Api.Status.{no_source, current_fresh_sample, persisted_learned_sample}
use silver_leaf.Observation.{Metric, TargetObservation, Snapshot}
use silver_leaf.Controller.Readiness.{ReadinessLeadEvidence}
use silver_leaf.Controller.Learning.{metric_usable}
use silver_leaf.Controller.Assessment.{PredictionAssessment, quality_text, has_forecast}

-- `append` under a condition
abbrev pub when : Bool → String → List String → List String
when b s rest = if b then s ∷ rest else rest

module _ (F : Type 0) ⦃fl : Float F⦄ ⦃format : Format F⦄ where
  -- %.1f of the seconds of a Duration
  abbrev pub tenths : Duration → String
  tenths d = format.fixed 1 (fl.of_duration d)

  pub readiness_evidence_description : ReadinessLeadEvidence → String
  readiness_evidence_description e = elim e.source [
    | current_fresh_sample ↦ concat (
        "readiness lead "
        ∷ tenths e.lead_time
        ∷ "s from CURRENT_FRESH_SAMPLE for current target revision "
        ∷ format.quoted e.template_identity
        ∷ " ("
        ∷ decimal e.fresh_sample_count
        ∷ " eligible Ready pod sample(s))"
        ∷ [])
    | persisted_learned_sample ↦ concat (
        "readiness lead "
        ∷ tenths e.lead_time
        ∷ "s from persisted learned startup evidence for current target revision "
        ∷ format.quoted e.template_identity
        ∷ " (PERSISTED_LEARNED_SAMPLE, observed "
        ∷ format.date e.observed_at
        ∷ ")"
        ∷ [])
    | no_source ↦ concat ("readiness lead unavailable: " ∷ e.unavailable_reason ∷ [])
  ]

module _ {F : Type 0} ⦃fl : Float F⦄ ⦃format : Format F⦄ where
  pub predictive_rate_evidence : Metric F → Duration → String
  predictive_rate_evidence rate window =
      if metric_usable rate
      then concat (
          "predictive demand rate "
          ∷ format.fixed 2 rate.value
          ∷ " requests/s from "
          ∷ decimal (fl.to_int (fl.of_duration window))
          ∷ "s rate window"
          ∷ [])
      else concat (
          "predictive demand rate unavailable: "
          ∷ (if str_eq rate.error "" then "missing, stale, or non-finite telemetry" else rate.error)
          ∷ [])

  pub horizon_evidence : PredictionAssessment F → String
  horizon_evidence a =
      if a.readiness.available && a.has_demand_window
      then concat (
          tenths F a.planning_horizon
          ∷ "s planning horizon = "
          ∷ tenths F a.readiness.lead_time
          ∷ "s measured Pod creation-to-Ready + "
          ∷ tenths F a.control_loop_allowance
          ∷ "s control-loop allowance + "
          ∷ tenths F a.demand_observation_lag
          ∷ "s predictive-demand observation lag (half of "
          ∷ format.fixed 0 (fl.of_duration a.demand_window)
          ∷ "s rate window)"
          ∷ [])
      else if a.readiness.available
      then concat (
          "measured Pod creation-to-Ready lead time "
          ∷ tenths F a.readiness.lead_time
          ∷ "s; control-loop allowance "
          ∷ tenths F a.control_loop_allowance
          ∷ "s; predictive-demand window/lag or planning horizon unavailable"
          ∷ [])
      else if a.has_demand_window
      then concat (
          "measured Pod creation-to-Ready lead time unavailable; control-loop allowance "
          ∷ tenths F a.control_loop_allowance
          ∷ "s; predictive-demand observation lag "
          ∷ tenths F a.demand_observation_lag
          ∷ "s (half of "
          ∷ format.fixed 0 (fl.of_duration a.demand_window)
          ∷ "s rate window); planning horizon unavailable"
          ∷ [])
      else concat (
          "measured Pod creation-to-Ready lead time unavailable; control-loop allowance "
          ∷ tenths F a.control_loop_allowance
          ∷ "s; predictive-demand window/lag and planning horizon unavailable"
          ∷ [])

  pub capacity_evidence : TargetObservation F → PredictionAssessment F → String
  capacity_evidence t a = concat (
      "conservative throughput efficiency "
      ∷ format.fixed 2 a.capacity_estimate.conservative_rps_per_work_unit
      ∷ " successful requests/s per held-slot occupancy unit; physical limit "
      ∷ format.fixed 2 t.physical_concurrency_limit
      ∷ " slots, safe operating occupancy "
      ∷ format.fixed 2 t.safe_operating_occupancy
      ∷ " slots after "
      ∷ format.fixed 2 a.safe_capacity_margin
      ∷ " margin; estimated physical capacity "
      ∷ format.fixed 2 a.capacity_estimate.estimated_per_replica_capacity
      ∷ " RPS and safe capacity "
      ∷ format.fixed 2 a.safe_per_replica
      ∷ " RPS per serving replica"
      ∷ [])

  pub realized_evidence : TargetObservation F → PredictionAssessment F → String
  realized_evidence t a = concat (
      "requested replicas "
      ∷ decimal t.current_replicas
      ∷ "; Kubernetes Ready replicas "
      ∷ decimal a.ready_replicas
      ∷ "; effective serving replicas "
      ∷ decimal a.effective_serving_replicas
      ∷ "; realized current safe capacity "
      ∷ format.fixed 2 a.current_safe_capacity
      ∷ " requests/s = "
      ∷ format.fixed 2 a.safe_per_replica
      ∷ " per serving replica x "
      ∷ decimal a.effective_serving_replicas
      ∷ " traffic-bearing replicas"
      ∷ [])

  -- the trend's part of the evidence, before the rest
  pub trend_evidence : PredictionAssessment F → List String → List String
  trend_evidence a rest =
      when a.trend.has_trend
        (concat (
          "predictive-demand trend slope "
          ∷ format.signed 3 a.trend.slope
          ∷ " requests/s^2 across "
          ∷ format.rounded a.trend.span
          ∷ []))
        (when a.trend.has_fit
          (concat (
            "forecast quality "
            ∷ quality_text a.trend.quality
            ∷ " (R^2 "
            ∷ format.fixed 3 a.trend.r2
            ∷ ", normalized RMSE "
            ∷ format.fixed 3 a.trend.normalized_rmse
            ∷ ")"
            ∷ []))
          rest)

  pub outcome_evidence : PredictionAssessment F → List String
  outcome_evidence a =
      if a.accepted
      then "prediction accepted: forecast demand exceeds current safe capacity within the planning horizon"
        ∷ []
      else when (not (str_eq a.rejected_reason ""))
          (concat ("prediction rejected: " ∷ a.rejected_reason ∷ [])) []

  pub prediction_evidence : Snapshot F → PredictionAssessment F → F → List String
  prediction_evidence s a max_error_rate =
      let rates = s.target.request_rates in
      readiness_evidence_description F a.readiness
      ∷ when (metric_usable rates.request_rate)
          (concat (
            "stable target request rate "
            ∷ format.fixed 2 rates.request_rate.value
            ∷ " requests/s"
            ∷ []))
          (predictive_rate_evidence s.target.predictive_request_rate a.demand_window
            ∷ trend_evidence a (
                when (ltb_ℤ (pos 0) a.control_loop_allowance) (horizon_evidence a) (
                  when (has_forecast a)
                    (concat (
                      "forecast demand "
                      ∷ format.fixed 2 a.trend.request_rate
                      ∷ " requests/s at "
                      ∷ tenths F a.planning_horizon
                      ∷ "s planning horizon"
                      ∷ []))
                    (when a.has_safe_capacity (capacity_evidence s.target a) (
                      when a.has_current_capacity (realized_evidence s.target a) (
                        when (metric_usable rates.error_rate)
                          (concat (
                            "target error ratio "
                            ∷ format.fixed 4 rates.error_rate.value
                            ∷ "; healthy-capacity learning limit "
                            ∷ format.fixed 4 max_error_rate
                            ∷ []))
                          (outcome_evidence a)))))))
