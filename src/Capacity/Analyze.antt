-- ===== src/Capacity/Analyze.antt =====
-- internal/capacity/analyzer.go: `Analyze`.
use silver_leaf.Prelude.{pos, leb_ℤ, Bool, not, ◌&&◌, ◌||◌, List, [], ◌∷◌, if◌then◌else◌}
use silver_leaf.Go.Error.{ok, err}
use silver_leaf.Go.Float.{Float, Format, nought, finite_nonnegative}
use silver_leaf.Observation.{DependencyObservation, Snapshot, effective_replica_count}
use silver_leaf.Capacity.Types.{Analysis}
use silver_leaf.Capacity.Signals.{
  Scan, stopped, collected, uncertain_analysis, usable, metric_reason, collect, root_candidates,
}
use silver_leaf.Capacity.Evidence.{
  healthy_analysis, target_analysis, blocked_analysis, dependency_analysis,
}

module _ {F : Type 0} ⦃fl : Float F⦄ ⦃format : Format F⦄ where
  unfoldable pub target_is_saturated : Snapshot F → Bool
  target_is_saturated s =
      fl.lt s.slo_target_p95_milliseconds s.target.p95_latency.value
      && fl.le s.target.safe_operating_occupancy s.target.hottest_replica_occupancy.value

  -- the end of `Analyze`, for the list `rootCandidates`
  unfoldable pub attribute_roots : Snapshot F → List (DependencyObservation F) → Analysis
  attribute_roots s [] =
      if fl.lt s.slo_target_p95_milliseconds s.target.p95_latency.value
      then uncertain_analysis "target"
          "target SLO is violated but saturation evidence is incomplete"
      else healthy_analysis s "target and observed dependencies are within configured bounds"
  attribute_roots s (d ∷ []) =
      if not d.scalable then blocked_analysis s d else dependency_analysis d
  attribute_roots s (d ∷ e ∷ ds) =
      uncertain_analysis "multiple dependencies"
        "multiple independent dependencies show saturation evidence; bottleneck attribution is uncertain"

  -- `Analyze` after the loop over the dependencies
  unfoldable pub attribute : Snapshot F → Scan → Analysis
  attribute s (stopped analysis) = analysis
  attribute s (collected saturated) =
      if fl.le s.target.p95_latency.value s.slo_target_p95_milliseconds
      then healthy_analysis s "target SLO is currently satisfied"
      else if target_is_saturated s
      then target_analysis s
      else attribute_roots s (root_candidates saturated s.dependencies)

  unfoldable pub analyze_limits : Snapshot F → Analysis
  analyze_limits s =
      if leb_ℤ s.target.ready_replicas (pos 0)
      then uncertain_analysis "target"
          "target has no Kubernetes Ready replicas for capacity analysis"
      else if not (finite_nonnegative s.target.safe_operating_occupancy)
          || fl.le s.target.safe_operating_occupancy nought
          || not (finite_nonnegative s.target.physical_concurrency_limit)
          || fl.lt s.target.physical_concurrency_limit s.target.safe_operating_occupancy
      then uncertain_analysis "target"
          "target physical concurrency limit or safe operating occupancy is invalid"
      else attribute s (collect s.dependencies [])

  unfoldable pub analyze : Snapshot F → Analysis
  analyze s =
      let t = s.target in
      if not (finite_nonnegative s.slo_target_p95_milliseconds)
      then uncertain_analysis "invalid SLO target" "slo.targetP95Milliseconds is invalid"
      else if not (usable t.p95_latency)
          || not (usable t.hottest_replica_occupancy)
          || not (usable t.effective_serving_replicas)
      then uncertain_analysis "target" (
          metric_reason "target telemetry is incomplete"
            (t.p95_latency ∷ t.hottest_replica_occupancy ∷ t.effective_serving_replicas ∷ []))
      else elim (effective_replica_count t.effective_serving_replicas t.ready_replicas) [
        | err message ↦ uncertain_analysis "target" message
        | ok _ ↦ analyze_limits s
      ]
