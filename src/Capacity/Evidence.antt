-- ===== src/Capacity/Evidence.antt =====
-- internal/capacity/analyzer.go: the analyses that `Analyze` returns, with their texts.
use silver_leaf.Prelude.{String, List, [], ◌∷◌, ◌++◌, str_eq, concat, join, if◌then◌else◌}
use silver_leaf.Go.Float.{Float, Format}
use silver_leaf.Observation.{DependencyObservation, Snapshot}
use silver_leaf.Capacity.Types.{
  Confidence, Analysis, healthy, target_saturated, dependency_saturated, capacity_blocked, medium,
  high,
}
use silver_leaf.Capacity.Signals.{latency_exceeded, utilization_exceeded}

-- `quoted` is `%q`
pub upstream_evidence : (String → String) → String → List String → List String
upstream_evidence quoted name [] = []
upstream_evidence quoted name (u ∷ us) =
    concat (
      "dependency "
      ∷ quoted u
      ∷ " depends on "
      ∷ quoted name
      ∷ "; its latency is downstream evidence"
      ∷ [])
    ∷ upstream_evidence quoted name us

pub upstream_clause : (String → String) → List String → String
upstream_clause quoted [] = ""
upstream_clause quoted (u ∷ us) = concat (
    ", and scaling upstream dependency "
    ∷ quoted (join ", " (u ∷ us))
    ∷ " would not add database capacity"
    ∷ [])

module _ {F : Type 0} ⦃fl : Float F⦄ ⦃format : Format F⦄ where
  pub within_slo : Snapshot F → String
  within_slo s = concat (
      "target p95 "
      ∷ format.fixed 2 s.target.p95_latency.value
      ∷ "ms is within SLO "
      ∷ format.fixed 2 s.slo_target_p95_milliseconds
      ∷ "ms"
      ∷ [])

  -- an analysis that is healthy for the given reason
  unfoldable pub healthy_analysis : Snapshot F → String → Analysis
  healthy_analysis s reason = record {
    classification = healthy;
    component = "target";
    evidence = within_slo s ∷ [];
    rejected_actions = [];
    reason = reason;
    confidence = high;
  }

  unfoldable pub target_analysis : Snapshot F → Analysis
  target_analysis s = record {
    classification = target_saturated;
    component = "target";
    evidence =
        concat (
          "target p95 "
          ∷ format.fixed 2 s.target.p95_latency.value
          ∷ "ms exceeds SLO "
          ∷ format.fixed 2 s.slo_target_p95_milliseconds
          ∷ "ms"
          ∷ [])
        ∷ concat (
            "hottest traffic-bearing target replica holds "
            ∷ format.fixed 2 s.target.hottest_replica_occupancy.value
            ∷ " concurrency slots, at or above safe operating boundary "
            ∷ format.fixed 2 s.target.safe_operating_occupancy
            ∷ " (physical limit "
            ∷ format.fixed 2 s.target.physical_concurrency_limit
            ∷ ")"
            ∷ [])
        ∷ [];
    rejected_actions = [];
    reason = "target latency is above SLO and target saturation evidence is present";
    confidence = high;
  }

  -- the evidence of the one root: a line for each signal that exceeds its threshold
  pub root_evidence : DependencyObservation F → List String
  root_evidence d =
      (if latency_exceeded d
        then concat (
            "dependency "
            ∷ format.quoted d.name
            ∷ " latency "
            ∷ format.fixed 2 d.p95_latency.value
            ∷ "ms exceeds threshold "
            ∷ format.fixed 2 d.latency_threshold
            ∷ "ms"
            ∷ [])
          ∷ []
        else [])
      ++ (if utilization_exceeded d
          then concat (
              "dependency "
              ∷ format.quoted d.name
              ∷ " utilization "
              ∷ format.fixed 2 d.utilization.value
              ∷ " exceeds threshold "
              ∷ format.fixed 2 d.utilization_threshold
              ∷ [])
            ∷ []
          else [])

  -- one signal alone gives medium confidence
  unfoldable pub root_confidence : DependencyObservation F → Confidence
  unfolding latency_exceeded utilization_exceeded
  root_confidence d =
      if latency_exceeded d
      then (if utilization_exceeded d then high else medium)
      else (if utilization_exceeded d then medium else high)

  -- the names of the components that depend on `name`
  pub upstream : String → List (DependencyObservation F) → List String
  upstream name [] = []
  upstream name (d ∷ ds) =
      if str_eq d.depends_on name then d.name ∷ upstream name ds else upstream name ds

  pub blocked_evidence : Snapshot F → DependencyObservation F → List String
  blocked_evidence s d =
      concat ("dependency " ∷ format.quoted d.name ∷ " is configured non-scalable" ∷ [])
      ∷ ((if fl.lt s.target.hottest_replica_occupancy.value s.target.safe_operating_occupancy
            then concat (
                "hottest traffic-bearing target replica occupancy "
                ∷ format.fixed 2 s.target.hottest_replica_occupancy.value
                ∷ " is below safe operating boundary "
                ∷ format.fixed 2 s.target.safe_operating_occupancy
                ∷ [])
              ∷ []
            else [])
          ++ upstream_evidence format.quoted d.name (upstream d.name s.dependencies))

  pub target_name : Snapshot F → String
  target_name s = if str_eq s.target.name "" then "target" else s.target.name

  unfoldable pub blocked_analysis : Snapshot F → DependencyObservation F → Analysis
  blocked_analysis s d = record {
    classification = capacity_blocked;
    component = d.name;
    evidence = root_evidence d ++ blocked_evidence s d;
    rejected_actions =
        concat (
          "SCALE_TARGET: target "
          ∷ format.quoted (target_name s)
          ∷ " is not locally saturated"
          ∷ [])
        ∷ concat (
            "SCALE_DEPENDENCY: bottleneck dependency "
            ∷ format.quoted d.name
            ∷ " is non-scalable"
            ∷ [])
        ∷ [];
    reason = concat (
        "capacity is blocked by non-scalable dependency "
        ∷ format.quoted d.name
        ∷ "; target "
        ∷ format.quoted (target_name s)
        ∷ " is not locally saturated"
        ∷ upstream_clause format.quoted (upstream d.name s.dependencies)
        ∷ "; adding target replicas would not relieve the database bottleneck"
        ∷ []);
    confidence = root_confidence d;
  }

  unfoldable pub dependency_analysis : DependencyObservation F → Analysis
  dependency_analysis d = record {
    classification = dependency_saturated;
    component = d.name;
    evidence = root_evidence d;
    rejected_actions = [];
    reason = join "; " (root_evidence d);
    confidence = root_confidence d;
  }
