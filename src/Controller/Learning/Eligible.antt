-- ===== src/Controller/Learning/Eligible.antt =====
-- What is known when a sample of capacity may be learned.
use silver_leaf.Prelude.{
  ℤ, pos, ◌<ℤ◌, eq_of_parts, false, none, List, [], ◌∷◌, All, keep, ◌≡◌, ◌≢◌, inl, inr, arith, sym,
  true, ap, ◌∙◌,
}
use silver_leaf.Go.Error.{Result-cases, ok}
use silver_leaf.Go.Float.{Float, Format, IsIeee, nought, finite, ◌≼◌}
use silver_leaf.Observation.{
  DependencyObservation, TargetObservation, Snapshot, effective_replica_count,
}
use silver_leaf.Capacity.Types.{Analysis, healthy, uncertain}
use silver_leaf.Capacity.Specification.{IsComplete, exceeds, is_root, class_of, class_of_roots}
use silver_leaf.Capacity.Analyze.{analyze}
use silver_leaf.Capacity.Refinement.{analyze-class_of, analyze-IsComplete}
use silver_leaf.Controller.Learning.{
  dependencies_healthy, replicas_error, telemetry_error, metric_usable, load_error, load_floor,
  capacity_sample_eligibility,
}

module _ {F : Type 0} ⦃fl : Float F⦄ where
  class_of_roots-healthy : (ds : List (DependencyObservation F)) → class_of_roots ds ≢ healthy
  class_of_roots-healthy [] e = ground arith
  class_of_roots-healthy (d ∷ []) e = ground arith
  class_of_roots-healthy (d ∷ e' ∷ ds) e = ground arith

  -- The specification calls a service healthy only within its SLO.
  class_of-healthy :
      (s : Snapshot F)
      → class_of s ≡ healthy
      → s.target.p95_latency.value ≼ s.slo_target_p95_milliseconds
  class_of-healthy s h =
      let roots = class_of_roots-healthy (keep (is_root s.dependencies) s.dependencies) in
      ground arith

  -- The target's samples are usable and below the limits of learning, the load is high enough, and every
  -- requested replica is Ready and serves.
  pub record IsLearnable (t : TargetObservation F) (max_error_rate : F) (ready : ℤ) : Type 0 where
    pub hottest_usable : metric_usable t.hottest_replica_occupancy ≡ true
    pub boundary :
        (finite t.safe_operating_occupancy ≡ true)
        × (fl.le t.safe_operating_occupancy nought ≡ false)
    pub aggregate_usable : metric_usable t.aggregate_slot_occupancy ≡ true
    pub requests_usable : metric_usable t.request_rates.request_rate ≡ true
    pub successes_usable : metric_usable t.request_rates.successful_request_rate ≡ true
    pub errors_usable : metric_usable t.request_rates.error_rate ≡ true
    pub below : fl.le t.safe_operating_occupancy t.hottest_replica_occupancy.value ≡ false
    pub loaded : fl.le t.aggregate_slot_occupancy.value nought ≡ false
    pub error_rate : fl.lt max_error_rate t.request_rates.error_rate.value ≡ false
    pub ready_pos : pos 0 <ℤ ready
    pub all_ready : ready ≡ t.ready_replicas
    pub all_current : ready ≡ t.current_replicas
    pub all_serve : effective_replica_count t.effective_serving_replicas ready ≡ ok ready
    pub busy :
        fl.lt
          (fl.div t.aggregate_slot_occupancy.value (fl.of_int ready))
          (fl.mul t.safe_operating_occupancy (fl.literal 3 1))
        ≡ false

module _ {F : Type 0} ⦃fl : Float F⦄ ⦃format : Format F⦄ where
  dependencies_healthy-All :
      (ds : List (DependencyObservation F))
      → dependencies_healthy ds ≡ none
      → All (λ d. exceeds d ≡ false) ds
  unfolding dependencies_healthy
  dependencies_healthy-All [] h = tt
  dependencies_healthy-All (d ∷ ds) h = (ground arith, dependencies_healthy-All ds (ground arith))

  replicas_error-none :
      (t : TargetObservation F) (ready : ℤ)
      → replicas_error t ready ≡ none
      → (pos 0 <ℤ ready)
        × (ready ≡ t.ready_replicas)
        × (ready ≡ t.current_replicas)
        × (effective_replica_count t.effective_serving_replicas ready ≡ ok ready)
        × (fl.lt
              (fl.div t.aggregate_slot_occupancy.value (fl.of_int ready))
              (fl.mul t.safe_operating_occupancy (fl.literal 3 1))
            ≡ false)
  unfolding replicas_error load_error load_floor
  replicas_error-none t ready h =
      elim (Result-cases (effective_replica_count t.effective_serving_replicas ready)) [
        | inr (message, e) ↦ ground arith
        | inl (n, e) ↦
            let same : n ≡ ready = eq_of_parts n ready (ground arith) in
            let light : fl.lt (fl.div t.aggregate_slot_occupancy.value (fl.of_int n)) (load_floor t)
                ≡ false =
              ground arith in
            (
              ground arith,
              eq_of_parts ready t.ready_replicas (ground arith),
              eq_of_parts ready t.current_replicas (ground arith),
              e ∙ ap (λ k. ok k) same,
              rw (← same) light,
            )
      ]

  telemetry_error-none :
      (t : TargetObservation F) (max_error_rate : F)
      → telemetry_error t max_error_rate ≡ none
      → (fl.le t.safe_operating_occupancy t.hottest_replica_occupancy.value ≡ false)
        × (fl.le t.aggregate_slot_occupancy.value nought ≡ false)
        × (fl.lt max_error_rate t.request_rates.error_rate.value ≡ false)
        × (metric_usable t.hottest_replica_occupancy ≡ true)
        × (finite t.safe_operating_occupancy ≡ true)
        × (fl.le t.safe_operating_occupancy nought ≡ false)
        × (metric_usable t.aggregate_slot_occupancy ≡ true)
        × (metric_usable t.request_rates.request_rate ≡ true)
        × (metric_usable t.request_rates.successful_request_rate ≡ true)
        × (metric_usable t.request_rates.error_rate ≡ true)
  unfolding telemetry_error
  telemetry_error-none t max_error_rate h = ground arith

  eligibility-gates :
      (s : Snapshot F) (analysis : Analysis) (max_error_rate : F) (ready : ℤ)
      → capacity_sample_eligibility s analysis max_error_rate ready ≡ none
      → (analysis.classification ≡ healthy)
        × (dependencies_healthy s.dependencies ≡ none)
        × (telemetry_error s.target max_error_rate ≡ none)
        × (replicas_error s.target ready ≡ none)
  unfolding capacity_sample_eligibility
  eligibility-gates s analysis max_error_rate ready h = ground arith

  eligibility-IsLearnable :
      (t : TargetObservation F) (max_error_rate : F) (ready : ℤ)
      → telemetry_error t max_error_rate ≡ none
      → replicas_error t ready ≡ none
      → IsLearnable t max_error_rate ready
  eligibility-IsLearnable t max_error_rate ready telemetry replicas =
      let a = telemetry_error-none t max_error_rate telemetry in
      let b = replicas_error-none t ready replicas in
      record {
        hottest_usable = a.3;
        boundary = (a.4, a.5);
        aggregate_usable = a.6;
        requests_usable = a.7;
        successes_usable = a.8;
        errors_usable = a.9;
        below = a.0;
        loaded = a.1;
        error_rate = a.2;
        ready_pos = b.0;
        all_ready = b.1;
        all_current = b.2;
        all_serve = b.3;
        busy = b.4;
      }

  -- With floats that meet the IEEE laws: where a sample of capacity may be learned from a snapshot and
  -- the analysis of it, the evidence is complete, the target is within its SLO, no dependency exceeds
  -- a threshold, occupancies and rates are usable, the hottest replica is below the safe occupancy,
  -- the error rate is within the limit, the slots that are held come to at least 30% of that occupancy
  -- on each replica, and every requested replica is Ready and serves traffic.
  pub capacity_sample_eligibility_sound :
      IsIeee F
      → (s : Snapshot F) (max_error_rate : F) (ready : ℤ)
      → capacity_sample_eligibility s (analyze s) max_error_rate ready ≡ none
      → IsComplete s
        × (s.target.p95_latency.value ≼ s.slo_target_p95_milliseconds)
        × All (λ d. exceeds d ≡ false) s.dependencies
        × IsLearnable s.target max_error_rate ready
  capacity_sample_eligibility_sound laws s max_error_rate ready h =
      let gates = eligibility-gates s (analyze s) max_error_rate ready h in
      let certain : (analyze s).classification ≢ uncertain = rw (gates.0) (λ e. ground arith) in
      let complete = analyze-IsComplete laws s certain in
      let class = sym (analyze-class_of laws s complete).0 ∙ gates.0 in
      (
        complete,
        class_of-healthy s class,
        dependencies_healthy-All s.dependencies gates.1,
        eligibility-IsLearnable s.target max_error_rate ready gates.2 gates.3,
      )
