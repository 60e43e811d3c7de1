-- ===== src/Capacity/Refinement.antt =====
-- `Analyze` meets its specification: the class and the component of complete evidence are those of
-- the specification, and any other evidence is uncertain.
use silver_leaf.Prelude.{
  true, false, ◌≡◌, ◌≢◌, refl, sym, leb_ℤ, ℤ, ◌∙◌, ◌||◌, not, Bool, String, List, [], ◌∷◌, All,
  keep, arith, Bool-cases, inl, inr, if◌then◌else◌, pos, ◌<ℤ◌,
}
use silver_leaf.Go.Error.{Result-cases}
use silver_leaf.Go.Float.{Float, Format, IsIeee, nought, finite_nonnegative, ◌≼◌}
use silver_leaf.Go.Order.{lt_of_not_le, is_nan-nought, le_of_not_lt, not_le_of_lt}
use silver_leaf.Observation.{DependencyObservation, Snapshot, effective_replica_count}
use silver_leaf.Observation.Validity.{rate_usable_number}
use silver_leaf.Capacity.Types.{Analysis, uncertain}
use silver_leaf.Capacity.Signals.{Scan, stopped, collected, uncertain_analysis, has_key, collect}
use silver_leaf.Capacity.Evidence.{
  healthy_analysis, target_analysis, blocked_analysis, dependency_analysis,
}
use silver_leaf.Capacity.Analyze.{
  target_is_saturated, attribute_roots, attribute, analyze_limits, analyze,
}
use silver_leaf.Capacity.Specification.{
  IsMeasured, IsComplete, is_root, class_of, component_of, class_of_roots, component_of_roots,
}
use silver_leaf.Capacity.Collected.{
  usable-eq-rate_usable, Finds, collect-Finds, root_candidates-eq-keep,
}

uncertain_analysis-class :
    (component reason : String) → (uncertain_analysis component reason).classification ≡ uncertain
unfolding uncertain_analysis
uncertain_analysis-class component reason = refl

of_not : (b : Bool) → not b ≡ false → b ≡ true
of_not b h = ground arith

all_of_test :
    (a b c : Bool) → (not a || not b || not c) ≡ false → (a ≡ true) × (b ≡ true) × (c ≡ true)
all_of_test a b c h = ground arith

positive_of_test : (n : ℤ) → leb_ℤ n (pos 0) ≡ false → pos 0 <ℤ n
positive_of_test n h = ground arith

-- What is left after a guard that returns an uncertain analysis.
guarded :
    (test : Bool) (component reason : String) (rest : Analysis)
    → (if test then uncertain_analysis component reason else rest).classification ≢ uncertain
    → (test ≡ false) × (rest.classification ≢ uncertain)
guarded true component reason rest h = absurd (h (uncertain_analysis-class component reason))
guarded false component reason rest h = (refl, h)

module _ {F : Type 0} ⦃fl : Float F⦄ ⦃format : Format F⦄ (laws : IsIeee F) where
  open laws use {lt-eq-not-le}

  or-false : (b : Bool) → (b || false) ≡ b
  or-false true = refl
  or-false false = refl

  attribute_roots_lem :
      (s : Snapshot F) (roots : List (DependencyObservation F))
      → fl.lt s.slo_target_p95_milliseconds s.target.p95_latency.value ≡ true
      → ((attribute_roots s roots).classification ≡ class_of_roots roots)
        × ((attribute_roots s roots).component ≡ component_of_roots roots)
  unfolding attribute_roots uncertain_analysis blocked_analysis dependency_analysis
  attribute_roots_lem s [] above = rw above (refl, refl)
  attribute_roots_lem s (d ∷ []) above = ground arith
  attribute_roots_lem s (d ∷ e ∷ ds) above = (refl, refl)

  -- What the end of `Analyze` makes of the first loop's outcome.
  attribute_lem :
      (s : Snapshot F) (scan : Scan)
      → IsComplete s
      → Finds s.dependencies [] scan
      → ((attribute s scan).classification ≡ class_of s)
        × ((attribute s scan).component ≡ component_of s)
  unfolding attribute has_key target_is_saturated healthy_analysis target_analysis
  attribute_lem s (stopped analysis) c (e, missing) = absurd (missing c.dependencies)
  attribute_lem s (collected keys) c (all, at) =
      let number = rate_usable_number s.target.p95_latency c.latency in
      let slo_number : fl.is_nan s.slo_target_p95_milliseconds ≡ false = ground (arith, c.slo) in
      let roots =
        root_candidates-eq-keep s.dependencies s.dependencies keys (λ name. at name ∙ or-false _) in
      let above =
        lt_of_not_le laws s.target.p95_latency.value s.slo_target_p95_milliseconds number.0
          slo_number in
      let class = attribute_roots_lem s (keep (is_root s.dependencies) s.dependencies) in
      rw roots (elim (Bool-cases (fl.le s.target.p95_latency.value s.slo_target_p95_milliseconds)) [
        | inl e ↦ rw e (refl, refl)
        | inr e ↦ rw (e, above e) (ground (arith, class (above e)))
      ])

  analyze_limits_complete :
      (s : Snapshot F) → IsComplete s → analyze_limits s ≡ attribute s (collect s.dependencies [])
  unfolding analyze_limits
  analyze_limits_complete s c =
      let positive = not_le_of_lt laws nought s.target.safe_operating_occupancy c.safe_positive in
      let safe_number : fl.is_nan s.target.safe_operating_occupancy ≡ false =
        ground (arith, c.safe) in
      let physical_number : fl.is_nan s.target.physical_concurrency_limit ≡ false =
        ground (arith, c.physical) in
      let ordered =
        lt-eq-not-le s.target.physical_concurrency_limit s.target.safe_operating_occupancy
          physical_number safe_number in
      rw (c.safe, c.physical, positive, ordered, c.safe_le_physical) (ground (arith, c.ready))

  analyze_complete :
      (s : Snapshot F) → IsComplete s → analyze s ≡ attribute s (collect s.dependencies [])
  unfolding analyze
  analyze_complete s c =
      let latency = usable-eq-rate_usable s.target.p95_latency ∙ c.latency in
      let hottest = usable-eq-rate_usable s.target.hottest_replica_occupancy ∙ c.hottest in
      let serving = usable-eq-rate_usable s.target.effective_serving_replicas ∙ c.serving in
      rw (c.slo, latency, hottest, serving, c.count.1) (analyze_limits_complete s c)

  -- With floats that meet the IEEE laws: complete evidence is classified as the specification says,
  -- and attributed to its component.
  pub analyze-class_of :
      (s : Snapshot F)
      → IsComplete s
      → ((analyze s).classification ≡ class_of s) × ((analyze s).component ≡ component_of s)
  analyze-class_of s c =
      rw (analyze_complete s c)
        (attribute_lem s (collect s.dependencies []) c (collect-Finds s.dependencies []))

  attribute-measured :
      (s : Snapshot F) (scan : Scan)
      → Finds s.dependencies [] scan
      → (attribute s scan).classification ≢ uncertain
      → All IsMeasured s.dependencies
  unfolding attribute
  attribute-measured s (stopped analysis) (e, missing) h = absurd (h e)
  attribute-measured s (collected keys) (all, at) h = all

  limits_of_test :
      (safe physical : F)
      → (not (finite_nonnegative safe)
          || fl.le safe nought
          || not (finite_nonnegative physical)
          || fl.lt physical safe)
        ≡ false
      → (finite_nonnegative safe ≡ true)
        × (fl.lt nought safe ≡ true)
        × (finite_nonnegative physical ≡ true)
        × (safe ≼ physical)
  limits_of_test safe physical h =
      ground
        (arith, lt_of_not_le laws safe nought, is_nan-nought laws, le_of_not_lt laws physical safe)

  analyze_limits-measured :
      (s : Snapshot F)
      → (analyze_limits s).classification ≢ uncertain
      → (pos 0 <ℤ s.target.ready_replicas)
        × (finite_nonnegative s.target.safe_operating_occupancy ≡ true)
        × (fl.lt nought s.target.safe_operating_occupancy ≡ true)
        × (finite_nonnegative s.target.physical_concurrency_limit ≡ true)
        × (s.target.safe_operating_occupancy ≼ s.target.physical_concurrency_limit)
        × All IsMeasured s.dependencies
  unfolding analyze_limits
  analyze_limits-measured s h =
      let first = guarded _ _ _ _ h in
      let second = guarded _ _ _ _ first.1 in
      let limits =
        limits_of_test s.target.safe_operating_occupancy s.target.physical_concurrency_limit
          second.0 in
      let all =
        attribute-measured s (collect s.dependencies []) (collect-Finds s.dependencies [])
          second.1 in
      (positive_of_test _ first.0, limits.0, limits.1, limits.2, limits.3, all)

  -- With floats that meet the IEEE laws: every other class than `uncertain` rests on complete evidence.
  pub analyze-IsComplete : (s : Snapshot F) → (analyze s).classification ≢ uncertain → IsComplete s
  unfolding analyze
  analyze-IsComplete s h =
      let first = guarded _ _ _ _ h in
      let second = guarded _ _ _ _ first.1 in
      elim (Result-cases
        (effective_replica_count s.target.effective_serving_replicas s.target.ready_replicas)) [
          | inr (message, e) ↦
              absurd (rw e at (second.1) (uncertain_analysis-class "target" message))
          | inl (n, e) ↦
              let limits = analyze_limits-measured s (rw e at (second.1)) in
              let usable_metrics = all_of_test _ _ _ second.0 in
              record {
                slo = of_not _ first.0;
                latency = sym (usable-eq-rate_usable s.target.p95_latency) ∙ usable_metrics.0;
                hottest =
                    sym (usable-eq-rate_usable s.target.hottest_replica_occupancy)
                    ∙ usable_metrics.1;
                serving =
                    sym (usable-eq-rate_usable s.target.effective_serving_replicas)
                    ∙ usable_metrics.2;
                count = (n, e);
                ready = limits.0;
                safe = limits.1;
                safe_positive = limits.2;
                physical = limits.3;
                safe_le_physical = limits.4;
                dependencies = limits.5;
              }
        ]
