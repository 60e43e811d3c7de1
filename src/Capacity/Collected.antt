-- ===== src/Capacity/Collected.antt =====
-- What the two loops over the dependencies find, in the words of the specification.
use silver_leaf.Prelude.{
  true, false, ◌≡◌, refl, ◌∙◌, ◌||◌, Bool, String, List, [], ◌∷◌, All, keep, arith, Bool-cases, inl,
  inr, ◌&&◌, not, if◌then◌else◌,
}
use silver_leaf.Go.Float.{Float, Format, finite_nonnegative}
use silver_leaf.Observation.{Metric, DependencyObservation, rate_usable}
use silver_leaf.Capacity.Types.{uncertain}
use silver_leaf.Capacity.Signals.{
  latency_exceeded, utilization_exceeded, Scan, stopped, collected, has_key, usable, collect,
  is_explained, root_candidates,
}
use silver_leaf.Capacity.Specification.{IsMeasured, exceeds, is_saturated, is_root}

module _ {F : Type 0} ⦃fl : Float F⦄ where
  -- The analyzer's test on a metric is that of package observation.
  pub usable-eq-rate_usable : (metric : Metric F) → usable metric ≡ rate_usable metric
  unfolding usable rate_usable
  usable-eq-rate_usable metric = ground arith

  measured :
      (d : DependencyObservation F)
      → (usable d.p95_latency && usable d.utilization) ≡ true
      → (finite_nonnegative d.latency_threshold && finite_nonnegative d.utilization_threshold)
        ≡ true
      → IsMeasured d
  measured d u t =
      ground (arith, usable-eq-rate_usable d.p95_latency, usable-eq-rate_usable d.utilization)

negated : (a b : Bool) → (a && b) ≡ false → (not a || not b) ≡ true
negated a b h = ground arith

affirmed : (a b : Bool) → (a && b) ≡ true → (not a || not b) ≡ false
affirmed a b h = ground arith

module _ {F : Type 0} ⦃fl : Float F⦄ ⦃format : Format F⦄ where
  -- the keys that the first loop adds to those it started with
  abbrev pub Finds : List (DependencyObservation F) → List String → Scan → Type 0
  Finds ds keys (stopped analysis) = (analysis.classification ≡ uncertain) × ¬ All IsMeasured ds
  Finds ds keys (collected found) =
      All IsMeasured ds
      × ((name : String) → has_key name found ≡ (is_saturated ds name || has_key name keys))

  extend :
      (d : DependencyObservation F) (ds : List (DependencyObservation F)) (keys : List String)
      → IsMeasured d
      → (scan : Scan) → Finds ds (if exceeds d then d.name ∷ keys else keys) scan
      → Finds (d ∷ ds) keys scan
  unfolding has_key is_saturated
  extend d ds keys m (stopped analysis) (e, missing) = (e, λ all. missing all.1)
  extend d ds keys m (collected found) (all, at) = ((m, all), λ name. at name ∙ regroup name)
    where
      regroup :
          (name : String)
          → (is_saturated ds name || has_key name (if exceeds d then d.name ∷ keys else keys))
            ≡ (is_saturated (d ∷ ds) name || has_key name keys)
      regroup name = elim (Bool-cases (exceeds d)) [
        | inl e ↦ rw e (ground arith)
        | inr e ↦ rw e (ground arith)
      ]

  pub collect-Finds :
      (ds : List (DependencyObservation F)) (keys : List String) → Finds ds keys (collect ds keys)
  unfolding collect has_key is_saturated
  collect-Finds [] keys = (tt, λ name. refl)
  collect-Finds (d ∷ ds) keys =
      let step = if exceeds d then d.name ∷ keys else keys in
      let rest : Finds ds step (collect ds step) = collect-Finds ds step in
      elim (Bool-cases (usable d.p95_latency && usable d.utilization)) [
        | inr bad ↦ rw (negated _ _ bad) (
          refl,
          λ all.
              ground
                (arith, usable-eq-rate_usable d.p95_latency, usable-eq-rate_usable d.utilization),
        )
        | inl good ↦
            elim (Bool-cases (
              finite_nonnegative d.latency_threshold
              && finite_nonnegative d.utilization_threshold)) [
                | inr bad ↦ rw (affirmed _ _ good, negated _ _ bad) (refl, λ all. ground arith)
                | inl fine ↦
                    rw (affirmed _ _ good, affirmed _ _ fine)
                      (unfold latency_exceeded utilization_exceeded in
                        extend d ds keys (measured d good fine) (collect ds step) rest)
              ]
      ]

  pub root_candidates-eq-keep :
      (all ds : List (DependencyObservation F)) (keys : List String)
      → ((name : String) → has_key name keys ≡ is_saturated all name)
      → root_candidates keys ds ≡ keep (is_root all) ds
  unfolding root_candidates is_explained
  root_candidates-eq-keep all [] keys same = refl
  root_candidates-eq-keep all (d ∷ ds) keys same =
      rw (same d.name, same d.depends_on, root_candidates-eq-keep all ds keys same) (ground arith)
