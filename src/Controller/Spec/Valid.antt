-- ===== src/Controller/Spec/Valid.antt =====
-- What a specification that `validateSpec` accepts is known to satisfy, and that its bounds pass the
-- checks of the policy.
use silver_leaf.Prelude.{
  ℤ, pos, ◌≤ℤ◌, true, false, String, Option, none, some, List, [], ◌∷◌, str_eq, All, ◌≡◌, ◌⊎◌, inl,
  inr, refl, arith, Bool-cases,
}
use silver_leaf.Go.Float.{Float, Format, IsIeee, nought, finite, finite_nonnegative, ◌≼◌}
use silver_leaf.Go.Order.{lt-nought, le_of_not_lt, is_nan-of_int}
use silver_leaf.Api.{DependencySpec, PolicySpec, PredictionSpec, MetricSpec, OptiScalerSpec}
use silver_leaf.Capacity.Signals.{has_key}
use silver_leaf.Policy.Types.{ComponentInput}
use silver_leaf.Policy.Component.{validate_component, IsValid-eq-none}
use silver_leaf.Controller.Spec.{
  minimum_window, maximum_window, or_error, bad, policy_error, target_error, prediction_error,
  identity_error, bounds_error, dependencies_error, names, depends_on_error, slo_error,
  validate_spec,
}

-- The first error is none only if both are.
or_error-none : (a b : Option String) → or_error a b ≡ none → (a ≡ none) × (b ≡ none)
or_error-none none b h = (refl, h)
or_error-none (some e) b h = ground arith

module _ {F : Type 0} ⦃fl : Float F⦄ where
  pub record IsPolicy (p : PolicySpec F) : Type 0 where
    pub up : finite_nonnegative p.scale_up_threshold ≡ true
    pub down : finite_nonnegative p.scale_down_threshold ≡ true
    pub ordered : p.scale_down_threshold ≼ p.scale_up_threshold
    pub up_step : pos 1 ≤ℤ p.max_scale_up_step
    pub down_step : pos 1 ≤ℤ p.max_scale_down_step

  pub record IsPrediction (p : PredictionSpec F) : Type 0 where
    pub window_min : minimum_window ≤ℤ p.predictive_demand_window_seconds
    pub window_max : p.predictive_demand_window_seconds ≤ℤ maximum_window
    pub margin : finite p.safe_capacity_margin ≡ true
    pub margin_min : fl.literal 1 6 ≼ p.safe_capacity_margin
    pub margin_max : p.safe_capacity_margin ≼ fl.of_int (pos 1)
    pub error_rate : finite_nonnegative p.max_error_rate ≡ true
    pub error_rate_max : p.max_error_rate ≼ fl.of_int (pos 1)

  pub record IsDependency (target : String) (d : DependencySpec F) : Type 0 where
    pub min_pos : pos 1 ≤ℤ d.min_replicas
    pub min_le : d.min_replicas ≤ℤ d.max_replicas
    pub not_reserved : str_eq d.name "target" ≡ false
    pub not_target : str_eq d.scale_target_ref.name target ≡ false
    pub latency : finite_nonnegative d.thresholds.latency_milliseconds ≡ true
    pub utilization : finite_nonnegative d.thresholds.utilization ≡ true

  -- No dependency is named as one before it.
  abbrev pub Distinct : List String → List (DependencySpec F) → Type 0
  Distinct seen [] = Unit
  Distinct seen (d ∷ ds) = (has_key d.name seen ≡ false) × Distinct (d.name ∷ seen) ds

  -- A dependency depends on none, or on another one that is configured.
  abbrev pub IsLinked : List String → DependencySpec F → Type 0
  IsLinked all d =
      (str_eq d.depends_on "" ≡ true)
      ⊎ ((str_eq d.depends_on d.name ≡ false) × (has_key d.depends_on all ≡ true))

  module _ (laws : IsIeee F) where
    good_nonnegative : (x : F) → bad x nought ≡ false → finite_nonnegative x ≡ true
    good_nonnegative x h = ground (arith, lt-nought laws x)

    policy_error-IsPolicy : (p : PolicySpec F) → policy_error p ≡ none → IsPolicy p
    unfolding policy_error
    policy_error-IsPolicy p h = ground (
      arith,
      lt-nought laws p.scale_up_threshold,
      lt-nought laws p.scale_down_threshold,
      le_of_not_lt laws p.scale_up_threshold p.scale_down_threshold,
    )

  -- A resource whose bounds, thresholds, prediction and dependencies are in order.
  pub record IsValidSpec (s : OptiScalerSpec F) : Type 0 where
    pub min_pos : pos 1 ≤ℤ s.min_replicas
    pub min_le : s.min_replicas ≤ℤ s.max_replicas
    pub limit : finite s.metric.physical_concurrency_limit ≡ true
    pub limit_min : fl.of_int (pos 1) ≼ s.metric.physical_concurrency_limit
    pub slo : finite_nonnegative s.slo.target_p95_milliseconds ≡ true
    pub policy : IsPolicy s.policy
    pub prediction : (s.prediction.enabled ≡ false) ⊎ IsPrediction s.prediction
    pub distinct : Distinct [] s.dependencies
    pub dependencies : All (IsDependency s.scale_target_ref.name) s.dependencies
    pub linked : All (IsLinked (names s.dependencies)) s.dependencies

module _ {F : Type 0} ⦃fl : Float F⦄ ⦃format : Format F⦄ (laws : IsIeee F) where
  open laws use {finite-literal}

  target_error-bounds :
      (s : OptiScalerSpec F)
      → target_error s ≡ none
      → (pos 1 ≤ℤ s.min_replicas)
        × (s.min_replicas ≤ℤ s.max_replicas)
        × (finite s.metric.physical_concurrency_limit ≡ true)
        × (fl.of_int (pos 1) ≼ s.metric.physical_concurrency_limit)
  unfolding target_error
  target_error-bounds s h = ground (
    arith,
    is_nan-of_int laws (pos 1) (omega arith),
    le_of_not_lt laws s.metric.physical_concurrency_limit (fl.of_int (pos 1)),
  )

  prediction_error-IsPrediction :
      (m : MetricSpec F) (p : PredictionSpec F)
      → prediction_error m p ≡ none
      → (p.enabled ≡ false) ⊎ IsPrediction p
  unfolding prediction_error
  prediction_error-IsPrediction m p h = elim (Bool-cases p.enabled) [
    | inr e ↦ inl e
    | inl e ↦ inr (
        ground (
          arith,
          finite-literal 1 6 (omega arith),
          is_nan-of_int laws (pos 1) (omega arith),
          lt-nought laws p.max_error_rate,
          le_of_not_lt laws p.safe_capacity_margin (fl.literal 1 6),
          le_of_not_lt laws (fl.of_int (pos 1)) p.safe_capacity_margin,
          le_of_not_lt laws (fl.of_int (pos 1)) p.max_error_rate,
        ))
  ]

  bounds_error-IsDependency :
      (target : String) (seen : List String) (d : DependencySpec F)
      → identity_error seen d ≡ none
      → bounds_error target d ≡ none
      → (has_key d.name seen ≡ false) × IsDependency target d
  unfolding identity_error bounds_error
  bounds_error-IsDependency target seen d h k = ground (
    arith,
    lt-nought laws d.thresholds.latency_milliseconds,
    lt-nought laws d.thresholds.utilization,
  )

  dependencies_error-none :
      (target : String) (seen : List String) (ds : List (DependencySpec F))
      → dependencies_error target seen ds ≡ none
      → Distinct seen ds × All (IsDependency target) ds
  unfolding dependencies_error
  dependencies_error-none target seen [] h = (tt, tt)
  dependencies_error-none target seen (d ∷ ds) h =
      let first = or_error-none _ _ h in
      let second = or_error-none _ _ first.1 in
      let here = bounds_error-IsDependency target seen d first.0 second.0 in
      let rest = dependencies_error-none target (d.name ∷ seen) ds second.1 in
      ((here.0, rest.0), (here.1, rest.1))

  depends_on_error-none :
      (all : List String) (ds : List (DependencySpec F))
      → depends_on_error all ds ≡ none
      → All (IsLinked all) ds
  unfolding depends_on_error
  depends_on_error-none all [] h = tt
  depends_on_error-none all (d ∷ ds) h = (ground arith, depends_on_error-none all ds (ground arith))

  -- With floats that meet the IEEE laws, an accepted specification is valid: its replica bounds, its thresholds and steps, and its margins
  -- where prediction is enabled are in range; its dependencies have distinct names, valid bounds and
  -- thresholds, and depend on other configured dependencies only.
  pub validate_spec-IsValidSpec : (s : OptiScalerSpec F) → validate_spec s ≡ none → IsValidSpec s
  unfolding validate_spec slo_error
  validate_spec-IsValidSpec s h =
      let a = or_error-none _ _ h in
      let b = or_error-none _ _ a.1 in
      let c = or_error-none _ _ b.1 in
      let d = or_error-none _ _ c.1 in
      let e = or_error-none _ _ d.1 in
      let f = or_error-none _ _ e.1 in
      let bounds = target_error-bounds s a.0 in
      let dependencies = dependencies_error-none s.scale_target_ref.name [] s.dependencies f.0 in
      record {
        min_pos = bounds.0;
        min_le = bounds.1;
        limit = bounds.2;
        limit_min = bounds.3;
        slo = ground (arith, lt-nought laws s.slo.target_p95_milliseconds, c.0);
        policy = policy_error-IsPolicy laws s.policy d.0;
        prediction = prediction_error-IsPrediction s.metric s.prediction b.0;
        distinct = dependencies.0;
        dependencies = dependencies.1;
        linked = depends_on_error-none (names s.dependencies) s.dependencies f.1;
      }

  -- With floats that meet the IEEE laws, an accepted specification and a replica count within its bounds, the target passes the
  -- checks of the policy.
  pub validate_spec-validate_component :
      (s : OptiScalerSpec F) (name : String) (current : ℤ)
      → validate_spec s ≡ none
      → s.min_replicas ≤ℤ current
      → current ≤ℤ s.max_replicas
      → let target : ComponentInput = record {
        name = name;
        current_replicas = current;
        min_replicas = s.min_replicas;
        max_replicas = s.max_replicas;
        scalable = true;
      } in
        validate_component target s.policy.max_scale_up_step s.policy.max_scale_down_step ≡ none
  validate_spec-validate_component s name current h low high =
      let v = validate_spec-IsValidSpec s h in
      IsValid-eq-none _ s.policy.max_scale_up_step s.policy.max_scale_down_step (record {
        min_pos = v.min_pos;
        min_le = low;
        le_max = high;
        up_pos = v.policy.up_step;
        down_pos = v.policy.down_step;
      })
