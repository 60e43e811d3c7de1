-- ===== src/Policy/Bottleneck/Outcome.antt =====
-- The component that `EvaluateCapacity` scales, and what its decision looks like with and without a
-- change of the count.
use silver_leaf.Prelude.{
  pos, ◌+ℤ◌, ◌≤ℤ◌, ◌<ℤ◌, subst, eq_ℤ, true, false, some, ◌≡◌, ◌⊎◌, arith, Option-cases, Bool-cases,
  inl, inr, str_eq, if◌then◌else◌, refl,
}
use silver_leaf.Go.Int32.{max_int32}
use silver_leaf.Go.Float.{Float, Format}
use silver_leaf.Capacity.Types.{
  Classification, healthy, target_saturated, dependency_saturated, capacity_blocked,
}
use silver_leaf.Policy.Types.{
  ComponentInput, CapacityDecision, scale_target, scale_dependency, hold, protected_mode,
}
use silver_leaf.Policy.Component.{
  IsValid, validate_component, validate_component-eq-none, cooldown_active, step_up, step_up_range,
  step_up-reached,
}
use silver_leaf.Policy.Bottleneck.{
  CapacityInput, hold_blocked, scale_component, scale_candidate, scale_saturated_dependency, decide,
  evaluate_target,
}

-- a decision that leaves the count of its component alone
pub record Stays (F : Type 0) (d : CapacityDecision F) : Type 0 where
  pub unchanged : d.desired_replicas ≡ d.current_replicas
  pub inactive : (d.action ≡ hold) ⊎ (d.action ≡ protected_mode)

-- A decision that raises the count of a component: to one step up, or to its maximum if that is less.
pub record Steps (F : Type 0) (i : CapacityInput) (c : ComponentInput) (d : CapacityDecision F)
    : Type 0 where
  pub action : d.action ≡ (if str_eq c.name i.target.name then scale_target else scale_dependency)
  pub component : d.chosen_component ≡ c.name
  pub current : d.current_replicas ≡ c.current_replicas
  pub more : c.current_replicas <ℤ d.desired_replicas
  pub le_max : d.desired_replicas ≤ℤ c.max_replicas
  pub le_step : d.desired_replicas ≤ℤ c.current_replicas +ℤ i.max_scale_up_step
  pub reached :
      (d.desired_replicas ≡ c.max_replicas)
      ⊎ (d.desired_replicas ≡ c.current_replicas +ℤ i.max_scale_up_step)

-- a decision that scales a component to what `step_up` gives, which is no raise where that overflows
pub record Scales (F : Type 0) (i : CapacityInput) (c : ComponentInput) (d : CapacityDecision F)
    : Type 0 where
  pub action : d.action ≡ (if str_eq c.name i.target.name then scale_target else scale_dependency)
  pub component : d.chosen_component ≡ c.name
  pub current : d.current_replicas ≡ c.current_replicas
  pub desired : d.desired_replicas ≡ step_up c.current_replicas i.max_scale_up_step c.max_replicas
  pub moved : eq_ℤ d.desired_replicas d.current_replicas ≡ false

module _ {F : Type 0} ⦃fl : Float F⦄ where
  hold_blocked-Stays : (i : CapacityInput) → Stays F (hold_blocked i)
  unfolding hold_blocked
  hold_blocked-Stays i = ground arith

  scale_component-cases :
      (i : CapacityInput) (c : ComponentInput)
      → Stays F (scale_component i c) ⊎ Scales F i c (scale_component i c)
  unfolding scale_component
  scale_component-cases i c =
      elim (Bool-cases
        (eq_ℤ (step_up c.current_replicas i.max_scale_up_step c.max_replicas) c.current_replicas)) [
          | inl e ↦ rw e (inl (record { unchanged = refl; inactive = inl refl }))
          | inr e ↦ rw e (
              inr (record {
                action = refl;
                component = refl;
                current = refl;
                desired = refl;
                moved = e;
              }))
        ]

-- what licenses `EvaluateCapacity` to scale a component: a saturated target, or a saturated
-- dependency that is configured and scalable; valid bounds; and no cooldown
pub record MayScale (i : CapacityInput) (c : ComponentInput) : Type 0 where
  pub target_valid : IsValid i.target i.max_scale_up_step i.max_scale_down_step
  pub idle : cooldown_active i.last_scale_time i.cooldown i.now ≡ false
  pub licensed :
      ((i.analysis.classification ≡ target_saturated) × (c ≡ i.target))
      ⊎ ((i.analysis.classification ≡ dependency_saturated)
          × (i.dependencies i.analysis.component ≡ some c)
          × (c.scalable ≡ true))
  pub valid : IsValid c i.max_scale_up_step i.max_scale_down_step

abbrev pub Sound : (F : Type 0) → CapacityInput → CapacityDecision F → Type 0
Sound F i d = Stays F d ⊎ ((c : ComponentInput) × MayScale i c × Scales F i c d)

module _ {F : Type 0} ⦃fl : Float F⦄ ⦃format : Format F⦄ where
  scale_component-Sound :
      (i : CapacityInput) (c : ComponentInput) → MayScale i c → Sound F i (scale_component i c)
  scale_component-Sound i c may = elim (scale_component-cases i c) [
    | inl stays ↦ inl stays
    | inr scales ↦ inr (c, may, scales)
  ]

  -- What holds where the classification is acted on: the target is valid and no cooldown is active.
  module _ (i : CapacityInput) (t : IsValid i.target i.max_scale_up_step i.max_scale_down_step)
      (idle : cooldown_active i.last_scale_time i.cooldown i.now ≡ false) where
    candidate-Sound :
        (c : ComponentInput)
        → i.analysis.classification ≡ dependency_saturated
        → i.dependencies i.analysis.component ≡ some c
        → Sound F i (scale_candidate i c)
    unfolding scale_candidate validate_component
    candidate-Sound c class found = elim (Bool-cases c.scalable) [
      | inr e ↦ rw e (inl (record { unchanged = refl; inactive = inr refl }))
      | inl e ↦
          elim (Option-cases (validate_component c i.max_scale_up_step i.max_scale_down_step)) [
            | inr (message, e') ↦
                rw (e, e', scale_candidate) (inl (record { unchanged = refl; inactive = inr refl }))
            | inl e' ↦
                let may : MayScale i c = record {
                  target_valid = t;
                  idle = idle;
                  licensed = inr (class, found, e);
                  valid = validate_component-eq-none c i.max_scale_up_step i.max_scale_down_step e';
                } in
                rw (e, e', scale_candidate) (scale_component-Sound i c may)
          ]
    ]

    dependency-Sound :
        i.analysis.classification ≡ dependency_saturated → Sound F i (scale_saturated_dependency i)
    dependency-Sound class = elim (Option-cases (i.dependencies i.analysis.component)) [
      | inl e ↦
          unfold scale_saturated_dependency in
          rw (e, scale_saturated_dependency)
            (inl (record { unchanged = refl; inactive = inr refl }))
      | inr (c, e) ↦
          unfold scale_saturated_dependency in
          rw (e, scale_saturated_dependency) (candidate-Sound c class e)
    ]

    target-Sound :
        i.analysis.classification ≡ target_saturated → Sound F i (scale_component i i.target)
    target-Sound class =
        scale_component-Sound i i.target
          (record { target_valid = t; idle = idle; licensed = inl (class, refl); valid = t })

  decide-Sound :
      (i : CapacityInput) (class : Classification)
      → i.analysis.classification ≡ class
      → IsValid i.target i.max_scale_up_step i.max_scale_down_step
      → Sound F i (decide i class)
  unfolding decide
  decide-Sound i capacity_blocked e t = inl (hold_blocked-Stays i)
  decide-Sound i healthy e t =
      elim (Bool-cases (cooldown_active i.last_scale_time i.cooldown i.now)) [
        | inl c ↦ rw c (inl (record { unchanged = refl; inactive = inl refl }))
        | inr c ↦ rw c (inl (record { unchanged = refl; inactive = inl refl }))
      ]
  decide-Sound i target_saturated e t =
      elim (Bool-cases (cooldown_active i.last_scale_time i.cooldown i.now)) [
        | inl c ↦ rw c (inl (record { unchanged = refl; inactive = inl refl }))
        | inr c ↦ rw c (target-Sound i t c e)
      ]
  decide-Sound i dependency_saturated e t =
      elim (Bool-cases (cooldown_active i.last_scale_time i.cooldown i.now)) [
        | inl c ↦ rw c (inl (record { unchanged = refl; inactive = inl refl }))
        | inr c ↦ rw c (dependency-Sound i t c e)
      ]
  decide-Sound i _ e t = elim (Bool-cases (cooldown_active i.last_scale_time i.cooldown i.now)) [
    | inl c ↦ rw c (inl (record { unchanged = refl; inactive = inl refl }))
    | inr c ↦ rw c (inl (record { unchanged = refl; inactive = inr refl }))
  ]

  pub evaluate_target-Sound : (i : CapacityInput) → Sound F i (evaluate_target i)
  unfolding evaluate_target
  evaluate_target-Sound i =
      elim (Option-cases (validate_component i.target i.max_scale_up_step i.max_scale_down_step)) [
        | inr (message, e) ↦
            rw (e, evaluate_target) (inl (record { unchanged = refl; inactive = inr refl }))
        | inl e ↦
            rw (e, evaluate_target)
              (decide-Sound i i.analysis.classification refl
                (validate_component-eq-none i.target i.max_scale_up_step i.max_scale_down_step e))
      ]

module _ {F : Type 0} where
  -- Without overflow, to scale a component is to raise its count.
  pub Scales-Steps :
      (i : CapacityInput) (c : ComponentInput) (d : CapacityDecision F)
      → IsValid c i.max_scale_up_step i.max_scale_down_step
      → d.current_replicas +ℤ i.max_scale_up_step ≤ℤ max_int32
      → Scales F i c d
      → Steps F i c d
  Scales-Steps i c d v fits s =
      let fits' : c.current_replicas +ℤ i.max_scale_up_step ≤ℤ max_int32 =
        subst (λ n. n +ℤ i.max_scale_up_step ≤ℤ max_int32) s.current fits in
      let start : pos 1 ≤ℤ c.current_replicas = omega (arith, v.min_pos, v.min_le) in
      let range =
        step_up_range c.current_replicas i.max_scale_up_step c.max_replicas v.up_pos start v.le_max
          fits' in
      let reached =
        step_up-reached c.current_replicas i.max_scale_up_step c.max_replicas start v.up_pos
          fits' in
      record {
        action = s.action;
        component = s.component;
        current = s.current;
        more =
            let moved = s.moved in let a = s.current in let b = s.desired in ground (arith, range);
        le_max = rw s.desired (range.1);
        le_step = rw s.desired (range.2);
        reached = rw s.desired reached;
      }
