-- ===== src/Policy/Bottleneck/Gates.antt =====
-- When `EvaluateCapacity` scales, which component, and by how much.
use silver_leaf.Prelude.{
  ◌+ℤ◌, ◌≤ℤ◌, ◌<ℤ◌, eq_ℤ, true, false, some, ◌≡◌, ◌⊎◌, arith, ap, sym, subst, ◌∙◌, inl, inr, refl,
}
use silver_leaf.Go.Int32.{max_int32}
use silver_leaf.Go.Float.{Float, Format}
use silver_leaf.Capacity.Types.{Classification, target_saturated, dependency_saturated, uncertain}
use silver_leaf.Policy.Types.{ComponentInput, CapacityDecision}
use silver_leaf.Policy.Component.{IsValid, IsValid-eq-none, cooldown_active, step_up, step_up-gt}
use silver_leaf.Policy.Bottleneck.{
  CapacityInput, scale_component, scale_candidate, scale_saturated_dependency, decide,
  evaluate_target, evaluate_class, evaluate_capacity,
}
use silver_leaf.Policy.Bottleneck.Outcome.{
  Stays, Scales, Steps, Scales-Steps, MayScale, Sound, evaluate_target-Sound,
}

module _ {F : Type 0} ⦃fl : Float F⦄ ⦃format : Format F⦄ where
  evaluate_class-Sound :
      (i : CapacityInput) (class : Classification) → Sound F i (evaluate_class i class)
  unfolding evaluate_class
  evaluate_class-Sound i uncertain = inl (record { unchanged = refl; inactive = inr refl })
  evaluate_class-Sound i _ = evaluate_target-Sound i

  -- Every decision leaves the count of its component alone, or scales a component that may be scaled.
  pub evaluate_capacity-Sound :
      (i : CapacityInput)
      → Stays F (evaluate_capacity i)
        ⊎ ((c : ComponentInput) × MayScale i c × Scales F i c (evaluate_capacity i))
  evaluate_capacity-Sound i =
      unfold evaluate_capacity in evaluate_class-Sound i i.analysis.classification

  scale_component-Scales :
      (i : CapacityInput) (c : ComponentInput)
      → IsValid c i.max_scale_up_step i.max_scale_down_step
      → c.current_replicas <ℤ c.max_replicas
      → c.current_replicas +ℤ i.max_scale_up_step ≤ℤ max_int32
      → Scales F i c (scale_component i c)
  unfolding scale_component
  scale_component-Scales i c v room fits =
      let raised =
        step_up-gt c.current_replicas i.max_scale_up_step c.max_replicas v.up_pos (omega (arith, v))
          room fits in
      let moved : eq_ℤ (step_up c.current_replicas i.max_scale_up_step c.max_replicas)
            c.current_replicas
          ≡ false =
        ground arith in
      rw moved
        (record { action = refl; component = refl; current = refl; desired = refl; moved = moved })

  evaluate_capacity_of_target :
      (i : CapacityInput)
      → i.analysis.classification ≡ target_saturated
      → IsValid i.target i.max_scale_up_step i.max_scale_down_step
      → cooldown_active i.last_scale_time i.cooldown i.now ≡ false
      → evaluate_capacity {F = F} i ≡ scale_component i i.target
  unfolding evaluate_capacity evaluate_class evaluate_target decide
  evaluate_capacity_of_target i class t idle =
      let checked = IsValid-eq-none i.target i.max_scale_up_step i.max_scale_down_step t in
      ground arith

  evaluate_capacity_of_dependency :
      (i : CapacityInput) (c : ComponentInput)
      → i.analysis.classification ≡ dependency_saturated
      → IsValid i.target i.max_scale_up_step i.max_scale_down_step
      → cooldown_active i.last_scale_time i.cooldown i.now ≡ false
      → i.dependencies i.analysis.component ≡ some c
      → c.scalable ≡ true
      → IsValid c i.max_scale_up_step i.max_scale_down_step
      → evaluate_capacity {F = F} i ≡ scale_component i c
  unfolding evaluate_capacity evaluate_class evaluate_target decide scale_saturated_dependency
      scale_candidate
  evaluate_capacity_of_dependency i c class t idle found scalable v =
      let checked = IsValid-eq-none i.target i.max_scale_up_step i.max_scale_down_step t in
      let checked' = IsValid-eq-none c i.max_scale_up_step i.max_scale_down_step v in ground arith

  -- What may be scaled and has room is scaled.
  pub evaluate_capacity-Scales :
      (i : CapacityInput) (c : ComponentInput)
      → MayScale i c
      → c.current_replicas <ℤ c.max_replicas
      → c.current_replicas +ℤ i.max_scale_up_step ≤ℤ max_int32
      → Scales F i c (evaluate_capacity i)
  evaluate_capacity-Scales i c may room fits =
      let scaled = scale_component-Scales i c may.valid room fits in
      elim may.licensed [
        | inl (class, same) ↦
            let path = evaluate_capacity_of_target i class may.target_valid may.idle in
            let whole : scale_component i c ≡ evaluate_capacity {F = F} i =
              ap (scale_component i) same ∙ sym path in
            subst (λ (d : CapacityDecision F). Scales F i c d) whole scaled
        | inr (class, found, scalable) ↦
            let path =
              evaluate_capacity_of_dependency i c class may.target_valid may.idle found scalable
                may.valid in
            rw path scaled
      ]

  -- Where a step up of the count that is decided on does not overflow int32, every decision either
  -- leaves the count of its component alone, in hold or protected mode, or raises it, by at most one
  -- step, to a step up or to the maximum, whichever is less; and then the classification licenses the
  -- component: it is the target if that is saturated, or the dependency found saturated if it is
  -- configured and scalable; the target and the component have valid bounds; and no cooldown is active.
  pub evaluate_capacity-Steps :
      (i : CapacityInput)
      → (evaluate_capacity {F = F} i).current_replicas +ℤ i.max_scale_up_step ≤ℤ max_int32
      → Stays F (evaluate_capacity i)
        ⊎ ((c : ComponentInput) × MayScale i c × Steps F i c (evaluate_capacity i))
  evaluate_capacity-Steps i fits = elim (evaluate_capacity-Sound i) [
    | inl stays ↦ inl stays
    | inr (c, may, scales) ↦
        inr (c, may, Scales-Steps i c (evaluate_capacity i) may.valid fits scales)
  ]

  -- Where a component may be scaled, is below its maximum, and a step up does not overflow int32, the
  -- decision raises its count, to a step up or to the maximum, whichever is less.
  pub MayScale-Steps :
      (i : CapacityInput) (c : ComponentInput)
      → MayScale i c
      → c.current_replicas <ℤ c.max_replicas
      → c.current_replicas +ℤ i.max_scale_up_step ≤ℤ max_int32
      → Steps F i c (evaluate_capacity i)
  MayScale-Steps i c may room fits =
      let scales = evaluate_capacity-Scales i c may room fits in
      Scales-Steps i c (evaluate_capacity i) may.valid
        (subst (λ n. n +ℤ i.max_scale_up_step ≤ℤ max_int32) (sym scales.current) fits) scales
