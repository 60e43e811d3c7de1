-- ===== src/Controller/Learning/Hold.antt =====
-- What the hold on unrealized capacity lets through.
use silver_leaf.Prelude.{
  pos, ◌≤ℤ◌, ◌<ℤ◌, ◌&&◌, ℤ, true, false, not, ◌||◌, ◌≡◌, ◌↔◌, ◌⊎◌, inl, inr, refl, str_eq, arith,
  Bool-cases,
}
use silver_leaf.Go.Error.{Result-cases}
use silver_leaf.Go.Int32.{IsInt32}
use silver_leaf.Go.Float.{Float, IsIeee}
use silver_leaf.Observation.{TargetObservation, rate_usable, effective_replica_count}
use silver_leaf.Observation.Replicas.{effective_replica_count_iff}
use silver_leaf.Policy.Types.{CapacityDecision, hold}
use silver_leaf.Controller.Learning.{scales_target, realization_pending, hold_target_scale}

-- A decision to scale the target.
abbrev pub RaisesTarget : {F : Type 0} → CapacityDecision F → Type 0
RaisesTarget d = (scales_target d.action ≡ true) × (str_eq d.chosen_component "target" ≡ true)

module _ {F : Type 0} ⦃fl : Float F⦄ where
  -- Both ways of the hold, in terms of its test.
  pub hold_target_scale_iff :
      (d : CapacityDecision F) (t : TargetObservation F) (requested : ℤ)
      → (RaisesTarget (hold_target_scale d t requested)
          ↔ (RaisesTarget d × (realization_pending t ≡ false)))
        × ((hold_target_scale d t requested ≡ d)
            ⊎ (((hold_target_scale d t requested).action ≡ hold)
                × ((hold_target_scale d t requested).desired_replicas ≡ requested)
                × ((hold_target_scale d t requested).current_replicas ≡ requested)))
  unfolding hold_target_scale
  hold_target_scale_iff d t requested =
      elim (Bool-cases (
        not (realization_pending t)
        || not (str_eq d.chosen_component "target")
        || not (scales_target d.action))) [
          | inl e ↦ rw e (ground arith, inl refl)
          | inr e ↦ rw e (ground arith, inr (refl, refl, refl))
        ]

  -- A decision about another component is kept, and so is each one where no Ready replica is known not
  -- to serve.
  pub hold_target_scale_realized :
      (d : CapacityDecision F) (t : TargetObservation F) (requested : ℤ)
      → (realization_pending t ≡ false) ⊎ (str_eq d.chosen_component "target" ≡ false)
      → hold_target_scale d t requested ≡ d
  unfolding hold_target_scale
  hold_target_scale_realized d t requested (inl e) = rw e refl
  hold_target_scale_realized d t requested (inr e) = elim (Bool-cases (realization_pending t)) [
    | inl pending ↦ rw (pending, e) refl
    | inr realized ↦ rw realized refl
  ]

module _ {F : Type 0} ⦃fl : Float F⦄ where
  -- a usable metric of the replicas that serve, which counts fewer than are Ready
  pub record Unrealized (t : TargetObservation F) : Type 0 where
    pub serving : ℤ
    pub usable : rate_usable t.effective_serving_replicas ≡ true
    pub equal : fl.eq t.effective_serving_replicas.value (fl.of_int serving) ≡ true
    pub low : pos 0 ≤ℤ serving
    pub fewer : serving <ℤ t.ready_replicas

module _ {F : Type 0} ⦃fl : Float F⦄ (laws : IsIeee F) where
  realization_pending-Unrealized :
      (t : TargetObservation F)
      → IsInt32 t.ready_replicas
      → realization_pending t ≡ true
      → Unrealized t
  unfolding realization_pending
  realization_pending-Unrealized t range h =
      elim (Result-cases (effective_replica_count t.effective_serving_replicas t.ready_replicas)) [
        | inr (message, e) ↦ ground arith
        | inl (n, e) ↦
            let (usable, equal, low, _) =
              (effective_replica_count_iff laws t.effective_serving_replicas t.ready_replicas n
                  range).0
                e in
            record { serving = n; usable = usable; equal = equal; low = low; fewer = ground arith }
      ]

  Unrealized-realization_pending :
      (t : TargetObservation F)
      → IsInt32 t.ready_replicas
      → Unrealized t
      → realization_pending t ≡ true
  unfolding realization_pending
  Unrealized-realization_pending t range u =
      let counted =
        (effective_replica_count_iff laws t.effective_serving_replicas t.ready_replicas u.serving
            range).1
          (u.usable, u.equal, u.low, ground (arith, u.fewer)) in
      let fewer = u.fewer in rw (counted, realization_pending) (ground arith)

  -- With floats that meet the IEEE laws, and for an int32 number of Ready replicas: a decision is kept as
  -- it is unless it scales the target, up or ahead of demand, and a usable metric counts fewer replicas
  -- that serve than are Ready; and then it becomes a hold of the same component, with the requested
  -- count as both of its counts.
  pub hold_target_scale_cases :
      (d : CapacityDecision F) (t : TargetObservation F) (requested : ℤ)
      → IsInt32 t.ready_replicas
      → ((hold_target_scale d t requested ≡ d) × ((¬ Unrealized t) ⊎ (¬ RaisesTarget d)))
        ⊎ (Unrealized t
            × RaisesTarget d
            × ((hold_target_scale d t requested).action ≡ hold)
            × ((hold_target_scale d t requested).chosen_component ≡ d.chosen_component)
            × ((hold_target_scale d t requested).desired_replicas ≡ requested)
            × ((hold_target_scale d t requested).current_replicas ≡ requested))
  unfolding hold_target_scale
  hold_target_scale_cases d t requested range = elim (Bool-cases (realization_pending t)) [
    | inr realized ↦ inl (
      rw realized refl,
      inl (λ u. let pending = Unrealized-realization_pending t range u in ground arith),
    )
    | inl pending ↦
        elim (Bool-cases (str_eq d.chosen_component "target" && scales_target d.action)) [
          | inl raises ↦ inr (
            realization_pending-Unrealized t range pending,
            ground arith,
            ground arith,
            ground arith,
            ground arith,
            ground arith,
          )
          | inr other ↦ inl (ground arith, inr (λ r. ground arith))
        ]
  ]
