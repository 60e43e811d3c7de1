-- ===== src/Policy/Threshold/Bounds.antt =====
-- How far `Evaluate` moves a replica count.
use silver_leaf.Prelude.{
  ℤ, pos, ◌+ℤ◌, ◌≤ℤ◌, eq_ℤ, true, String, none, some, ◌≡◌, ◌≢◌, refl, arith, +ℤ_parts, -ℤ_parts,
  ◌⊎◌, Option-cases, Bool-cases, inl, inr, eq_of_parts,
}
use silver_leaf.Go.Int32.{IsInt32, max_int32, sub32, sub32-eq_of_fits}
use silver_leaf.Go.Float.{Float}
use silver_leaf.Policy.Types.{scale_target, hold, protected_mode}
use silver_leaf.Policy.Component.{cooldown_active, step_up, step_up_range}
use silver_leaf.Policy.Threshold.{
  Input, Decision, validate_bounds, validate, protected_decision, observed_decision, crossed,
  step_down, evaluate_valid, evaluate,
}

pub eq_ℤ_self : (n : ℤ) → eq_ℤ n n ≡ true
eq_ℤ_self n = ground arith

module _ {F : Type 0} ⦃fl : Float F⦄ where
  -- What the checks on the configuration establish.
  pub record IsConfigured (i : Input F) : Type 0 where
    pub min_pos : pos 1 ≤ℤ i.min_replicas
    pub min_le : i.min_replicas ≤ℤ i.current_replicas
    pub le_max : i.current_replicas ≤ℤ i.max_replicas
    pub up_pos : pos 1 ≤ℤ i.max_scale_up_step
    pub down_pos : pos 1 ≤ℤ i.max_scale_down_step

  validate_bounds-IsConfigured : (i : Input F) → validate_bounds i ≡ none → IsConfigured i
  unfolding validate_bounds
  validate_bounds-IsConfigured i h = ground arith

  pub validate-IsConfigured : (i : Input F) → validate i ≡ none → IsConfigured i
  unfolding validate
  validate-IsConfigured i h = ground (arith, validate_bounds-IsConfigured i)

  pub step_down_range :
      (i : Input F)
      → IsConfigured i
      → IsInt32 i.current_replicas
      → IsInt32 i.max_scale_down_step
      → (i.min_replicas ≤ℤ step_down i)
        × (step_down i ≤ℤ i.current_replicas)
        × (i.current_replicas ≤ℤ step_down i +ℤ i.max_scale_down_step)
  unfolding step_down
  step_down_range i c r d = ground (
    arith,
    -ℤ_parts i.current_replicas i.max_scale_down_step,
    sub32-eq_of_fits i.current_replicas i.max_scale_down_step,
    +ℤ_parts (sub32 i.current_replicas i.max_scale_down_step) i.max_scale_down_step,
    +ℤ_parts i.min_replicas i.max_scale_down_step,
  )

  -- the counts that the scalar policy may ask for
  pub record IsBounded (i : Input F) (desired : ℤ) : Type 0 where
    pub min_le : i.min_replicas ≤ℤ desired
    pub le_max : desired ≤ℤ i.max_replicas
    pub le_up : desired ≤ℤ i.current_replicas +ℤ i.max_scale_up_step
    pub down_le : i.current_replicas ≤ℤ desired +ℤ i.max_scale_down_step

  -- A decision holds the current count, or moves to another one within bounds.
  pub record Moves (i : Input F) (d : Decision F) : Type 0 where
    pub bounded : IsBounded i d.desired_replicas
    pub outcome :
        ((d.action ≡ hold) × (d.desired_replicas ≡ i.current_replicas))
        ⊎ ((d.action ≡ scale_target) × (d.desired_replicas ≢ i.current_replicas))

  crossed-Moves :
      (i : Input F) (threshold : F) (desired : ℤ) (held moved : String)
      → IsBounded i desired
      → Moves i (crossed i threshold desired held moved)
  unfolding crossed
  crossed-Moves i threshold desired held moved b =
      elim (Bool-cases (eq_ℤ desired i.current_replicas)) [
        | inl e ↦
            rw e (record { bounded = b; outcome = inl (refl, eq_of_parts _ _ (ground arith)) })
        | inr e ↦ rw e (record {
          bounded = b;
          outcome = inr (refl, λ same. cc (eq_ℤ_self i.current_replicas));
        })
      ]

  observed-Moves :
      (i : Input F) (reason : String) → IsConfigured i → Moves i (observed_decision i reason)
  unfolding observed_decision
  observed-Moves i reason c = record {
    bounded = omega (
      arith,
      c,
      +ℤ_parts i.current_replicas i.max_scale_up_step,
      +ℤ_parts i.current_replicas i.max_scale_down_step,
    );
    outcome = inl (refl, refl);
  }

  evaluate_valid-Moves :
      (i : Input F)
      → IsConfigured i
      → IsInt32 i.current_replicas
      → IsInt32 i.max_scale_down_step
      → i.current_replicas +ℤ i.max_scale_up_step ≤ℤ max_int32
      → Moves i (evaluate_valid i)
  unfolding evaluate_valid
  evaluate_valid-Moves i c r d fits =
      let held = λ (reason : String). observed-Moves i reason c in
      let up =
        step_up_range i.current_replicas i.max_scale_up_step i.max_replicas c.up_pos
          (omega (arith, c)) c.le_max fits in
      let down = step_down_range i c r d in
      let above : IsBounded i (step_up i.current_replicas i.max_scale_up_step i.max_replicas) =
        omega (
          arith,
          c,
          up,
          +ℤ_parts i.current_replicas i.max_scale_up_step,
          +ℤ_parts (step_up i.current_replicas i.max_scale_up_step i.max_replicas)
              i.max_scale_down_step,
        ) in
      let below : IsBounded i (step_down i) =
        omega (arith, c, down, +ℤ_parts i.current_replicas i.max_scale_up_step) in
      elim (Bool-cases (cooldown_active i.last_scale_time i.cooldown i.now)) [
        | inl e ↦ rw e (held _)
        | inr e ↦ rw e (elim (Bool-cases (fl.lt i.scale_up_threshold i.observed_metric)) [
          | inl e' ↦ rw e' (crossed-Moves i _ _ _ _ above)
          | inr e' ↦ rw e' (elim (Bool-cases (fl.lt i.observed_metric i.scale_down_threshold)) [
            | inl e'' ↦ rw e'' (crossed-Moves i _ _ _ _ below)
            | inr e'' ↦ rw e'' (held _)
          ])
        ])
      ]

  pub evaluate_of_valid : (i : Input F) → validate i ≡ none → evaluate i ≡ evaluate_valid i
  unfolding evaluate
  evaluate_of_valid i e = rw (e, evaluate)

  pub evaluate_of_invalid :
      (i : Input F) (message : String)
      → validate i ≡ some message
      → evaluate i ≡ protected_decision i.current_replicas message
  unfolding evaluate
  evaluate_of_invalid i message e = rw (e, evaluate)

  -- `Evaluate` keeps the current count, or replaces it by another one that lies within the configured
  -- bounds and within one step of it. The steps and the count are int32 values, and the sum of the
  -- count and the step up does not overflow. Input that fails the checks keeps the count.
  pub evaluate-Moves :
      (i : Input F)
      → IsInt32 i.current_replicas
      → IsInt32 i.max_scale_down_step
      → i.current_replicas +ℤ i.max_scale_up_step ≤ℤ max_int32
      → ((validate i ≡ none) × Moves i (evaluate i))
        ⊎ (((evaluate i).action ≡ protected_mode)
            × ((evaluate i).desired_replicas ≡ i.current_replicas))
  evaluate-Moves i r d fits = elim (Option-cases (validate i)) [
    | inl e ↦ inl (
      e,
      rw (evaluate_of_valid i e) (evaluate_valid-Moves i (validate-IsConfigured i e) r d fits),
    )
    | inr (message, e) ↦
        rw (evaluate_of_invalid i message e) (inr (unfold protected_decision in (refl, refl)))
  ]
