-- ===== src/Policy/Component.antt =====
-- internal/policy/policy.go: the checks and the bounded step that the three policies share.
use silver_leaf.Prelude.{
  ◌⊎◌, inl, inr, Bool-cases, refl, ℤ, pos, ◌+ℤ◌, ◌≤ℤ◌, ◌<ℤ◌, ltb_ℤ, Bool, false, ◌&&◌, ◌||◌, String,
  Option, none, some, ◌≡◌, if◌then◌else◌, arith, +ℤ_parts,
}
use silver_leaf.Go.Int32.{add32, add32-eq_of_fits, max_int32}
use silver_leaf.Go.Time
use silver_leaf.Go.Time.{Time, Duration}
use silver_leaf.Policy.Types.{ComponentInput}

-- `validateComponent`; `none` is a nil error
unfoldable pub validate_component : ComponentInput → ℤ → ℤ → Option String
validate_component component up down =
    if ltb_ℤ component.min_replicas (pos 1)
      || ltb_ℤ component.max_replicas component.min_replicas
      || ltb_ℤ component.current_replicas component.min_replicas
      || ltb_ℤ component.max_replicas component.current_replicas
    then some "invalid replica bounds"
    else if ltb_ℤ up (pos 1) || ltb_ℤ down (pos 1)
    then some "scale steps must be at least 1"
    else none

-- `LastScaleTime != nil && Cooldown > 0 && Now.Before(LastScaleTime.Add(Cooldown))`
unfoldable pub cooldown_active : Option Time → Duration → Time → Bool
cooldown_active none cooldown now = false
cooldown_active (some last) cooldown now =
    ltb_ℤ (pos 0) cooldown && Time.before now (Time.add last cooldown)

-- `current + step`, in int32, cut off at the maximum
unfoldable pub step_up : ℤ → ℤ → ℤ → ℤ
step_up current step maximum =
    let desired = add32 current step in if ltb_ℤ maximum desired then maximum else desired

-- What a component's checks establish.
pub record IsValid (c : ComponentInput) (up down : ℤ) : Type 0 where
  pub min_pos : pos 1 ≤ℤ c.min_replicas
  pub min_le : c.min_replicas ≤ℤ c.current_replicas
  pub le_max : c.current_replicas ≤ℤ c.max_replicas
  pub up_pos : pos 1 ≤ℤ up
  pub down_pos : pos 1 ≤ℤ down

-- The checks pass exactly on valid components.
pub validate_component-eq-none :
    (c : ComponentInput) (up down : ℤ) → validate_component c up down ≡ none → IsValid c up down
unfolding validate_component
validate_component-eq-none c up down h = ground arith

pub IsValid-eq-none :
    (c : ComponentInput) (up down : ℤ) → IsValid c up down → validate_component c up down ≡ none
unfolding validate_component
IsValid-eq-none c up down v = ground arith

-- Without overflow, one step up stays between the current count and both bounds on it.
pub step_up_range :
    (current step maximum : ℤ)
    → pos 1 ≤ℤ step
    → pos 1 ≤ℤ current
    → current ≤ℤ maximum
    → current +ℤ step ≤ℤ max_int32
    → (current ≤ℤ step_up current step maximum)
      × (step_up current step maximum ≤ℤ maximum)
      × (step_up current step maximum ≤ℤ current +ℤ step)
unfolding step_up
step_up_range current step maximum s c m fits =
    ground (arith, +ℤ_parts current step, add32-eq_of_fits current step)

pub step_up-gt :
    (current step maximum : ℤ)
    → pos 1 ≤ℤ step
    → pos 1 ≤ℤ current
    → current <ℤ maximum
    → current +ℤ step ≤ℤ max_int32
    → current <ℤ step_up current step maximum
unfolding step_up
step_up-gt current step maximum s c m fits =
    ground (arith, +ℤ_parts current step, add32-eq_of_fits current step)

-- Without overflow, one step up comes to the sum or to the maximum.
pub step_up-reached :
    (current step maximum : ℤ)
    → pos 1 ≤ℤ current
    → pos 1 ≤ℤ step
    → current +ℤ step ≤ℤ max_int32
    → (step_up current step maximum ≡ maximum) ⊎ (step_up current step maximum ≡ current +ℤ step)
unfolding step_up
step_up-reached current step maximum c s fits =
    let sum : add32 current step ≡ current +ℤ step =
      add32-eq_of_fits current step (ground (arith, +ℤ_parts current step)) in
    elim (Bool-cases (ltb_ℤ maximum (add32 current step))) [
      | inl e ↦ rw e (inl refl)
      | inr e ↦ rw e (inr sum)
    ]
