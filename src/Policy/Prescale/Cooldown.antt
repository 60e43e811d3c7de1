-- ===== src/Policy/Prescale/Cooldown.antt =====
-- What `EvaluatePrescale` does in the cooldown.
use silver_leaf.Prelude.{true, some, ◌≡◌, ◌⊎◌, inl, inr, refl, Option-cases, String}
use silver_leaf.Go.Float.{Float, Format}
use silver_leaf.Capacity.Types.{Classification, healthy}
use silver_leaf.Policy.Types.{Action, CapacityDecision, hold}
use silver_leaf.Policy.Component.{cooldown_active}
use silver_leaf.Policy.Prescale.{
  PrescaleInput, reject, reject_evidence, reject_forecast, rejection, advise, advise_hold,
  advise_class, evaluate_prescale,
}
use silver_leaf.Policy.Prescale.Outcome.{IsRejected}

module _ {F : Type 0} ⦃fl : Float F⦄ where
  rejection_cooldown :
      (i : PrescaleInput F)
      → cooldown_active i.last_scale_time i.cooldown i.now ≡ true
      → (e : String) × (rejection i ≡ some e)
  unfolding rejection reject_forecast
  rejection_cooldown i active =
      let waits : reject_forecast i ≡ some "cooldown is active" =
        rw (active, reject_forecast) refl in
      elim (Option-cases (reject_evidence i)) [
        | inr (e, r) ↦ (e, rw (r, rejection) refl)
        | inl r ↦ ("cooldown is active", rw (r, rejection, waits) refl)
      ]

module _ {F : Type 0} ⦃fl : Float F⦄ ⦃format : Format F⦄ where
  abbrev Waits : PrescaleInput F → CapacityDecision F → Type 0
  Waits i d = (d ≡ i.current) ⊎ IsRejected i d

  advise-Waits :
      (i : PrescaleInput F)
      → cooldown_active i.last_scale_time i.cooldown i.now ≡ true
      → Waits i (advise i)
  unfolding advise reject
  advise-Waits i active =
      let (e, path) = rejection_cooldown i active in
      rw (path, advise)
        (inr (record { action = refl; component = refl; current = refl; desired = refl }))

  advise_hold-Waits :
      (i : PrescaleInput F) (action : Action)
      → cooldown_active i.last_scale_time i.cooldown i.now ≡ true
      → Waits i (advise_hold i action)
  unfolding advise_hold
  advise_hold-Waits i hold active = advise-Waits i active
  advise_hold-Waits i _ active = inl refl

  advise_class-Waits :
      (i : PrescaleInput F) (class : Classification)
      → cooldown_active i.last_scale_time i.cooldown i.now ≡ true
      → Waits i (advise_class i class)
  unfolding advise_class
  advise_class-Waits i healthy active = advise_hold-Waits i i.current.action active
  advise_class-Waits i _ active = inl refl

  -- In the cooldown the decision before it is kept, or made a hold that keeps its count.
  pub evaluate_prescale_cooldown :
      (i : PrescaleInput F)
      → cooldown_active i.last_scale_time i.cooldown i.now ≡ true
      → (evaluate_prescale i ≡ i.current) ⊎ IsRejected i (evaluate_prescale i)
  unfolding evaluate_prescale
  evaluate_prescale_cooldown i active = advise_class-Waits i i.classification active
