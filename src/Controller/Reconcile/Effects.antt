-- ===== src/Controller/Reconcile/Effects.antt =====
-- The writes of a run of `Reconcile`: none of a scale, or one.
use silver_leaf.Prelude.{
  ℤ, ◌≡◌, refl, ◌⊎◌, inl, inr, String, none, some, List, [], ◌∷◌, ◌++◌, Bool-cases,
}
use silver_leaf.Go.Map.{Entry}
use silver_leaf.Go.Float.{Float, Format}
use silver_leaf.Api.Status.{OptiScaler, OptiScalerStatus}
use silver_leaf.Observation.{Snapshot}
use silver_leaf.Controller.Histories.{PredictionHistory}
use silver_leaf.Controller.Status.{set_conditions}
use silver_leaf.Controller.Decide.{Decided}
use silver_leaf.Controller.World.{found, World, Effect, scale_written, status_written, Run, Library}
use silver_leaf.Controller.Finish.{
  update_status, protected_as, chosen_workload, decided_status, scaled_status, write_scale,
}

module _ {F B : Type 0} where
  -- A run that writes no scale: nothing, or a status with the time of the last scale as it was.
  pub data Quiet (w : World F B) (run : Run F) : Type 0 where
    nothing : run.effects ≡ [] → Quiet w run
    told :
        (r : OptiScaler F) (s : OptiScalerStatus F)
        → w.resource ≡ found r
        → run.effects ≡ status_written s ∷ []
        → s.last_scale_time ≡ r.status.last_scale_time
        → Quiet w run

  -- One scale is written, and then at most a status, with the present as the time of the last scale.
  pub data WroteOnce (w : World F B) (run : Run F) (workload : String) (from to : ℤ) : Type 0 where
    scale_only :
        run.effects ≡ scale_written workload from to ∷ [] → WroteOnce w run workload from to
    scale_and_status :
        (s : OptiScalerStatus F)
        → run.effects ≡ scale_written workload from to ∷ status_written s ∷ []
        → s.last_scale_time ≡ some w.now
        → WroteOnce w run workload from to

module _ {F B : Type 0} ⦃fl : Float F⦄ ⦃format : Format F⦄ where
  update_status-effects :
      (l : Library F B) (w : World F B) (r : OptiScaler F) (s : OptiScalerStatus F)
      (before : List (Effect F)) (m : List (Entry (PredictionHistory F)))
      → ((update_status l w r s before m).effects ≡ before)
        ⊎ ((update_status l w r s before m).effects ≡ before ++ status_written s ∷ [])
  unfolding update_status
  update_status-effects l w r s before m = elim (Bool-cases (l.same_status r.status s)) [
    | inl t ↦ inl (rw (t, update_status) refl)
    | inr t ↦ inr (rw (t, update_status) refl)
  ]

  pub update_status-Quiet :
      (l : Library F B) (w : World F B) (r : OptiScaler F) (s : OptiScalerStatus F)
      (m : List (Entry (PredictionHistory F)))
      → w.resource ≡ found r
      → s.last_scale_time ≡ r.status.last_scale_time
      → Quiet w (update_status l w r s [] m)
  update_status-Quiet l w r s m here same = elim (update_status-effects l w r s [] m) [
    | inl e ↦ nothing e
    | inr e ↦ told r s here e same
  ]

  pub protected_as-time :
      (l : Library F B) (w : World F B) (r : OptiScaler F) (s : OptiScalerStatus F) (c e : String)
      → (protected_as l w r s c e).last_scale_time ≡ s.last_scale_time
  unfolding protected_as set_conditions
  protected_as-time l w r s c e = refl

  pub decided_status-time :
      (l : Library F B) (w : World F B) (r : OptiScaler F) (current : ℤ) (s : Snapshot F)
      (x : Decided F)
      → (decided_status l w r current s x).last_scale_time ≡ r.status.last_scale_time
  unfolding decided_status set_conditions
  decided_status-time l w r current s x = refl

  scaled_status-time :
      (l : Library F B) (w : World F B) (r : OptiScaler F) (current : ℤ) (s : Snapshot F)
      (x : Decided F)
      → (scaled_status l w r current s x).last_scale_time ≡ some w.now
  unfolding scaled_status
  scaled_status-time l w r current s x = refl

  pub write_scale-WroteOnce :
      (l : Library F B) (w : World F B) (r : OptiScaler F) (current : ℤ) (s : Snapshot F)
      (x : Decided F)
      → WroteOnce w
          (write_scale l w r current s x none)
          (chosen_workload r x.decision)
          x.decision.current_replicas
          x.decision.desired_replicas
  unfolding write_scale
  write_scale-WroteOnce l w r current s x =
      let write =
        scale_written (chosen_workload r x.decision) x.decision.current_replicas
          x.decision.desired_replicas in
      elim (update_status-effects l w r (scaled_status l w r current s x) (write ∷ [])
        x.histories) [
          | inl e ↦ scale_only e
          | inr e ↦
              scale_and_status (scaled_status l w r current s x) e
                (scaled_status-time l w r current s x)
        ]
