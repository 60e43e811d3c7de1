-- ===== src/Controller/Reconcile/Cooldown.antt =====
-- Two runs of `Reconcile`, of which the second is in the cooldown of the first.
use silver_leaf.Prelude.{
  ℤ, ◌*ℤ◌, true, false, ◌≡◌, sym, ap, ◌∙◌, subst, inl, inr, some, String, List, [], ◌∷◌, arith, ◌⊎◌,
}
use mathlib.Core.Option
use silver_leaf.Go.Map.{Entry}
use silver_leaf.Go.Time.{Time, seconds}
use silver_leaf.Go.Float.{Float, Format, IsIeee}
use silver_leaf.Api.Status.{OptiScaler, OptiScalerStatus}
use silver_leaf.Policy.Types.{CapacityDecision}
use silver_leaf.Policy.Component.{cooldown_active}
use silver_leaf.Policy.Bottleneck.Outcome.{Stays}
use silver_leaf.Controller.Histories.{PredictionHistory}
use silver_leaf.Controller.Histories.Bounded.{IsHistories}
use silver_leaf.Controller.Reconcile.Total.{reconcile_total}
use silver_leaf.Controller.Pods.{target_readiness}
use silver_leaf.Controller.Decide.Cooldown.{decide_capacity-Stays}
use silver_leaf.Controller.World.{World, Run, Library, found, scale_written, status_written}
use silver_leaf.Controller.Finish.{acts, is_scale, decision_of, snapshot_of}
use silver_leaf.Controller.Reconcile.{reconcile}
use silver_leaf.Controller.Reconcile.Effects.{
  Quiet, nothing, told, WroteOnce, scale_only, scale_and_status,
}
use silver_leaf.Controller.Reconcile.Writes.{WritesDecision, reconcile_writes}

module _ {F : Type 0} ⦃fl : Float F⦄ ⦃format : Format F⦄ where
  acts_of_Stays : (d : CapacityDecision F) → Stays F d → acts d ≡ false
  unfolding acts
  acts_of_Stays d s =
      let idle : is_scale d.action ≡ false = elim s.inactive [
        | inl e ↦ ap is_scale e
        | inr e ↦ ap is_scale e
      ] in
      ground arith

module _ {F B : Type 0} ⦃fl : Float F⦄ ⦃format : Format F⦄ where
  -- A run in the cooldown of the resource writes no scale.
  pub reconcile_cooldown-Quiet :
      (l : Library F B) (w : World F B) (m : List (Entry (PredictionHistory F))) (run : Run F)
      (r : OptiScaler F)
      → format.trim_space "" ≡ ""
      → w.resource ≡ found r
      → cooldown_active r.status.last_scale_time (r.spec.policy.cooldown_seconds *ℤ seconds 1) w.now
        ≡ true
      → reconcile l w m ≡ some run
      → Quiet w run
  unfolding decision_of
  reconcile_cooldown-Quiet l w m run r trim here active e =
      elim (reconcile_writes l w m run trim e) [
        | inl quiet ↦ quiet
        | inr h ↦
            let path : found r ≡ found h.resource = sym here ∙ h.is_found in
            let same : r ≡ h.resource = cc path in
            let waiting =
              subst
                (λ (q : OptiScaler F).
                  cooldown_active q.status.last_scale_time
                    (q.spec.policy.cooldown_seconds *ℤ seconds 1) w.now
                  ≡ true)
                same active in
            let stays =
              decide_capacity-Stays h.resource (snapshot_of w h.resource h.current h.details)
                (target_readiness l.same_template h.details w.pods w.replica_sets) h.current
                w.dependencies w.now m waiting h.decided h.is_decided in
            let clash : true ≡ false = sym h.acting ∙ acts_of_Stays h.decided.decision stays in
            ground arith
      ]

  -- The status that is written after a scale has the present as the time of the last scale.
  written_time :
      (w : World F B) (run : Run F) (workload name : String) (from to old new : ℤ)
      (s : OptiScalerStatus F)
      → WroteOnce w run name old new
      → run.effects ≡ scale_written workload from to ∷ status_written s ∷ []
      → s.last_scale_time ≡ some w.now
  written_time w run workload name from to old new s (scale_only e) wrote =
      let clash : scale_written name old new ∷ []
          ≡ scale_written workload from to ∷ status_written s ∷ [] =
        sym e ∙ wrote in
      ground arith
  written_time w run workload name from to old new s (scale_and_status t e time) wrote =
      let path : scale_written name old new ∷ status_written t ∷ []
          ≡ scale_written workload from to ∷ status_written s ∷ [] =
        sym e ∙ wrote in
      let same : t ≡ s = cc path in
      ap (λ (u : OptiScalerStatus F). u.last_scale_time) (sym same) ∙ time

  outcome_time :
      (l : Library F B) (w : World F B) (m : List (Entry (PredictionHistory F))) (run : Run F)
      (workload : String) (from to : ℤ) (s : OptiScalerStatus F)
      → run.effects ≡ scale_written workload from to ∷ status_written s ∷ []
      → Quiet w run ⊎ WritesDecision l w m run
      → s.last_scale_time ≡ some w.now
  outcome_time l w m run workload from to s wrote (inl (nothing e)) =
      let clash : [] ≡ scale_written workload from to ∷ status_written s ∷ [] = sym e ∙ wrote in
      ground arith
  outcome_time l w m run workload from to s wrote (inl (told r t here e _)) =
      let clash : status_written t ∷ [] ≡ scale_written workload from to ∷ status_written s ∷ [] =
        sym e ∙ wrote in
      ground arith
  outcome_time l w m run workload from to s wrote (inr h) =
      written_time w run workload _ from to _ _ s h.once wrote

  second_run-Quiet :
      IsIeee F
      → (l : Library F B) (v : World F B) (before : Time) (m : List (Entry (PredictionHistory F)))
        (r : OptiScaler F)
      → format.trim_space "" ≡ ""
      → IsHistories before m
      → v.resource ≡ found r
      → cooldown_active r.status.last_scale_time (r.spec.policy.cooldown_seconds *ℤ seconds 1) v.now
        ≡ true
      → (second : Run F) × (reconcile l v m ≡ some second) × Quiet v second
  second_run-Quiet laws l v before m r trim h here active =
      let (second, e, _, _) = reconcile_total laws l v before m trim h in
      (second, e, reconcile_cooldown-Quiet l v m second r trim here active e)

  -- With floats that meet the IEEE laws, where trimming the empty text leaves it empty, and the histories are at most
  -- 128, one of each key, each of at most twenty samples of either kind in increasing order of time: after a run of
  -- Reconcile that writes a scale and then a status, a run from the histories that it leaves, that finds the resource with the time of the
  -- last scale of that status as the API server stores it, cut to whole seconds or otherwise, and is still in the cooldown counted from the stored time of the first run,
  -- returns, writes no scale, and at most a status that keeps the time of the last scale.
  pub reconcile_again-Quiet :
      IsIeee F
      → (l : Library F B) (w v : World F B) (stored : Time → Time) (before : Time)
        (m : List (Entry (PredictionHistory F))) (first : Run F) (workload : String) (from to : ℤ)
        (s : OptiScalerStatus F) (r : OptiScaler F)
      → format.trim_space "" ≡ ""
      → IsHistories before m
      → reconcile l w m ≡ some first
      → first.effects ≡ scale_written workload from to ∷ status_written s ∷ []
      → v.resource ≡ found r
      → r.status.last_scale_time ≡ Option.map stored s.last_scale_time
      → cooldown_active (some (stored w.now)) (r.spec.policy.cooldown_seconds *ℤ seconds 1) v.now
        ≡ true
      → (second : Run F) × (reconcile l v first.histories ≡ some second) × Quiet v second
  reconcile_again-Quiet laws l w v stored before m first workload from to s r trim h e wrote here
        kept active =
      let (run, f, outcome, order) = reconcile_total laws l w before m trim h in
      let path : some run ≡ some first = sym f ∙ e in
      let same : run ≡ first = cc path in
      let time =
        kept
        ∙ ap (Option.map stored) (
            outcome_time l w m run workload from to s (ap (λ (u : Run F). u.effects) same ∙ wrote)
              outcome) in
      let waiting : cooldown_active r.status.last_scale_time
            (r.spec.policy.cooldown_seconds *ℤ seconds 1) v.now
          ≡ true =
        ap (λ t. cooldown_active t (r.spec.policy.cooldown_seconds *ℤ seconds 1) v.now) time
        ∙ active in
      let ordered : IsHistories before first.histories ⊎ IsHistories w.now first.histories =
        subst (λ (u : Run F). IsHistories before u.histories ⊎ IsHistories w.now u.histories) same
          order in
      elim ordered [
        | inl o ↦ second_run-Quiet laws l v before first.histories r trim o here waiting
        | inr o ↦ second_run-Quiet laws l v w.now first.histories r trim o here waiting
      ]
