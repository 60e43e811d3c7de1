-- ===== src/Controller/Reconcile/Scales.antt =====
-- A run of `Reconcile` scales what may be scaled.
use silver_leaf.Prelude.{
  String, sym, ℤ, ◌+ℤ◌, ◌≤ℤ◌, ◌<ℤ◌, false, ◌≡◌, refl, ap, ◌∙◌, subst, ◌⊎◌, inl, inr, str_eq, none,
  some, List,
}
use silver_leaf.Go.Int32.{max_int32}
use silver_leaf.Go.Map.{Entry}
use silver_leaf.Go.Time.{Time}
use silver_leaf.Go.Float.{Float, Format, IsIeee}
use silver_leaf.Api.Status.{OptiScaler}
use silver_leaf.Observation.{Snapshot}
use silver_leaf.Policy.Types.{ComponentInput, CapacityDecision}
use silver_leaf.Policy.Bottleneck.{CapacityInput, evaluate_capacity}
use silver_leaf.Policy.Bottleneck.Outcome.{Scales, Steps, MayScale}
use silver_leaf.Policy.Bottleneck.Gates.{evaluate_capacity-Scales, MayScale-Steps}
use silver_leaf.Capacity.Analyze.{analyze}
use silver_leaf.Controller.Gather.Workloads.{Owns, target-Owns, dependency-Owns}
use silver_leaf.Controller.Spec.Valid.{validate_spec-IsValidSpec}
use silver_leaf.Controller.Spec.{validate_spec}
use silver_leaf.Controller.Learning.{realization_pending}
use silver_leaf.Controller.Cluster.{Deployment}
use silver_leaf.Controller.Pods.{target_readiness}
use silver_leaf.Controller.Histories.{PredictionHistory}
use silver_leaf.Controller.Histories.Bounded.{IsHistories}
use silver_leaf.Controller.Decide.{
  target_component, Decided, capacity_input, decided_of, request_of,
}
use silver_leaf.Controller.Prediction.{Prediction, evaluate_prediction}
use silver_leaf.Controller.Decide.Licensed.{decided_from, decided_of_saturated}
use silver_leaf.Controller.World.{World, Run, Library}
use silver_leaf.Controller.Finish.{
  acts, chosen_workload, write_scale, snapshot_of, decision_of, act_on,
}
use silver_leaf.Controller.Reconcile.Effects.{WroteOnce, write_scale-WroteOnce}
use silver_leaf.Controller.Reconcile.Total.{prediction_returns}
use silver_leaf.Controller.Reconcile.{reconcile}
use silver_leaf.Controller.Reconcile.Acts.{
  acts_of_Scales, unreserved, chosen_workload-Owns, Reads, input_of, reconcile-act_on,
  finish_capacity-acts,
}

module _ {F B : Type 0} ⦃fl : Float F⦄ ⦃format : Format F⦄ where
  -- The first write is that of the scale of a component's workload, from its count to one step up, or to
  -- its maximum if that is less; at most the status follows.
  pub record ScalesUp (w : World F B) (run : Run F) (r : OptiScaler F) (c : ComponentInput)
      : Type 0 where
    pub workload : String
    pub to : ℤ
    pub owner : Owns r.spec c.name workload
    pub more : c.current_replicas <ℤ to
    pub le_max : to ≤ℤ c.max_replicas
    pub le_step : to ≤ℤ c.current_replicas +ℤ r.spec.policy.max_scale_up_step
    pub reached :
        (to ≡ c.max_replicas) ⊎ (to ≡ c.current_replicas +ℤ r.spec.policy.max_scale_up_step)
    pub wrote : WroteOnce w run workload c.current_replicas to

  -- the workload of a component that may be scaled
  MayScale-Owns :
      IsIeee F
      → (w : World F B) (r : OptiScaler F) (current : ℤ) (details : Deployment B)
        (c : ComponentInput) (d : CapacityDecision F)
      → validate_spec r.spec ≡ none
      → MayScale (input_of w r current details) c
      → d.chosen_component ≡ c.name
      → Owns r.spec c.name (chosen_workload r d)
  unfolding capacity_input target_component
  MayScale-Owns laws w r current details c d valid may chosen =
      let spec = validate_spec-IsValidSpec laws r.spec valid in
      let apart = unreserved r.spec.scale_target_ref.name r.spec.dependencies spec.dependencies in
      elim may.licensed [
        | inl (_, same) ↦
            let name : c.name ≡ "target" = ap (λ (x : ComponentInput). x.name) same in
            let (n, hit, mine) = target-Owns r.spec apart in
            inl (name, chosen_workload-Owns r d "target" n (chosen ∙ name) hit ∙ mine)
        | inr (_, there, _) ↦
            let (n, hit, owner) =
              dependency-Owns r.spec (analyze (snapshot_of w r current details)).component c
                w.dependencies apart there in
            subst (λ n'. Owns r.spec c.name n') (sym (chosen_workload-Owns r d c.name n chosen hit))
              owner
      ]

  -- the write of a decision that raises a component
  write_scale-ScalesUp :
      (l : Library F B) (w : World F B) (r : OptiScaler F) (current : ℤ) (s : Snapshot F)
      (x : Decided F) (c : ComponentInput) (i : CapacityInput) (d : CapacityDecision F)
      → i.max_scale_up_step ≡ r.spec.policy.max_scale_up_step
      → x.decision ≡ d
      → Owns r.spec c.name (chosen_workload r d)
      → Steps F i c d
      → ScalesUp w (write_scale l w r current s x none) r c
  write_scale-ScalesUp l w r current s x c i d step same owner h =
      let at : WroteOnce w (write_scale l w r current s x none) (chosen_workload r d)
          d.current_replicas d.desired_replicas =
        subst
          (λ (e : CapacityDecision F).
            WroteOnce w (write_scale l w r current s x none) (chosen_workload r e)
              e.current_replicas e.desired_replicas)
          same (write_scale-WroteOnce l w r current s x) in
      record {
        workload = chosen_workload r d;
        to = d.desired_replicas;
        owner = owner;
        more = h.more;
        le_max = h.le_max;
        le_step = subst (λ n. d.desired_replicas ≤ℤ c.current_replicas +ℤ n) step h.le_step;
        reached =
            subst
              (λ n.
                (d.desired_replicas ≡ c.max_replicas)
                ⊎ (d.desired_replicas ≡ c.current_replicas +ℤ n))
              step h.reached;
        wrote =
            subst
              (λ n.
                WroteOnce w (write_scale l w r current s x none) (chosen_workload r d) n
                  d.desired_replicas)
              h.current at;
      }

  module _ (w : World F B) (r : OptiScaler F) (current : ℤ) (details : Deployment B)
      (c : ComponentInput) (may : MayScale (input_of w r current details) c)
      (room : c.current_replicas <ℤ c.max_replicas)
      (fits : c.current_replicas +ℤ r.spec.policy.max_scale_up_step ≤ℤ max_int32)
      (realized : (realization_pending (snapshot_of w r current details).target ≡ false)
        ⊎ (str_eq c.name "target" ≡ false)) where
    scaled :
        Scales F (input_of w r current details) c (evaluate_capacity (input_of w r current details))
    unfolding capacity_input
    scaled = evaluate_capacity-Scales (input_of w r current details) c may room fits

    module _ (l : Library F B) (m : List (Entry (PredictionHistory F))) (p : Prediction F)
        (asked : evaluate_prediction
            (request_of r
              (snapshot_of w r current details)
              (target_readiness l.same_template details w.pods w.replica_sets)
              current
              w.dependencies
              w.now)
            m
          ≡ some p) where
      -- the decision with the prediction
      abbrev x_of : Decided F
      x_of = let s = snapshot_of w r current details in decided_of r s (analyze s) current p

      kept : x_of.decision ≡ evaluate_capacity (input_of w r current details)
      kept =
          let i = input_of w r current details in
          let other : (realization_pending (snapshot_of w r current details).target ≡ false)
              ⊎ (str_eq (evaluate_capacity {F = F} i).chosen_component "target" ≡ false) =
            elim realized [
              | inl e ↦ inl e
              | inr e ↦ inr (ap (λ n. str_eq n "target") scaled.component ∙ e)
            ] in
          decided_of_saturated r (snapshot_of w r current details)
            (target_readiness l.same_template details w.pods w.replica_sets) current w.dependencies
            w.now m c p may asked other

      -- A run for a component that may be scaled ends in the write of its scale.
      pub reconcile-write_scale :
          format.trim_space "" ≡ ""
          → Reads w r current details
          → w.scale_error ≡ none
          → reconcile l w m
            ≡ some (write_scale l w r current (snapshot_of w r current details) x_of none)
      unfolding decision_of act_on
      reconcile-write_scale trim reads written =
          let s = snapshot_of w r current details in
          let i = input_of w r current details in
          let acting =
            ap (λ (d : CapacityDecision F). acts d) kept
            ∙ acts_of_Scales i c (evaluate_capacity i) scaled in
          reconcile-act_on l w r current details m trim reads
          ∙ ap (act_on l w r current details) (
              decided_from r s (target_readiness l.same_template details w.pods w.replica_sets)
                current w.dependencies w.now m p asked)
          ∙ ap some (finish_capacity-acts l w r current s x_of acting written)

  -- With floats that meet the IEEE laws, where trimming the empty text leaves it empty, and the
  -- histories are at most 128, one of each key, each of at most twenty samples of either kind in
  -- increasing order of time: where the resource is found and valid, its count and its Deployment are
  -- read, the client is made, the policy may scale a component, which is below its maximum, its count
  -- and a step up do not overflow int32, no Ready replica of the target is known not to serve or the
  -- component is not the target, and the write of the scale does not fail, a run of Reconcile returns.
  -- It writes the scale of the target's Deployment for the component named target, and of a
  -- dependency's for one with the dependency's name, from the component's count to one step up, or to
  -- its maximum if that is less, and then at most a status with the present as the time of the last
  -- scale.
  pub reconcile-ScalesUp :
      IsIeee F
      → (l : Library F B) (w : World F B) (before : Time) (m : List (Entry (PredictionHistory F)))
        (r : OptiScaler F) (current : ℤ) (details : Deployment B) (c : ComponentInput)
      → format.trim_space "" ≡ ""
      → IsHistories before m
      → Reads w r current details
      → MayScale (input_of w r current details) c
      → c.current_replicas <ℤ c.max_replicas
      → c.current_replicas +ℤ r.spec.policy.max_scale_up_step ≤ℤ max_int32
      → (realization_pending (snapshot_of w r current details).target ≡ false)
        ⊎ (str_eq c.name "target" ≡ false)
      → w.scale_error ≡ none
      → (run : Run F) × (reconcile l w m ≡ some run) × ScalesUp w run r c
  unfolding request_of capacity_input
  reconcile-ScalesUp laws l w before m r current details c trim h reads may room fits realized
        written =
      let s = snapshot_of w r current details in
      let i = input_of w r current details in
      let readiness = target_readiness l.same_template details w.pods w.replica_sets in
      let (p, asked, _) =
        prediction_returns laws before m h
          (request_of r s readiness current w.dependencies w.now) in
      let x = decided_of r s (analyze s) current p in
      let steps = MayScale-Steps i c may room fits in
      let owner =
        MayScale-Owns laws w r current details c (evaluate_capacity i) reads.is_valid may
          steps.component in
      (
        write_scale l w r current s x none,
        reconcile-write_scale w r current details c may room fits realized l m p asked trim reads
            written,
        write_scale-ScalesUp l w r current s x c i (evaluate_capacity i) refl
            (kept w r current details c may room fits realized l m p asked) owner steps,
      )
