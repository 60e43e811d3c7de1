-- ===== src/Controller/Reconcile/Acts.antt =====
-- What a run of `Reconcile` that gets as far as the decision does with one that scales, and whose
-- workload it is.
use silver_leaf.Prelude.{
  All, String, ◌∷◌, ℤ, eq_ℤ, true, false, ◌≡◌, refl, ap, ◌∙◌, inl, inr, str_eq, none, some, List,
  [], arith, Bool-cases, if◌then◌else◌,
}
use silver_leaf.Go.Error.{ok}
use silver_leaf.Go.Map.{Entry}
use silver_leaf.Go.Float.{Float, Format}
use silver_leaf.Api.Status.{OptiScaler}
use silver_leaf.Observation.{Snapshot}
use silver_leaf.Policy.Types.{scale_target, scale_dependency, ComponentInput, CapacityDecision}
use silver_leaf.Policy.Bottleneck.{CapacityInput}
use silver_leaf.Policy.Bottleneck.Outcome.{Scales}
use silver_leaf.Capacity.Analyze.{analyze}
use silver_leaf.Go.Map.{lookup}
use silver_leaf.Api.{DependencySpec}
use silver_leaf.Controller.Gather.Workloads.{all_workloads}
use silver_leaf.Controller.Spec.Valid.{IsDependency}
use silver_leaf.Controller.Spec.{validate_spec}
use silver_leaf.Controller.Spec.Queries.{validate_spec-utilization_query}
use silver_leaf.Controller.Cluster.{Deployment}
use silver_leaf.Controller.Histories.{PredictionHistory}
use silver_leaf.Controller.Decide.{Decided, capacity_input}
use silver_leaf.Controller.World.{found, World, Library}
use silver_leaf.Controller.Finish.{
  acts, is_scale, chosen_workload, decided_status, update_status, write_scale, finish_capacity,
  snapshot_of, decision_of, act_on, with_details, reconcile_capacity,
}
use silver_leaf.Controller.Reconcile.{
  uses_capacity, with_metric, with_client, with_scale, with_validity, with_resource, reconcile,
}

module _ {F : Type 0} ⦃fl : Float F⦄ ⦃format : Format F⦄ where
  pub acts_of_Scales :
      (i : CapacityInput) (c : ComponentInput) (d : CapacityDecision F)
      → Scales F i c d
      → acts d ≡ true
  unfolding acts
  acts_of_Scales i c d s =
      let scale : is_scale d.action ≡ true =
        ap is_scale s.action ∙ (elim (Bool-cases (str_eq c.name i.target.name)) [
          | inl t ↦ ap (λ b. is_scale (if b then scale_target else scale_dependency)) t
          | inr t ↦ ap (λ b. is_scale (if b then scale_target else scale_dependency)) t
        ]) in
      let moved : eq_ℤ d.current_replicas d.desired_replicas ≡ false =
        let other = s.moved in ground arith in
      ground arith

module _ {F : Type 0} ⦃fl : Float F⦄ where
  -- No dependency of a valid specification is named target.
  pub unreserved :
      (name : String) (ds : List (DependencySpec F))
      → All (IsDependency name) ds
      → All (λ (d : DependencySpec F). str_eq d.name "target" ≡ false) ds
  unreserved name [] h = tt
  unreserved name (d ∷ ds) (h, hs) = (h.not_reserved, unreserved name ds hs)

module _ {F : Type 0} ⦃fl : Float F⦄ ⦃format : Format F⦄ where
  pub chosen_workload-Owns :
      (r : OptiScaler F) (d : CapacityDecision F) (k n : String)
      → d.chosen_component ≡ k
      → lookup k (all_workloads r.spec) ≡ some n
      → chosen_workload r d ≡ n
  unfolding chosen_workload
  chosen_workload-Owns r d k n chosen hit =
      let at : lookup d.chosen_component (all_workloads r.spec) ≡ some n =
        ap (λ j. lookup j (all_workloads r.spec)) chosen ∙ hit in
      rw (at, chosen_workload) refl

module _ {F B : Type 0} ⦃fl : Float F⦄ ⦃format : Format F⦄ where
  -- what a run reads that gets as far as the decision
  pub record Reads (w : World F B) (r : OptiScaler F) (current : ℤ) (details : Deployment B)
      : Type 0 where
    pub is_found : w.resource ≡ found r
    pub is_valid : validate_spec r.spec ≡ none
    pub is_scaled : w.scale ≡ found current
    pub has_client : w.client_error ≡ none
    pub is_read : w.details ≡ ok details

  abbrev pub input_of : World F B → OptiScaler F → ℤ → Deployment B → CapacityInput
  input_of w r current details =
      capacity_input r (analyze (snapshot_of w r current details)) current w.dependencies w.now

  pub reconcile-act_on :
      (l : Library F B) (w : World F B) (r : OptiScaler F) (current : ℤ) (details : Deployment B)
      (m : List (Entry (PredictionHistory F)))
      → format.trim_space "" ≡ ""
      → Reads w r current details
      → reconcile l w m ≡ act_on l w r current details (decision_of l w r current details m)
  unfolding reconcile with_resource with_validity with_scale with_client reconcile_capacity
      with_details uses_capacity
  reconcile-act_on l w r current details m trim h =
      let named = validate_spec-utilization_query r.spec trim h.is_valid in
      let used : uses_capacity r.spec ≡ true = rw (named, uses_capacity) refl in
      ap (with_resource l w m) h.is_found
      ∙ ap (with_validity l w r m) h.is_valid
      ∙ ap (with_scale l w r m) h.is_scaled
      ∙ ap (with_client l w r current m) h.has_client
      ∙ ap
          (λ u.
            if u
            then reconcile_capacity l w r current m
            else some (with_metric l w r current m w.target.p95))
          used
      ∙ ap (with_details l w r current m) h.is_read

  pub finish_capacity-acts :
      (l : Library F B) (w : World F B) (r : OptiScaler F) (current : ℤ) (s : Snapshot F)
      (x : Decided F)
      → acts x.decision ≡ true
      → w.scale_error ≡ none
      → finish_capacity l w r current s x ≡ write_scale l w r current s x none
  unfolding finish_capacity
  finish_capacity-acts l w r current s x acting e =
      ap
        (λ b.
          if b
          then write_scale l w r current s x w.scale_error
          else update_status l w r (decided_status l w r current s x) [] x.histories)
        acting
      ∙ ap (write_scale l w r current s x) e
