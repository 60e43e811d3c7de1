-- ===== src/Controller/Reconcile/Writes.antt =====
-- What a run of `Reconcile` writes.
use silver_leaf.Prelude.{
  ℤ, true, ◌≡◌, refl, sym, ◌∙◌, subst, ◌⊎◌, inl, inr, String, Option, none, some, List, [],
  if◌then◌else◌, if_intro,
}
use silver_leaf.Go.Error.{Result, ok, err}
use silver_leaf.Go.Map.{Entry}
use silver_leaf.Go.Float.{Float, Format}
use silver_leaf.Api.Status.{OptiScaler, OptiScalerStatus}
use silver_leaf.Controller.Spec.{validate_spec}
use silver_leaf.Controller.Spec.Queries.{validate_spec-utilization_query}
use silver_leaf.Controller.Cluster.{Deployment}
use silver_leaf.Controller.Histories.{PredictionHistory}
use silver_leaf.Controller.Decide.{Decided}
use silver_leaf.Controller.World.{Found, found, not_found, failed, World, Run, Library}
use silver_leaf.Controller.Finish.{
  update_status, protected_as, protected_status, chosen_workload, acts, decided_status, write_scale,
  finish_capacity, snapshot_of, decision_of, act_on, with_details, reconcile_capacity,
}
use silver_leaf.Controller.Reconcile.Effects.{
  Quiet, nothing, WroteOnce, update_status-Quiet, protected_as-time, decided_status-time,
  write_scale-WroteOnce,
}
use silver_leaf.Controller.Reconcile.{
  uses_capacity, with_metric, with_client, with_scale, reject_spec, with_validity, with_resource,
  reconcile,
}

-- What holds of a result, if there is one.
abbrev pub Always : {A : Type 0} → (A → Type 0) → Option A → Type 0
Always P none = Unit
Always P (some x) = P x

module _ {F B : Type 0} ⦃fl : Float F⦄ ⦃format : Format F⦄ where
  -- A run that writes a scale: the resource is found and valid, its count and its Deployment are read, and the write is that of a decision
  -- for the snapshot that asks for another count.
  pub record WritesDecision (l : Library F B) (w : World F B)
      (m : List (Entry (PredictionHistory F))) (run : Run F) : Type 0 where
    pub resource : OptiScaler F
    pub current : ℤ
    pub details : Deployment B
    pub decided : Decided F
    pub is_found : w.resource ≡ found resource
    pub is_valid : validate_spec resource.spec ≡ none
    pub is_scaled : w.scale ≡ found current
    pub is_read : w.details ≡ ok details
    pub is_decided : decision_of l w resource current details m ≡ some decided
    pub acting : acts decided.decision ≡ true
    pub no_error : w.scale_error ≡ none
    pub once :
        WroteOnce w run
          (chosen_workload resource decided.decision)
          decided.decision.current_replicas
          decided.decision.desired_replicas

module _ {F B : Type 0} ⦃fl : Float F⦄ ⦃format : Format F⦄ where
  -- The two outcomes of a run.
  abbrev Outcome : Library F B → World F B → List (Entry (PredictionHistory F)) → Run F → Type 0
  Outcome l w m run = Quiet w run ⊎ WritesDecision l w m run

  -- what a run that decides rests on
  record Decides (l : Library F B) (w : World F B) (m : List (Entry (PredictionHistory F)))
      (r : OptiScaler F) (current : ℤ) (details : Deployment B) (x : Decided F) : Type 0 where
    is_found : w.resource ≡ found r
    is_valid : validate_spec r.spec ≡ none
    is_scaled : w.scale ≡ found current
    is_read : w.details ≡ ok details
    is_decided : decision_of l w r current details m ≡ some x

  write_scale-Outcome :
      (l : Library F B) (w : World F B) (m : List (Entry (PredictionHistory F))) (r : OptiScaler F)
      (current : ℤ) (details : Deployment B) (x : Decided F)
      → Decides l w m r current details x
      → acts x.decision ≡ true
      → (e : Option String) → w.scale_error ≡ e
      → Outcome l w m (write_scale l w r current (snapshot_of w r current details) x e)
  unfolding write_scale
  write_scale-Outcome l w m r current details x h acting (some e) _ = inl (nothing refl)
  write_scale-Outcome l w m r current details x h acting none no_error =
      let s = snapshot_of w r current details in
      inr (record {
        resource = r;
        current = current;
        details = details;
        decided = x;
        is_found = h.is_found;
        is_valid = h.is_valid;
        is_scaled = h.is_scaled;
        is_read = h.is_read;
        is_decided = h.is_decided;
        acting = acting;
        no_error = no_error;
        once = write_scale-WroteOnce l w r current s x;
      })

  finish_capacity-Outcome :
      (l : Library F B) (w : World F B) (m : List (Entry (PredictionHistory F))) (r : OptiScaler F)
      (current : ℤ) (details : Deployment B) (x : Decided F)
      → Decides l w m r current details x
      → Outcome l w m (finish_capacity l w r current (snapshot_of w r current details) x)
  unfolding finish_capacity
  finish_capacity-Outcome l w m r current details x h =
      if_intro (Outcome l w m) (acts x.decision)
        (write_scale l w r current (snapshot_of w r current details) x w.scale_error)
        (update_status l w r (decided_status l w r current (snapshot_of w r current details) x) []
          x.histories)
        (λ acting. write_scale-Outcome l w m r current details x h acting w.scale_error refl)
        (λ _. inl (
          update_status-Quiet l w r
            (decided_status l w r current (snapshot_of w r current details) x) x.histories
            h.is_found (decided_status-time l w r current (snapshot_of w r current details) x)))

  act_on-Outcome :
      (l : Library F B) (w : World F B) (m : List (Entry (PredictionHistory F))) (r : OptiScaler F)
      (current : ℤ) (details : Deployment B)
      → w.resource ≡ found r
      → validate_spec r.spec ≡ none
      → w.scale ≡ found current
      → w.details ≡ ok details
      → (x : Option (Decided F)) → decision_of l w r current details m ≡ x
      → Always (Outcome l w m) (act_on l w r current details x)
  unfolding act_on
  act_on-Outcome l w m r current details a b c d none e = tt
  act_on-Outcome l w m r current details a b c d (some x) e =
      finish_capacity-Outcome l w m r current details x
        (record { is_found = a; is_valid = b; is_scaled = c; is_read = d; is_decided = e })

  with_details-Outcome :
      (l : Library F B) (w : World F B) (m : List (Entry (PredictionHistory F))) (r : OptiScaler F)
      (current : ℤ)
      → w.resource ≡ found r
      → validate_spec r.spec ≡ none
      → w.scale ≡ found current
      → (d : Result (Deployment B)) → w.details ≡ d
      → Always (Outcome l w m) (with_details l w r current m d)
  unfolding with_details
  with_details-Outcome l w m r current a b c (err e) _ = inl (nothing refl)
  with_details-Outcome l w m r current a b c (ok details) d =
      act_on-Outcome l w m r current details a b c d (decision_of l w r current details m) refl

  protected_status-Quiet :
      (l : Library F B) (w : World F B) (r : OptiScaler F) (s : OptiScalerStatus F) (e : String)
      (m : List (Entry (PredictionHistory F)))
      → w.resource ≡ found r
      → s.last_scale_time ≡ r.status.last_scale_time
      → Quiet w (protected_status l w r s e m)
  unfolding protected_status
  protected_status-Quiet l w r s e m here same =
      let t = record s { desired_replicas = s.current_replicas; observed_metric = none } in
      update_status-Quiet l w r (protected_as l w r t "TelemetryUnavailable" e) m here
        (protected_as-time l w r t "TelemetryUnavailable" e ∙ same)

  with_client-Outcome :
      (l : Library F B) (w : World F B) (m : List (Entry (PredictionHistory F))) (r : OptiScaler F)
      (current : ℤ)
      → format.trim_space "" ≡ ""
      → w.resource ≡ found r
      → validate_spec r.spec ≡ none
      → w.scale ≡ found current
      → (e : Option String) → Always (Outcome l w m) (with_client l w r current m e)
  unfolding with_client reconcile_capacity uses_capacity
  with_client-Outcome l w m r current trim a b c (some e) = inl (
      protected_status-Quiet l w r
        (record (r.status) { current_replicas = current; desired_replicas = current }) e m a refl)
  with_client-Outcome l w m r current trim a b c none =
      let named = validate_spec-utilization_query r.spec trim b in
      let used : uses_capacity r.spec ≡ true = rw (named, uses_capacity) refl in
      subst
        (λ u. Always (Outcome l w m) (
          if u
          then reconcile_capacity l w r current m
          else some (with_metric l w r current m w.target.p95)))
        (sym used) (with_details-Outcome l w m r current a b c w.details refl)

  with_scale-Outcome :
      (l : Library F B) (w : World F B) (m : List (Entry (PredictionHistory F))) (r : OptiScaler F)
      → format.trim_space "" ≡ ""
      → w.resource ≡ found r
      → validate_spec r.spec ≡ none
      → (s : Found ℤ) → w.scale ≡ s
      → Always (Outcome l w m) (with_scale l w r m s)
  unfolding with_scale
  with_scale-Outcome l w m r trim a b (found current) c =
      with_client-Outcome l w m r current trim a b c w.client_error
  with_scale-Outcome l w m r trim a b (not_found e) _ = inl (nothing refl)
  with_scale-Outcome l w m r trim a b (failed e) _ = inl (nothing refl)

  with_validity-Outcome :
      (l : Library F B) (w : World F B) (m : List (Entry (PredictionHistory F))) (r : OptiScaler F)
      → format.trim_space "" ≡ ""
      → w.resource ≡ found r
      → (e : Option String) → validate_spec r.spec ≡ e
      → Always (Outcome l w m) (with_validity l w r m e)
  unfolding with_validity reject_spec
  with_validity-Outcome l w m r trim a (some e) _ =
      let t = record (r.status) { desired_replicas = r.status.current_replicas } in
      inl (
        update_status-Quiet l w r (protected_as l w r t "InvalidConfiguration" e) m a
          (protected_as-time l w r t "InvalidConfiguration" e))
  with_validity-Outcome l w m r trim a none b = with_scale-Outcome l w m r trim a b w.scale refl

  with_resource-Outcome :
      (l : Library F B) (w : World F B) (m : List (Entry (PredictionHistory F)))
      → format.trim_space "" ≡ ""
      → (f : Found (OptiScaler F)) → w.resource ≡ f
      → Always (Outcome l w m) (with_resource l w m f)
  unfolding with_resource
  with_resource-Outcome l w m trim (found r) a =
      with_validity-Outcome l w m r trim a (validate_spec r.spec) refl
  with_resource-Outcome l w m trim (not_found e) _ = inl (nothing refl)
  with_resource-Outcome l w m trim (failed e) _ = inl (nothing refl)

  -- Where trimming the empty text leaves it empty, a run of Reconcile that returns writes no scale, and then at most a
  -- status whose time of the last scale is as it was; or it writes one scale, and then at most a status whose
  -- time of the last scale is the present. It writes a scale only of a resource that is found and whose specification is valid, once
  -- its count and its Deployment are read and the write does not fail, and the write is the change of a count that was decided for the snapshot.
  pub reconcile_writes :
      (l : Library F B) (w : World F B) (m : List (Entry (PredictionHistory F))) (run : Run F)
      → format.trim_space "" ≡ ""
      → reconcile l w m ≡ some run
      → Quiet w run ⊎ WritesDecision l w m run
  unfolding reconcile
  reconcile_writes l w m run trim e =
      subst (Always (Outcome l w m)) e (with_resource-Outcome l w m trim w.resource refl)
