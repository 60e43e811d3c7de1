-- ===== src/Controller/Reconcile/Total.antt =====
-- A run of `Reconcile` always returns, and keeps the histories in order.
use silver_leaf.Prelude.{
  ℤ, ◌&&◌, ◌≡◌, refl, sym, ap, subst, ◌⊎◌, inl, inr, String, Option, none, some, List, [],
  Bool-cases, if_intro,
}
use silver_leaf.Go.Error.{Result, ok, err}
use silver_leaf.Go.Map.{Entry}
use silver_leaf.Go.Time.{Time}
use silver_leaf.Go.Float.{Float, Format, IsIeee}
use silver_leaf.Api.Status.{OptiScaler, OptiScalerStatus}
use silver_leaf.Observation.{Snapshot}
use silver_leaf.Capacity.Analyze.{analyze}
use silver_leaf.Controller.Spec.{validate_spec}
use silver_leaf.Controller.Cluster.{Deployment}
use silver_leaf.Controller.Histories.{PredictionHistory}
use silver_leaf.Controller.Histories.Bounded.{IsHistories}
use silver_leaf.Controller.Request.{PredictionRequest, no_assessment}
use silver_leaf.Controller.Prediction.{Prediction, evaluate_prediction}
use silver_leaf.Controller.Prediction.Total.{evaluate_prediction_total, evaluate_prediction-off}
use silver_leaf.Controller.Observe.{Answer, Sampled}
use silver_leaf.Controller.Pods.{target_readiness}
use silver_leaf.Controller.Decide.{Decided, decided_of, request_of}
use silver_leaf.Controller.Decide.Licensed.{decided_from}
use silver_leaf.Controller.World.{Found, found, not_found, failed, World, Effect, Run, Library}
use silver_leaf.Controller.Finish.{
  update_status, protected_status, acts, decided_status, scaled_status, write_scale,
  finish_capacity, snapshot_of, decision_of, act_on, with_details, reconcile_capacity,
}
use silver_leaf.Controller.OneMetric.{
  threshold_input, threshold_status, write_target, finish_threshold,
}
use silver_leaf.Policy.Threshold.{evaluate}
use silver_leaf.Controller.Learning.{scales_target}
use silver_leaf.Controller.Status.{should_update_scale}
use silver_leaf.Controller.Reconcile.{
  uses_capacity, with_metric, with_client, with_scale, reject_spec, with_validity, with_resource,
  reconcile,
}
use silver_leaf.Controller.Reconcile.Effects.{Quiet}
use silver_leaf.Controller.Reconcile.Writes.{WritesDecision, reconcile_writes}

module _ {F : Type 0} ⦃fl : Float F⦄ ⦃format : Format F⦄ where
  pub prediction_returns :
      IsIeee F
      → (before : Time) (m : List (Entry (PredictionHistory F))) → IsHistories before m
      → (q : PredictionRequest F)
      → (p : Prediction F) × (evaluate_prediction q m ≡ some p)
        × (IsHistories before p.histories ⊎ IsHistories q.now p.histories)
  prediction_returns laws before m h q = elim (Bool-cases q.resource.spec.prediction.enabled) [
    | inl on ↦ let (p, e, kept) = evaluate_prediction_total laws q before m h on in (p, e, inr kept)
    | inr disabled ↦ (
      record { decision = q.current; assessment = no_assessment; histories = m },
      evaluate_prediction-off q m disabled,
      inl h,
    )
  ]

module _ {F B : Type 0} ⦃fl : Float F⦄ ⦃format : Format F⦄ where
  -- The histories are in order, as of the time before or of the run.
  abbrev pub InOrder : Time → World F B → List (Entry (PredictionHistory F)) → Type 0
  InOrder before w m = IsHistories before m ⊎ IsHistories w.now m

  -- a result with the histories in order
  abbrev Returns : Time → World F B → Option (Run F) → Type 0
  Returns before w o = (run : Run F) × (o ≡ some run) × InOrder before w run.histories

  update_status-histories :
      (l : Library F B) (w : World F B) (r : OptiScaler F) (s : OptiScalerStatus F)
      (e : List (Effect F)) (m : List (Entry (PredictionHistory F)))
      → (update_status l w r s e m).histories ≡ m
  unfolding update_status
  update_status-histories l w r s e m = elim (Bool-cases (l.same_status r.status s)) [
    | inl t ↦ rw (t, update_status) refl
    | inr t ↦ rw (t, update_status) refl
  ]

  write_scale-histories :
      (l : Library F B) (w : World F B) (r : OptiScaler F) (current : ℤ) (s : Snapshot F)
      (x : Decided F) (e : Option String)
      → (write_scale l w r current s x e).histories ≡ x.histories
  unfolding write_scale
  write_scale-histories l w r current s x (some e) = refl
  write_scale-histories l w r current s x none =
      update_status-histories l w r (scaled_status l w r current s x) _ x.histories

  finish_capacity-histories :
      (l : Library F B) (w : World F B) (r : OptiScaler F) (current : ℤ) (s : Snapshot F)
      (x : Decided F)
      → (finish_capacity l w r current s x).histories ≡ x.histories
  unfolding finish_capacity
  finish_capacity-histories l w r current s x =
      if_intro (λ (run : Run F). run.histories ≡ x.histories) (acts x.decision)
        (write_scale l w r current s x w.scale_error)
        (update_status l w r (decided_status l w r current s x) [] x.histories)
        (λ _. write_scale-histories l w r current s x w.scale_error)
        (λ _. update_status-histories l w r (decided_status l w r current s x) [] x.histories)

  write_target-histories :
      (l : Library F B) (w : World F B) (r : OptiScaler F) (current : ℤ) (v : Sampled F)
      (m : List (Entry (PredictionHistory F))) (e : Option String)
      → (write_target l w r current v m e).histories ≡ m
  unfolding write_target
  write_target-histories l w r current v m (some e) = refl
  write_target-histories l w r current v m none = update_status-histories l w r _ _ m

  finish_threshold-histories :
      (l : Library F B) (w : World F B) (r : OptiScaler F) (current : ℤ) (v : Sampled F)
      (m : List (Entry (PredictionHistory F)))
      → (finish_threshold l w r current v m).histories ≡ m
  unfolding finish_threshold
  finish_threshold-histories l w r current v m =
      let d = evaluate (threshold_input w r current v) in
      if_intro (λ (run : Run F). run.histories ≡ m)
        (scales_target d.action && should_update_scale current d.desired_replicas)
        (write_target l w r current v m w.scale_error)
        (update_status l w r (threshold_status l w r current v) [] m)
        (λ _. write_target-histories l w r current v m w.scale_error)
        (λ _. update_status-histories l w r (threshold_status l w r current v) [] m)

  module _ (laws : IsIeee F) (before : Time) (m : List (Entry (PredictionHistory F)))
      (h : IsHistories before m) where
    decision_returns :
        (l : Library F B) (w : World F B) (r : OptiScaler F) (current : ℤ) (details : Deployment B)
        → (x : Decided F) × (decision_of l w r current details m ≡ some x)
          × InOrder before w x.histories
    unfolding decision_of request_of decided_of
    decision_returns l w r current details =
        let s = snapshot_of w r current details in
        let readiness = target_readiness l.same_template details w.pods w.replica_sets in
        let (p, e, kept) =
          prediction_returns laws before m h
            (request_of r s readiness current w.dependencies w.now) in
        (
          decided_of r s (analyze s) current p,
          decided_from r s readiness current w.dependencies w.now m p e,
          kept,
        )

    act_on-Returns :
        (l : Library F B) (w : World F B) (r : OptiScaler F) (current : ℤ) (details : Deployment B)
        → Returns before w (act_on l w r current details (decision_of l w r current details m))
    unfolding act_on
    act_on-Returns l w r current details =
        let (x, e, kept) = decision_returns l w r current details in
        let s = snapshot_of w r current details in
        (
          finish_capacity l w r current s x,
          ap (act_on l w r current details) e,
          subst (InOrder before w) (sym (finish_capacity-histories l w r current s x)) kept,
        )

    -- a run that leaves the histories as they are
    unchanged : (w : World F B) (run : Run F) → run.histories ≡ m → Returns before w (some run)
    unchanged w run e = (run, refl, inl (subst (IsHistories before) (sym e) h))

    protected_status-histories :
        (l : Library F B) (w : World F B) (r : OptiScaler F) (s : OptiScalerStatus F) (e : String)
        → (protected_status l w r s e m).histories ≡ m
    unfolding protected_status
    protected_status-histories l w r s e = update_status-histories l w r _ [] m

    with_metric-histories :
        (l : Library F B) (w : World F B) (r : OptiScaler F) (current : ℤ) (a : Answer F)
        → (with_metric l w r current m a).histories ≡ m
    unfolding with_metric
    with_metric-histories l w r current (err e) = protected_status-histories l w r _ e
    with_metric-histories l w r current (ok v) = finish_threshold-histories l w r current v m

    with_details-Returns :
        (l : Library F B) (w : World F B) (r : OptiScaler F) (current : ℤ)
        (d : Result (Deployment B))
        → Returns before w (with_details l w r current m d)
    unfolding with_details
    with_details-Returns l w r current (err e) = unchanged w _ refl
    with_details-Returns l w r current (ok details) = act_on-Returns l w r current details

    with_client-Returns :
        (l : Library F B) (w : World F B) (r : OptiScaler F) (current : ℤ) (e : Option String)
        → Returns before w (with_client l w r current m e)
    unfolding with_client reconcile_capacity
    with_client-Returns l w r current (some e) =
        unchanged w _ (protected_status-histories l w r _ e)
    with_client-Returns l w r current none =
        if_intro (Returns before w) (uses_capacity r.spec) (reconcile_capacity l w r current m)
          (some (with_metric l w r current m w.target.p95))
          (λ _. with_details-Returns l w r current w.details)
          (λ _. unchanged w _ (with_metric-histories l w r current w.target.p95))

    with_scale-Returns :
        (l : Library F B) (w : World F B) (r : OptiScaler F) (s : Found ℤ)
        → Returns before w (with_scale l w r m s)
    unfolding with_scale
    with_scale-Returns l w r (found current) = with_client-Returns l w r current w.client_error
    with_scale-Returns l w r (not_found e) = unchanged w _ refl
    with_scale-Returns l w r (failed e) = unchanged w _ refl

    with_validity-Returns :
        (l : Library F B) (w : World F B) (r : OptiScaler F) (e : Option String)
        → Returns before w (with_validity l w r m e)
    unfolding with_validity reject_spec
    with_validity-Returns l w r (some e) = unchanged w _ (update_status-histories l w r _ [] m)
    with_validity-Returns l w r none = with_scale-Returns l w r w.scale

    with_resource-Returns :
        (l : Library F B) (w : World F B) (f : Found (OptiScaler F))
        → Returns before w (with_resource l w m f)
    unfolding with_resource
    with_resource-Returns l w (found r) = with_validity-Returns l w r (validate_spec r.spec)
    with_resource-Returns l w (not_found e) = unchanged w _ refl
    with_resource-Returns l w (failed e) = unchanged w _ refl

  -- With floats that meet the IEEE laws, where trimming the empty text leaves it empty, and the histories are at most 128, one of
  -- each key, each of at most twenty samples of either kind in increasing order of time: a run of Reconcile returns, with such
  -- histories; and it writes no scale, and then at most a status whose time of the last scale is as it was, or it writes one
  -- scale, and then at most a status whose time of the last scale is the present. It writes a scale only of a resource
  -- that is found and whose specification is valid, once its count and its Deployment are read, and the write is the
  -- change of a count that was decided for the snapshot.
  pub reconcile_total :
      IsIeee F
      → (l : Library F B) (w : World F B) (before : Time) (m : List (Entry (PredictionHistory F)))
      → format.trim_space "" ≡ ""
      → IsHistories before m
      → (run : Run F) × (reconcile l w m ≡ some run)
        × (Quiet w run ⊎ WritesDecision l w m run)
        × (IsHistories before run.histories ⊎ IsHistories w.now run.histories)
  unfolding reconcile
  reconcile_total laws l w before m trim h =
      let (run, e, kept) = with_resource-Returns laws before m h l w w.resource in
      (run, e, reconcile_writes l w m run trim e, kept)
