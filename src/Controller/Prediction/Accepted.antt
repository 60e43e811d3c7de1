-- ===== src/Controller/Prediction/Accepted.antt =====
-- What stands behind a prediction that is accepted.
use silver_leaf.Prelude.{
  pos, ◌+ℤ◌, ◌*ℤ◌, ◌≤ℤ◌, ◌<ℤ◌, ltb_ℤ, eq_of_parts, true, false, ◌&&◌, ◌≡◌, refl, sym, ap, ◌∙◌,
  subst, inl, inr, Option, none, some, List, arith, Bool-cases,
}
use silver_leaf.Go.Map.{Entry}
use silver_leaf.Go.Error.{ok, Result-cases}
use silver_leaf.Go.Time
use silver_leaf.Go.Time.{Time, Duration, seconds}
use silver_leaf.Go.Int32.{max_int32}
use silver_leaf.Go.Float.{Float, Format, IsIeee}
use silver_leaf.Capacity.Types.{healthy}
use silver_leaf.Policy.Types.{prescale_target, hold, is_prescale}
use silver_leaf.Policy.Component.{cooldown_active}
use silver_leaf.Policy.Prescale.{evaluate_prescale}
use silver_leaf.Policy.Prescale.Outcome.{evaluate_prescale-IsRaised}
use silver_leaf.Forecast.Estimate.{CapacityEstimate, estimated}
use silver_leaf.Controller.Request.{
  PredictionRequest, reconcile_interval, serving, count_or_zero, with_capacity, no_assessment,
  horizon_of, lag_of, demand_window_of, error_rate_healthy, target_unsaturated,
}
use silver_leaf.Controller.Histories.{PredictionHistory}
use silver_leaf.Controller.Readiness.{ReadinessLeadEvidence}
use silver_leaf.Controller.Assessment.{PredictionAssessment}
use silver_leaf.Controller.Prediction.Total.{
  estimation_of, Estimation-cases, evaluate_prediction-concluded, evaluate_prediction-off, off,
  estimate-no_result,
}
use silver_leaf.Controller.Prediction.{
  Prediction, history_after, histories_after, observe, prescale_input, has_capacity_evidence,
  conclude, estimate, evaluate_prediction,
}

-- The horizon is positive only as the sum of its parts.
horizon_of-parts :
    (r : ReadinessLeadEvidence) (window : Duration)
    → pos 0 <ℤ horizon_of r window
    → horizon_of r window ≡ Time.sum (Time.sum r.lead_time reconcile_interval) (lag_of window)
unfolding horizon_of
horizon_of-parts r window h = elim (Bool-cases (r.available && ltb_ℤ (pos 0) (lag_of window))) [
  | inl t ↦ rw t refl
  | inr t ↦
      let zero : horizon_of r window ≡ pos 0 = rw (t, horizon_of) refl in
      absurd (ground (arith, zero))
]

module _ {F : Type 0} ⦃fl : Float F⦄ where
  -- The capacity is known of all replicas: the pods that are Ready, those that the Deployment reports,
  -- those that serve and those requested are as many; and a new pod's lead time is known.
  pub record IsRealized (q : PredictionRequest F) (a : PredictionAssessment F) : Type 0 where
    pub serving_count : serving q ≡ ok q.snapshot.target.current_replicas
    pub ready : a.ready_replicas ≡ q.snapshot.target.current_replicas
    pub reported : q.snapshot.target.ready_replicas ≡ q.snapshot.target.current_replicas
    pub some_serve : pos 0 <ℤ q.snapshot.target.current_replicas
    pub lead : a.readiness.available ≡ true
    pub measured : a.has_safe_capacity ≡ true

module _ {F : Type 0} ⦃fl : Float F⦄ ⦃format : Format F⦄ where
  -- What holds of a prediction that is accepted: a hold of a healthy service becomes a raise of the target by at least one and at most
  -- one step, within its maximum and outside the cooldown; all replicas requested are Ready and serve; the
  -- forecast demand exceeds the safe capacity of those replicas, by the estimate from the samples; and the
  -- horizon is positive, and is the lead time of a new pod, the control loop's interval and half the demand window.
  pub record IsAccepted (q : PredictionRequest F) (m : List (Entry (PredictionHistory F)))
      (p : Prediction F) : Type 0 where
    pub healthy_class : q.analysis.classification ≡ healthy
    pub held : q.current.action ≡ hold
    pub raised : p.decision.action ≡ prescale_target
    pub component : p.decision.chosen_component ≡ "target"
    pub more : q.current.current_replicas <ℤ p.decision.desired_replicas
    pub le_max : p.decision.desired_replicas ≤ℤ q.resource.spec.max_replicas
    pub le_step :
        p.decision.desired_replicas
        ≤ℤ q.current.current_replicas +ℤ q.resource.spec.policy.max_scale_up_step
    pub idle :
        cooldown_active q.resource.status.last_scale_time
          (q.resource.spec.policy.cooldown_seconds *ℤ seconds 1)
          q.now
        ≡ false
    pub realized : IsRealized q p.assessment
    pub capacity :
        (e : CapacityEstimate F) × (estimate q (history_after q m) ≡ estimated e)
        × (p.assessment.current_safe_capacity
            ≡ fl.mul e.safe_per_replica_capacity (fl.of_int q.snapshot.target.current_replicas))
    pub exceeds : fl.lt p.assessment.current_safe_capacity p.assessment.trend.request_rate ≡ true
    pub horizon_pos : pos 0 <ℤ p.assessment.planning_horizon
    pub horizon :
        p.assessment.planning_horizon
        ≡ Time.sum
            (Time.sum p.assessment.readiness.lead_time reconcile_interval)
            (lag_of (demand_window_of q.resource.spec.prediction.predictive_demand_window_seconds))
    pub errors :
        error_rate_healthy q.snapshot.target.request_rates.error_rate
          q.resource.spec.prediction.max_error_rate
        ≡ true
    pub unsaturated : target_unsaturated q.snapshot.target ≡ true

  has_capacity_evidence-IsRealized :
      (q : PredictionRequest F) (a : PredictionAssessment F)
      → has_capacity_evidence q a ≡ true
      → IsRealized q a
  unfolding has_capacity_evidence
  has_capacity_evidence-IsRealized q a h = elim (Result-cases (serving q)) [
    | inr (m, e) ↦ ground arith
    | inl (n, e) ↦
        let t = q.snapshot.target in
        let count : count_or_zero (serving q) ≡ n = ap (λ r. count_or_zero r) e in
        let ready : a.ready_replicas ≡ t.current_replicas =
          eq_of_parts a.ready_replicas t.current_replicas (ground arith) in
        let reported : a.ready_replicas ≡ t.ready_replicas =
          eq_of_parts a.ready_replicas t.ready_replicas (ground arith) in
        let served : n ≡ a.ready_replicas =
          eq_of_parts n a.ready_replicas (ground (arith, count)) in
        record {
          serving_count = e ∙ ap ok (served ∙ ready);
          ready = ready;
          reported = sym reported ∙ ready;
          some_serve =
              let n_pos : pos 0 <ℤ n = ground (arith, count) in
              subst (λ k. pos 0 <ℤ k) (served ∙ ready) n_pos;
          lead = ground arith;
          measured = ground arith;
        }
  ]

  -- the assessment that a request concludes with
  abbrev pub assessed :
      PredictionRequest F
      → List (Entry (PredictionHistory F))
      → Option (CapacityEstimate F)
      → PredictionAssessment F
  assessed q m c = with_capacity c (serving q) (observe q (history_after q m))

  -- The capacity is that of the replicas that serve.
  assessed-capacity :
      (q : PredictionRequest F) (m : List (Entry (PredictionHistory F)))
      (c : Option (CapacityEstimate F))
      → (assessed q m c).has_safe_capacity ≡ true
      → (e : CapacityEstimate F) × (c ≡ some e)
        × ((assessed q m c).current_safe_capacity
            ≡ fl.mul e.safe_per_replica_capacity (fl.of_int (count_or_zero (serving q))))
  unfolding with_capacity observe
  assessed-capacity q m none h = ground arith
  assessed-capacity q m (some e) h = (e, refl, refl)

  assessed-horizon :
      (q : PredictionRequest F) (m : List (Entry (PredictionHistory F)))
      (c : Option (CapacityEstimate F))
      → ((assessed q m c).planning_horizon
          ≡ horizon_of
              (assessed q m c).readiness
              (demand_window_of q.resource.spec.prediction.predictive_demand_window_seconds))
  unfolding with_capacity observe
  assessed-horizon q m none = refl
  assessed-horizon q m (some e) = refl

  -- What is accepted was made a raise by the policy.
  conclude-raised :
      (q : PredictionRequest F) (a : PredictionAssessment F)
      (m : List (Entry (PredictionHistory F)))
      → (conclude q a m).assessment.accepted ≡ true
      → is_prescale (evaluate_prescale (prescale_input q a)).action ≡ true
  unfolding conclude
  conclude-raised q a m h = h

  conclude-decision :
      (q : PredictionRequest F) (a : PredictionAssessment F)
      (m : List (Entry (PredictionHistory F)))
      → ((conclude q a m).decision.action ≡ (evaluate_prescale (prescale_input q a)).action)
        × ((conclude q a m).decision.chosen_component
            ≡ (evaluate_prescale (prescale_input q a)).chosen_component)
        × ((conclude q a m).decision.desired_replicas
            ≡ (evaluate_prescale (prescale_input q a)).desired_replicas)
  unfolding conclude
  conclude-decision q a m =
      elim (Bool-cases (is_prescale (evaluate_prescale (prescale_input q a)).action)) [
        | inl t ↦ rw (t, conclude) (refl, refl, refl)
        | inr t ↦ rw (t, conclude) (refl, refl, refl)
      ]

  assessed-IsRealized :
      (q : PredictionRequest F) (a : PredictionAssessment F)
      → IsRealized q a
      → (m : List (Entry (PredictionHistory F))) → IsRealized q (conclude q a m).assessment
  unfolding conclude
  assessed-IsRealized q a r m = record {
    serving_count = r.serving_count;
    ready = r.ready;
    reported = r.reported;
    some_serve = r.some_serve;
    lead = r.lead;
    measured = r.measured;
  }

  conclude-IsAccepted :
      IsIeee F
      → (q : PredictionRequest F) (m m' : List (Entry (PredictionHistory F)))
        (c : Option (CapacityEstimate F))
      → (conclude q (assessed q m c) m').assessment.accepted ≡ true
      → is_prescale q.current.action ≡ false
      → q.current.current_replicas +ℤ q.resource.spec.policy.max_scale_up_step ≤ℤ max_int32
      → estimate q (history_after q m) ≡ estimation_of c
      → IsAccepted q m (conclude q (assessed q m c) m')
  unfolding prescale_input conclude
  conclude-IsAccepted laws q m m' c accepted other fits est =
      let i = prescale_input q (assessed q m c) in
      let raises = conclude-raised q (assessed q m c) m' accepted in
      let (class, held, attested, forecast, up) =
        evaluate_prescale-IsRaised laws i other raises fits in
      let realized =
        has_capacity_evidence-IsRealized q (assessed q m c) attested.capacity_evidence in
      let (action, component, desired) = conclude-decision q (assessed q m c) m' in
      let (e, some_e, product) = assessed-capacity q m c realized.measured in
      record {
        healthy_class = class;
        held = held;
        raised = action ∙ up.action;
        component = component ∙ up.component;
        more =
            subst (λ d. q.current.current_replicas <ℤ d) (sym desired)
              (subst (λ n. n <ℤ (evaluate_prescale i).desired_replicas) up.current up.more);
        le_max = subst (λ d. d ≤ℤ q.resource.spec.max_replicas) (sym desired) up.le_max;
        le_step =
            subst (λ d. d ≤ℤ q.current.current_replicas +ℤ q.resource.spec.policy.max_scale_up_step)
              (sym desired)
              (subst
                (λ n.
                  (evaluate_prescale i).desired_replicas
                  ≤ℤ n +ℤ q.resource.spec.policy.max_scale_up_step)
                up.current up.le_step);
        idle = forecast.idle;
        realized = assessed-IsRealized q (assessed q m c) realized m';
        capacity = (
          e,
          est ∙ ap estimation_of some_e,
          product
              ∙ ap (λ r. fl.mul e.safe_per_replica_capacity (fl.of_int (count_or_zero r)))
                  realized.serving_count,
        );
        exceeds = forecast.exceeds;
        horizon_pos = forecast.ahead;
        horizon =
            assessed-horizon q m c
            ∙ horizon_of-parts (assessed q m c).readiness
                (demand_window_of q.resource.spec.prediction.predictive_demand_window_seconds)
                (subst (λ h. pos 0 <ℤ h) (assessed-horizon q m c) forecast.ahead);
        errors = attested.error_rate;
        unsaturated = attested.unsaturated;
      }

  not_accepted_of_off :
      (q : PredictionRequest F) (m : List (Entry (PredictionHistory F))) (p : Prediction F)
      → off q m ≡ some p
      → p.assessment.accepted ≡ false
  not_accepted_of_off q m p e =
      let same : record { decision = q.current; assessment = no_assessment; histories = m } ≡ p =
        cc e in
      ap (λ (r : Prediction F). r.assessment.accepted) (sym same)

  -- With floats that meet the IEEE laws, where the decision before is no raise of this kind and one step up of its count does not
  -- overflow int32: a result whose prediction is accepted turned the hold of a healthy service into a raise of the target by at least
  -- one and at most one step, within its maximum and outside the cooldown; all replicas that are requested
  -- are Ready and serve, and there are some; the forecast demand exceeds the product of their count by the safe capacity estimated
  -- from the samples; and the horizon is positive, and is the lead time of a new pod, the control
  -- loop's interval and half the demand window, added with int64 arithmetic.
  pub evaluate_prediction-IsAccepted :
      IsIeee F
      → (q : PredictionRequest F) (m : List (Entry (PredictionHistory F))) (p : Prediction F)
      → evaluate_prediction q m ≡ some p
      → p.assessment.accepted ≡ true
      → is_prescale q.current.action ≡ false
      → q.current.current_replicas +ℤ q.resource.spec.policy.max_scale_up_step ≤ℤ max_int32
      → IsAccepted q m p
  evaluate_prediction-IsAccepted laws q m p e accepted other fits =
      elim (Bool-cases q.resource.spec.prediction.enabled) [
        | inr disabled ↦
            let no = not_accepted_of_off q m p (sym (evaluate_prediction-off q m disabled) ∙ e) in
            ground arith
        | inl on ↦ elim (Estimation-cases (estimate q (history_after q m))) [
          | inl panic ↦
              let clash : none ≡ some p = sym (estimate-no_result q m on panic) ∙ e in ground arith
          | inr (c, est) ↦
              let found : conclude q (assessed q m c) (histories_after q m) ≡ p =
                let path = sym (evaluate_prediction-concluded q m on c est) ∙ e in cc path in
              subst (IsAccepted q m) found (
                conclude-IsAccepted laws q m (histories_after q m) c
                  (ap (λ (r : Prediction F). r.assessment.accepted) found ∙ accepted) other fits
                  est)
        ]
      ]
