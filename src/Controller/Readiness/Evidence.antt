-- ===== src/Controller/Readiness/Evidence.antt =====
-- When readiness evidence is available, and that what is persisted from a fresh sample is found again.
use silver_leaf.Prelude.{
  ℕ, ◌*◌, ◌≤◌, ap, sym, ◌∙◌, pos, ◌<ℤ◌, true, false, String, some, str_eq, ◌≡◌, ◌↔◌, ◌⊎◌, inl, inr,
  arith, Option-cases,
}
use silver_leaf.Go.Time
use silver_leaf.Go.Time.{Time}
use silver_leaf.Go.Float.{Float, Format, IsIeee, finite_nonnegative}
use silver_leaf.Go.Order.{to_int-eq, eq-of_int}
use silver_leaf.Api.Status.{current_fresh_sample, persisted_learned_sample, LearnedReadiness}
use silver_leaf.Controller.Readiness.{
  TargetReadinessObservation, ReadinessLeadEvidence, unavailable, has_usable_sample, fresh_evidence,
  learned_sample, learned_evidence, persist_readiness_evidence, resolve_readiness_lead,
}

-- Ready pods of a known revision.
pub record IsResolvable (r : TargetReadinessObservation) : Type 0 where
  pub ready : pos 0 <ℤ r.ready_replicas
  pub no_error : str_eq r.revision_error "" ≡ true
  pub identified : str_eq r.template_identity "" ≡ false

module _ {F : Type 0} ⦃fl : Float F⦄ where
  -- A sample was learned of this revision.
  pub record IsLearned (identity : String) (status : LearnedReadiness F) : Type 0 where
    pub lead : F
    pub at : Time
    pub lead_set : status.lead_time_seconds ≡ some lead
    pub at_set : status.observed_at ≡ some at
    pub at_known : Time.is_zero at ≡ false
    pub same_revision : str_eq status.template_identity identity ≡ true
    pub usable : finite_nonnegative lead ≡ true

  learned_sample-of :
      (identity : String) (status : LearnedReadiness F)
      → IsLearned identity status
      → (s : F × Time) × (learned_sample identity status ≡ some s)
  unfolding learned_sample
  learned_sample-of identity status l = ((l.lead, l.at), ground arith)

  learned_sample-IsLearned :
      (identity : String) (status : LearnedReadiness F) (lead : F) (at : Time)
      → learned_sample identity status ≡ some (lead, at)
      → IsLearned identity status
  unfolding learned_sample
  learned_sample-IsLearned identity status lead at h =
      elim (Option-cases status.lead_time_seconds) [
        | inl e ↦ ground arith
        | inr (lead', e) ↦ elim (Option-cases status.observed_at) [
          | inl e' ↦ ground arith
          | inr (at', e') ↦ record {
            lead = lead';
            at = at';
            lead_set = e;
            at_set = e';
            at_known = ground arith;
            same_revision = ground arith;
            usable = ground arith;
          }
        ]
      ]

module _ {F : Type 0} ⦃fl : Float F⦄ ⦃format : Format F⦄ where
  -- Evidence is available exactly when pods are Ready, the revision of the target is known, and either
  -- they give a usable sample or one was learned of that same revision.
  pub resolve_readiness_lead-available_iff :
      (r : TargetReadinessObservation) (status : LearnedReadiness F)
      → ((resolve_readiness_lead r status).available ≡ true)
        ↔ (IsResolvable r × ((has_usable_sample r ≡ true) ⊎ IsLearned r.template_identity status))
  unfolding resolve_readiness_lead unavailable fresh_evidence learned_evidence
  resolve_readiness_lead-available_iff r status =
      elim (Option-cases (learned_sample r.template_identity status)) [
        | inl e ↦
            let none_learned : IsLearned r.template_identity status → ⊥ =
              λ l. let found = learned_sample-of r.template_identity status l in ground arith in
            rw e (ground arith)
        | inr ((lead, at), e) ↦
            let learned = learned_sample-IsLearned r.template_identity status lead at e in
            ground arith
      ]

  resolve_readiness_lead-fresh :
      (r : TargetReadinessObservation) (status : LearnedReadiness F)
      → (resolve_readiness_lead r status).source ≡ current_fresh_sample
      → (resolve_readiness_lead r status ≡ fresh_evidence r)
        × (has_usable_sample r ≡ true)
        × IsResolvable r
  unfolding resolve_readiness_lead unavailable learned_evidence
  resolve_readiness_lead-fresh r status h =
      elim (Option-cases (learned_sample r.template_identity status)) [
        | inl e ↦ ground arith
        | inr ((lead, at), e) ↦ ground arith
      ]

  persisted_fresh :
      (r : TargetReadinessObservation) (status : LearnedReadiness F)
      → has_usable_sample r ≡ true
      → IsResolvable r
      → persist_readiness_evidence status (fresh_evidence r) ≡ record {
        lead_time_seconds = some (fl.of_duration r.fresh_lead_time);
        observed_at = some r.fresh_observed_at;
        template_identity = r.template_identity;
      }
  unfolding persist_readiness_evidence fresh_evidence unavailable has_usable_sample
  persisted_fresh r status u v = let identified = v.identified in ground arith

  learned_lead :
      IsIeee F
      → (r : TargetReadinessObservation) (n : ℕ) (at : Time) → n ≤ 9_000_000
      → (learned_evidence r (fl.of_duration (pos (n * 1_000_000_000))) at).lead_time
        ≡ pos (n * 1_000_000_000)
  unfolding learned_evidence
  learned_lead laws r n at small =
      rw
        (
          laws.of_duration-seconds n (omega (arith, small)),
          laws.mul-of_int n 1_000_000_000 (omega (arith, small)) (omega arith)
              (omega (arith, small)),
        )
        (to_int-eq laws (fl.of_int (pos (n * 1_000_000_000))) (pos (n * 1_000_000_000))
          (omega (arith, small)) (eq-of_int laws (pos (n * 1_000_000_000)) (omega (arith, small))))

  -- a status with a learned sample, found by an observation without a fresh one
  found_again :
      (r later : TargetReadinessObservation) (lead : F)
      → IsResolvable later
      → has_usable_sample r ≡ true
      → has_usable_sample later ≡ false
      → str_eq r.template_identity later.template_identity ≡ true
      → finite_nonnegative lead ≡ true
      → resolve_readiness_lead later (record {
        lead_time_seconds = some lead;
        observed_at = some r.fresh_observed_at;
        template_identity = r.template_identity;
      })
        ≡ learned_evidence later lead r.fresh_observed_at
  unfolding resolve_readiness_lead learned_sample
  found_again r later lead v fresh u same usable =
      let known : Time.is_zero r.fresh_observed_at ≡ false =
        unfold has_usable_sample in ground arith in
      let a = v.ready in let b = v.no_error in let c = v.identified in ground arith

  -- With floats that meet the IEEE laws: what a fresh sample leaves in the status is found again by a
  -- later observation of Ready pods of the same known revision that gives no usable sample, as learned
  -- evidence observed at the time of that sample, with its lead time, where that is a whole number of
  -- seconds, and at most nine million.
  pub resolve_readiness_lead-persist :
      IsIeee F
      → (r later : TargetReadinessObservation) (status : LearnedReadiness F) (n : ℕ)
      → (resolve_readiness_lead r status).source ≡ current_fresh_sample
      → IsResolvable later
      → has_usable_sample later ≡ false
      → str_eq r.template_identity later.template_identity ≡ true
      → r.fresh_lead_time ≡ pos (n * 1_000_000_000)
      → n ≤ 9_000_000
      → let kept = persist_readiness_evidence status (resolve_readiness_lead r status) in
        let found = resolve_readiness_lead later kept in
        (found.available ≡ true)
        × (found.source ≡ persisted_learned_sample)
        × (found.observed_at ≡ r.fresh_observed_at)
        × (found.template_identity ≡ later.template_identity)
        × (found.lead_time ≡ r.fresh_lead_time)
  unfolding learned_evidence unavailable
  resolve_readiness_lead-persist laws r later status n h v u same whole small =
      let fresh = resolve_readiness_lead-fresh r status h in
      let usable : finite_nonnegative (fl.of_duration r.fresh_lead_time) ≡ true =
        rw (whole, laws.of_duration-seconds n (omega (arith, small)))
          (ground (
            arith,
            laws.finite-of_int (pos n) (omega (arith, small)),
            laws.le-of_int (pos 0) (pos n) (omega arith) (omega (arith, small)),
          )) in
      let found =
        ap (resolve_readiness_lead later) (
          ap (persist_readiness_evidence status) fresh.0 ∙ persisted_fresh r status fresh.1 fresh.2)
        ∙ found_again r later (fl.of_duration r.fresh_lead_time) v fresh.1 u same usable in
      let lead =
        ap (λ d. (learned_evidence later (fl.of_duration d) r.fresh_observed_at).lead_time) whole
        ∙ learned_lead laws later n r.fresh_observed_at small
        ∙ sym whole in
      (
        ap (λ (e : ReadinessLeadEvidence). e.available) found,
        ap (λ (e : ReadinessLeadEvidence). e.source) found,
        ap (λ (e : ReadinessLeadEvidence). e.observed_at) found,
        ap (λ (e : ReadinessLeadEvidence). e.template_identity) found,
        ap (λ (e : ReadinessLeadEvidence). e.lead_time) found ∙ lead,
      )
