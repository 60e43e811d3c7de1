-- ===== src/Controller/Pods/Slowest.antt =====
-- The lead time that is read of the pods: that of the slowest start that was measured.
use silver_leaf.Prelude.{
  ℤ, pos, ◌≤ℤ◌, -ℤ_parts, ltb_ℤ, leb_ℤ, eq_ℤ, Bool, true, false, not, ◌&&◌, ◌||◌, ◌≡◌, ◌∙◌, refl,
  sym, ap, subst, ◌⊎◌, inl, inr, none, some, List, [], ◌∷◌, All, arith, Bool-cases, Option-cases,
}
use mathlib.Core.List.{Memᴰ}
use silver_leaf.Go.Time
use silver_leaf.Go.Time.{Time, Duration}
use silver_leaf.Go.Error.{Result, ok, Result-cases}
use silver_leaf.Controller.Cluster.{Pod, Template, ReplicaSet, Deployment}
use silver_leaf.Controller.Readiness.{TargetReadinessObservation}
use silver_leaf.Controller.Revision.{current_target_template_revision, TargetTemplateRevision}
use silver_leaf.Controller.Pods.{
  measured_start, add_sample, add_pod, add_pods, ready_only, count_ready, observe_pods,
  target_readiness,
}

-- The start of a pod, where it was measured, took no longer than the lead time.
pub within : TargetTemplateRevision → Duration → Pod → Bool
within revision lead pod = elim (measured_start revision pod) [
  | none ↦ true
  | some ready_at ↦ leb_ℤ (Time.sub ready_at pod.creation_timestamp) lead
]

-- What the lead time is, over the pods of a revision: at least zero, that of a start that was measured,
-- at its time, and no start that was measured took longer.
pub record IsSlowest (revision : TargetTemplateRevision) (pods : List Pod)
    (r : TargetReadinessObservation) : Type 0 where
  pub nonnegative : pos 0 ≤ℤ r.fresh_lead_time
  pub attained :
      (pod : Pod) × Memᴰ pod pods
      × (measured_start revision pod ≡ some r.fresh_observed_at)
      × (r.fresh_lead_time ≡ Time.sub r.fresh_observed_at pod.creation_timestamp)
  pub covers : All (λ pod. within revision r.fresh_lead_time pod ≡ true) pods

-- A pod leaves the lead time as it is, which covers it, or sets it.
data Added (revision : TargetTemplateRevision) (r : TargetReadinessObservation) (pod : Pod)
    (out : TargetReadinessObservation) : Type 0 where
  unmeasured : measured_start revision pod ≡ none → out ≡ r → Added revision r pod out
  covered :
      r.has_fresh_sample ≡ true
      → within revision r.fresh_lead_time pod ≡ true
      → out.has_fresh_sample ≡ true
      → out.fresh_lead_time ≡ r.fresh_lead_time
      → out.fresh_observed_at ≡ r.fresh_observed_at
      → Added revision r pod out
  taken :
      (ready_at : Time)
      → measured_start revision pod ≡ some ready_at
      → out.has_fresh_sample ≡ true
      → out.fresh_lead_time ≡ Time.sub ready_at pod.creation_timestamp
      → out.fresh_observed_at ≡ ready_at
      → (r.has_fresh_sample ≡ false) ⊎ (r.fresh_lead_time ≤ℤ out.fresh_lead_time)
      → Added revision r pod out

within_of_le :
    (revision : TargetTemplateRevision) (pod : Pod) (at : Time) (lead : Duration)
    → measured_start revision pod ≡ some at
    → Time.sub at pod.creation_timestamp ≤ℤ lead
    → within revision lead pod ≡ true
unfolding within
within_of_le revision pod at lead e le = rw (e, within) (ground arith)

within_of_none :
    (revision : TargetTemplateRevision) (pod : Pod) (lead : Duration)
    → measured_start revision pod ≡ none
    → within revision lead pod ≡ true
unfolding within
within_of_none revision pod lead e = rw (e, within) refl

within_mono :
    (revision : TargetTemplateRevision) (pod : Pod) (lead lead' : Duration)
    → lead ≤ℤ lead'
    → within revision lead pod ≡ true
    → within revision lead' pod ≡ true
unfolding within
within_mono revision pod lead lead' le h = elim (Option-cases (measured_start revision pod)) [
  | inl e ↦ within_of_none revision pod lead' e
  | inr (at, e) ↦ within_of_le revision pod at lead' e (ground arith)
]

add_pod-cases :
    (revision : TargetTemplateRevision) (r : TargetReadinessObservation) (pod : Pod)
    → Added revision r pod (add_pod revision r pod)
unfolding add_pod add_sample
add_pod-cases revision r pod = elim (Option-cases (measured_start revision pod)) [
  | inl e ↦ unmeasured e (rw (e, add_pod) refl)
  | inr (at, e) ↦
      elim (Bool-cases (
        not r.has_fresh_sample
        || ltb_ℤ r.fresh_lead_time (Time.sub at pod.creation_timestamp)
        || eq_ℤ (Time.sub at pod.creation_timestamp) r.fresh_lead_time
          && Time.after at r.fresh_observed_at)) [
            | inl t ↦ rw (e, t, add_pod, add_sample) (taken at e refl refl refl (ground arith))
            | inr t ↦
                rw (e, t, add_pod, add_sample)
                  (covered (ground arith)
                    (within_of_le revision pod at r.fresh_lead_time e (ground arith)) (ground arith)
                    refl refl)
          ]
]

-- What the pods after it make of an observation: its lead time grows, and is that of one of them or
-- stays.
add_pods-grows :
    (revision : TargetTemplateRevision) (r : TargetReadinessObservation) (pods : List Pod)
    → r.has_fresh_sample ≡ true
    → r.fresh_lead_time ≤ℤ (add_pods revision r pods).fresh_lead_time
unfolding add_pods
add_pods-grows revision r [] h = ground arith
add_pods-grows revision r (pod ∷ pods) h = elim (add_pod-cases revision r pod) [
  | unmeasured _ same ↦ rw (same, add_pods) (add_pods-grows revision r pods h)
  | covered _ _ has lead _ ↦
      let rest = add_pods-grows revision (add_pod revision r pod) pods has in
      ground (arith, rest, lead)
  | taken at _ has _ _ le ↦
      let rest = add_pods-grows revision (add_pod revision r pod) pods has in
      ground (arith, rest, le)
]

add_pods-covers :
    (revision : TargetTemplateRevision) (r : TargetReadinessObservation) (pods : List Pod)
    → All (λ pod. within revision (add_pods revision r pods).fresh_lead_time pod ≡ true) pods
unfolding add_pods
add_pods-covers revision r [] = tt
add_pods-covers revision r (pod ∷ pods) =
    let out = add_pod revision r pod in
    let last = (add_pods revision out pods).fresh_lead_time in
    (
      elim (add_pod-cases revision r pod) [
        | unmeasured e _ ↦ within_of_none revision pod last e
        | covered _ w has lead _ ↦
            let rest = add_pods-grows revision out pods has in
            within_mono revision pod r.fresh_lead_time last (ground (arith, rest, lead)) w
        | taken at e has lead _ _ ↦
            let rest = add_pods-grows revision out pods has in
            within_of_le revision pod at last e (ground (arith, rest, lead))
      ],
      add_pods-covers revision out pods,
    )

add_pods-attained :
    (revision : TargetTemplateRevision) (r : TargetReadinessObservation) (pods : List Pod)
    → (add_pods revision r pods).has_fresh_sample ≡ true
    → ((r.has_fresh_sample ≡ true)
        × ((add_pods revision r pods).fresh_lead_time ≡ r.fresh_lead_time)
        × ((add_pods revision r pods).fresh_observed_at ≡ r.fresh_observed_at))
      ⊎ ((pod : Pod) × Memᴰ pod pods
          × (measured_start revision pod ≡ some (add_pods revision r pods).fresh_observed_at)
          × ((add_pods revision r pods).fresh_lead_time
              ≡ Time.sub (add_pods revision r pods).fresh_observed_at pod.creation_timestamp))
unfolding add_pods
add_pods-attained revision r [] h = inl (h, refl, refl)
add_pods-attained revision r (pod ∷ pods) h =
    elim (add_pods-attained revision (add_pod revision r pod) pods h) [
      | inr (p, m, e, lead) ↦ inr (p, Memᴰ.tail m, e, lead)
      | inl (has, lead, at) ↦ elim (add_pod-cases revision r pod) [
        | unmeasured _ same ↦ inl (
          ap (λ o. o.has_fresh_sample) (sym same) ∙ has,
          lead ∙ ap (λ o. o.fresh_lead_time) same,
          at ∙ ap (λ o. o.fresh_observed_at) same,
        )
        | covered had _ _ lead' at' ↦ inl (had, lead ∙ lead', at ∙ at')
        | taken t e _ lead' at' _ ↦ inr (
          pod,
          Memᴰ.head refl,
          e ∙ ap some (sym (at ∙ at')),
          lead ∙ lead' ∙ ap (λ u. Time.sub u pod.creation_timestamp) (sym (at ∙ at')),
        )
      ]
    ]

-- A start that was measured took no time less than zero.
measured_start-nonnegative :
    (revision : TargetTemplateRevision) (pod : Pod) (at : Time)
    → measured_start revision pod ≡ some at
    → pos 0 ≤ℤ Time.sub at pod.creation_timestamp
unfolding measured_start
measured_start-nonnegative revision pod at e = ground (arith, -ℤ_parts at pod.creation_timestamp)

add_pods-IsSlowest :
    (revision : TargetTemplateRevision) (n : ℤ) (pods : List Pod)
    → (add_pods revision
        (record (ready_only n) { template_identity = revision.identity })
        pods).has_fresh_sample
      ≡ true
    → IsSlowest revision pods
        (add_pods revision (record (ready_only n) { template_identity = revision.identity }) pods)
add_pods-IsSlowest revision n pods h =
    let start = record (ready_only n) { template_identity = revision.identity } in
    elim (add_pods-attained revision start pods h) [
      | inl (absurd, _, _) ↦ ground arith
      | inr (pod, m, e, lead) ↦ record {
        nonnegative =
            subst (λ l. pos 0 ≤ℤ l) (sym lead)
              (measured_start-nonnegative revision pod
                (add_pods revision start pods).fresh_observed_at e);
        attained = (pod, m, e, lead);
        covers = add_pods-covers revision start pods;
      }
    ]

module _ {B : Type 0} (deep_equal : Template B → Template B → Bool) where
  target_readiness-observed :
      (d : Deployment B) (pods : List Pod) (listed : Result (List (ReplicaSet B)))
      (r : TargetReadinessObservation)
      → target_readiness deep_equal d (ok pods) listed ≡ ok r
      → observe_pods deep_equal d pods listed ≡ r
  unfolding target_readiness
  target_readiness-observed d pods listed r e = ground arith

  observe_pods-IsSlowest :
      (d : Deployment B) (pods : List Pod) (listed : Result (List (ReplicaSet B)))
      → (observe_pods deep_equal d pods listed).has_fresh_sample ≡ true
      → (revision : TargetTemplateRevision) × (current_target_template_revision deep_equal d listed
          ≡ ok revision)
        × IsSlowest revision pods (observe_pods deep_equal d pods listed)
  unfolding observe_pods
  observe_pods-IsSlowest d pods listed h =
      elim (Result-cases (current_target_template_revision deep_equal d listed)) [
        | inl (revision, e) ↦
            let seen : observe_pods deep_equal d pods listed
                ≡ add_pods revision
                    (record (ready_only (count_ready (pos 0) pods)) {
                      template_identity = revision.identity;
                    })
                    pods =
              rw (e, observe_pods) refl in
            (
              revision,
              e,
              subst (λ o. IsSlowest revision pods o) (sym seen)
                  (add_pods-IsSlowest revision (count_ready (pos 0) pods) pods
                    (ap (λ o. o.has_fresh_sample) (sym seen) ∙ h)),
            )
        | inr (m, e) ↦
            let seen : observe_pods deep_equal d pods listed
                ≡ record (ready_only (count_ready (pos 0) pods)) { revision_error = m } =
              rw (e, observe_pods) refl in
            let impossible : false ≡ true = ap (λ o. o.has_fresh_sample) (sym seen) ∙ h in
            ground arith
      ]

  -- Where the pods give a lead time, the revision of the target is known; the lead time is at least zero; it is
  -- that of the start of one of the pods, measured at the time observed; and no start that was measured of a pod of
  -- that revision took longer.
  pub target_readiness-IsSlowest :
      (d : Deployment B) (pods : List Pod) (listed : Result (List (ReplicaSet B)))
      (r : TargetReadinessObservation)
      → target_readiness deep_equal d (ok pods) listed ≡ ok r
      → r.has_fresh_sample ≡ true
      → (revision : TargetTemplateRevision) × (current_target_template_revision deep_equal d listed
          ≡ ok revision)
        × IsSlowest revision pods r
  target_readiness-IsSlowest d pods listed r e h =
      let seen = target_readiness-observed d pods listed r e in
      let (revision, current, slowest) =
        observe_pods-IsSlowest d pods listed (ap (λ o. o.has_fresh_sample) seen ∙ h) in
      (revision, current, subst (λ o. IsSlowest revision pods o) seen slowest)
