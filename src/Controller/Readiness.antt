-- ===== src/Controller/Readiness.antt =====
-- internal/controller/prediction.go: the evidence for the time that a new pod takes to be Ready,
-- `resolveReadinessLead`, and the status that keeps it, `persistReadinessEvidence`. An
-- observation of the pods is an input.
pub mod Evidence
mod Examples
use silver_leaf.Prelude.{
  ℤ, pos, leb_ℤ, Bool, true, false, not, ◌&&◌, ◌||◌, String, Option, none, some, [], ◌∷◌, str_eq,
  concat, if◌then◌else◌,
}
use silver_leaf.Go.Time
use silver_leaf.Go.Time.{Time, Duration}
use silver_leaf.Go.Float.{Float, Format, finite_nonnegative}
use silver_leaf.Api.Status.{
  EvidenceSource, no_source, current_fresh_sample, persisted_learned_sample, LearnedReadiness,
}

pub record TargetReadinessObservation : Type 0 where
  pub ready_replicas : ℤ
  pub template_identity : String
  pub revision_error : String
  pub fresh_lead_time : Duration
  pub fresh_observed_at : Time
  pub fresh_sample_count : ℤ
  pub has_fresh_sample : Bool

pub record ReadinessLeadEvidence : Type 0 where
  pub available : Bool
  pub lead_time : Duration
  pub source : EvidenceSource
  pub template_identity : String
  pub observed_at : Time
  pub fresh_sample_count : ℤ
  pub persist : Bool
  pub unavailable_reason : String

unfoldable pub unavailable : TargetReadinessObservation → String → ReadinessLeadEvidence
unavailable r reason = record {
  available = false;
  lead_time = pos 0;
  source = no_source;
  template_identity = r.template_identity;
  observed_at = pos 0;
  fresh_sample_count = r.fresh_sample_count;
  persist = false;
  unavailable_reason = reason;
}

unfoldable pub has_usable_sample : TargetReadinessObservation → Bool
has_usable_sample r =
    r.has_fresh_sample && leb_ℤ (pos 0) r.fresh_lead_time && not (Time.is_zero r.fresh_observed_at)

unfoldable pub fresh_evidence : TargetReadinessObservation → ReadinessLeadEvidence
fresh_evidence r = record (unavailable r "") {
  available = true;
  lead_time = r.fresh_lead_time;
  source = current_fresh_sample;
  observed_at = r.fresh_observed_at;
  persist = true;
}

abbrev pub is_current_fresh : EvidenceSource → Bool
is_current_fresh current_fresh_sample = true
is_current_fresh _ = false

module _ {F : Type 0} ⦃fl : Float F⦄ where
  -- the learned sample, where both its pointers are set and it is of the current revision
  pub learned_sample : String → LearnedReadiness F → Option (F × Time)
  learned_sample identity status = elim status.lead_time_seconds [
    | none ↦ none
    | some lead ↦ elim status.observed_at [
      | none ↦ none
      | some at ↦
          if not (Time.is_zero at)
            && str_eq status.template_identity identity
            && finite_nonnegative lead
          then some (lead, at)
          else none
    ]
  ]

  -- `time.Duration(lead * float64(time.Second))`
  pub learned_evidence : TargetReadinessObservation → F → Time → ReadinessLeadEvidence
  learned_evidence r lead at = record (unavailable r "") {
    available = true;
    lead_time = fl.to_int (fl.mul lead (fl.of_int (pos 1_000_000_000)));
    source = persisted_learned_sample;
    observed_at = at;
  }

  -- an update of the status, in the code by its pointer; a nil status is left alone there
  pub persist_readiness_evidence : LearnedReadiness F → ReadinessLeadEvidence → LearnedReadiness F
  persist_readiness_evidence status e =
      if not e.available
        || not e.persist
        || not (is_current_fresh e.source)
        || str_eq e.template_identity ""
        || Time.is_zero e.observed_at
      then status
      else record {
        lead_time_seconds = some (fl.of_duration e.lead_time);
        observed_at = some e.observed_at;
        template_identity = e.template_identity;
      }

module _ {F : Type 0} ⦃fl : Float F⦄ ⦃format : Format F⦄ where
  pub no_evidence_reason : TargetReadinessObservation → LearnedReadiness F → String
  no_evidence_reason r status =
      if not (str_eq status.template_identity "")
        && not (str_eq status.template_identity r.template_identity)
      then concat (
          "persisted readiness evidence is for target revision "
          ∷ format.quoted status.template_identity
          ∷ ", not current revision "
          ∷ format.quoted r.template_identity
          ∷ ", and no fresh startup sample is available"
          ∷ [])
      else concat (
          "no fresh startup sample or matching persisted learned readiness evidence for current target revision "
          ∷ format.quoted r.template_identity
          ∷ [])

  unfoldable pub resolve_readiness_lead :
      TargetReadinessObservation → LearnedReadiness F → ReadinessLeadEvidence
  resolve_readiness_lead r status =
      if leb_ℤ r.ready_replicas (pos 0)
      then unavailable r "no Ready target pods are available"
      else if not (str_eq r.revision_error "") || str_eq r.template_identity ""
      then unavailable r (
          if str_eq r.revision_error ""
          then "current target revision identity is unavailable"
          else r.revision_error)
      else if has_usable_sample r
      then fresh_evidence r
      else elim (learned_sample r.template_identity status) [
        | some (lead, at) ↦ learned_evidence r lead at
        | none ↦ unavailable r (no_evidence_reason r status)
      ]
