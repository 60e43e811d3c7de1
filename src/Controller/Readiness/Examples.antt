-- ===== src/Controller/Readiness/Examples.antt =====
-- The theorems about readiness evidence, on a sample of one revision.
use silver_leaf.Prelude.{pos, ◌≡◌, ◌↔◌, ◌⊎◌, refl, true, false, none, arith}
use silver_leaf.Go.Milli.{Milli, milli_float, milli_format}
use silver_leaf.Go.Milli.Laws.{Milli-IsIeee}
use silver_leaf.Api.Status.{current_fresh_sample, persisted_learned_sample, LearnedReadiness}
use silver_leaf.Controller.Readiness.{
  TargetReadinessObservation, has_usable_sample, fresh_evidence, persist_readiness_evidence,
  resolve_readiness_lead,
}
use silver_leaf.Controller.Readiness.Evidence.{
  IsResolvable, IsLearned, resolve_readiness_lead-available_iff, resolve_readiness_lead-persist,
}

abbrev sampled : TargetReadinessObservation
sampled = record {
  ready_replicas = pos 2;
  template_identity = "abc";
  revision_error = "";
  fresh_lead_time = pos 8_000_000_000;
  fresh_observed_at = pos 100_000_000_000;
  fresh_sample_count = pos 1;
  has_fresh_sample = true;
}

abbrev later : TargetReadinessObservation
later = record sampled { has_fresh_sample = false; fresh_sample_count = pos 0 }

abbrev nothing : LearnedReadiness Milli
nothing = record { lead_time_seconds = none; observed_at = none; template_identity = "" }

later-IsResolvable : IsResolvable later
later-IsResolvable = record { ready = ground arith; no_error = refl; identified = refl }

sampled-fresh : (resolve_readiness_lead sampled nothing).source ≡ current_fresh_sample
unfolding resolve_readiness_lead has_usable_sample fresh_evidence
sampled-fresh = refl

later-none : has_usable_sample later ≡ false
unfolding has_usable_sample
later-none = refl

resolve_readiness_lead-available_iff_example :
    ((resolve_readiness_lead sampled nothing).available ≡ true)
    ↔ (IsResolvable sampled × ((has_usable_sample sampled ≡ true) ⊎ IsLearned "abc" nothing))
resolve_readiness_lead-available_iff_example = resolve_readiness_lead-available_iff sampled nothing

resolve_readiness_lead-persist_example :
    let kept = persist_readiness_evidence nothing (resolve_readiness_lead sampled nothing) in
    let found = resolve_readiness_lead later kept in
    (found.available ≡ true)
    × (found.source ≡ persisted_learned_sample)
    × (found.observed_at ≡ pos 100_000_000_000)
    × (found.template_identity ≡ "abc")
    × (found.lead_time ≡ pos 8_000_000_000)
resolve_readiness_lead-persist_example =
    resolve_readiness_lead-persist Milli-IsIeee sampled later nothing 8 sampled-fresh
      later-IsResolvable later-none refl refl (omega arith)
