-- ===== src/Controller/Pods.antt =====
-- internal/controller/prediction.go: `targetReadiness`, which reads how long the pods of the target took
-- to be Ready. What the API server lists and the equality of pod templates are inputs.
pub mod Slowest
pub mod Examples
use silver_leaf.Prelude.{
  ℤ, pos, ltb_ℤ, eq_ℤ, Bool, true, false, not, ◌&&◌, ◌||◌, String, Option, none, some, List, [],
  ◌∷◌, str_eq, concat, if◌then◌else◌,
}
use silver_leaf.Go.Int32.{add32}
use silver_leaf.Go.Error.{Result, ok, err}
use silver_leaf.Go.Time
use silver_leaf.Go.Time.{Time, Duration}
use silver_leaf.Go.Map.{Entry, lookup, assign}
use silver_leaf.Controller.Cluster.{
  Owner, PodCondition, ContainerStatus, Pod, Template, ReplicaSet, Deployment, Selector,
  no_selector, invalid_selector, valid_selector,
}
use silver_leaf.Controller.Readiness.{TargetReadinessObservation}
use silver_leaf.Controller.Revision.{
  TargetTemplateRevision, pod_template_hash_label, label, current_target_template_revision,
}

abbrev pub is_ready_condition : PodCondition → Bool
is_ready_condition c = str_eq c.type_ "Ready" && str_eq c.status "True"

-- the loops of `podIsReady` and `podReadyTransition`
pub has_ready : List PodCondition → Bool
has_ready [] = false
has_ready (c ∷ cs) = let rest = has_ready cs in if is_ready_condition c then true else rest

pub pod_is_ready : Pod → Bool
pod_is_ready pod = has_ready pod.conditions

pub ready_transition : List PodCondition → Option Time
ready_transition [] = none
ready_transition (c ∷ cs) =
    let rest = ready_transition cs in
    if is_ready_condition c && not (Time.is_zero c.last_transition_time)
    then some c.last_transition_time
    else rest

pub pod_ready_transition : Pod → Option Time
pod_ready_transition pod = ready_transition pod.conditions

-- the map of the statuses, of which a later one replaces an earlier one of the same name
pub status_map : List (Entry ContainerStatus) → List ContainerStatus → List (Entry ContainerStatus)
status_map statuses [] = statuses
status_map statuses (s ∷ ss) = status_map (assign s.name s statuses) ss

pub all_unrestarted : List (Entry ContainerStatus) → List String → Bool
all_unrestarted statuses [] = true
all_unrestarted statuses (c ∷ cs) =
    let rest = all_unrestarted statuses cs in
    elim (lookup c statuses) [
      | none ↦ false
      | some s ↦ if not (eq_ℤ s.restart_count (pos 0)) then false else rest
    ]

pub never_restarted : Pod → Bool
never_restarted pod = elim pod.containers [
  | [] ↦ false
  | c ∷ cs ↦ all_unrestarted (status_map [] pod.container_statuses) (c ∷ cs)
]

-- `owner != nil && owner.Kind == kind && owner.UID == uid`
pub owned_by : Option Owner → String → String → Bool
owned_by none kind uid = false
owned_by (some owner) kind uid = str_eq owner.kind kind && str_eq owner.uid uid

pub pod_owned_by_replica_set : Pod → String → Bool
pod_owned_by_replica_set pod uid = owned_by pod.controller "ReplicaSet" uid

-- the first loop of `targetReadiness`
pub count_ready : ℤ → List Pod → ℤ
count_ready n [] = n
count_ready n (pod ∷ pods) =
    count_ready (if not pod.is_deleted && pod_is_ready pod then add32 n (pos 1) else n) pods

-- the pod is one whose start counts for a revision
pub is_of_revision : TargetTemplateRevision → Pod → Bool
is_of_revision revision pod = not (
    pod.is_deleted
    || not (pod_is_ready pod)
    || not (str_eq (label pod.labels pod_template_hash_label) revision.identity)
    || not (pod_owned_by_replica_set pod revision.replica_set_uid))

-- when a pod became Ready, where its start can be measured
pub measured_start : TargetTemplateRevision → Pod → Option Time
measured_start revision pod =
    if not (is_of_revision revision pod) then none else elim (pod_ready_transition pod) [
      | none ↦ none
      | some ready_at ↦
          if Time.is_zero pod.creation_timestamp
            || Time.before ready_at pod.creation_timestamp
            || not (never_restarted pod)
          then none
          else some ready_at
    ]

-- the slowest start so far, and of two as slow the later one
pub add_sample : TargetReadinessObservation → Duration → Time → TargetReadinessObservation
add_sample r lead ready_at =
    let counted = record r { fresh_sample_count = add32 r.fresh_sample_count (pos 1) } in
    if not r.has_fresh_sample
      || ltb_ℤ r.fresh_lead_time lead
      || eq_ℤ lead r.fresh_lead_time && Time.after ready_at r.fresh_observed_at
    then record counted {
      fresh_lead_time = lead;
      fresh_observed_at = ready_at;
      has_fresh_sample = true;
    }
    else counted

-- one round of the second loop
pub add_pod : TargetTemplateRevision → TargetReadinessObservation → Pod → TargetReadinessObservation
add_pod revision r pod = elim (measured_start revision pod) [
  | none ↦ r
  | some ready_at ↦ add_sample r (Time.sub ready_at pod.creation_timestamp) ready_at
]

pub add_pods :
    TargetTemplateRevision → TargetReadinessObservation → List Pod → TargetReadinessObservation
add_pods revision r [] = r
add_pods revision r (pod ∷ pods) = add_pods revision (add_pod revision r pod) pods

-- an observation before any start is measured
abbrev pub ready_only : ℤ → TargetReadinessObservation
ready_only n = record {
  ready_replicas = n;
  template_identity = "";
  revision_error = "";
  fresh_lead_time = pos 0;
  fresh_observed_at = pos 0;
  fresh_sample_count = pos 0;
  has_fresh_sample = false;
}

module _ {B : Type 0} (deep_equal : Template B → Template B → Bool) where
  pub observe_pods :
      Deployment B → List Pod → Result (List (ReplicaSet B)) → TargetReadinessObservation
  observe_pods d pods listed =
      let readiness = ready_only (count_ready (pos 0) pods) in
      elim (current_target_template_revision deep_equal d listed) [
        | err e ↦ record readiness { revision_error = e }
        | ok revision ↦
            add_pods revision (record readiness { template_identity = revision.identity }) pods
      ]

  pub target_readiness :
      Deployment B
      → Result (List Pod)
      → Result (List (ReplicaSet B))
      → Result TargetReadinessObservation
  target_readiness d pods listed = elim d.selector [
    | no_selector ↦ err "target Deployment has no label selector"
    | invalid_selector ↦ err "target Deployment has no valid label selector"
    | valid_selector ↦ elim pods [
      | err e ↦ err (concat ("list target pods: " ∷ e ∷ []))
      | ok items ↦ ok (observe_pods d items listed)
    ]
  ]
