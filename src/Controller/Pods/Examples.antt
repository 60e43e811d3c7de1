-- ===== src/Controller/Pods/Examples.antt =====
-- The theorem about the lead time, on two pods of the current revision.
use silver_leaf.Prelude.{ℕ, pos, ◌+ℤ◌, ◌-ℤ◌, ◌*ℤ◌, ◌≡◌, refl, true, false, some, List, [], ◌∷◌}
use silver_leaf.Go.Int32.{add32, wrap32}
use silver_leaf.Go.Error.{ok}
use silver_leaf.Go.Time.{seconds}
use silver_leaf.Go.Map.{lookup, delete, assign}
use silver_leaf.Controller.Cluster.{Pod}
use silver_leaf.Controller.Readiness.{TargetReadinessObservation}
use silver_leaf.Controller.Revision.{
  TargetTemplateRevision, label, current_target_template_revision,
}
use silver_leaf.Controller.Pods.{
  has_ready, pod_is_ready, ready_transition, pod_ready_transition, status_map, all_unrestarted,
  never_restarted, owned_by, pod_owned_by_replica_set, count_ready, is_of_revision, measured_start,
  add_sample, add_pod, add_pods, observe_pods, target_readiness,
}
use silver_leaf.Controller.Revision.Examples.{same_image, shop, rolled_out, hash, rolled_out-second}
use silver_leaf.Controller.Pods.Slowest.{IsSlowest, target_readiness-IsSlowest}

-- a pod that was created at one second and was Ready at another
abbrev pod : ℕ → ℕ → Pod
pod created ready = record {
  labels = hash "bbb";
  is_deleted = false;
  creation_timestamp = seconds created;
  controller = some (record { kind = "ReplicaSet"; name = "shop-bbb"; uid = "r-2" });
  conditions =
      record { type_ = "Ready"; status = "True"; last_transition_time = seconds ready } ∷ [];
  containers = "app" ∷ [];
  container_statuses = record { name = "app"; restart_count = pos 0 } ∷ [];
}

abbrev pub pods : List Pod
pods = pod 1000 1020 ∷ pod 1000 1035 ∷ []

abbrev observed : TargetReadinessObservation
observed = record {
  ready_replicas = pos 2;
  template_identity = "bbb";
  revision_error = "";
  fresh_lead_time = seconds 35;
  fresh_observed_at = seconds 1035;
  fresh_sample_count = pos 2;
  has_fresh_sample = true;
}

pods-observed : target_readiness same_image shop (ok pods) (ok rolled_out) ≡ ok observed
unfolding target_readiness observe_pods count_ready add32 wrap32 label lookup assign delete
    has_ready pod_is_ready ready_transition pod_ready_transition status_map all_unrestarted
    never_restarted owned_by pod_owned_by_replica_set is_of_revision measured_start add_sample
    add_pod add_pods ◌+ℤ◌ ◌-ℤ◌ ◌*ℤ◌
pods-observed = rw (rolled_out-second, observe_pods) refl

target_readiness-IsSlowest_example :
    (revision : TargetTemplateRevision) × (current_target_template_revision same_image shop
        (ok rolled_out)
      ≡ ok revision)
    × IsSlowest revision pods observed
target_readiness-IsSlowest_example =
    target_readiness-IsSlowest same_image shop pods (ok rolled_out) observed pods-observed refl
