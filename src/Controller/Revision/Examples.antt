-- ===== src/Controller/Revision/Examples.antt =====
-- The theorem about the revision, on a Deployment that has rolled out once.
use silver_leaf.Prelude.{pos, ◌≡◌, refl, some, List, [], ◌∷◌, str_eq, String, Bool}
use silver_leaf.Go.Error.{ok}
use silver_leaf.Go.Map.{Entry, lookup}
use silver_leaf.Controller.Cluster.{Template, ReplicaSet, Deployment, valid_selector}
use silver_leaf.Controller.Revision.{
  TargetTemplateRevision, label, hash_of, without_hash, matches_template, is_current, find_current,
  current_target_template_revision,
}
use silver_leaf.Controller.Revision.Unique.{IsRevision, current_target_template_revision-IsRevision}

-- Templates are compared by their image.
abbrev pub same_image : Template String → Template String → Bool
same_image t u = str_eq t.body u.body

abbrev pub shop : Deployment String
shop = record {
  name = "shop";
  uid = "d-1";
  generation = pos 2;
  observed_generation = pos 2;
  ready_replicas = pos 2;
  selector = valid_selector;
  template = record { labels = []; body = "shop:2" };
}

abbrev pub hash : String → List (Entry String)
hash h = record { key = "pod-template-hash"; value = h } ∷ []

abbrev replica_set : String → String → String → ReplicaSet String
replica_set uid h image = record {
  uid = uid;
  labels = hash h;
  controller = some (record { kind = "Deployment"; name = "shop"; uid = "d-1" });
  template = record { labels = hash h; body = image };
}

abbrev pub rolled_out : List (ReplicaSet String)
rolled_out = replica_set "r-1" "aaa" "shop:1" ∷ replica_set "r-2" "bbb" "shop:2" ∷ []

abbrev pub second : TargetTemplateRevision
second = record { identity = "bbb"; replica_set_uid = "r-2" }

pub rolled_out-second : current_target_template_revision same_image shop (ok rolled_out) ≡ ok second
unfolding current_target_template_revision find_current is_current matches_template without_hash
    hash_of label lookup
rolled_out-second = refl

current_target_template_revision-IsRevision_example : IsRevision same_image shop rolled_out second
current_target_template_revision-IsRevision_example =
    current_target_template_revision-IsRevision same_image shop rolled_out second rolled_out-second
