-- ===== src/Controller/Revision.antt =====
-- internal/controller/prediction.go: `currentTargetTemplateRevision`, which finds the revision of the
-- target whose pods count. What the API server lists and the equality of pod templates
-- (`apiequality.Semantic.DeepEqual`) are inputs.
pub mod Unique
pub mod Examples
use silver_leaf.Prelude.{
  ℤ, pos, ltb_ℤ, eq_ℤ, Bool, true, false, not, ◌&&◌, ◌||◌, String, Option, none, some, List, [],
  ◌∷◌, str_eq, concat, if◌then◌else◌,
}
use silver_leaf.Go.Error.{Result, ok, err}
use silver_leaf.Go.Map.{Entry, lookup, delete}
use silver_leaf.Controller.Cluster.{Owner, Template, ReplicaSet, Deployment}

pub record TargetTemplateRevision : Type 0 where
  pub identity : String
  pub replica_set_uid : String

abbrev pub pod_template_hash_label : String
pod_template_hash_label = "pod-template-hash"

-- `labels[key]`, which is empty for a missing key
unfoldable pub label : List (Entry String) → String → String
label labels key = elim (lookup key labels) [ none ↦ "" | some value ↦ value ]

module _ {B : Type 0} where
  pub hash_of : ReplicaSet B → String
  hash_of rs = label rs.labels pod_template_hash_label

module _ {B : Type 0} (deep_equal : Template B → Template B → Bool) where
  pub without_hash : Template B → Template B
  without_hash t = record t { labels = delete pod_template_hash_label t.labels }

  pub matches_template : Deployment B → ReplicaSet B → Bool
  matches_template d rs = deep_equal (without_hash d.template) (without_hash rs.template)

  pub is_current : Deployment B → ReplicaSet B → Bool
  is_current d rs = elim rs.controller [
    | none ↦ false
    | some owner ↦
        str_eq owner.kind "Deployment"
        && str_eq owner.name d.name
        && str_eq owner.uid d.uid
        && matches_template d rs
  ]

  -- the loop over the ReplicaSets, with the match so far
  pub find_current :
      Deployment B → Option (ReplicaSet B) → List (ReplicaSet B) → Result TargetTemplateRevision
  find_current d none [] = err "no Deployment-owned ReplicaSet matches the current pod template"
  find_current d (some match) [] =
      ok (record { identity = hash_of match; replica_set_uid = match.uid })
  find_current d match (rs ∷ rest) =
      let current = is_current d rs in
      let found = find_current d (if current then some rs else match) rest in
      if not current
      then found
      else if str_eq (hash_of rs) ""
          || not (str_eq (label rs.template.labels pod_template_hash_label) (hash_of rs))
      then err "current Deployment ReplicaSet has no consistent pod-template-hash identity"
      else elim match [
        | none ↦ found
        | some m ↦
            if not (str_eq (hash_of m) (hash_of rs)) || not (str_eq m.uid rs.uid)
            then err
                "multiple Deployment ReplicaSets match the current pod template; target revision is ambiguous"
            else found
      ]

  pub current_target_template_revision :
      Deployment B → Result (List (ReplicaSet B)) → Result TargetTemplateRevision
  current_target_template_revision d listed =
      if str_eq d.uid "" || eq_ℤ d.generation (pos 0) || ltb_ℤ d.observed_generation d.generation
      then err "Deployment generation has not been observed; current target revision is ambiguous"
      else elim listed [
        | err e ↦ err (concat ("list target ReplicaSets: " ∷ e ∷ []))
        | ok replica_sets ↦ find_current d none replica_sets
      ]
