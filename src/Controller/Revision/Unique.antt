-- ===== src/Controller/Revision/Unique.antt =====
-- The revision that is found is the only one.
use silver_leaf.Prelude.{
  Bool, true, false, not, ◌&&◌, ◌||◌, ◌≡◌, ◌∙◌, refl, subst, inl, inr, str_eq, str_eq_iff, Option,
  none, some, List, [], ◌∷◌, All, arith, Bool-cases,
}
use mathlib.Core.List.{Memᴰ}
use silver_leaf.Go.Error.{ok}
use silver_leaf.Controller.Cluster.{Template, ReplicaSet, Deployment}
use silver_leaf.Controller.Revision.{
  TargetTemplateRevision, is_current, hash_of, find_current, current_target_template_revision,
}

-- A match before, if there is one, has the identity of a ReplicaSet.
abbrev Same : {B : Type 0} → Option (ReplicaSet B) → ReplicaSet B → Type 0
Same none rs = Unit
Same (some m) rs = (hash_of m ≡ hash_of rs) × (m.uid ≡ rs.uid)

module _ {B : Type 0} (deep_equal : Template B → Template B → Bool) where
  -- A ReplicaSet is not of the Deployment's current template, or it is the one that was found.
  pub agrees : Deployment B → TargetTemplateRevision → ReplicaSet B → Bool
  agrees d revision rs =
      not (is_current deep_equal d rs)
      || str_eq (hash_of rs) revision.identity && str_eq rs.uid revision.replica_set_uid

  -- What a revision is of a list of ReplicaSets: its identity is not empty, one of the list that is of the current template has it,
  -- and so have all that are.
  pub record IsRevision (d : Deployment B) (replica_sets : List (ReplicaSet B))
      (revision : TargetTemplateRevision) : Type 0 where
    pub named : str_eq revision.identity "" ≡ false
    pub found :
        (rs : ReplicaSet B) × Memᴰ rs replica_sets
        × (is_current deep_equal d rs ≡ true)
        × (hash_of rs ≡ revision.identity)
        × (rs.uid ≡ revision.replica_set_uid)
    pub unique : All (λ rs. agrees d revision rs ≡ true) replica_sets

  -- One round of a loop that finds a revision: the ReplicaSet is skipped, or it is the match from there
  -- on and agrees with the one before.
  data Round (d : Deployment B) (match : Option (ReplicaSet B)) (rs : ReplicaSet B)
      (rest : List (ReplicaSet B)) (revision : TargetTemplateRevision) : Type 0 where
    skipped :
        is_current deep_equal d rs ≡ false
        → find_current deep_equal d match rest ≡ ok revision
        → Round d match rs rest revision
    matched :
        is_current deep_equal d rs ≡ true
        → str_eq (hash_of rs) "" ≡ false
        → find_current deep_equal d (some rs) rest ≡ ok revision
        → Same match rs
        → Round d match rs rest revision

  Round-none :
      (d : Deployment B) (rs : ReplicaSet B) (rest : List (ReplicaSet B))
      (revision : TargetTemplateRevision)
      → find_current deep_equal d none (rs ∷ rest) ≡ ok revision
      → Round d none rs rest revision
  unfolding find_current
  Round-none d rs rest revision e = elim (Bool-cases (is_current deep_equal d rs)) [
    | inr apart ↦ skipped apart (ground arith)
    | inl current ↦ matched current (ground arith) (ground arith) tt
  ]

  Round-some :
      (d : Deployment B) (m rs : ReplicaSet B) (rest : List (ReplicaSet B))
      (revision : TargetTemplateRevision)
      → find_current deep_equal d (some m) (rs ∷ rest) ≡ ok revision
      → Round d (some m) rs rest revision
  unfolding find_current
  Round-some d m rs rest revision e = elim (Bool-cases (is_current deep_equal d rs)) [
    | inr apart ↦ skipped apart (ground arith)
    | inl current ↦
        let hash : str_eq (hash_of m) (hash_of rs) ≡ true = ground arith in
        let uid : str_eq m.uid rs.uid ≡ true = ground arith in
        matched current (ground arith) (ground arith)
          ((str_eq_iff (hash_of m) (hash_of rs)).0 hash, (str_eq_iff m.uid rs.uid).0 uid)
  ]

  -- The revision has the identity of any match before.
  find_current-same :
      (d : Deployment B) (m : ReplicaSet B) (rss : List (ReplicaSet B))
      (revision : TargetTemplateRevision)
      → find_current deep_equal d (some m) rss ≡ ok revision
      → (hash_of m ≡ revision.identity) × (m.uid ≡ revision.replica_set_uid)
  unfolding find_current
  find_current-same d m [] revision e = (cc e, cc e)
  find_current-same d m (rs ∷ rest) revision e = elim (Round-some d m rs rest revision e) [
    | skipped _ next ↦ find_current-same d m rest revision next
    | matched _ _ next (hash, uid) ↦
        let (hash', uid') = find_current-same d rs rest revision next in (hash ∙ hash', uid ∙ uid')
  ]

  round :
      (d : Deployment B) (match : Option (ReplicaSet B)) (rs : ReplicaSet B)
      (rest : List (ReplicaSet B)) (revision : TargetTemplateRevision)
      → find_current deep_equal d match (rs ∷ rest) ≡ ok revision
      → Round d match rs rest revision
  round d none rs rest revision e = Round-none d rs rest revision e
  round d (some m) rs rest revision e = Round-some d m rs rest revision e

  agrees_of_same :
      (d : Deployment B) (rs : ReplicaSet B) (revision : TargetTemplateRevision)
      → hash_of rs ≡ revision.identity
      → rs.uid ≡ revision.replica_set_uid
      → agrees d revision rs ≡ true
  unfolding agrees
  agrees_of_same d rs revision hash uid =
      let h = (str_eq_iff (hash_of rs) revision.identity).1 hash in
      let u = (str_eq_iff rs.uid revision.replica_set_uid).1 uid in ground (arith, h, u)

  find_current-agrees :
      (d : Deployment B) (match : Option (ReplicaSet B)) (rss : List (ReplicaSet B))
      (revision : TargetTemplateRevision)
      → find_current deep_equal d match rss ≡ ok revision
      → All (λ rs. agrees d revision rs ≡ true) rss
  unfolding agrees
  find_current-agrees d match [] revision e = tt
  find_current-agrees d match (rs ∷ rest) revision e = elim (round d match rs rest revision e) [
    | skipped apart next ↦ (rw apart refl, find_current-agrees d match rest revision next)
    | matched _ _ next _ ↦
        let (hash, uid) = find_current-same d rs rest revision next in
        (agrees_of_same d rs revision hash uid, find_current-agrees d (some rs) rest revision next)
  ]

  find_current-IsRevision :
      (d : Deployment B) (rss : List (ReplicaSet B)) (revision : TargetTemplateRevision)
      → find_current deep_equal d none rss ≡ ok revision
      → IsRevision d rss revision
  unfolding find_current
  find_current-IsRevision d [] revision e = ground arith
  find_current-IsRevision d (rs ∷ rest) revision e = elim (Round-none d rs rest revision e) [
    | skipped apart next ↦
        let r = find_current-IsRevision d rest revision next in
        let (m, mem, current, hash, uid) = r.found in
        record {
          named = r.named;
          found = (m, Memᴰ.tail mem, current, hash, uid);
          unique = find_current-agrees d none (rs ∷ rest) revision e;
        }
    | matched current named next _ ↦
        let (hash, uid) = find_current-same d rs rest revision next in
        record {
          named = subst (λ h. str_eq h "" ≡ false) hash named;
          found = (rs, Memᴰ.head refl, current, hash, uid);
          unique = find_current-agrees d none (rs ∷ rest) revision e;
        }
  ]

  -- Where the current revision of the target is found, the API server listed the ReplicaSets; the revision's identity is not
  -- empty, a ReplicaSet of the list that the Deployment controls and that has its pod template has that identity and UID, and
  -- so has every such ReplicaSet of the list.
  pub current_target_template_revision-IsRevision :
      (d : Deployment B) (replica_sets : List (ReplicaSet B)) (revision : TargetTemplateRevision)
      → current_target_template_revision deep_equal d (ok replica_sets) ≡ ok revision
      → IsRevision d replica_sets revision
  unfolding current_target_template_revision
  current_target_template_revision-IsRevision d rss revision e =
      find_current-IsRevision d rss revision (ground arith)
