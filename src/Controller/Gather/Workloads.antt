-- ===== src/Controller/Gather/Workloads.antt =====
-- Whose workload the maps of `reconcileCapacity` give to a component.
use silver_leaf.Prelude.{
  ℕ, suc, true, false, ◌≡◌, refl, sym, ap, ◌∙◌, subst, ◌⊎◌, inl, inr, String, str_eq, str_eq_iff,
  some, List, [], ◌∷◌, All, arith, Bool-cases,
}
use mathlib.Core.List.{Memᴰ}
use silver_leaf.Go.Map.{Entry, lookup, assign, lookup-assign_same, lookup-assign_other}
use silver_leaf.Go.Float.{Float, Format}
use silver_leaf.Api.{OptiScalerSpec, DependencySpec}
use silver_leaf.Policy.Types.{ComponentInput}
use silver_leaf.Controller.Gather.{DependencyAnswers, components, workloads, count_of}

module _ {A : Type 0} where
  lookup-assign_cases :
      (j k : String) (v x : A) (m : List (Entry A))
      → lookup k (assign j v m) ≡ some x
      → ((j ≡ k) × (v ≡ x)) ⊎ (lookup k m ≡ some x)
  lookup-assign_cases j k v x m e = elim (Bool-cases (str_eq j k)) [
    | inl same ↦
        let path : j ≡ k = (str_eq_iff j k).0 same in
        let there : lookup k (assign j v m) ≡ some v =
          subst (λ n. lookup n (assign j v m) ≡ some v) path (lookup-assign_same j v m) in
        let value : some v ≡ some x = sym there ∙ e in inl (path, cc value)
    | inr other ↦ inr (sym (lookup-assign_other j k v m other) ∙ e)
  ]

  -- A key that finds something still does after an assignment.
  lookup-assign_kept :
      (j k : String) (v x : A) (m : List (Entry A))
      → lookup k m ≡ some x
      → (y : A) × (lookup k (assign j v m) ≡ some y)
  lookup-assign_kept j k v x m e = elim (Bool-cases (str_eq j k)) [
    | inl same ↦
        let path : j ≡ k = (str_eq_iff j k).0 same in
        (v, subst (λ n. lookup n (assign j v m) ≡ some v) path (lookup-assign_same j v m))
    | inr other ↦ (x, lookup-assign_other j k v m other ∙ e)
  ]

  pub All-Memᴰ : (P : A → Type 0) (xs : List A) (x : A) → All P xs → Memᴰ x xs → P x
  All-Memᴰ P [] x _ m = elim m [ ]
  All-Memᴰ P (y ∷ ys) x (h, hs) (Memᴰ.head e) = subst P (sym e) h
  All-Memᴰ P (y ∷ ys) x (h, hs) (Memᴰ.tail m) = All-Memᴰ P ys x hs m

module _ {F : Type 0} where
  -- The workload is that of the target, for the component named so, or that of a dependency with the
  -- name of the component.
  abbrev pub Owns : OptiScalerSpec F → String → String → Type 0
  Owns s component workload =
      ((component ≡ "target") × (workload ≡ s.scale_target_ref.name))
      ⊎ ((d : DependencySpec F) × Memᴰ d s.dependencies
          × (d.name ≡ component)
          × (workload ≡ d.scale_target_ref.name))

  only_target :
      (s : OptiScalerSpec F) (k n : String)
      → lookup k (assign "target" s.scale_target_ref.name []) ≡ some n
      → ("target" ≡ k) × (s.scale_target_ref.name ≡ n)
  only_target s k n e = elim (lookup-assign_cases "target" k s.scale_target_ref.name n [] e) [
    | inl both ↦ both
    | inr old ↦ unfold lookup in ground arith
  ]

module _ {F : Type 0} ⦃fl : Float F⦄ ⦃format : Format F⦄ where
  -- What is found under a name is the workload of a dependency of that name, or was there before.
  workloads-owner :
      (k n : String) (m : List (Entry String)) (ds : List (DependencySpec F))
      → lookup k (workloads m ds) ≡ some n
      → (lookup k m ≡ some n)
        ⊎ ((d : DependencySpec F) × Memᴰ d ds × (d.name ≡ k) × (d.scale_target_ref.name ≡ n))
  unfolding workloads
  workloads-owner k n m [] e = inl e
  workloads-owner k n m (d ∷ ds) e =
      elim (workloads-owner k n (assign d.name d.scale_target_ref.name m) ds e) [
        | inr (d', mem, name, workload) ↦ inr (d', Memᴰ.tail mem, name, workload)
        | inl before ↦ elim (lookup-assign_cases d.name k d.scale_target_ref.name n m before) [
          | inl (name, workload) ↦ inr (d, Memᴰ.head refl, name, workload)
          | inr old ↦ inl old
        ]
      ]

  workloads-kept :
      (k n : String) (m : List (Entry String)) (ds : List (DependencySpec F))
      → lookup k m ≡ some n
      → (n' : String) × (lookup k (workloads m ds) ≡ some n')
  unfolding workloads
  workloads-kept k n m [] e = (n, e)
  workloads-kept k n m (d ∷ ds) e =
      let (n', e') = lookup-assign_kept d.name k d.scale_target_ref.name n m e in
      workloads-kept k n' (assign d.name d.scale_target_ref.name m) ds e'

  workloads-there :
      (d : DependencySpec F) (m : List (Entry String)) (ds : List (DependencySpec F))
      → Memᴰ d ds
      → (n : String) × (lookup d.name (workloads m ds) ≡ some n)
  unfolding workloads
  workloads-there d m [] x = elim x [ ]
  workloads-there d m (d' ∷ ds) (Memᴰ.head e) =
      let name : d'.name ≡ d.name = ap (λ (x : DependencySpec F). x.name) (sym e) in
      let first =
        subst
          (λ k.
            lookup k (assign d'.name d'.scale_target_ref.name m) ≡ some d'.scale_target_ref.name)
          name (lookup-assign_same d'.name d'.scale_target_ref.name m) in
      workloads-kept d.name d'.scale_target_ref.name (assign d'.name d'.scale_target_ref.name m) ds
        first
  workloads-there d m (d' ∷ ds) (Memᴰ.tail mem) =
      workloads-there d (assign d'.name d'.scale_target_ref.name m) ds mem

  -- A component that is found under a name has the name of a dependency, or was there before.
  components-owner :
      (k : String) (c : ComponentInput) (m : List (Entry ComponentInput)) (i : ℕ)
      (ds : List (DependencySpec F)) (w : ℕ → DependencyAnswers F)
      → lookup k (components m i ds w) ≡ some c
      → (lookup k m ≡ some c)
        ⊎ ((d : DependencySpec F) × Memᴰ d ds × (d.name ≡ k) × (c.name ≡ d.name))
  unfolding components
  components-owner k c m i [] w e = inl e
  components-owner k c m i (d ∷ ds) w e =
      let v : ComponentInput = record {
        name = d.name;
        current_replicas = count_of (w i).scale;
        min_replicas = d.min_replicas;
        max_replicas = d.max_replicas;
        scalable = d.scalable;
      } in
      elim (components-owner k c (assign d.name v m) (suc i) ds w e) [
        | inr (d', mem, name, same) ↦ inr (d', Memᴰ.tail mem, name, same)
        | inl before ↦ elim (lookup-assign_cases d.name k v c m before) [
          | inl (name, same) ↦
              inr (d, Memᴰ.head refl, name, ap (λ (x : ComponentInput). x.name) (sym same))
          | inr old ↦ inl old
        ]
      ]

  -- the map of the workloads
  abbrev pub all_workloads : OptiScalerSpec F → List (Entry String)
  all_workloads s = workloads (assign "target" s.scale_target_ref.name []) s.dependencies

  -- With no dependency named as the target, the workload of the target is found for it.
  pub target-Owns :
      (s : OptiScalerSpec F)
      → All (λ (d : DependencySpec F). str_eq d.name "target" ≡ false) s.dependencies
      → (n : String) × (lookup "target" (all_workloads s) ≡ some n) × (n ≡ s.scale_target_ref.name)
  target-Owns s apart =
      let t = s.scale_target_ref.name in
      let (n, e) =
        workloads-kept "target" t (assign "target" t []) s.dependencies
          (lookup-assign_same "target" t []) in
      elim (workloads-owner "target" n (assign "target" t []) s.dependencies e) [
        | inl old ↦ (n, e, sym (only_target s "target" n old).1)
        | inr (d, mem, name, _) ↦
            let other =
              All-Memᴰ (λ (d : DependencySpec F). str_eq d.name "target" ≡ false) s.dependencies d
                apart mem in
            let same = (str_eq_iff d.name "target").1 name in
            let clash : true ≡ false = sym same ∙ other in ground arith
      ]

  -- and that of a dependency for a dependency
  pub dependency-Owns :
      (s : OptiScalerSpec F) (k : String) (c : ComponentInput) (w : ℕ → DependencyAnswers F)
      → All (λ (d : DependencySpec F). str_eq d.name "target" ≡ false) s.dependencies
      → lookup k (components [] 0 s.dependencies w) ≡ some c
      → (n : String) × (lookup c.name (all_workloads s) ≡ some n) × Owns s c.name n
  dependency-Owns s k c w apart e = elim (components-owner k c [] 0 s.dependencies w e) [
    | inl old ↦ unfold lookup in ground arith
    | inr (d, mem, _, named) ↦
        let t = s.scale_target_ref.name in
        let (n, there) = workloads-there d (assign "target" t []) s.dependencies mem in
        let found : lookup c.name (all_workloads s) ≡ some n =
          subst (λ j. lookup j (all_workloads s) ≡ some n) (sym named) there in
        elim (workloads-owner c.name n (assign "target" t []) s.dependencies found) [
          | inr (d', mem', name', workload) ↦ (n, found, inr (d', mem', name', sym workload))
          | inl old ↦
              let both = only_target s c.name n old in (n, found, inl (sym both.0, sym both.1))
        ]
  ]
