-- ===== src/Go/Map.antt =====
-- Go's map from strings: an association list in which no key occurs twice. The order of the list stands
-- for the order in which `range` visits the map, which Go leaves open.
use silver_leaf.Prelude.{
  suc, ◌≤◌, Bool, false, not, ◌≡◌, refl, String, str_eq, str_eq_iff, str_eq_refl, Option, none,
  some, List, [], ◌∷◌, length, keep, All, arith, Bool-cases, inl, inr, if◌then◌else◌,
  length-keep-le, subst, ◌⊎◌,
}

pub record Entry (A : Type 0) : Type 0 where
  pub key : String
  pub value : A

module _ {A : Type 0} where
  unfoldable pub lookup : String → List (Entry A) → Option A
  lookup k [] = none
  lookup k (e ∷ es) = let rest = lookup k es in if str_eq e.key k then some e.value else rest

  unfoldable pub delete : String → List (Entry A) → List (Entry A)
  delete k = keep (λ (e : Entry A). not (str_eq e.key k))

  unfoldable pub assign : String → A → List (Entry A) → List (Entry A)
  assign k v m = record { key = k; value = v } ∷ delete k m

  abbrev pub IsAbsent : String → List (Entry A) → Type 0
  IsAbsent k m = All (λ (e : Entry A). str_eq e.key k ≡ false) m

  abbrev pub IsDistinct : List (Entry A) → Type 0
  IsDistinct [] = Unit
  IsDistinct (e ∷ es) = IsAbsent e.key es × IsDistinct es

module _ {A : Type 0} where
  -- Filtering keeps what holds of all entries, and the keys distinct.
  pub keep-All_entries :
      (P : Entry A → Type 0) (p : Entry A → Bool) (m : List (Entry A)) → All P m → All P (keep p m)
  keep-All_entries P p [] h = h
  keep-All_entries P p (e ∷ es) (h, hs) = elim (Bool-cases (p e)) [
    | inl t ↦ rw t (h, keep-All_entries P p es hs)
    | inr t ↦ rw t (keep-All_entries P p es hs)
  ]

  pub keep-IsDistinct :
      (p : Entry A → Bool) (m : List (Entry A)) → IsDistinct m → IsDistinct (keep p m)
  keep-IsDistinct p [] d = d
  keep-IsDistinct p (e ∷ es) (a, d) = elim (Bool-cases (p e)) [
    | inl t ↦ rw t (
      keep-All_entries (λ (f : Entry A). str_eq f.key e.key ≡ false) p es a,
      keep-IsDistinct p es d,
    )
    | inr t ↦ rw t (keep-IsDistinct p es d)
  ]

  pub delete-IsAbsent : (k : String) (m : List (Entry A)) → IsAbsent k (delete k m)
  unfolding delete
  delete-IsAbsent k [] = tt
  delete-IsAbsent k (e ∷ es) = elim (Bool-cases (str_eq e.key k)) [
    | inl t ↦ rw t (delete-IsAbsent k es)
    | inr t ↦ rw t (t, delete-IsAbsent k es)
  ]

  pub assign-IsDistinct :
      (k : String) (v : A) (m : List (Entry A)) → IsDistinct m → IsDistinct (assign k v m)
  unfolding assign delete
  assign-IsDistinct k v m d =
      (delete-IsAbsent k m, keep-IsDistinct (λ (e : Entry A). not (str_eq e.key k)) m d)

  pub lookup-assign_same :
      (k : String) (v : A) (m : List (Entry A)) → lookup k (assign k v m) ≡ some v
  unfolding lookup assign
  lookup-assign_same k v m = rw (str_eq_refl k)

  -- An absent key finds nothing.
  pub lookup_absent : (k : String) (m : List (Entry A)) → IsAbsent k m → lookup k m ≡ none
  unfolding lookup
  lookup_absent k [] h = refl
  lookup_absent k (e ∷ es) (h, hs) = rw h (lookup_absent k es hs)

  -- A filtered map finds what it did, or nothing.
  pub lookup-keep :
      (k : String) (p : Entry A → Bool) (m : List (Entry A))
      → IsDistinct m
      → (lookup k (keep p m) ≡ lookup k m) ⊎ (lookup k (keep p m) ≡ none)
  unfolding lookup
  lookup-keep k p [] d = inl refl
  lookup-keep k p (e ∷ es) (a, d) = elim (Bool-cases (p e)) [
    | inl t ↦ elim (Bool-cases (str_eq e.key k)) [
      | inl same ↦ rw (t, same) (inl refl)
      | inr other ↦ rw (t, other) (lookup-keep k p es d)
    ]
    | inr t ↦ elim (Bool-cases (str_eq e.key k)) [
      | inl same ↦
          let absent : IsAbsent k es = subst (λ j. IsAbsent j es) ((str_eq_iff e.key k).0 same) a in
          rw (t, same)
            (inr (
              lookup_absent k (keep p es)
                (keep-All_entries (λ (f : Entry A). str_eq f.key k ≡ false) p es absent)))
      | inr other ↦ rw (t, other) (lookup-keep k p es d)
    ]
  ]

  pub lookup-delete_other :
      (j k : String) (m : List (Entry A)) → str_eq j k ≡ false → lookup k (delete j m) ≡ lookup k m
  unfolding lookup delete
  lookup-delete_other j k [] h = refl
  lookup-delete_other j k (e ∷ es) h = elim (Bool-cases (str_eq e.key j)) [
    | inl same ↦
        let path = (str_eq_iff e.key j).0 same in rw (same, path, h) (lookup-delete_other j k es h)
    | inr apart ↦ elim (Bool-cases (str_eq e.key k)) [
      | inl found ↦ rw (apart, found) refl
      | inr other ↦ rw (apart, other) (lookup-delete_other j k es h)
    ]
  ]

  -- What is assigned to one key leaves the others as they are.
  pub lookup-assign_other :
      (j k : String) (v : A) (m : List (Entry A))
      → str_eq j k ≡ false
      → lookup k (assign j v m) ≡ lookup k m
  unfolding lookup assign
  lookup-assign_other j k v m h = rw h (lookup-delete_other j k m h)

  pub length-delete-le : (k : String) (m : List (Entry A)) → length (delete k m) ≤ length m
  unfolding delete
  length-delete-le k m = length-keep-le (λ (e : Entry A). not (str_eq e.key k)) m

  -- Deleting a key that is there makes the map shorter.
  pub length-delete-lt :
      (k : String) (m : List (Entry A)) (v : A)
      → lookup k m ≡ some v
      → suc (length (delete k m)) ≤ length m
  unfolding lookup delete
  length-delete-lt k [] v h = ground arith
  length-delete-lt k (e ∷ es) v h = elim (Bool-cases (str_eq e.key k)) [
    | inl same ↦ rw same (omega (arith, length-keep-le (λ (f : Entry A). not (str_eq f.key k)) es))
    | inr other ↦
        let found : lookup k es ≡ some v = ground arith in
        rw other (omega (arith, length-delete-lt k es v found))
  ]
