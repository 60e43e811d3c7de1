-- ===== src/Forecast/Estimate/Percentile.antt =====
-- The percentile of sorted values: how many lie below it, and that its rank is an index of them.
use silver_leaf.Prelude.{
  ℕ, zero, suc, ◌+◌, ◌-◌, ◌*◌, ◌/◌, ◌≤◌, ◌<◌, pos, true, false, not, ◌||◌, ◌≡◌, refl, Option-cases,
  some, List, [], ◌∷◌, length, keep, get_elem?, All, arith, Bool-cases, inl, inr, subst, -ℤ_parts,
}
use mathlib.Core.List.{Memᴰ}
use silver_leaf.Go.Time
use silver_leaf.Go.Float.{Float, IsIeee, ◌≼◌}
use silver_leaf.Go.Order.{le_of_not_lt}
use silver_leaf.Forecast.History.{CapacitySample}
use silver_leaf.Forecast.Estimate.{insert, sort, is_positive, efficiencies, rank}

module _ {F : Type 0} ⦃fl : Float F⦄ where
  abbrev pub IsNumber : F → Type 0
  IsNumber x = fl.is_nan x ≡ false

  abbrev pub Sorted : List F → Type 0
  Sorted [] = Unit
  Sorted (x ∷ xs) = All (λ y. x ≼ y) xs × Sorted xs

  -- how many values lie strictly below one
  abbrev pub count_below : F → List F → ℕ
  count_below v xs = length (keep (λ x. fl.lt x v) xs)

  -- how many values lie at or below one
  abbrev pub count_at_most : F → List F → ℕ
  count_at_most v xs = length (keep (λ x. fl.le x v) xs)

  All-get_elem? :
      (P : F → Type 0) (xs : List F) (i : ℕ) (v : F) → All P xs → get_elem? xs i ≡ some v → P v
  All-get_elem? P [] i v h e = ground arith
  All-get_elem? P (x ∷ xs) zero v (h, hs) e = let same : x ≡ v = cc e in subst P same h
  All-get_elem? P (x ∷ xs) (suc i) v (h, hs) e = All-get_elem? P xs i v hs e

  All-insert : (P : F → Type 0) (x : F) (ys : List F) → P x → All P ys → All P (insert x ys)
  unfolding insert
  All-insert P x [] h hs = (h, tt)
  All-insert P x (y ∷ ys) h (k, ks) = elim (Bool-cases (fl.lt y x)) [
    | inl e ↦ rw e (k, All-insert P x ys h ks)
    | inr e ↦ rw e (h, (k, ks))
  ]

  pub All-sort : (P : F → Type 0) (xs : List F) → All P xs → All P (sort xs)
  unfolding sort
  All-sort P [] h = tt
  All-sort P (x ∷ xs) (h, hs) = All-insert P x (sort xs) h (All-sort P xs hs)

  members_of : (xs ys : List F) → ((y : F) → Memᴰ y ys → Memᴰ y xs) → All (λ y. Memᴰ y xs) ys
  members_of xs [] sub = tt
  members_of xs (y ∷ ys) sub =
      (sub y (Memᴰ.head refl), members_of xs ys (λ z m. sub z (Memᴰ.tail m)))

  -- what is found among the sorted values is one of the values
  pub member-sort : (xs : List F) (i : ℕ) (v : F) → get_elem? (sort xs) i ≡ some v → Memᴰ v xs
  member-sort xs i v e =
      All-get_elem? (λ y. Memᴰ y xs) (sort xs) i v
        (All-sort (λ y. Memᴰ y xs) xs (members_of xs xs (λ y m. m))) e

  length-insert : (x : F) (ys : List F) → length (insert x ys) ≡ suc (length ys)
  unfolding insert
  length-insert x [] = refl
  length-insert x (y ∷ ys) = ground (arith, length-insert x ys)

  pub length-sort : (xs : List F) → length (sort xs) ≡ length xs
  unfolding sort
  length-sort [] = refl
  length-sort (x ∷ xs) = omega (arith, length-insert x (sort xs), length-sort xs)

  count-insert : (v x : F) (ys : List F) → count_below v (insert x ys) ≡ count_below v (x ∷ ys)
  unfolding insert
  count-insert v x [] = refl
  count-insert v x (y ∷ ys) = ground (arith, count-insert v x ys)

  at_most-insert :
      (v x : F) (ys : List F) → count_at_most v (insert x ys) ≡ count_at_most v (x ∷ ys)
  unfolding insert
  at_most-insert v x [] = refl
  at_most-insert v x (y ∷ ys) = ground (arith, at_most-insert v x ys)

  pub at_most-sort : (v : F) (xs : List F) → count_at_most v (sort xs) ≡ count_at_most v xs
  unfolding sort
  at_most-sort v [] = refl
  at_most-sort v (x ∷ xs) = ground (arith, at_most-insert v x (sort xs), at_most-sort v xs)

  pub count-sort : (v : F) (xs : List F) → count_below v (sort xs) ≡ count_below v xs
  unfolding sort
  count-sort v [] = refl
  count-sort v (x ∷ xs) = ground (arith, count-insert v x (sort xs), count-sort v xs)

module _ {F : Type 0} ⦃fl : Float F⦄ (laws : IsIeee F) where
  open laws use {
    le_refl, le_trans, le_of_lt, lt-eq-not-le, le_numbers, literal_mul_below, literal_mul_above,
    ceil_le, ceil_above, to_int_range,
  }

  insert-Sorted :
      (x : F) (ys : List F) → IsNumber x → All IsNumber ys → Sorted ys → Sorted (insert x ys)
  unfolding insert
  insert-Sorted x [] n ns s = (tt, tt)
  insert-Sorted x (y ∷ ys) n (m, ms) (h, hs) = elim (Bool-cases (fl.lt y x)) [
    | inl e ↦ rw e (All-insert (λ z. y ≼ z) x ys (le_of_lt y x e) h, insert-Sorted x ys n ms hs)
    | inr e ↦ let first = le_of_not_lt laws y x m n e in rw e ((first, above ys first h), (h, hs))
  ]
    where
      above : (zs : List F) → x ≼ y → All (λ z. y ≼ z) zs → All (λ z. x ≼ z) zs
      above [] f a = tt
      above (z ∷ zs) f (a, rest) = (le_trans x y z f a, above zs f rest)

  pub sort-Sorted : (xs : List F) → All IsNumber xs → Sorted (sort xs)
  unfolding sort
  sort-Sorted [] n = tt
  sort-Sorted (x ∷ xs) (n, ns) =
      insert-Sorted x (sort xs) n (All-sort IsNumber xs ns) (sort-Sorted xs ns)

  none_below : (v : F) (xs : List F) → All (λ x. v ≼ x) xs → count_below v xs ≡ 0
  none_below v [] h = refl
  none_below v (x ∷ xs) (h, hs) =
      let n = le_numbers v x h in ground (arith, none_below v xs hs, lt-eq-not-le x v n.1 n.0)

  -- At most as many values as its rank lie below the value of that rank.
  pub count_below-rank :
      (xs : List F) (i : ℕ) (v : F)
      → All IsNumber xs
      → Sorted xs
      → get_elem? xs i ≡ some v
      → count_below v xs ≤ i
  count_below-rank [] i v n s e = ground arith
  count_below-rank (x ∷ xs) zero v (n, ns) (h, hs) e =
      let same : x ≡ v = cc e in
      let zero_below : count_below v (x ∷ xs) ≡ 0 =
        none_below v (x ∷ xs) (subst (λ w. All (λ y. w ≼ y) (x ∷ xs)) same (le_refl x n, h)) in
      omega (arith, zero_below)
  count_below-rank (x ∷ xs) (suc i) v (n, ns) (h, hs) e =
      ground (arith, count_below-rank xs i v ns hs e)

  -- More values than its rank lie at or below the value of that rank.
  pub rank-count_at_most :
      (xs : List F) (i : ℕ) (v : F)
      → All IsNumber xs
      → Sorted xs
      → get_elem? xs i ≡ some v
      → suc i ≤ count_at_most v xs
  rank-count_at_most [] i v n s e = ground arith
  rank-count_at_most (x ∷ xs) zero v (n, ns) (h, hs) e =
      let same : x ≡ v = cc e in
      let first : x ≼ v = subst (λ w. x ≼ w) same (le_refl x n) in ground arith
  rank-count_at_most (x ∷ xs) (suc i) v (n, ns) (h, hs) e =
      let first : x ≼ v = All-get_elem? (λ y. x ≼ y) xs i v h e in
      ground (arith, rank-count_at_most xs i v ns hs e)

  -- the values collected from samples
  pub efficiencies-valid :
      (samples : List (CapacitySample F)) (values : List F)
      → efficiencies samples ≡ some values
      → (length values ≡ length samples) × All (λ x. is_positive x ≡ true) values
  unfolding efficiencies
  efficiencies-valid [] values h = let same : [] ≡ values = cc h in rw (← same) (refl, tt)
  efficiencies-valid (s ∷ ss) values h = elim (Option-cases (efficiencies ss)) [
    | inl e ↦ ground arith
    | inr (rest, e) ↦
        let ih = efficiencies-valid ss rest e in
        elim (Bool-cases (Time.is_zero s.timestamp || not (is_positive s.rps_per_work_unit))) [
          | inl t ↦ ground arith
          | inr t ↦
              let checked = rw (t, e, efficiencies) at h in
              let same : s.rps_per_work_unit ∷ rest ≡ values = cc checked in
              rw (← same) (omega (arith, ih.0), (ground arith, ih.1))
        ]
  ]

  pub get_elem?-some : (xs : List F) (i : ℕ) → i < length xs → (v : F) × (get_elem? xs i ≡ some v)
  get_elem?-some [] i h = ground arith
  get_elem?-some (x ∷ xs) zero h = (x, refl)
  get_elem?-some (x ∷ xs) (suc i) h = get_elem?-some xs i (omega (arith, h))

  -- The rank of the 20th percentile of n values, rounded up or down: at most a fifth of them come
  -- before it, and a fifth are reached with it.
  pub rank_range :
      (n : ℕ) → 1 ≤ n → n ≤ 2_147_483_647 → (5 * rank F n ≤ n) × (n ≤ 5 * suc (rank F n))
  unfolding rank
  rank_range n p h =
      let x = fl.mul (fl.literal 20 2) (fl.of_int (pos n)) in
      let below =
        literal_mul_below 20 2 n (n / 5 + 1) (omega arith) (omega arith) (omega arith) (omega arith)
          (omega arith) in
      let above =
        literal_mul_above 20 2 n ((n - 1) / 5) (omega arith) (omega arith) (omega arith)
          (omega arith) (omega arith) in
      let high =
        ceil_le x (pos (n / 5 + 1)) (omega arith)
          (le_of_lt x (fl.of_int (pos (n / 5 + 1))) below) in
      let low = ceil_above x ((n - 1) / 5) (omega arith) above in
      let range =
        to_int_range (fl.ceil x) (pos (suc ((n - 1) / 5))) (pos (n / 5 + 1)) (omega arith)
          (omega arith) low high in
      ground (arith, -ℤ_parts (fl.to_int (fl.ceil x)) (pos 1))

  pub numbers_of_positive : (xs : List F) → All (λ x. is_positive x ≡ true) xs → All IsNumber xs
  unfolding is_positive
  numbers_of_positive [] h = tt
  numbers_of_positive (x ∷ xs) (h, hs) = (ground arith, numbers_of_positive xs hs)
