-- ===== src/Forecast/History/Order.antt =====
-- Lists in strictly increasing order of time, under the operations on histories.
use silver_leaf.Prelude.{
  ℕ, zero, suc, ◌-◌, ◌≤◌, ◌<ℤ◌, Bool, true, ◌≡◌, refl, sym, subst, none, some, List, [], ◌∷◌, ◌++◌,
  length, length-drop, drop, keep, All, All-append, arith, Bool-cases, inl, inr,
}
use silver_leaf.Go.Time.{Time}
use silver_leaf.Forecast.History.{last?, replace_last, trim, max_samples}

module _ {A : Type 0} where
  pub All-keep : (P : A → Type 0) (p : A → Bool) (xs : List A) → All P xs → All P (keep p xs)
  All-keep P p [] h = h
  All-keep P p (x ∷ xs) (h, hs) = elim (Bool-cases (p x)) [
    | inl e ↦ rw e (h, All-keep P p xs hs)
    | inr e ↦ rw e (All-keep P p xs hs)
  ]

  pub keep-All : (p : A → Bool) (xs : List A) → All (λ x. p x ≡ true) (keep p xs)
  keep-All p [] = tt
  keep-All p (x ∷ xs) = elim (Bool-cases (p x)) [
    | inl e ↦ rw e (e, keep-All p xs)
    | inr e ↦ rw e (keep-All p xs)
  ]

  pub All-drop : (P : A → Type 0) (n : ℕ) (xs : List A) → All P xs → All P (drop n xs)
  All-drop P zero xs h = h
  All-drop P (suc n) [] h = h
  All-drop P (suc n) (x ∷ xs) (h, hs) = All-drop P n xs hs

  pub All-trim : (P : A → Type 0) (xs : List A) → All P xs → All P (trim xs)
  unfolding trim
  All-trim P xs h = ground (arith, All-drop P (length xs - max_samples) xs h)

  pub length-trim-le : (xs : List A) → length (trim xs) ≤ max_samples
  unfolding trim
  length-trim-le xs = ground (arith, length-drop (length xs - max_samples) xs)

  pub All-replace_last :
      (P : A → Type 0) (xs : List A) (s : A) → All P xs → P s → All P (replace_last xs s)
  unfolding replace_last
  All-replace_last P [] s h q = h
  All-replace_last P (x ∷ []) s h q = (q, tt)
  All-replace_last P (x ∷ y ∷ xs) s (h, hs) q = (h, All-replace_last P (y ∷ xs) s hs q)

  pub All-last : (P : A → Type 0) (xs : List A) (l : A) → All P xs → last? xs ≡ some l → P l
  unfolding last?
  All-last P [] l h e = ground arith
  All-last P (x ∷ []) l (h, hs) e = ground arith
  All-last P (x ∷ y ∷ xs) l (h, hs) e = All-last P (y ∷ xs) l hs e

  pub All-of_empty : (P : A → Type 0) (xs : List A) → last? xs ≡ none → All P xs
  unfolding last?
  All-of_empty P [] e = tt
  All-of_empty P (x ∷ []) e = ground arith
  All-of_empty P (x ∷ y ∷ xs) e = let rest = All-of_empty (λ _. ⊥) (y ∷ xs) e in ground arith

  pub length-replace_last : (xs : List A) (s : A) → length (replace_last xs s) ≡ length xs
  unfolding replace_last
  length-replace_last [] s = refl
  length-replace_last (x ∷ []) s = refl
  length-replace_last (x ∷ y ∷ xs) s = omega (arith, length-replace_last (y ∷ xs) s)

  module _ (time : A → Time) where
    abbrev pub Increasing : List A → Type 0
    Increasing [] = Unit
    Increasing (x ∷ xs) = All (λ y. time x <ℤ time y) xs × Increasing xs

    pub Increasing-keep : (p : A → Bool) (xs : List A) → Increasing xs → Increasing (keep p xs)
    Increasing-keep p [] h = h
    Increasing-keep p (x ∷ xs) (h, hs) = elim (Bool-cases (p x)) [
      | inl e ↦ rw e (All-keep _ p xs h, Increasing-keep p xs hs)
      | inr e ↦ rw e (Increasing-keep p xs hs)
    ]

    pub Increasing-drop : (n : ℕ) (xs : List A) → Increasing xs → Increasing (drop n xs)
    Increasing-drop zero xs h = h
    Increasing-drop (suc n) [] h = h
    Increasing-drop (suc n) (x ∷ xs) (h, hs) = Increasing-drop n xs hs

    pub Increasing-trim : (xs : List A) → Increasing xs → Increasing (trim xs)
    unfolding trim
    Increasing-trim xs h = ground (arith, Increasing-drop (length xs - max_samples) xs h)

    pub Increasing-snoc :
        (xs : List A) (s : A)
        → Increasing xs
        → All (λ x. time x <ℤ time s) xs
        → Increasing (xs ++ s ∷ [])
    Increasing-snoc [] s h b = (tt, tt)
    Increasing-snoc (x ∷ xs) s (h, hs) (b, bs) =
        (All-append (λ y. time x <ℤ time y) xs (s ∷ []) h (b, tt), Increasing-snoc xs s hs bs)

    -- What comes after the last comes after all.
    pub All-before_last :
        (xs : List A) (l s : A)
        → Increasing xs
        → last? xs ≡ some l
        → time l <ℤ time s
        → All (λ x. time x <ℤ time s) xs
    unfolding last?
    All-before_last [] l s h e b = tt
    All-before_last (x ∷ []) l s h e b = (ground arith, tt)
    All-before_last (x ∷ y ∷ xs) l s (h, hs) e b =
        let rest = All-before_last (y ∷ xs) l s hs e b in (omega (arith, h.0, rest.0), rest)

    pub Increasing-replace_last :
        (xs : List A) (l s : A)
        → Increasing xs
        → last? xs ≡ some l
        → time s ≡ time l
        → Increasing (replace_last xs s)
    unfolding last? replace_last
    Increasing-replace_last [] l s h e same = h
    Increasing-replace_last (x ∷ []) l s h e same = (tt, tt)
    Increasing-replace_last (x ∷ y ∷ xs) l s (h, hs) e same = (
      All-replace_last (λ z. time x <ℤ time z) (y ∷ xs) s h
          (subst (λ t. time x <ℤ t) (sym same) (All-last (λ z. time x <ℤ time z) (y ∷ xs) l h e)),
      Increasing-replace_last (y ∷ xs) l s hs e same,
    )
