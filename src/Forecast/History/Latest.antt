-- ===== src/Forecast/History/Latest.antt =====
-- What the last sample of a history is after one is added.
use silver_leaf.Prelude.{
  ℕ, zero, suc, ◌-◌, ◌<◌, ◌≤ℤ◌, true, false, ◌≡◌, refl, ltb, Option-cases, some, List, [], ◌∷◌,
  ◌++◌, length, drop, ◌∙◌, arith, Bool-cases, inl, inr,
}
use silver_leaf.Go.Time
use silver_leaf.Go.Time.{Time}
use silver_leaf.Go.Float.{Float}
use silver_leaf.Forecast.History.{
  Sample, last?, replace_last, trim, max_samples, append_in_order, is_recent, prune_samples,
  append_sample,
}

module _ {A : Type 0} where
  last?-snoc : (xs : List A) (s : A) → last? (xs ++ s ∷ []) ≡ some s
  unfolding last?
  last?-snoc [] s = refl
  last?-snoc (x ∷ []) s = refl
  last?-snoc (x ∷ y ∷ xs) s = last?-snoc (y ∷ xs) s

  last?-drop : (n : ℕ) (xs : List A) → n < length xs → last? (drop n xs) ≡ last? xs
  unfolding last?
  last?-drop zero xs h = refl
  last?-drop (suc n) [] h = ground arith
  last?-drop (suc n) (x ∷ []) h = ground arith
  last?-drop (suc n) (x ∷ y ∷ xs) h = last?-drop n (y ∷ xs) (omega (arith, h))

  last?-trim : (xs : List A) → last? (trim xs) ≡ last? xs
  unfolding trim
  last?-trim xs = elim (Bool-cases (ltb max_samples (length xs))) [
    | inl e ↦ rw e (last?-drop (length xs - max_samples) xs (ground arith))
    | inr e ↦ rw e refl
  ]

  last?-replace_last :
      (xs : List A) (l s : A) → last? xs ≡ some l → last? (replace_last xs s) ≡ some s
  unfolding last? replace_last
  last?-replace_last [] l s e = ground arith
  last?-replace_last (x ∷ []) l s e = refl
  last?-replace_last (x ∷ y ∷ []) l s e = refl
  last?-replace_last (x ∷ y ∷ z ∷ xs) l s e = last?-replace_last (y ∷ z ∷ xs) l s e

  -- A sample that comes no earlier than the last becomes the last.
  last?-append_in_order :
      (time : A → Time) (history : List A) (s : A)
      → ((l : A) → last? history ≡ some l → time l ≤ℤ time s)
      → last? (append_in_order time history s) ≡ some s
  unfolding append_in_order
  last?-append_in_order time history s h =
      let added : last? (trim (history ++ s ∷ [])) ≡ some s =
        last?-trim (history ++ s ∷ []) ∙ last?-snoc history s in
      elim (Option-cases (last? history)) [
        | inl e ↦ rw (e, append_in_order) added
        | inr (l, e) ↦
            let later = h l e in
            let before : Time.before (time s) (time l) ≡ false = ground arith in
            elim (Bool-cases (Time.equal (time s) (time l))) [
              | inl same ↦ rw (e, before, same, append_in_order) (last?-replace_last history l s e)
              | inr apart ↦ rw (e, before, apart, append_in_order) added
            ]
      ]

module _ {F : Type 0} ⦃fl : Float F⦄ where
  -- A sample with a time, in the window and with a usable rate, and no earlier than the last sample
  -- that pruning leaves, is the last of the new history.
  pub append_sample-last :
      (history : List (Sample F)) (sample : Sample F) (now : Time)
      → Time.is_zero sample.timestamp ≡ false
      → is_recent now sample ≡ true
      → ((l : Sample F)
          → last? (prune_samples history now) ≡ some l
          → l.timestamp ≤ℤ sample.timestamp)
      → last? (append_sample history sample now) ≡ some sample
  unfolding append_sample
  append_sample-last history sample now z r h =
      rw (z, r)
        (last?-append_in_order (λ (s : Sample F). s.timestamp) (prune_samples history now) sample h)
