-- ===== src/Forecast/History/Invariant.antt =====
-- The invariant of both histories: at most twenty samples, in strictly increasing order of time, each
-- recent and usable. What the last sample is after one is added.
use silver_leaf.Prelude.{
  ◌≤◌, ◌<ℤ◌, eq_of_parts, Bool, true, ◌≡◌, Option-cases, List, [], ◌∷◌, ◌++◌, length,
  length-keep-le, keep, All, All-append, arith, Bool-cases, inl, inr,
}
use silver_leaf.Go.Time
use silver_leaf.Go.Time.{Time}
use silver_leaf.Go.Float.{Float, IsIeee, nought}
use silver_leaf.Go.Order.{is_nan-nought, lt_of_not_le}
use silver_leaf.Forecast.History.{
  Sample, CapacitySample, last?, trim, max_samples, append_in_order, is_recent, prune_samples,
  append_sample, is_recent_capacity, is_new_capacity, append_capacity_sample,
}
use silver_leaf.Forecast.History.Order.{
  All-of_empty, keep-All, All-trim, length-trim-le, All-replace_last, length-replace_last,
  Increasing, Increasing-keep, Increasing-trim, Increasing-snoc, All-before_last,
  Increasing-replace_last,
}

pub record IsHistory {A : Type 0} (time : A → Time) (usable : A → Bool) (history : List A)
    : Type 0 where
  pub bounded : length history ≤ max_samples
  pub increasing : Increasing time history
  pub all_usable : All (λ s. usable s ≡ true) history

module _ {A : Type 0} (time : A → Time) (usable : A → Bool) where
  trim-IsHistory :
      (xs : List A)
      → Increasing time xs
      → All (λ s. usable s ≡ true) xs
      → IsHistory time usable (trim xs)
  trim-IsHistory xs order all = record {
    bounded = length-trim-le xs;
    increasing = Increasing-trim time xs order;
    all_usable = All-trim (λ s. usable s ≡ true) xs all;
  }

  append_in_order-IsHistory :
      (history : List A) (s : A)
      → IsHistory time usable history
      → usable s ≡ true
      → IsHistory time usable (append_in_order time history s)
  unfolding append_in_order
  append_in_order-IsHistory history s h u =
      let all = All-append (λ s. usable s ≡ true) history (s ∷ []) h.all_usable (u, tt) in
      elim (Option-cases (last? history)) [
        | inl e ↦
            let above = All-of_empty (λ x. time x <ℤ time s) history e in
            rw (e, append_in_order)
              (trim-IsHistory (history ++ s ∷ [])
                (Increasing-snoc time history s h.increasing above) all)
        | inr (last, e) ↦ elim (Bool-cases (Time.before (time s) (time last))) [
          | inl before ↦ rw (e, before, append_in_order) h
          | inr before ↦ elim (Bool-cases (Time.equal (time s) (time last))) [
            | inl same ↦
                let path : time s ≡ time last = ground (arith, eq_of_parts (time s) (time last)) in
                rw (e, before, same, append_in_order)
                  (record {
                    bounded = omega (arith, length-replace_last history s, h.bounded);
                    increasing = Increasing-replace_last time history last s h.increasing e path;
                    all_usable = All-replace_last (λ s. usable s ≡ true) history s h.all_usable u;
                  })
            | inr apart ↦
                let later : time last <ℤ time s = ground arith in
                let above = All-before_last time history last s h.increasing e later in
                rw (e, before, apart, append_in_order)
                  (trim-IsHistory (history ++ s ∷ [])
                    (Increasing-snoc time history s h.increasing above) all)
          ]
        ]
      ]

module _ {F : Type 0} ⦃fl : Float F⦄ where
  -- The time of a sample of each kind.
  abbrev pub demand_time : Sample F → Time
  demand_time s = s.timestamp

  abbrev pub capacity_time : CapacitySample F → Time
  capacity_time s = s.timestamp

  -- Whatever was in a history in increasing order of time, pruning and adding a sample leave at most
  -- twenty samples in that order, each in the window around the present and with a finite rate of at
  -- least zero.
  pub append_sample-IsHistory :
      (history : List (Sample F)) (sample : Sample F) (now : Time)
      → Increasing demand_time history
      → IsHistory demand_time (is_recent now) (append_sample history sample now)
  unfolding append_sample prune_samples
  append_sample-IsHistory history sample now order =
      let kept =
        trim-IsHistory demand_time (is_recent now) (keep (is_recent now) history)
          (Increasing-keep demand_time (is_recent now) history order)
          (keep-All (is_recent now) history) in
      elim (Bool-cases (Time.is_zero sample.timestamp)) [
        | inl z ↦ rw z kept
        | inr z ↦ elim (Bool-cases (is_recent now sample)) [
          | inl r ↦
              rw (z, r)
                (append_in_order-IsHistory demand_time (is_recent now) (prune_samples history now)
                  sample kept r)
          | inr r ↦ rw (z, r) kept
        ]
      ]

  recent_of_new :
      IsIeee F
      → (now : Time) (s : CapacitySample F) → is_new_capacity now s ≡ true
      → is_recent_capacity now s ≡ true
  unfolding is_new_capacity is_recent_capacity
  recent_of_new laws now s h =
      ground (arith, is_nan-nought laws, lt_of_not_le laws s.rps_per_work_unit nought)

  -- With floats that meet the IEEE laws, adding a capacity sample to at most twenty in increasing order
  -- of time keeps the invariant of its history: at most twenty samples, in
  -- increasing order of time, each in the window around the present, finite and positive.
  pub append_capacity_sample-IsHistory :
      IsIeee F
      → (history : List (CapacitySample F)) (sample : CapacitySample F) (now : Time)
      → length history ≤ max_samples
      → Increasing capacity_time history
      → IsHistory capacity_time (is_recent_capacity now) (append_capacity_sample history sample now)
  unfolding append_capacity_sample
  append_capacity_sample-IsHistory laws history sample now short order =
      let recent = is_recent_capacity {F = F} now in
      let kept : IsHistory capacity_time recent (keep recent history) = record {
        bounded = omega (arith, short, length-keep-le recent history);
        increasing = Increasing-keep capacity_time recent history order;
        all_usable = keep-All recent history;
      } in
      elim (Bool-cases (is_new_capacity now sample)) [
        | inl n ↦ rw n (
            append_in_order-IsHistory capacity_time recent (keep recent history) sample kept
              (recent_of_new laws now sample n))
        | inr n ↦ rw n kept
      ]
