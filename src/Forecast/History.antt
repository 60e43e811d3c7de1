-- ===== src/Forecast/History.antt =====
-- internal/forecast/model.go: `AppendSample`, `AppendCapacitySample` and `pruneSamples`. The code
-- reuses the array of the history it is given; the caller keeps only the result.
pub mod Order
pub mod Invariant
pub mod Latest
mod Examples
use silver_leaf.Prelude.{
  ℕ, ◌-◌, ℤ, ◌-ℤ◌, ltb, Bool, true, false, not, ◌&&◌, ◌||◌, Option, none, some, List, [], ◌∷◌, ◌++◌,
  length, drop, keep, if◌then◌else◌,
}
use silver_leaf.Go.Time
use silver_leaf.Go.Time.{Time, Duration, seconds}
use silver_leaf.Go.Float.{Float, nought, finite, finite_nonnegative}

-- `MaxSamples` and `HistoryWindow`
abbrev pub max_samples : ℕ
max_samples = 20

abbrev pub history_window : Duration
history_window = seconds 300

pub record Sample (F : Type 0) : Type 0 where
  pub timestamp : Time
  pub request_rate : F

pub record CapacitySample (F : Type 0) : Type 0 where
  pub timestamp : Time
  pub rps_per_work_unit : F

-- The window from five minutes ago to half a minute ahead.
unfoldable pub in_window : Time → Time → Bool
in_window now t =
    not (Time.before t (now -ℤ history_window)) && not (Time.after t (Time.add now (seconds 30)))

module _ {A : Type 0} where
  unfoldable pub last? : List A → Option A
  last? [] = none
  last? (x ∷ []) = some x
  last? (x ∷ y ∷ xs) = last? (y ∷ xs)

  -- `history[len(history)-1] = sample`
  unfoldable pub replace_last : List A → A → List A
  replace_last [] s = []
  replace_last (x ∷ []) s = s ∷ []
  replace_last (x ∷ y ∷ xs) s = x ∷ replace_last (y ∷ xs) s

  -- the last `max_samples` of a longer history
  unfoldable pub trim : List A → List A
  trim xs = if ltb max_samples (length xs) then drop (length xs - max_samples) xs else xs

  -- the end of both appends: a sample older than the last is dropped, and one of the same time
  -- takes the last one's place
  unfoldable pub append_in_order : (A → Time) → List A → A → List A
  append_in_order time history sample = elim (last? history) [
    | none ↦ trim (history ++ sample ∷ [])
    | some last ↦
        if Time.before (time sample) (time last)
        then history
        else if Time.equal (time sample) (time last)
        then replace_last history sample
        else trim (history ++ sample ∷ [])
  ]

module _ {F : Type 0} ⦃fl : Float F⦄ where
  -- what a sample needs to be kept
  unfoldable pub is_recent : Time → Sample F → Bool
  is_recent now s = in_window now s.timestamp && finite_nonnegative s.request_rate

  unfoldable pub prune_samples : List (Sample F) → Time → List (Sample F)
  prune_samples history now = trim (keep (is_recent now) history)

  unfoldable pub append_sample : List (Sample F) → Sample F → Time → List (Sample F)
  append_sample history sample now =
      let kept = prune_samples history now in
      if Time.is_zero sample.timestamp || not (is_recent now sample)
      then kept
      else append_in_order (λ (s : Sample F). s.timestamp) kept sample

  unfoldable pub is_recent_capacity : Time → CapacitySample F → Bool
  is_recent_capacity now s =
      in_window now s.timestamp && finite s.rps_per_work_unit && fl.lt nought s.rps_per_work_unit

  -- what a new capacity sample needs to be added: the test at the entry of the code, `<= 0` as it
  -- stands there
  unfoldable pub is_new_capacity : Time → CapacitySample F → Bool
  is_new_capacity now s =
      not (Time.is_zero s.timestamp)
      && in_window now s.timestamp
      && finite s.rps_per_work_unit
      && not (fl.le s.rps_per_work_unit nought)

  unfoldable pub append_capacity_sample :
      List (CapacitySample F) → CapacitySample F → Time → List (CapacitySample F)
  append_capacity_sample history sample now =
      let kept = keep (is_recent_capacity now) history in
      if is_new_capacity now sample
      then append_in_order (λ (s : CapacitySample F). s.timestamp) kept sample
      else kept
