-- ===== src/Forecast/Linear/High.antt =====
-- The evidence that a forecast with a trend stands on: enough samples, close together, over a span
-- that covers the horizon.
use silver_leaf.Prelude.{
  ◌≤◌, pos, ◌≤ℤ◌, ◌<ℤ◌, true, false, ◌||◌, ◌≡◌, refl, inl, inr, Option, Option-cases, none, some,
  List, [], ◌∷◌, length, Bool-cases, arith, sym, subst,
}
use silver_leaf.Go.Time
use silver_leaf.Go.Time.{Time, Duration, seconds}
use silver_leaf.Go.Float.{Float, Format, finite_nonnegative}
use silver_leaf.Forecast.History.{Sample, max_samples}
use silver_leaf.Forecast.Linear.{
  Forecast, blank, history_error, fit_samples, bad_gap, samples_error, last_of, fit_trend, measure,
  measured, extrapolate, grade, window_error, forecast_window, linear_forecast, minimum_samples,
  minimum_span, maximum_sample_age, maximum_sample_gap,
}

-- A sample follows the one before it, within the largest gap.
abbrev pub Follows : Option Time → Time → Type 0
Follows none t = Unit
Follows (some previous) t =
    (pos 0 <ℤ Time.sub t previous) × (Time.sub t previous ≤ℤ maximum_sample_gap)

bad_gap-Follows :
    (previous : Option Time) (t : Time) → bad_gap previous t ≡ false → Follows previous t
unfolding bad_gap
bad_gap-Follows none t h = tt
bad_gap-Follows (some p) t h = ground arith

module _ {F : Type 0} ⦃fl : Float F⦄ where
  -- Samples with times and usable rates, each following the one before it.
  abbrev pub Steady : Option Time → List (Sample F) → Type 0
  Steady previous [] = Unit
  Steady previous (s ∷ ss) =
      (finite_nonnegative s.request_rate ≡ true)
      × (Time.is_zero s.timestamp ≡ false)
      × Follows previous s.timestamp
      × Steady (some s.timestamp) ss

  samples_error-Steady :
      (previous : Option Time) (samples : List (Sample F))
      → samples_error previous samples ≡ none
      → Steady previous samples
  unfolding samples_error
  samples_error-Steady previous [] h = tt
  samples_error-Steady previous (s ∷ ss) h =
      let gap = bad_gap-Follows previous s.timestamp in
      let rest = samples_error-Steady (some s.timestamp) ss in
      (ground arith, ground arith, gap (ground arith), rest (ground arith))

  -- What the window of a forecast has to show.
  pub record IsSupported (now : Time) (horizon : Duration) (fit : List (Sample F)) (r : Forecast F)
      : Type 0 where
    pub first : Sample F
    pub rest : List (Sample F)
    pub window : fit ≡ first ∷ rest
    pub counted : r.samples ≡ length fit
    pub enough : minimum_samples ≤ r.samples
    pub span : r.span ≡ Time.sub (last_of first rest).timestamp first.timestamp
    pub long : minimum_span ≤ℤ r.span
    pub covers : horizon ≤ℤ r.span
    pub fresh : Time.sub now (last_of first rest).timestamp ≤ℤ maximum_sample_age
    pub not_ahead : Time.after (last_of first rest).timestamp (Time.add now (seconds 30)) ≡ false
    pub steady : Steady none fit

  fit_trend-window :
      (r : Forecast F) (fit : List (Sample F)) (first : Time) (horizon : Duration)
      → ((fit_trend r fit first horizon).samples ≡ r.samples)
        × ((fit_trend r fit first horizon).span ≡ r.span)
  unfolding fit_trend measure measured extrapolate grade
  fit_trend-window r fit first horizon = ground arith

module _ {F : Type 0} ⦃fl : Float F⦄ ⦃format : Format F⦄ where
  window_error-none :
      (fit : List (Sample F)) (span : Duration) (last now : Time) (horizon : Duration)
      → window_error fit span last now horizon ≡ none
      → (minimum_samples ≤ length fit)
        × (minimum_span ≤ℤ span)
        × (horizon ≤ℤ span)
        × (Time.sub now last ≤ℤ maximum_sample_age)
        × (Time.after last (Time.add now (seconds 30)) ≡ false)
        × (samples_error none fit ≡ none)
  unfolding window_error
  window_error-none fit span last now horizon h = ground arith

  forecast_window-IsSupported :
      (fit : List (Sample F)) (now : Time) (horizon : Duration)
      → (forecast_window fit now horizon).has_trend ≡ true
      → IsSupported now horizon fit (forecast_window fit now horizon)
  unfolding forecast_window
  forecast_window-IsSupported [] now horizon h = ground arith
  forecast_window-IsSupported (first ∷ rest) now horizon h =
      let fit = first ∷ rest in
      let last = (last_of first rest).timestamp in
      let span = Time.sub last first.timestamp in
      elim (Bool-cases (Time.is_zero first.timestamp || Time.is_zero last)) [
        | inl e ↦ ground arith
        | inr e ↦ elim (Option-cases (window_error fit span last now horizon)) [
          | inr (reason, e') ↦ ground arith
          | inl e' ↦
              let gates = window_error-none fit span last now horizon e' in
              let kept =
                fit_trend-window (record blank { samples = length fit; span = span }) fit
                  first.timestamp horizon in
              rw (e, e', forecast_window)
                (record {
                  first = first;
                  rest = rest;
                  window = refl;
                  counted = kept.0;
                  enough = rw kept.0 gates.0;
                  span = kept.1;
                  long = rw kept.1 gates.1;
                  covers = rw kept.1 gates.2;
                  fresh = gates.3;
                  not_ahead = gates.4;
                  steady = samples_error-Steady none fit gates.5;
                })
        ]
      ]

  history_error-none :
      (samples : List (Sample F)) (horizon : Duration)
      → history_error samples horizon ≡ none
      → (pos 0 <ℤ horizon) × (length samples ≤ max_samples)
  unfolding history_error
  history_error-none samples horizon h = ground arith

  -- A trend is reported only for a positive horizon and a history of at most twenty samples, and only
  -- from at least five samples of the last two minutes of it, whose span is at least a minute and
  -- covers the horizon, whose last is not stale and not in the future, and each of which has a time
  -- and a usable rate and comes after the one before it, by at most 45 seconds.
  pub linear_forecast-IsSupported :
      (samples : List (Sample F)) (now : Time) (horizon : Duration)
      → (linear_forecast samples now horizon).has_trend ≡ true
      → (pos 0 <ℤ horizon)
        × (length samples ≤ max_samples)
        × IsSupported now horizon (fit_samples samples) (linear_forecast samples now horizon)
  unfolding linear_forecast
  linear_forecast-IsSupported samples now horizon h =
      elim (Option-cases (history_error samples horizon)) [
        | inr (reason, e) ↦ ground arith
        | inl e ↦
            let gates = history_error-none samples horizon e in
            let same : linear_forecast samples now horizon
                ≡ forecast_window (fit_samples samples) now horizon =
              rw (e, linear_forecast) refl in
            let trend : (forecast_window (fit_samples samples) now horizon).has_trend ≡ true =
              ground arith in
            (
              gates.0,
              gates.1,
              subst (IsSupported now horizon (fit_samples samples)) (sym same)
                  (forecast_window-IsSupported (fit_samples samples) now horizon trend),
            )
      ]
