-- ===== src/Forecast/Linear/Flags.antt =====
-- How the parts of a forecast hang together: each is given only with those that it stands on.
use silver_leaf.Prelude.{
  ℕ, pos, true, false, not, ◌||◌, ◌≡◌, refl, ◌⊎◌, inl, inr, Option-cases, List, [], ◌∷◌, length,
  Bool-cases, if_intro, arith, String,
}
use silver_leaf.Go.Time
use silver_leaf.Go.Time.{Time, Duration}
use silver_leaf.Go.Float.{Float, Format, nought, finite, finite_nonnegative}
use silver_leaf.Forecast.History.{Sample}
use silver_leaf.Forecast.Linear.{
  Forecast, Statistics, quality_low, quality_medium, quality_high, blank, history_error,
  fit_samples, last_of, grade, extrapolate, measured, measure, fit_trend, window_error,
  forecast_window, linear_forecast, statistics,
}

-- A grade above LOW needs a rate, a rate needs a fit, a fit needs a trend; and the values given are
-- usable.
pub record IsConsistent (F : Type 0) ⦃fl : Float F⦄ (r : Forecast F) : Type 0 where
  pub graded :
      (r.quality ≡ quality_low)
      ⊎ (((r.quality ≡ quality_medium)
            × (r.has_request_rate ≡ true)
            × (fl.le (fl.literal 85 2) r.r2 ≡ true)
            × (fl.le r.normalized_rmse (fl.literal 20 2) ≡ true))
          ⊎ ((r.quality ≡ quality_high)
              × (r.has_request_rate ≡ true)
              × (fl.le (fl.literal 95 2) r.r2 ≡ true)
              × (fl.le r.normalized_rmse (fl.literal 10 2) ≡ true)))
  pub rate :
      (r.has_request_rate ≡ false)
      ⊎ ((r.has_fit ≡ true) × (finite_nonnegative r.request_rate ≡ true))
  pub fit :
      (r.has_fit ≡ false)
      ⊎ ((r.has_trend ≡ true)
          × (fl.le r.slope nought ≡ false)
          × (finite r.r2 ≡ true)
          × (finite r.normalized_rmse ≡ true))
  pub trend : (r.has_trend ≡ false) ⊎ (finite r.slope ≡ true)

module _ {F : Type 0} ⦃fl : Float F⦄ where
  -- what the later stages are given
  record IsTrending (r : Forecast F) : Type 0 where
    trend : r.has_trend ≡ true
    finite_slope : finite r.slope ≡ true
    rising : fl.le r.slope nought ≡ false
    low : r.quality ≡ quality_low
    no_rate : r.has_request_rate ≡ false

  record IsMeasured (r : Forecast F) : Type 0 where
    trending : IsTrending r
    fit : r.has_fit ≡ true
    finite_r2 : finite r.r2 ≡ true
    finite_rmse : finite r.normalized_rmse ≡ true

  extrapolate-IsConsistent :
      (r : Forecast F) (intercept : F) (horizon : Duration)
      → IsMeasured r
      → IsConsistent F (extrapolate r intercept horizon)
  unfolding extrapolate grade
  extrapolate-IsConsistent r intercept horizon m = let t = m.trending in ground arith

  measured-IsMeasured :
      (r : Forecast F)
      → (t : Statistics F) → (fit : List (Sample F)) → (first : Time) → (intercept : F)
      → IsTrending r
      → (measured r t fit first intercept).has_fit ≡ true
      → IsMeasured (measured r t fit first intercept)
  unfolding measured
  measured-IsMeasured r t fit first intercept h e = ground arith

  measured-IsTrending :
      (r : Forecast F)
      → (t : Statistics F) → (fit : List (Sample F)) → (first : Time) → (intercept : F)
      → IsTrending r
      → IsTrending (measured r t fit first intercept)
  unfolding measured
  measured-IsTrending r t fit first intercept h = record {
    trend = h.trend;
    finite_slope = h.finite_slope;
    rising = h.rising;
    low = h.low;
    no_rate = h.no_rate;
  }

  measure-IsConsistent :
      (r : Forecast F)
      → (t : Statistics F) → (fit : List (Sample F)) → (first : Time) → (intercept : F)
      → (horizon : Duration) → IsTrending r
      → IsConsistent F (measure r t fit first intercept horizon)
  unfolding measure
  measure-IsConsistent r t fit first intercept horizon h =
      let m = measured r t fit first intercept in
      let kept = measured-IsTrending r t fit first intercept h in
      if_intro (IsConsistent F) m.has_fit (extrapolate m intercept horizon)
        (record m { reason = "request-rate fit quality is non-finite" })
        (λ e.
          extrapolate-IsConsistent m intercept horizon
            (measured-IsMeasured r t fit first intercept h e))
        (λ e. record {
          graded = inl (kept.low);
          rate = inl kept.no_rate;
          fit = inl e;
          trend = inr kept.finite_slope;
        })

  -- what the stages before the trend leave as it was
  record IsBare (r : Forecast F) : Type 0 where
    low : r.quality ≡ quality_low
    no_rate : r.has_request_rate ≡ false
    no_fit : r.has_fit ≡ false
    no_trend : r.has_trend ≡ false

  IsBare-IsConsistent : (r : Forecast F) → IsBare r → IsConsistent F r
  IsBare-IsConsistent r b = record {
    graded = inl b.low;
    rate = inl b.no_rate;
    fit = inl b.no_fit;
    trend = inl b.no_trend;
  }

  fit_trend-IsConsistent :
      (r : Forecast F) (fit : List (Sample F)) (first : Time) (horizon : Duration)
      → IsBare r
      → IsConsistent F (fit_trend r fit first horizon)
  unfolding fit_trend
  fit_trend-IsConsistent r fit first horizon b =
      let bare = λ (reason : String).
        IsBare-IsConsistent (record r { reason = reason })
          (record { low = b.low; no_rate = b.no_rate; no_fit = b.no_fit; no_trend = b.no_trend }) in
      let t = statistics fit first in
      let slope = fl.div t.covariance t.variance_x in
      let intercept = fl.sub t.mean_y (fl.mul slope t.mean_x) in
      elim (Bool-cases
        (fl.eq t.variance_x nought || fl.eq t.variance_y nought || fl.eq t.maximum t.minimum)) [
          | inl e ↦ simp e (bare "request-rate trend is flat and has no predictive signal")
          | inr e ↦ elim (Bool-cases (not (finite slope) || not (finite intercept))) [
            | inl e' ↦ simp (e, e') (bare "request-rate trend is non-finite")
            | inr e' ↦ elim (Bool-cases (fl.le slope nought)) [
              | inl e'' ↦
                  simp (e, e', e'')
                    (record {
                      graded = inl b.low;
                      rate = inl b.no_rate;
                      fit = inl b.no_fit;
                      trend = inr (ground arith);
                    })
              | inr e'' ↦
                  simp (e, e', e'')
                    (measure-IsConsistent (record r { slope = slope; has_trend = true }) t fit first
                      intercept horizon
                      (record {
                        trend = refl;
                        finite_slope = ground arith;
                        rising = e'';
                        low = b.low;
                        no_rate = b.no_rate;
                      }))
            ]
          ]
        ]

module _ {F : Type 0} ⦃fl : Float F⦄ ⦃format : Format F⦄ where
  blank-IsBare :
      (n : ℕ) (d : Duration) (reason : String)
      → IsBare {F = F} (record blank { samples = n; span = d; reason = reason })
  blank-IsBare n d reason = record { low = refl; no_rate = refl; no_fit = refl; no_trend = refl }

  blank-IsConsistent :
      (n : ℕ) (d : Duration) (reason : String)
      → IsConsistent F (record blank { samples = n; span = d; reason = reason })
  blank-IsConsistent n d reason =
      IsBare-IsConsistent (record blank { samples = n; span = d; reason = reason })
        (blank-IsBare n d reason)

  forecast_window-IsConsistent :
      (fit : List (Sample F)) (now : Time) (horizon : Duration)
      → IsConsistent F (forecast_window fit now horizon)
  unfolding forecast_window
  forecast_window-IsConsistent [] now horizon = blank-IsConsistent 0 (pos 0) _
  forecast_window-IsConsistent (first ∷ rest) now horizon =
      let fit = first ∷ rest in
      let last = (last_of first rest).timestamp in
      let span = Time.sub last first.timestamp in
      elim (Bool-cases (Time.is_zero first.timestamp || Time.is_zero last)) [
        | inl e ↦ rw e (blank-IsConsistent (length fit) (pos 0) _)
        | inr e ↦ elim (Option-cases (window_error fit span last now horizon)) [
          | inr (reason, e') ↦
              rw (e, e', forecast_window) (blank-IsConsistent (length fit) span reason)
          | inl e' ↦
              rw (e, e', forecast_window)
                (fit_trend-IsConsistent (record blank { samples = length fit; span = span }) fit
                  first.timestamp horizon (blank-IsBare (length fit) span ""))
        ]
      ]

  -- Every forecast is consistent: a grade of MEDIUM or HIGH comes with a rate and with the bounds on
  -- the fit that define it; a rate is finite and at least zero and comes with a fit; a fit is finite
  -- and comes with a trend whose slope is not flat or falling; and a trend has a finite slope.
  pub linear_forecast-IsConsistent :
      (samples : List (Sample F)) (now : Time) (horizon : Duration)
      → IsConsistent F (linear_forecast samples now horizon)
  unfolding linear_forecast
  linear_forecast-IsConsistent samples now horizon =
      elim (Option-cases (history_error samples horizon)) [
        | inl e ↦
            rw (e, linear_forecast) (forecast_window-IsConsistent (fit_samples samples) now horizon)
        | inr (reason, e) ↦ rw (e, linear_forecast) (blank-IsConsistent 0 (pos 0) reason)
      ]
