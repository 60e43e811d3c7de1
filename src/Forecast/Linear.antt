-- ===== src/Forecast/Linear.antt =====
-- internal/forecast/model.go: `LinearForecast`, a least-squares trend over the last two minutes of the
-- history, taken forward by the planning horizon.
pub mod Flags
pub mod High
mod Examples
use silver_leaf.Prelude.{
  ℕ, ℤ, pos, ◌-ℤ◌, ltb, ltb_ℤ, leb_ℤ, Bool, true, false, not, ◌&&◌, ◌||◌, String, Option, none,
  some, List, [], ◌∷◌, length, keep, concat, decimal, if◌then◌else◌,
}
use silver_leaf.Go.Time
use silver_leaf.Go.Time.{Time, Duration, seconds}
use silver_leaf.Go.Float.{Float, Format, nought, finite, finite_nonnegative}
use silver_leaf.Forecast.History.{Sample, last?, max_samples}

-- `TrendFitWindow`, `MinimumSamples`, `MinimumSpan`, `MaximumSampleAge` and `MaximumSampleGap`
abbrev pub trend_fit_window : Duration
trend_fit_window = seconds 120

abbrev pub minimum_samples : ℕ
minimum_samples = 5

abbrev pub minimum_span : Duration
minimum_span = seconds 60

abbrev pub maximum_sample_age : Duration
maximum_sample_age = seconds 45

abbrev pub maximum_sample_gap : Duration
maximum_sample_gap = seconds 45

pub data Quality : Type 0 where
  quality_high quality_medium quality_low : Quality

-- `Result`
pub record Forecast (F : Type 0) : Type 0 where
  pub request_rate : F
  pub slope : F
  pub r2 : F
  pub normalized_rmse : F
  pub samples : ℕ
  pub span : Duration
  pub quality : Quality
  pub reason : String
  pub has_trend : Bool
  pub has_request_rate : Bool
  pub has_fit : Bool

-- the sums over the samples of a fit
pub record Statistics (F : Type 0) : Type 0 where
  pub mean_x : F
  pub mean_y : F
  pub covariance : F
  pub variance_x : F
  pub variance_y : F
  pub minimum : F
  pub maximum : F

unfoldable pub bad_gap : Option Time → Time → Bool
bad_gap none t = false
bad_gap (some previous) t =
    leb_ℤ (Time.sub t previous) (pos 0) || ltb_ℤ maximum_sample_gap (Time.sub t previous)

module _ {F : Type 0} ⦃fl : Float F⦄ where
  abbrev pub blank : Forecast F
  blank = record {
    request_rate = nought;
    slope = nought;
    r2 = nought;
    normalized_rmse = nought;
    samples = 0;
    span = pos 0;
    quality = quality_low;
    reason = "";
    has_trend = false;
    has_request_rate = false;
    has_fit = false;
  }

  -- the checks on the whole history
  unfoldable pub history_error : List (Sample F) → Duration → Option String
  history_error samples horizon =
      if leb_ℤ horizon (pos 0)
      then some "planning horizon must be positive"
      else if ltb max_samples (length samples)
      then some "request-rate history exceeds the configured sample bound"
      else elim (last? samples) [
        | none ↦ some (
            concat (
              "insufficient request-rate history: need at least "
              ∷ decimal (pos minimum_samples)
              ∷ " observations"
              ∷ []))
        | some latest ↦
            if Time.is_zero latest.timestamp
            then some "request-rate history contains a missing timestamp"
            else none
      ]

  -- `fitSamples`: the samples of the fixed window that ends at the latest
  unfoldable pub fit_samples : List (Sample F) → List (Sample F)
  fit_samples samples = elim (last? samples) [
    | none ↦ []
    | some latest ↦
        keep
          (λ (s : Sample F). not (Time.before s.timestamp (latest.timestamp -ℤ trend_fit_window)))
          samples
  ]

  -- the loop over the samples of the fit, with the time of the sample before
  unfoldable pub samples_error : Option Time → List (Sample F) → Option String
  samples_error previous [] = none
  samples_error previous (s ∷ ss) =
      let rest = samples_error (some s.timestamp) ss in
      if not (finite_nonnegative s.request_rate) || Time.is_zero s.timestamp
      then some "request-rate history contains a missing or non-finite observation"
      else if bad_gap previous s.timestamp
      then some "request-rate history has a stale or non-monotonic sample gap"
      else rest

  unfoldable pub last_of : Sample F → List (Sample F) → Sample F
  last_of s [] = s
  last_of s (t ∷ ts) = last_of t ts

  -- `sum += f(sample)`, in the order of the samples
  unfoldable pub sum_from : F → (Sample F → F) → List (Sample F) → F
  sum_from acc f [] = acc
  sum_from acc f (s ∷ ss) = sum_from (fl.add acc (f s)) f ss

  unfoldable pub fold_rates : (F → F → F) → F → List (Sample F) → F
  fold_rates f acc [] = acc
  fold_rates f acc (s ∷ ss) = fold_rates f (f acc s.request_rate) ss

  -- `sample.Timestamp.Sub(first).Seconds()`
  unfoldable pub offset : Time → Sample F → F
  offset first s = fl.of_duration (Time.sub s.timestamp first)

  unfoldable pub statistics : List (Sample F) → Time → Statistics F
  statistics fit first =
      let n = fl.of_int (pos (length fit)) in
      let mean_x = fl.div (sum_from nought (offset first) fit) n in
      let mean_y = fl.div (sum_from nought (λ (s : Sample F). s.request_rate) fit) n in
      let dx = λ (s : Sample F). fl.sub (offset first s) mean_x in
      let dy = λ (s : Sample F). fl.sub s.request_rate mean_y in
      record {
        mean_x = mean_x;
        mean_y = mean_y;
        covariance = sum_from nought (λ (s : Sample F). fl.mul (dx s) (dy s)) fit;
        variance_x = sum_from nought (λ (s : Sample F). fl.mul (dx s) (dx s)) fit;
        variance_y = sum_from nought (λ (s : Sample F). fl.mul (dy s) (dy s)) fit;
        minimum = fold_rates fl.fmin fl.pos_inf fit;
        maximum = fold_rates fl.fmax fl.neg_inf fit;
      }

  unfoldable pub residual_squares : List (Sample F) → Time → F → F → F
  residual_squares fit first slope intercept =
      let residual = λ (s : Sample F).
        fl.sub s.request_rate (fl.add intercept (fl.mul slope (offset first s))) in
      sum_from nought (λ (s : Sample F). fl.mul (residual s) (residual s)) fit

  -- the grade of a forecast with a rate and a fit
  unfoldable pub grade : Forecast F → Forecast F
  grade r =
      if fl.le (fl.literal 95 2) r.r2 && fl.le r.normalized_rmse (fl.literal 10 2)
      then record r { quality = quality_high; reason = "high-quality positive request-rate trend" }
      else record r {
        quality =
            if fl.le (fl.literal 85 2) r.r2 && fl.le r.normalized_rmse (fl.literal 20 2)
            then quality_medium
            else quality_low;
        reason =
            "forecast fit is not HIGH quality (requires R^2 >= 0.95 and normalized RMSE <= 0.10)";
      }

  -- the rate at the horizon
  unfoldable pub extrapolate : Forecast F → F → Duration → Forecast F
  extrapolate r intercept horizon =
      let at = fl.add (fl.of_duration r.span) (fl.of_duration horizon) in
      let rate = fl.add intercept (fl.mul r.slope at) in
      if finite_nonnegative rate
      then grade (record r { request_rate = rate; has_request_rate = true })
      else record r {
        request_rate = rate;
        reason = "forecast request rate is non-finite or negative";
      }

  -- the quality of the fit of a rising trend
  unfoldable pub measured : Forecast F → Statistics F → List (Sample F) → Time → F → Forecast F
  measured r t fit first intercept =
      let squares = residual_squares fit first r.slope intercept in
      let raw = fl.sub (fl.of_int (pos 1)) (fl.div squares t.variance_y) in
      let r2 = if fl.lt raw nought then nought else raw in
      let rmse =
        fl.div (fl.sqrt (fl.div squares (fl.of_int (pos (length fit)))))
          (fl.sub t.maximum t.minimum) in
      record r { r2 = r2; normalized_rmse = rmse; has_fit = finite r2 && finite rmse }

  unfoldable pub measure :
      Forecast F → Statistics F → List (Sample F) → Time → F → Duration → Forecast F
  measure r t fit first intercept horizon =
      let m = measured r t fit first intercept in
      if m.has_fit
      then extrapolate m intercept horizon
      else record m { reason = "request-rate fit quality is non-finite" }

  -- the trend of a window without gaps
  unfoldable pub fit_trend : Forecast F → List (Sample F) → Time → Duration → Forecast F
  fit_trend r fit first horizon =
      let t = statistics fit first in
      let slope = fl.div t.covariance t.variance_x in
      let intercept = fl.sub t.mean_y (fl.mul slope t.mean_x) in
      let trending = record r { slope = slope; has_trend = true } in
      if fl.eq t.variance_x nought || fl.eq t.variance_y nought || fl.eq t.maximum t.minimum
      then record r { reason = "request-rate trend is flat and has no predictive signal" }
      else if not (finite slope) || not (finite intercept)
      then record r { reason = "request-rate trend is non-finite" }
      else if fl.le slope nought
      then record trending { reason = "request-rate trend is flat or falling" }
      else measure trending t fit first intercept horizon

module _ {F : Type 0} ⦃fl : Float F⦄ ⦃format : Format F⦄ where
  -- the checks on the window
  unfoldable pub window_error : List (Sample F) → Duration → Time → Time → Duration → Option String
  window_error fit span last now horizon =
      if ltb (length fit) minimum_samples
      then some (
          concat (
            "insufficient recent request-rate history: need at least "
            ∷ decimal (pos minimum_samples)
            ∷ " observations"
            ∷ []))
      else if ltb_ℤ span minimum_span
      then some (
          concat (
            "recent request-rate history spans "
            ∷ format.rounded span
            ∷ "; need at least "
            ∷ format.duration minimum_span
            ∷ []))
      else if ltb_ℤ span horizon
      then some "planning horizon exceeds the observed request-rate trend span"
      else if Time.after last (Time.add now (seconds 30))
          || ltb_ℤ maximum_sample_age (Time.sub now last)
      then some "latest request-rate sample is stale or future-dated"
      else samples_error none fit

  unfoldable pub forecast_window : List (Sample F) → Time → Duration → Forecast F
  forecast_window [] now horizon = record blank {
    reason = concat (
        "insufficient recent request-rate history: need at least "
        ∷ decimal (pos minimum_samples)
        ∷ " observations"
        ∷ []);
  }
  forecast_window (first ∷ rest) now horizon =
      let fit = first ∷ rest in
      let last = (last_of first rest).timestamp in
      let span = Time.sub last first.timestamp in
      let counted = record blank { samples = length fit } in
      let spanned = record counted { span = span } in
      if Time.is_zero first.timestamp || Time.is_zero last
      then record counted { reason = "request-rate history contains a missing timestamp" }
      else elim (window_error fit span last now horizon) [
        | some reason ↦ record spanned { reason = reason }
        | none ↦ fit_trend spanned fit first.timestamp horizon
      ]

  unfoldable pub linear_forecast : List (Sample F) → Time → Duration → Forecast F
  linear_forecast samples now horizon = elim (history_error samples horizon) [
    | some reason ↦ record blank { reason = reason }
    | none ↦ forecast_window (fit_samples samples) now horizon
  ]
