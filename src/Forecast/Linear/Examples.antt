-- ===== src/Forecast/Linear/Examples.antt =====
-- The theorems about the forecast, on a rate that rises by the second.
use silver_leaf.Prelude.{
  ℕ, ◌≤◌, pos, ◌+ℤ◌, ◌-ℤ◌, ◌*ℤ◌, ◌/ℤ◌, ◌<ℤ◌, ◌≡◌, refl, true, List, [], ◌∷◌, length,
}
use silver_leaf.Go.Time.{seconds}
use silver_leaf.Go.Milli.{Milli, fin, root, milli_float, milli_format}
use silver_leaf.Forecast.History.{Sample, last?, max_samples}
use silver_leaf.Forecast.Linear.{
  linear_forecast, fit_samples, history_error, forecast_window, last_of, window_error,
  samples_error, bad_gap, fit_trend, statistics, sum_from, fold_rates, offset, measure, measured,
  residual_squares, extrapolate, grade,
}
use silver_leaf.Forecast.Linear.Flags.{IsConsistent, linear_forecast-IsConsistent}
use silver_leaf.Forecast.Linear.High.{IsSupported, linear_forecast-IsSupported}

-- a rate in thousandths at a second
abbrev sample : ℕ → ℕ → Sample Milli
sample t rate = record { timestamp = seconds t; request_rate = fin (pos rate) }

abbrev rising : List (Sample Milli)
rising =
    sample 1000 10_000
    ∷ sample 1020 12_000
    ∷ sample 1040 14_000
    ∷ sample 1060 16_000
    ∷ sample 1080 18_000
    ∷ []

linear_forecast-IsConsistent_example :
    IsConsistent Milli (linear_forecast rising (seconds 1090) (seconds 40))
linear_forecast-IsConsistent_example =
    linear_forecast-IsConsistent rising (seconds 1090) (seconds 40)

rising-trend : (linear_forecast rising (seconds 1090) (seconds 40)).has_trend ≡ true
unfolding linear_forecast fit_samples history_error forecast_window last_of window_error
    samples_error bad_gap fit_trend statistics sum_from fold_rates offset measure measured
    residual_squares extrapolate grade last? ◌+ℤ◌ ◌-ℤ◌ ◌*ℤ◌ ◌/ℤ◌ root
rising-trend = refl

linear_forecast-IsSupported_example :
    (pos 0 <ℤ seconds 40)
    × (length rising ≤ max_samples)
    × IsSupported
        (seconds 1090)
        (seconds 40)
        (fit_samples rising)
        (linear_forecast rising (seconds 1090) (seconds 40))
linear_forecast-IsSupported_example =
    linear_forecast-IsSupported rising (seconds 1090) (seconds 40) rising-trend
