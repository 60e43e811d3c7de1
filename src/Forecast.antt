-- ===== src/Forecast.antt =====
-- internal/forecast/model.go: bounded histories of samples, and the forecast from them.
pub mod History
pub mod Linear
pub mod Estimate
