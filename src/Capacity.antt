-- ===== src/Capacity.antt =====
-- internal/capacity/analyzer.go: the classification of a snapshot of observations.
pub mod Types
pub mod Signals
pub mod Evidence
pub mod Analyze
pub mod Specification
pub mod Collected
pub mod Refinement
mod Examples
