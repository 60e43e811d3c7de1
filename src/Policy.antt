-- ===== src/Policy.antt =====
-- internal/policy/policy.go: bounded decisions on replica counts. `Threshold` is the scalar policy,
-- `Bottleneck` the policy for a classified bottleneck, and `Prescale` the advice laid over it.
pub mod Types
pub mod Component
pub mod Threshold
pub mod Bottleneck
pub mod Prescale
