-- ===== src/Controller.antt =====
-- internal/controller: the reconciler. `Reconcile` is a run, from what it reads of the cluster and of
-- Prometheus (`World`) to what it writes; `Gather` makes the snapshot of it, `Decide` the decision,
-- `Prediction` the assessment of a prediction, and `Finish` the writes. The other modules are the parts
-- that they use.
pub mod Spec
pub mod Readiness
pub mod Learning
pub mod Histories
pub mod Cluster
pub mod Revision
pub mod Pods
pub mod Assessment
pub mod Request
pub mod Prediction
pub mod Observe
pub mod Gather
pub mod Status
pub mod Decide
pub mod World
pub mod Record
pub mod Finish
pub mod OneMetric
pub mod Reconcile
