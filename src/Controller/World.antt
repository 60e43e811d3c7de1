-- ===== src/Controller/World.antt =====
-- internal/controller/optiscaler_controller.go: what a run of `Reconcile` reads, and what it does. A run reads the
-- cluster, Prometheus and the clock once at each place of the code; the answers are fields of World.
use silver_leaf.Prelude.{ℕ, ℤ, Bool, false, String, Option, some, List}
use silver_leaf.Go.Error.{Result}
use silver_leaf.Go.Map.{Entry}
use silver_leaf.Go.Time.{Time}
use silver_leaf.Api.Status.{OptiScaler, OptiScalerStatus}
use silver_leaf.Controller.Cluster.{Pod, Template, ReplicaSet, Deployment}
use silver_leaf.Controller.Histories.{PredictionHistory}
use silver_leaf.Controller.Gather.{TargetAnswers, DependencyAnswers}

-- what a `Get` returns: an object, or an error, of which one is that it does not exist
pub data Found (A : Type 0) : Type 0 where
  found : A → Found A
  not_found : String → Found A
  failed : String → Found A

-- what a run reads, and how its writes end
pub record World (F B : Type 0) : Type 0 where
  pub resource : Found (OptiScaler F)
  pub scale : Found ℤ
  pub client_error : Option String
  pub details : Result (Deployment B)
  pub target : TargetAnswers F
  pub dependencies : ℕ → DependencyAnswers F
  pub pods : Result (List Pod)
  pub replica_sets : Result (List (ReplicaSet B))
  pub scale_error : Option String
  pub status_error : Option String
  pub now : Time
  pub recorded_at : Time
  pub conditions_at : Time

-- the calls that write: of the scale of a workload, with the count before and after, where the call
-- succeeds, and of the status, with or without success
pub data Effect (F : Type 0) : Type 0 where
  scale_written : String → ℤ → ℤ → Effect F
  status_written : OptiScalerStatus F → Effect F

pub record Run (F : Type 0) : Type 0 where
  pub effects : List (Effect F)
  pub requeued : Bool
  pub error : Option String
  pub histories : List (Entry (PredictionHistory F))

-- what the code takes from packages that are not part of the repository: the hash of a record, and the
-- equality of statuses and of pod templates (`equality.Semantic.DeepEqual`)
pub record Library (F B : Type 0) : Type 0 where
  pub hash : String → String
  pub same_status : OptiScalerStatus F → OptiScalerStatus F → Bool
  pub same_template : Template B → Template B → Bool

module _ {F : Type 0} where
  -- a run that ends in an error before any status is written
  abbrev pub fail : List (Effect F) → String → List (Entry (PredictionHistory F)) → Run F
  fail before e m = record { effects = before; requeued = false; error = some e; histories = m }
