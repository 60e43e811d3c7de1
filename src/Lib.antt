-- ===== src/Lib.antt =====
-- Verification of Silver-Leaf, a Kubernetes operator that scales a Deployment and its dependencies by
-- measured saturation and by a forecast of demand.
--
-- The program takes Prometheus results as metrics (internal/observation), classifies a snapshot of
-- them into a bottleneck (internal/capacity), decides on one bounded change of a replica count
-- (internal/policy), and may raise the target ahead of demand on the advice of a least-squares
-- forecast over bounded histories (internal/forecast). The reconciler (internal/controller) checks the
-- specification of a resource (api/v1alpha1), gathers the snapshot and writes the scale.
--
-- The modules and the code that they model:
--   Prelude      shared names, integers over the native numbers, lists and texts
--   Go           the parts of Go that the code uses: int32 that wraps around, times and durations in
--                nanoseconds, errors as values, floats, and maps with texts as keys (Go.Map)
--   Observation  internal/observation/observation.go: Metric, DeriveRequestRates,
--                EffectiveReplicaCount, MeanSlotOccupancy
--   Capacity     internal/capacity/analyzer.go: Analyze, with the texts of its analyses;
--                Capacity.Specification says what it promises, and Capacity.Refinement proves it
--   Policy       internal/policy/policy.go: Evaluate (Policy.Threshold), EvaluateCapacity
--                (Policy.Bottleneck), EvaluatePrescale (Policy.Prescale), and what they share
--                (Policy.Types, Policy.Component)
--   Forecast     internal/forecast/model.go: AppendSample and AppendCapacitySample
--                (Forecast.History), LinearForecast (Forecast.Linear), SafePerReplicaCapacity
--                (Forecast.Estimate)
--   Api          api/v1alpha1/optiscaler_types.go: the types of the specification, and in
--                Api.Status those of the status and of the record of a decision
--   Decision     internal/decision/record.go: NewRecord and ID
--   Controller   internal/controller. Of optiscaler_controller.go: validateSpec (Spec), the hold on
--                capacity that is not realized yet (Learning), the readings of metrics (Observe), the
--                snapshot and whose workload each component has (Gather), conditions and modes (Status), the decision (Decide), the input
--                of its record (Record), the writes (Finish), the path of a single metric
--                (OneMetric) and Reconcile itself (Reconcile). Of prediction.go: readiness evidence
--                (Readiness), the eligibility of capacity samples (Learning), the map of histories
--                (Histories), the revision of the target (Revision), its pods (Pods), and
--                evaluatePrediction (Request, Assessment, Prediction). Controller.Cluster has the
--                fields of pods, ReplicaSets and Deployments that the code reads
--
-- A run of Reconcile is a function of a World: the objects that the API server returns, the answers of
-- Prometheus to each query, the results of the writes, and the times that the clock shows. It gives the
-- calls that write, in their order, whether the run is requeued, its error, and the map of histories
-- that the next run starts from; no result stands for a panic. A World is read at the places where the
-- code reads, so an answer that the code does not ask for has no part in the run.
--
-- A function of the code is a function here, under its name in snake case; a body that is long is cut
-- into helpers at its early returns, in the order of the code. A pointer that may be nil is an Option,
-- a nil error is none or ok. A struct that the code assigns field by field is a record that is
-- updated.
--
-- Floats are an interface, Go.Float.Float: the code's operations on float64, and as named hypotheses
-- the laws of IEEE 754 arithmetic that a theorem needs (IsIeee). A law on the conversion of integers
-- and on literals holds in the range that it states, of at most 2^53, where float64 is exact, and a
-- law that a zero of either sign meets speaks of equality by `eq`, as the code compares. Go.Milli is an
-- instance that evaluates and meets the laws; the tests use it. Multiplications and additions are rounded one by
-- one: the fused operations that a compiler may form are not modelled. What package fmt prints of a
-- value, and strings.TrimSpace, are the interface Go.Float.Format, of which a theorem assumes at most
-- that trimming the empty text leaves it empty.
-- Replica counts and steps are integers; their sums wrap around at 32 bits as the code's do, and a
-- theorem that needs a sum not to overflow says so.
--
-- No definition runs on fuel but the decimal form of an integer, which takes twenty digits, enough for
-- 64 bits; all loops of the code are over lists.
--
-- A Go map is a list of entries with distinct keys. The order of its iteration, which Go leaves open, is
-- that of the list; a theorem about updatePredictionHistory holds for each such list, so for each order.
-- The mutex around the histories makes an update one step.
--
-- Not modelled: the Prometheus client, of which the answers are inputs of a run; events and logs;
-- SetupWithManager and the manager's entry point, which wire the parts; the example workloads under
-- cmd; generated code. Library code is a parameter: the hash of a record's identifier, the semantic
-- equality of statuses and of pod templates, the parsed selector of a Deployment, and what package fmt
-- prints.
pub mod Prelude
pub mod Go
pub mod Observation
pub mod Capacity
pub mod Policy
pub mod Forecast
pub mod Api
pub mod Decision
pub mod Controller
