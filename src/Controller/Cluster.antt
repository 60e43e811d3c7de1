-- ===== src/Controller/Cluster.antt =====
-- What the controller reads of pods, ReplicaSets and Deployments from the API server: the fields that
-- internal/controller uses, of the types of k8s.io/api.
use silver_leaf.Prelude.{ℤ, Bool, String, Option, List}
use silver_leaf.Go.Time.{Time}
use silver_leaf.Go.Map.{Entry}

-- what `metav1.GetControllerOf` finds of an object
pub record Owner : Type 0 where
  pub kind : String
  pub name : String
  pub uid : String

pub record PodCondition : Type 0 where
  pub type_ : String
  pub status : String
  pub last_transition_time : Time

pub record ContainerStatus : Type 0 where
  pub name : String
  pub restart_count : ℤ

-- `containers` are the names of the regular containers.
pub record Pod : Type 0 where
  pub labels : List (Entry String)
  pub is_deleted : Bool
  pub creation_timestamp : Time
  pub controller : Option Owner
  pub conditions : List PodCondition
  pub containers : List String
  pub container_statuses : List ContainerStatus

-- A pod template: its labels, and the rest of it.
pub record Template (B : Type 0) : Type 0 where
  pub labels : List (Entry String)
  pub body : B

pub record ReplicaSet (B : Type 0) : Type 0 where
  pub uid : String
  pub labels : List (Entry String)
  pub controller : Option Owner
  pub template : Template B

-- `LabelSelectorAsSelector` of the Deployment's selector
pub data Selector : Type 0 where
  no_selector invalid_selector valid_selector : Selector

pub record Deployment (B : Type 0) : Type 0 where
  pub name : String
  pub uid : String
  pub generation : ℤ
  pub observed_generation : ℤ
  pub ready_replicas : ℤ
  pub selector : Selector
  pub template : Template B
