-- ===== src/Capacity/Types.antt =====
-- internal/capacity/analyzer.go: what an analysis is made of. The source's types are strings with named
-- constants; `unknown` is any other string.
use silver_leaf.Prelude.{Bool, true, false, String, List}

pub data Classification : Type 0 where
  healthy target_saturated dependency_saturated capacity_blocked uncertain : Classification
  unknown : String → Classification

pub data Confidence : Type 0 where
  low medium high : Confidence

pub record Analysis : Type 0 where
  pub classification : Classification
  pub component : String
  pub evidence : List String
  pub rejected_actions : List String
  pub reason : String
  pub confidence : Confidence

abbrev pub is_healthy : Classification → Bool
is_healthy healthy = true
is_healthy _ = false
