-- ===== src/Controller/Histories.antt =====
-- internal/controller/prediction.go: `updatePredictionHistory`, the histories that the reconciler keeps
-- in memory for each resource. It runs under a mutex, so as one step; what it returns are copies.
pub mod Evicted
pub mod Bounded
pub mod Kept
mod Examples
use silver_leaf.Prelude.{
  ℕ, ℤ, pos, ◌-ℤ◌, leb, Bool, true, false, not, ◌&&◌, ◌||◌, String, str_eq, str_lt, Option, none,
  some, List, [], ◌∷◌, length, keep, if◌then◌else◌,
}
use silver_leaf.Go.Time
use silver_leaf.Go.Time.{Time, Duration, seconds}
use silver_leaf.Go.Map.{Entry, lookup, delete, assign}
use silver_leaf.Go.Float.{Float}
use silver_leaf.Forecast.History.{Sample, CapacitySample, append_sample, append_capacity_sample}

abbrev pub max_prediction_histories : ℕ
max_prediction_histories = 128

pub record PredictionHistory (F : Type 0) : Type 0 where
  pub demand_rates : List (Sample F)
  pub capacity_rates : List (CapacitySample F)
  pub last_updated : Time

-- `oldestKey` and `oldest`
pub record Oldest : Type 0 where
  pub key : String
  pub time : Time

module _ {F : Type 0} where
  -- the zero value, of a key that is not in the map
  abbrev pub no_history : PredictionHistory F
  no_history = record { demand_rates = []; capacity_rates = []; last_updated = pos 0 }

  unfoldable pub history_of : String → List (Entry (PredictionHistory F)) → PredictionHistory F
  history_of key m = elim (lookup key m) [ none ↦ no_history | some h ↦ h ]

  unfoldable pub is_stale : Time → Entry (PredictionHistory F) → Bool
  is_stale now e = Time.before e.value.last_updated (now -ℤ seconds 600)

  pub older : Oldest → Entry (PredictionHistory F) → Oldest
  older o e =
      if str_eq o.key ""
        || Time.before e.value.last_updated o.time
        || Time.equal e.value.last_updated o.time && str_lt e.key o.key
      then record { key = e.key; time = e.value.last_updated }
      else o

  pub oldest_from : Oldest → List (Entry (PredictionHistory F)) → Oldest
  oldest_from o [] = o
  oldest_from o (e ∷ es) = oldest_from (older o e) es

  pub oldest : List (Entry (PredictionHistory F)) → Oldest
  oldest m = oldest_from (record { key = ""; time = pos 0 }) m

  -- room for a key that is not in the map
  pub evict : String → List (Entry (PredictionHistory F)) → List (Entry (PredictionHistory F))
  evict key m = elim (lookup key m) [
    | some _ ↦ m
    | none ↦ if leb max_prediction_histories (length m) then delete (oldest m).key m else m
  ]

module _ {F : Type 0} ⦃fl : Float F⦄ where
  unfoldable pub extend :
      PredictionHistory F → Sample F → CapacitySample F → Time → PredictionHistory F
  extend h demand capacity now = record {
    demand_rates = append_sample h.demand_rates demand now;
    capacity_rates = append_capacity_sample h.capacity_rates capacity now;
    last_updated = now;
  }

  -- the map after the update; the histories that are returned are the entry of the key
  pub update_prediction_history :
      String
      → Sample F
      → CapacitySample F
      → Time
      → List (Entry (PredictionHistory F))
      → List (Entry (PredictionHistory F))
  update_prediction_history key demand capacity now m =
      assign key (extend (history_of key m) demand capacity now)
        (evict key (keep (λ (e : Entry (PredictionHistory F)). not (is_stale now e)) m))
