-- ===== src/Controller/Histories/Kept.antt =====
-- What an update does to the histories of each resource.
use silver_leaf.Prelude.{
  false, not, ◌≡◌, String, str_eq, none, some, List, keep, ◌∙◌, ◌⊎◌, inl, inr,
}
use silver_leaf.Go.Time.{Time}
use silver_leaf.Go.Map.{
  Entry, lookup, IsDistinct, keep-IsDistinct, lookup-assign_same, lookup-assign_other, lookup-keep,
}
use silver_leaf.Go.Float.{Float}
use silver_leaf.Forecast.History.{Sample, CapacitySample, append_sample, append_capacity_sample}
use silver_leaf.Controller.Histories.Evicted.{lookup-evict}
use silver_leaf.Controller.Histories.{
  PredictionHistory, evict, extend, history_of, is_stale, update_prediction_history,
}

module _ {F : Type 0} ⦃fl : Float F⦄ where
  -- After an update of distinct keys, the key updated has its earlier samples, those of an unknown key
  -- being none, with the two new ones appended, even where its entry was too old to stay; and each other key
  -- has the entry it had, or none.
  pub lookup-update_prediction_history :
      (key k : String) (demand : Sample F) (capacity : CapacitySample F) (now : Time)
      (m : List (Entry (PredictionHistory F)))
      → IsDistinct m
      → str_eq key k ≡ false
      → (lookup key (update_prediction_history key demand capacity now m)
          ≡ some (record {
            demand_rates = append_sample (history_of key m).demand_rates demand now;
            capacity_rates = append_capacity_sample (history_of key m).capacity_rates capacity now;
            last_updated = now;
          }))
        × ((lookup k (update_prediction_history key demand capacity now m) ≡ lookup k m)
            ⊎ (lookup k (update_prediction_history key demand capacity now m) ≡ none))
  unfolding update_prediction_history extend
  lookup-update_prediction_history key k demand capacity now m d apart =
      let live = λ (e : Entry (PredictionHistory F)). not (is_stale now e) in
      let next = extend (history_of key m) demand capacity now in
      let same = lookup-assign_other key k next (evict key (keep live m)) apart in
      (
        lookup-assign_same key next (evict key (keep live m)),
        elim (lookup-evict key k (keep live m) (keep-IsDistinct live m d)) [
          | inr gone ↦ inr (same ∙ gone)
          | inl stays ↦ elim (lookup-keep k live m d) [
            | inl held ↦ inl (same ∙ stays ∙ held)
            | inr gone ↦ inr (same ∙ stays ∙ gone)
          ]
        ],
      )
