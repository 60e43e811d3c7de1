-- ===== src/Controller/Histories/Evicted.antt =====
-- The entry that is evicted, which is in the map, and what eviction leaves.
use silver_leaf.Prelude.{
  suc, pos, ◌≤◌, leb, true, false, not, ◌&&◌, ◌||◌, ◌≡◌, refl, sym, ap, subst, ◌⊎◌, inl, inr,
  String, str_eq, str_eq_refl, str_lt, none, some, List, [], ◌∷◌, length, All, arith, Bool-cases,
  Option-cases,
}
use silver_leaf.Go.Time
use silver_leaf.Go.Time.{Time}
use silver_leaf.Go.Map.{
  Entry, lookup, delete, IsDistinct, keep-All_entries, keep-IsDistinct, length-delete-lt,
  length-delete-le, lookup-keep,
}
use silver_leaf.Controller.Histories.{
  PredictionHistory, Oldest, older, oldest_from, oldest, evict, max_prediction_histories,
}

module _ {F : Type 0} where
  older-cases :
      (o : Oldest) (e : Entry (PredictionHistory F))
      → (older o e ≡ o) ⊎ (older o e ≡ record { key = e.key; time = e.value.last_updated })
  unfolding older
  older-cases o e =
      elim (Bool-cases (
        str_eq o.key ""
        || Time.before e.value.last_updated o.time
        || Time.equal e.value.last_updated o.time && str_lt e.key o.key)) [
          | inl t ↦ rw t (inr refl)
          | inr t ↦ rw t (inl refl)
        ]

  -- The key found is the one started with, or one of the map.
  oldest_from-key :
      (o : Oldest) (m : List (Entry (PredictionHistory F)))
      → ((oldest_from o m).key ≡ o.key)
        ⊎ ((h : PredictionHistory F) × (lookup (oldest_from o m).key m ≡ some h))
  unfolding oldest_from lookup
  oldest_from-key o [] = inl refl
  oldest_from-key o (e ∷ es) = elim (oldest_from-key (older o e) es) [
    | inr (h, found) ↦ elim (Bool-cases (str_eq e.key (oldest_from (older o e) es).key)) [
      | inl t ↦ inr (e.value, rw t refl)
      | inr t ↦ inr (h, rw t found)
    ]
    | inl same ↦ elim (older-cases o e) [
      | inl kept ↦ inl (rw (same, kept) refl)
      | inr taken ↦
          let key : (oldest_from (older o e) es).key ≡ e.key = rw (same, taken) refl in
          inr (e.value, rw (key, str_eq_refl e.key) refl)
    ]
  ]

  -- Whatever comes first replaces the empty key.
  older-empty_key :
      (t : Time) (e : Entry (PredictionHistory F))
      → older (record { key = ""; time = t }) e
        ≡ record { key = e.key; time = e.value.last_updated }
  unfolding older
  older-empty_key t e = refl

  pub oldest-found :
      (e : Entry (PredictionHistory F)) (es : List (Entry (PredictionHistory F)))
      → (h : PredictionHistory F) × (lookup (oldest (e ∷ es)).key (e ∷ es) ≡ some h)
  unfolding oldest oldest_from lookup
  oldest-found e es = elim (oldest_from-key (older (record { key = ""; time = pos 0 }) e) es) [
    | inr (h, found) ↦
        elim (Bool-cases
          (str_eq e.key (oldest_from (older (record { key = ""; time = pos 0 }) e) es).key)) [
            | inl t ↦ (e.value, rw t refl)
            | inr t ↦ (h, rw t found)
          ]
    | inl same ↦
        let key : (oldest_from (older (record { key = ""; time = pos 0 }) e) es).key ≡ e.key =
          rw (same, older-empty_key (pos 0) e) refl in
        (e.value, rw (key, str_eq_refl e.key) refl)
  ]

  -- Either there is room for the key, or the map is full and loses its oldest entry.
  pub evict-cases :
      (key : String) (m : List (Entry (PredictionHistory F)))
      → ((evict key m ≡ m)
          × (((h : PredictionHistory F) × (lookup key m ≡ some h))
              ⊎ (leb max_prediction_histories (length m) ≡ false)))
        ⊎ ((evict key m ≡ delete (oldest m).key m)
            × (leb max_prediction_histories (length m) ≡ true))
  unfolding evict
  evict-cases key m = elim (Option-cases (lookup key m)) [
    | inr (h, found) ↦ inl (rw (found, evict) refl, inl (h, found))
    | inl absent ↦ elim (Bool-cases (leb max_prediction_histories (length m))) [
      | inl full ↦ inr (rw (absent, full, evict) refl, full)
      | inr room ↦ inl (rw (absent, room, evict) refl, inr room)
    ]
  ]

  -- Eviction leaves what holds of each entry, and the keys distinct.
  pub evict-All :
      (P : Entry (PredictionHistory F) → Type 0) (key : String)
      (m : List (Entry (PredictionHistory F)))
      → All P m
      → All P (evict key m)
  unfolding delete
  evict-All P key m h = elim (evict-cases key m) [
    | inl (same, _) ↦ subst (All P) (sym same) h
    | inr (less, _) ↦ subst (All P) (sym less) (
        keep-All_entries P (λ (e : Entry (PredictionHistory F)). not (str_eq e.key (oldest m).key))
          m h)
  ]

  pub evict-IsDistinct :
      (key : String) (m : List (Entry (PredictionHistory F)))
      → IsDistinct m
      → IsDistinct (evict key m)
  unfolding delete
  evict-IsDistinct key m h = elim (evict-cases key m) [
    | inl (same, _) ↦ subst (λ n. IsDistinct n) (sym same) h
    | inr (less, _) ↦
        subst (λ n. IsDistinct n) (sym less)
          (keep-IsDistinct (λ (e : Entry (PredictionHistory F)). not (str_eq e.key (oldest m).key))
            m h)
  ]

  -- A full map has an entry to evict.
  delete-oldest-lt :
      (m : List (Entry (PredictionHistory F)))
      → leb max_prediction_histories (length m) ≡ true
      → suc (length (delete (oldest m).key m)) ≤ length m
  delete-oldest-lt [] full = ground arith
  delete-oldest-lt (e ∷ es) full =
      let (h, found) = oldest-found e es in length-delete-lt (oldest (e ∷ es)).key (e ∷ es) h found

  -- With the key taken out, there is room for one more.
  pub delete-evict-lt :
      (key : String) (m : List (Entry (PredictionHistory F)))
      → length m ≤ max_prediction_histories
      → suc (length (delete key (evict key m))) ≤ max_prediction_histories
  delete-evict-lt key m short = elim (evict-cases key m) [
    | inl (same, inl (h, found)) ↦
        subst (λ n. suc (length (delete key n)) ≤ max_prediction_histories) (sym same)
          (omega (arith, short, length-delete-lt key m h found))
    | inl (same, inr room) ↦
        subst (λ n. suc (length (delete key n)) ≤ max_prediction_histories) (sym same)
          (ground (arith, length-delete-le key m))
    | inr (less, full) ↦
        subst (λ n. suc (length (delete key n)) ≤ max_prediction_histories) (sym less)
          (omega
            (arith, short, delete-oldest-lt m full, length-delete-le key (delete (oldest m).key m)))
  ]

  -- Eviction leaves the entry of a key as it is, or takes it out.
  pub lookup-evict :
      (key k : String) (m : List (Entry (PredictionHistory F)))
      → IsDistinct m
      → (lookup k (evict key m) ≡ lookup k m) ⊎ (lookup k (evict key m) ≡ none)
  unfolding delete
  lookup-evict key k m d = elim (evict-cases key m) [
    | inl (same, _) ↦ inl (ap (λ n. lookup k n) same)
    | inr (less, _) ↦
        subst (λ n. (lookup k n ≡ lookup k m) ⊎ (lookup k n ≡ none)) (sym less)
          (lookup-keep k (λ (e : Entry (PredictionHistory F)). not (str_eq e.key (oldest m).key)) m
            d)
  ]
