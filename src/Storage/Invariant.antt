-- ===== src/Storage/Invariant.antt =====
-- internal/storage/store.go: agreement of the secondary indices with the primary map.
use mathlib.Core.Bool.{Bool, false, ◌&&◌, not}
use go_kafka.Base.{
  ◌≡◌, refl, Option, none, some, Bytes, bytes_key, bytes_eq_iff, arith, ◌==◌, if◌then◌else◌,
  Option-cases, Bool-cases, inl, inr,
}
use go_kafka.Base.Dict.{lookup, Unique}
use go_kafka.Base.Text.{Unicode, to_lower}
use go_kafka.Events.{WeekendEvent, is_empty}
use go_kafka.Storage.{Store, remove_index, unindexed}
use go_kafka.Storage.Indices.{IsIndex, has, remove_id, has-remove_id, remove_id-IsIndex}

module _ {F : Type 0} (u : Unicode) where
  abbrev pub in_category : Bytes → Option (WeekendEvent F) → Bool
  in_category c none = false
  in_category c (some e) = to_lower u e.category == c

  abbrev pub in_priority : Bytes → Option (WeekendEvent F) → Bool
  in_priority p none = false
  in_priority p (some e) = not (is_empty (to_lower u e.priority)) && (to_lower u e.priority == p)

  -- Each event stands under its id, and each index holds an id under a key exactly if the event of
  -- that id has the key.
  pub record IsIndexed (s : Store F) : Type 0 where
    pub one_each : Unique s.primary
    pub own_id : (id : Bytes) (e : WeekendEvent F) → lookup id s.primary ≡ some e → e.id ≡ id
    pub categories : IsIndex s.by_category
    pub priorities : IsIndex s.by_priority
    pub category : (c id : Bytes) → has s.by_category c id ≡ in_category c (lookup id s.primary)
    pub priority : (p id : Bytes) → has s.by_priority p id ≡ in_priority p (lookup id s.primary)

  -- `t` is `s` with one id taken out of the indices.
  pub record Without (id : Bytes) (s t : Store F) : Type 0 where
    pub primary : t.primary ≡ s.primary
    pub categories : IsIndex t.by_category
    pub priorities : IsIndex t.by_priority
    pub category :
        (c j : Bytes) → has t.by_category c j ≡ (if id == j then false else has s.by_category c j)
    pub priority :
        (p j : Bytes) → has t.by_priority p j ≡ (if id == j then false else has s.by_priority p j)

  module _ (s : Store F) (v : IsIndexed s) (id : Bytes) where
    -- An id with no event is in no index.
    Without-absent : lookup id s.primary ≡ none → Without id s s
    Without-absent q = record {
      primary = refl;
      categories = v.categories;
      priorities = v.priorities;
      category = λ c j. ground (arith, v.category c j, bytes_eq_iff id j);
      priority = λ p j. ground (arith, v.priority p j, bytes_eq_iff id j);
    }

    module _ (e : WeekendEvent F) (q : lookup id s.primary ≡ some e) where
      remove_category :
          (c j : Bytes)
          → has (remove_id s.by_category (to_lower u e.category) e.id) c j
            ≡ (if id == j then false else has s.by_category c j)
      remove_category c j =
          let it : e.id ≡ id = v.own_id id e q in
          ground (
            arith,
            has-remove_id s.by_category (to_lower u e.category) e.id c j v.categories,
            v.category c j,
            bytes_eq_iff id j,
          )

      remove_priority :
          (p j : Bytes)
          → has (remove_index u s e).by_priority p j
            ≡ (if id == j then false else has s.by_priority p j)
      unfolding remove_index
      remove_priority p j =
          let it : e.id ≡ id = v.own_id id e q in
          ground (
            arith,
            has-remove_id s.by_priority (to_lower u e.priority) e.id p j v.priorities,
            v.priority p j,
            bytes_eq_iff id j,
          )

      remove_priorities : IsIndex (remove_index u s e).by_priority
      unfolding remove_index
      remove_priorities = elim (Bool-cases (is_empty (to_lower u e.priority))) [
        | inl blank ↦ rw blank v.priorities
        | inr pri ↦
            rw pri (remove_id-IsIndex s.by_priority (to_lower u e.priority) e.id v.priorities)
      ]

      pub Without-remove_index : Without id s (remove_index u s e)
      Without-remove_index = record {
        primary = unfold remove_index in refl;
        categories =
            unfold remove_index in
            remove_id-IsIndex s.by_category (to_lower u e.category) e.id v.categories;
        priorities = remove_priorities;
        category = unfold remove_index in remove_category;
        priority = remove_priority;
      }

    pub Without-unindexed : Without id s (unindexed u s (lookup id s.primary))
    Without-unindexed = elim (Option-cases (lookup id s.primary)) [
      | inl q ↦ rw q (Without-absent q)
      | inr (e, q) ↦ rw q (Without-remove_index e q)
    ]
