-- ===== src/Storage/Candidates.antt =====
-- internal/storage/store.go: the two ways in which `List` collects the events that pass a filter, by
-- the index of a category and by a scan of the whole map.
use mathlib.Core.Bool.{true, false, ◌&&◌}
use go_kafka.Base.{
  ◌≡◌, refl, List, [], ◌∷◌, map, Option, none, some, Bytes, bytes_key, bytes_eq, bytes_eq_iff,
  arith, ◌==◌, if◌then◌else◌, Option-cases, Bool-cases, inl, inr, ap, ◌∙◌, subst, All,
}
use go_kafka.Base.Dict.{Dict, lookup, Unique, or_zero, keys, values, Every-All}
use go_kafka.Base.Text.{Unicode, to_lower, equal_fold, is_ascii, lower_byte, lower_byte-folds}
use go_kafka.Events.{WeekendEvent, Filter, matches_filter, is_empty, zero_event}
use go_kafka.Storage.{Store, get, passing, candidates}
use go_kafka.Storage.Indices.{IdSet, ids_of-Unique, ids_of, present}
use go_kafka.Storage.Scans.{with_id, picked_by, Collects, with_id-pass, scan-picked_by}
use go_kafka.Storage.Invariant.{IsIndexed, in_category}

module _ (u : Unicode) where
  fold-lower :
      (a b : Bytes)
      → is_ascii a ≡ true
      → is_ascii b ≡ true
      → equal_fold u a b ≡ bytes_eq (map lower_byte a) (map lower_byte b)
  unfolding equal_fold bytes_eq
  fold-lower [] [] ha hb = refl
  fold-lower [] (d ∷ ds) ha hb = refl
  fold-lower (c ∷ cs) [] ha hb = refl
  fold-lower (c ∷ cs) (d ∷ ds) ha hb = ground (arith, fold-lower cs ds, lower_byte-folds c d)

  equal_fold-lower :
      (a b : Bytes)
      → is_ascii a ≡ true
      → is_ascii b ≡ true
      → equal_fold u a b ≡ (to_lower u a == to_lower u b)
  unfolding to_lower
  equal_fold-lower a b ha hb = rw (ha, hb) (fold-lower a b ha hb)

  module _ {F : Type 0} (f : Filter) where
    -- The event of an id, if it passes the filter.
    abbrev pub picked : Option (WeekendEvent F) → List (WeekendEvent F)
    picked = picked_by (λ e. matches_filter u e f)

    passing-Collects : Collects {F = F} (λ e. matches_filter u e f) (passing u f)
    unfolding passing
    passing-Collects = record { empty = refl; next = λ e es. refl }

    with_id-passing :
        (i j : Bytes) (e : WeekendEvent F) (es : List (WeekendEvent F))
        → e.id ≡ i
        → with_id j (passing u f (e ∷ es)) ≡ (
            if (i == j) && matches_filter u e f
            then e ∷ with_id j (passing u f es)
            else with_id j (passing u f es))
    with_id-passing = with_id-pass (λ e. matches_filter u e f) (passing u f) passing-Collects

    scan-picked :
        (j : Bytes) (m : Dict Bytes (WeekendEvent F))
        → Unique m
        → All (λ p. p.1.id ≡ p.0) m
        → with_id j (passing u f (values m)) ≡ picked (lookup j m)
    scan-picked = scan-picked_by (λ e. matches_filter u e f) (passing u f) passing-Collects

    module _ (z : WeekendEvent F) (m : Dict Bytes (WeekendEvent F)) where
      abbrev Stored : Bytes → Type 0
      Stored id = (e : WeekendEvent F) × (lookup id m ≡ some e) × (e.id ≡ id)

      index-picked :
          (j : Bytes) (ids : IdSet)
          → Unique ids
          → All (λ p. Stored p.0) ids
          → with_id j (passing u f (map (λ id. or_zero z (lookup id m)) (keys ids)))
            ≡ (if present (lookup j ids) then picked (lookup j m) else [])
      unfolding passing lookup
      index-picked j [] one own = refl
      index-picked j ((i, x) ∷ ids) one own =
          let e = own.0.0 in
          let rest = map (λ id. or_zero z (lookup id m)) (keys ids) in
          let ih = index-picked j ids one.1 own.1 in
          rw own.0.1 (
            with_id-passing i j e rest own.0.2 ∙ (elim (Bool-cases (i == j)) [
              | inl same ↦
                  let it : i ≡ j = (bytes_eq_iff i j).0 same in
                  let gone : lookup j ids ≡ none = subst (λ k. lookup k ids ≡ none) it one.0 in
                  let found : lookup j m ≡ some e = subst (λ k. lookup k m ≡ some e) it own.0.1 in
                  let none_left : with_id j (passing u f rest) ≡ [] = ih ∙ (rw gone refl) in
                  rw (same, none_left, found) refl
              | inr other ↦ rw other ih
            ]))

    module _ (s : Store F) (v : IsIndexed u s) where
      in_category-Stored :
          (c id : Bytes)
          → in_category u c (lookup id s.primary) ≡ true
          → (z : WeekendEvent F) → Stored z s.primary id
      in_category-Stored c id h z = elim (Option-cases (lookup id s.primary)) [
        | inl q ↦ absurd (ground arith)
        | inr (e, q) ↦ (e, q, v.own_id id e q)
      ]

      -- The ids under a category have events.
      listed-Stored :
          (c : Bytes) (z : WeekendEvent F)
          → All (λ p. Stored z s.primary p.0) (ids_of s.by_category c)
      listed-Stored c z =
          Every-All (λ (id : Bytes) (x : Unit {0}). Stored z s.primary id) (ids_of s.by_category c)
            (ids_of-Unique s.by_category c v.categories)
            (λ id x q. in_category-Stored c id (ground (arith, v.category c id)) z)

      -- An event that the filter passes is in the filter's category, in ASCII.
      in_category-picked :
          (o : Option (WeekendEvent F))
          → is_empty f.category ≡ false
          → is_ascii f.category ≡ true
          → ((e : WeekendEvent F) → o ≡ some e → is_ascii e.category ≡ true)
          → (if in_category u (to_lower u f.category) o then picked o else []) ≡ picked o
      unfolding matches_filter
      in_category-picked none nonempty ascii h = refl
      in_category-picked (some e) nonempty ascii h =
          ground (arith, equal_fold-lower e.category f.category (h e refl) ascii)

      -- Whichever way `List` takes, it collects of each id the stored event if it passes the filter, once,
      -- and nothing else. The filter's category and the stored ones are ASCII.
      pub candidates-picked :
          (z : F)
          → is_ascii f.category ≡ true
          → ((id : Bytes) (e : WeekendEvent F) → get s id ≡ some e → is_ascii e.category ≡ true)
          → (j : Bytes) → with_id j (candidates u z s f) ≡ picked (get s j)
      unfolding candidates get
      candidates-picked z ascii h j = elim (Bool-cases (is_empty f.category)) [
        | inl whole ↦ rw whole (
            scan-picked j s.primary v.one_each (
              Every-All (λ (id : Bytes) (e : WeekendEvent F). e.id ≡ id) s.primary v.one_each
                v.own_id))
        | inr one_category ↦
            let c = to_lower u f.category in
            rw one_category (
              index-picked (zero_event z) s.primary j (ids_of s.by_category c)
                (ids_of-Unique s.by_category c v.categories) (listed-Stored c (zero_event z))
              ∙ ap (λ b. if b then picked (lookup j s.primary) else []) (v.category c j)
              ∙ in_category-picked (lookup j s.primary) one_category ascii (h j))
      ]
