-- ===== src/Storage/Search.antt =====
-- internal/storage/store.go: `Search`.
use mathlib.Core.Bool.{Bool, true, false, ◌||◌}
use mathlib.Core.List.{Perm}
use go_kafka.Base.{◌≡◌, refl, List, Bytes, bytes_key}
use go_kafka.Base.Dict.{values, Every-All}
use go_kafka.Base.Float.{Float64}
use go_kafka.Base.Sort.{IsSorted, sort_slice-IsSorted, sort_slice-perm}
use go_kafka.Base.Text.{Unicode, to_lower, contains}
use go_kafka.Events.{WeekendEvent}
use go_kafka.Storage.{Store, get, search, found_by}
use go_kafka.Storage.Invariant.{IsIndexed}
use go_kafka.Storage.Scans.{with_id, picked_by, Collects, scan-picked_by}

module _ (fl : Float64) (u : Unicode) where
  open fl use {F, lt}

  -- The name or the category contains the query, in lower case.
  abbrev pub hit : Bytes → WeekendEvent F → Bool
  hit query e =
      contains (to_lower u e.name) (to_lower u query)
      || contains (to_lower u e.category) (to_lower u query)

  abbrev pub higher : WeekendEvent F → WeekendEvent F → Bool
  higher a b = lt b.fun_score a.fun_score

  found_by-Collects : (query : Bytes) → Collects (hit query) (found_by fl u (to_lower u query))
  unfolding found_by
  found_by-Collects query = record { empty = refl; next = λ e es. refl }

  -- What Search returns is, with the highest score first, a rearrangement of a list that has of each id
  -- the stored event once, if its name or category contains the query, and nothing else. No two floats
  -- are each less than the other.
  pub search_lem :
      (s : Store F) (query : Bytes)
      → IsIndexed u s
      → ((a b : F) → lt a b ≡ true → lt b a ≡ false)
      → (found : List (WeekendEvent F)) × Perm (search fl u s query) found
        × ((j : Bytes) → with_id j found ≡ picked_by (hit query) (get s j))
        × IsSorted higher (search fl u s query)
  unfolding search get
  search_lem s query v asym =
      let found = found_by fl u (to_lower u query) (values s.primary) in
      (
        found,
        sort_slice-perm higher found,
        λ j.
            scan-picked_by (hit query) (found_by fl u (to_lower u query)) (found_by-Collects query)
              j s.primary v.one_each
              (Every-All (λ (id : Bytes) (e : WeekendEvent F). e.id ≡ id) s.primary v.one_each
                v.own_id),
        sort_slice-IsSorted higher (λ a b h. asym b.fun_score a.fun_score h) found,
      )
