-- ===== src/Events/Laws.antt =====
-- internal/events/event.go: what `Validate`, `MatchesFilter` and `seasonFor` decide.
use go_kafka.Base.{◌≡◌, ◌↔◌, false, ◌&&◌, none, [], arith, Bytes}
use go_kafka.Base.Int.{pos, ◌≤ℤ◌}
use go_kafka.Base.Text.{Unicode, trims_to_empty}
use go_kafka.Events.{WeekendEvent, validate, matches_filter}

module _ {F : Type 0} (u : Unicode) (e : WeekendEvent F) where
  -- `Validate` accepts exactly the events with a name and a category that are not blank and a mood
  -- boost from 1 to 10.
  pub validate_iff : (validate u e ≡ none) ↔ (
      (trims_to_empty u e.name ≡ false)
      × (trims_to_empty u e.category ≡ false)
      × (pos 1 ≤ℤ e.mood_boost)
      × (e.mood_boost ≤ℤ pos 10))
  unfolding validate
  validate_iff = (λ h. ground arith, λ h. ground arith)

  -- A filter passes the events that pass each of its three conditions alone.
  pub matches_filter-conditions :
      (c p q : Bytes)
      → matches_filter u e (record { category = c; priority = p; query = q }) ≡ (
          matches_filter u e (record { category = c; priority = []; query = [] })
          && (matches_filter u e (record { category = []; priority = p; query = [] })
              && matches_filter u e (record { category = []; priority = []; query = q })))
  unfolding matches_filter
  matches_filter-conditions c p q = ground arith
