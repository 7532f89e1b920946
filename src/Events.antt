-- ===== src/Events.antt =====
-- internal/events/event.go: the event, its validation, enrichment, priority and filter.
pub mod Laws
use go_kafka.Base.{
  ℕ, ◌≡◌, Bool, true, false, ◌&&◌, ◌||◌, not, List, [], ◌∷◌, Option, none, some, Bytes, lit, nat_eq,
  bytes_eq, bytes_key, if◌then◌else◌, ◌==◌, length,
}
use go_kafka.Base.Int.{ℤ, pos, ltb_ℤ}
use go_kafka.Base.Float.{Float64}
use go_kafka.Base.Time.{Time, weekday, weekday_name, month}
use go_kafka.Base.Text.{Unicode, to_lower, equal_fold, contains, trims_to_empty}

pub record WeekendEvent (F : Type 0) : Type 0 where
  pub id : Bytes
  pub name : Bytes
  pub category : Bytes
  pub mood_boost : ℤ
  pub tags : List Bytes
  pub fun_score : F
  pub priority : Bytes
  pub day_of_week : Bytes
  pub season : Bytes
  pub created_at : Time
  pub processed_at : Time
  pub expires_at : Time

-- The zero value of the struct, with the zero of float64.
abbrev pub zero_event : {F : Type 0} → F → WeekendEvent F
zero_event zero_score = record {
  id = [];
  name = [];
  category = [];
  mood_boost = pos 0;
  tags = [];
  fun_score = zero_score;
  priority = [];
  day_of_week = [];
  season = [];
  created_at = 0;
  processed_at = 0;
  expires_at = 0;
}

abbrev pub priority_critical : Bytes
priority_critical = lit "critical"

abbrev pub priority_high : Bytes
priority_high = lit "high"

abbrev pub priority_medium : Bytes
priority_medium = lit "medium"

abbrev pub priority_low : Bytes
priority_low = lit "low"

pub record Filter : Type 0 where
  pub category : Bytes
  pub priority : Bytes
  pub query : Bytes

abbrev pub is_empty : Bytes → Bool
is_empty s = nat_eq (length s) 0

unfoldable pub season_for : Time → Bytes
season_for t =
    let m = month t in
    if nat_eq m 12 || (nat_eq m 1 || nat_eq m 2)
    then lit "winter"
    else if nat_eq m 3 || (nat_eq m 4 || nat_eq m 5)
    then lit "spring"
    else if nat_eq m 6 || (nat_eq m 7 || nat_eq m 8)
    then lit "summer"
    else lit "autumn"

module _ {F : Type 0} where
  abbrev pub key : WeekendEvent F → Bytes
  key e = e.category

  unfoldable pub enrich : WeekendEvent F → WeekendEvent F
  unfolding season_for
  enrich e = record e {
    day_of_week = weekday_name (weekday e.created_at);
    season = season_for e.created_at;
  }

  module _ (u : Unicode) where
    -- `none` is a nil error.
    unfoldable pub validate : WeekendEvent F → Option Bytes
    validate e =
        if trims_to_empty u e.name
        then some (lit "name is required")
        else if trims_to_empty u e.category
        then some (lit "category is required")
        else if ltb_ℤ e.mood_boost (pos 1) || ltb_ℤ (pos 10) e.mood_boost
        then some (lit "mood_boost must be between 1 and 10")
        else none

    unfoldable pub matches_filter : WeekendEvent F → Filter → Bool
    matches_filter e f =
        if not (is_empty f.category) && not (equal_fold u e.category f.category)
        then false
        else if not (is_empty f.priority) && not (equal_fold u e.priority f.priority)
        then false
        else if not (is_empty f.query) && not (contains (to_lower u e.name) (to_lower u f.query))
        then false
        else true

module _ (fl : Float64) where
  open fl use {F, of_int, le}

  -- The tier of `ClassifyPriority`.
  unfoldable pub tier : F → Bytes
  tier score =
      if le (of_int (pos 80)) score
      then priority_critical
      else if le (of_int (pos 55)) score
      then priority_high
      else if le (of_int (pos 30)) score
      then priority_medium
      else priority_low

  unfoldable pub classify_priority : WeekendEvent F → WeekendEvent F
  unfolding tier
  classify_priority e = record e { priority = tier e.fun_score }
