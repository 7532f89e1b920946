-- ===== src/Tests/Events.antt =====
-- Events on concrete inputs, with a plain ASCII reading of package strings.
use go_kafka.Base.{
  ℕ, ◌≡◌, ◌≤◌, ◌↔◌, refl, Bool, true, false, ◌&&◌, [], ◌∷◌, Option, none, some, Bytes, lit,
  bytes_eq, ◌+◌, ◌-◌, ◌*◌, ◌/◌, leb, ltb, arith,
}
use go_kafka.Base.Int.{pos, negsuc, pos_part, ◌≤ℤ◌}
use go_kafka.Base.Float.{Float64}
use go_kafka.Base.Text.{Unicode, trims_to_empty}
use go_kafka.Events.{WeekendEvent, validate, season_for}
use go_kafka.Events.Laws.{validate_iff}

-- Bytes from 0x80 on fold only to themselves.
abbrev pub plain : Unicode
plain = record { map_lower = λ s. s; fold_rest = bytes_eq; trims_empty = λ s. false }

-- Scores cut to whole numbers.
abbrev pub whole : Float64
whole = record {
  F = ℕ;
  of_int = pos_part;
  of_ratio = λ n d. n / d;
  le = leb;
  lt = ltb;
  add = λ a b. a + b;
  sub = λ a b. a - b;
  mul = λ a b. a * b;
  div = λ a b. a / b;
  min = λ a b. Prim.Native.Nat.min a b;
  max = λ a b. Prim.Native.Nat.max a b;
  log2 = λ a. a;
  round = λ a. a;
  trunc = pos;
}

abbrev pub hike : WeekendEvent ℕ
hike = record {
  id = lit "e1";
  name = lit "Hike";
  category = lit "Outdoors";
  mood_boost = pos 8;
  tags = lit "sun" ∷ [];
  fun_score = 0;
  priority = [];
  day_of_week = [];
  season = [];
  created_at = 0;
  processed_at = 0;
  expires_at = 0;
}

validate_iff_example : (validate plain hike ≡ none) ↔ (
    (trims_to_empty plain hike.name ≡ false)
    × (trims_to_empty plain hike.category ≡ false)
    × (pos 1 ≤ℤ hike.mood_boost)
    × (hike.mood_boost ≤ℤ pos 10))
validate_iff_example = validate_iff plain hike

pub hike_valid : validate plain hike ≡ none
unfolding validate trims_to_empty
hike_valid = refl

mood_refused :
    validate plain (record hike { mood_boost = negsuc 0 })
    ≡ some (lit "mood_boost must be between 1 and 10")
unfolding validate trims_to_empty
mood_refused = refl

pub blank_refused : validate plain (record hike { name = lit "  " }) ≡ some (lit "name is required")
unfolding validate trims_to_empty
blank_refused = refl

-- 2024-02-29, a Thursday.
abbrev leap_day : ℕ
leap_day = 738944 * 86400 * 1000000000

leap_day_season : season_for leap_day ≡ lit "winter"
unfolding season_for go_kafka.Base.Time.month
leap_day_season = refl
