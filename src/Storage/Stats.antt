-- ===== src/Storage/Stats.antt =====
-- internal/storage/store.go: `Stats`.
pub mod Counts
use mathlib.Core.Bool.{Bool, true, false}
use go_kafka.Base.{
  ℕ, ◌+◌, List, [], ◌∷◌, Bytes, lit, bytes_key, length, take, ltb, if◌then◌else◌, map,
}
use go_kafka.Base.Int.{pos}
use go_kafka.Base.Float.{Float64}
use go_kafka.Base.Sort.{sort_slice}
use go_kafka.Base.Dict.{Dict, lookup, insert, or_zero, values}
use go_kafka.Events.{WeekendEvent}
use go_kafka.Storage.{Store}

pub record CategoryCount : Type 0 where
  pub category : Bytes
  pub count : ℕ

pub record AggregatedStats (F : Type 0) : Type 0 where
  pub total_events : ℕ
  pub by_category : Dict Bytes ℕ
  pub by_priority : Dict Bytes ℕ
  pub avg_fun_score : F
  pub top_categories : List CategoryCount
  pub score_distrib : Dict Bytes ℕ

-- The maps and the sum that the loop of `Stats` fills.
pub record Sums (F : Type 0) : Type 0 where
  pub categories : Dict Bytes ℕ
  pub priorities : Dict Bytes ℕ
  pub scores : Dict Bytes ℕ
  pub total_score : F

-- `m[k]++`
unfoldable pub bump : Bytes → Dict Bytes ℕ → Dict Bytes ℕ
bump k m = insert k (or_zero 0 (lookup k m) + 1) m

module _ (fl : Float64) where
  open fl use {F, of_int, le, add, div}

  abbrev pub score_range : F → Bytes
  score_range score =
      if le (of_int (pos 80)) score
      then lit "80-100"
      else if le (of_int (pos 55)) score
      then lit "55-79"
      else if le (of_int (pos 30)) score
      then lit "30-54"
      else lit "0-29"

  -- One round of the loop of `Stats`.
  unfoldable pub tally_one : WeekendEvent F → Sums F → Sums F
  unfolding bump
  tally_one e sums = record {
    categories = bump e.category sums.categories;
    priorities = bump e.priority sums.priorities;
    scores = bump (score_range e.fun_score) sums.scores;
    total_score = add sums.total_score e.fun_score;
  }

  unfoldable pub tally : List (WeekendEvent F) → Sums F → Sums F
  unfolding tally_one
  tally [] sums = sums
  tally (e ∷ es) sums = tally es (tally_one e sums)

  abbrev pub no_sums : Sums F
  no_sums = record { categories = []; priorities = []; scores = []; total_score = of_int (pos 0) }

  unfoldable pub top : Dict Bytes ℕ → List CategoryCount
  top by_category =
      let cats =
        sort_slice (λ a b. ltb b.count a.count)
          (map (λ ((c, n) : Bytes × ℕ). record { category = c; count = n }) by_category) in
      if ltb 5 (length cats) then take 5 cats else cats

  unfoldable pub stats : Store F → AggregatedStats F
  unfolding tally top
  stats s =
      let total = length s.primary in
      let sums = tally (values s.primary) no_sums in
      record {
        total_events = total;
        by_category = sums.categories;
        by_priority = sums.priorities;
        avg_fun_score =
            if ltb 0 total then div sums.total_score (of_int (pos total)) else of_int (pos 0);
        top_categories = top sums.categories;
        score_distrib = sums.scores;
      }
