-- ===== src/Storage/Stats/Counts.antt =====
-- internal/storage/store.go: what the maps of `Stats` count.
use go_kafka.Base.{
  ℕ, ◌+◌, ◌≡◌, List, [], ◌∷◌, Bytes, bytes_key, bytes_eq_iff, arith, if◌then◌else◌, ◌==◌, ◌∙◌,
}
use go_kafka.Base.Float.{Float64}
use go_kafka.Base.Dict.{Dict, lookup, or_zero, values, lookup-insert}
use go_kafka.Events.{WeekendEvent}
use go_kafka.Storage.{Store}
use go_kafka.Storage.Stats.{Sums, bump, tally, tally_one, no_sums, stats, score_range}

abbrev pub count_at : Bytes → Dict Bytes ℕ → ℕ
count_at k m = or_zero 0 (lookup k m)

count_at-bump :
    (k c : Bytes) (m : Dict Bytes ℕ)
    → count_at c (bump k m) ≡ (if k == c then 1 else 0) + count_at c m
unfolding bump
count_at-bump k c m =
    ground (arith, lookup-insert k c (or_zero 0 (lookup k m) + 1) m, bytes_eq_iff k c)

-- How many events have a label.
abbrev pub labelled {ℓ} : {A : Type ℓ} → (A → Bytes) → Bytes → List A → ℕ
labelled label c [] = 0
labelled label c (e ∷ es) = (if label e == c then 1 else 0) + labelled label c es

module _ (fl : Float64) where
  open fl use {F}

  tally-counts :
      (es : List (WeekendEvent F)) (sums : Sums F) (c : Bytes)
      → (count_at c (tally fl es sums).categories
          ≡ labelled (λ e. e.category) c es + count_at c sums.categories)
        × (count_at c (tally fl es sums).priorities
            ≡ labelled (λ e. e.priority) c es + count_at c sums.priorities)
        × (count_at c (tally fl es sums).scores
            ≡ labelled (λ e. score_range fl e.fun_score) c es + count_at c sums.scores)
  unfolding tally tally_one
  tally-counts [] sums c = (omega arith, omega arith, omega arith)
  tally-counts (e ∷ es) sums c =
      let h = tally-counts es (tally_one fl e sums) c in
      (
        omega (arith, h.0, count_at-bump e.category c sums.categories),
        omega (arith, h.1, count_at-bump e.priority c sums.priorities),
        omega (arith, h.2, count_at-bump (score_range fl e.fun_score) c sums.scores),
      )

  -- `Stats` counts, for every category, every priority and every range of scores, exactly the stored
  -- events that have it.
  pub stats-counts :
      (s : Store F) (c : Bytes)
      → (count_at c (stats fl s).by_category ≡ labelled (λ e. e.category) c (values s.primary))
        × (count_at c (stats fl s).by_priority ≡ labelled (λ e. e.priority) c (values s.primary))
        × (count_at c (stats fl s).score_distrib
            ≡ labelled (λ e. score_range fl e.fun_score) c (values s.primary))
  unfolding stats lookup
  stats-counts s c =
      let h = tally-counts (values s.primary) (no_sums fl) c in
      (h.0 ∙ omega arith, h.1 ∙ omega arith, h.2 ∙ omega arith)
