-- ===== src/Scheduler/Counts.antt =====
-- internal/scheduler/scheduler.go: the number of the goroutines that have not returned.
use go_kafka.Base.{
  ℕ, ◌+◌, ◌≤◌, ◌≡◌, List, [], ◌∷◌, ◌++◌, some, get_elem?, set, sum_of, sum_of-set, sum_of-append,
  le-sum_of,
}
use go_kafka.Scheduler.{Phase, jittering, ticking, stopped, Routine}

abbrev pub alive : Phase → ℕ
alive jittering = 1
alive ticking = 1
alive stopped = 0

module _ {W : Type 0} where
  abbrev pub live : List (Routine W) → ℕ
  live rs = sum_of (λ (r : Routine W). alive r.phase) rs

  -- A goroutine that moves changes the number by its own part.
  pub live-set :
      (rs : List (Routine W)) (i : ℕ) (r r' : Routine W)
      → get_elem? rs i ≡ some r
      → live (set rs i r') + alive r.phase ≡ live rs + alive r'.phase
  live-set = sum_of-set (λ (r : Routine W). alive r.phase)

  pub live-append :
      (rs : List (Routine W)) (r : Routine W) → live (rs ++ r ∷ []) ≡ live rs + alive r.phase
  live-append = sum_of-append (λ (r : Routine W). alive r.phase)

  pub alive-le-live :
      (rs : List (Routine W)) (i : ℕ) (r : Routine W)
      → get_elem? rs i ≡ some r
      → alive r.phase ≤ live rs
  alive-le-live = le-sum_of (λ (r : Routine W). alive r.phase)
