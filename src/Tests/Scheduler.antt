-- ===== src/Tests/Scheduler.antt =====
-- The scheduler with one job that panics.
use go_kafka.Base.{ℕ, ◌+◌, ◌≡◌, refl, Bool, true, [], ◌∷◌, none, some, lit}
use go_kafka.Base.Int.{pos}
use go_kafka.Base.Time.{Time}
use go_kafka.Scheduler
use go_kafka.Scheduler.{
  Scheduler, System, Job, ticking, add, job_names, launched, fired, ctx_done, new_ticker, advance,
  move, Reach, here, later, adds, starts, launches, moves, cancels,
}
use go_kafka.Scheduler.Waits.{IsCounted, Reach-IsCounted}
use go_kafka.Scheduler.Drains.{Drained, Reach-Drained}

-- A job that adds one and panics.
abbrev failing : Time → ℕ → ℕ × Bool
failing now n = (n + 1, true)

abbrev tick : Job ℕ
tick = record { name = lit "tick"; interval = pos 10; fn = failing }

abbrev with_tick : Scheduler ℕ
with_tick = record { jobs = tick ∷ []; wg = 0 }

abbrev started : System ℕ
started = record (Scheduler.boot 5) { sched = with_tick; launching = some (tick ∷ []) }

abbrev opened : System ℕ
opened = record started {
  sched = record with_tick { wg = 1 };
  launching = none;
  routines = record { job = tick; phase = ticking } ∷ [];
}

-- The job ran once and panicked, and then the context ended.
abbrev ended : System ℕ
ended = record opened { world = 6; done = true }

started_run : Reach (Scheduler.boot 5) started
unfolding add
started_run = later (later here (adds (lit "tick") (pos 10) failing refl refl)) (starts refl refl)

opened_run : Reach (Scheduler.boot 5) opened
unfolding move advance new_ticker
opened_run =
    later (later (later started_run (launches (tick ∷ []) refl refl)) (launches [] refl refl))
      (moves 0 (fired 8) refl refl)

ended_run : Reach (Scheduler.boot 5) ended
unfolding move advance
ended_run = later (later opened_run (moves 0 (fired 9) refl refl)) (cancels refl)

Reach-IsCounted_example : IsCounted ended
Reach-IsCounted_example = Reach-IsCounted 5 ended_run

Reach-Drained_example : Drained ended
Reach-Drained_example = Reach-Drained 5 ended_run refl refl

names_run : job_names with_tick ≡ lit "tick" ∷ []
unfolding job_names
names_run = refl
