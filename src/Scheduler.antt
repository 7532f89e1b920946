-- ===== src/Scheduler.antt =====
-- internal/scheduler/scheduler.go: the jobs, the goroutines that `Start` launches, and the WaitGroup. A
-- goroutine is cut at its `select` statements: one move takes a case and runs to the next `select`.
-- The random jitter and the ticker are the environment's choice of a case; log lines are left out.
pub mod Counts
pub mod Waits
pub mod Drains
use go_kafka.Base.{
  ℕ, ◌+◌, ◌-◌, ◌≡◌, Bool, true, false, List, [], ◌∷◌, ◌++◌, map, Option, none, some, Bytes,
  get_elem?, set, nat_eq, if◌then◌else◌, ◌>>=◌,
}
use go_kafka.Base.Int.{ℤ, pos, ltb_ℤ}
use go_kafka.Base.Time.{Time}

-- `fn` gets the clock and the world that the jobs share; its Boolean says whether it panicked.
pub record Job (W : Type 0) : Type 0 where
  pub name : Bytes
  pub interval : ℤ
  pub fn : Time → W → W × Bool

-- `wg` is the counter of the WaitGroup.
pub record Scheduler (W : Type 0) : Type 0 where
  pub jobs : List (Job W)
  pub wg : ℕ

-- Where a goroutine stands: at the `select` of the jitter, at that of the loop, or returned.
pub data Phase : Type 0 where
  jittering ticking stopped : Phase

pub record Routine (W : Type 0) : Type 0 where
  pub job : Job W
  pub phase : Phase

-- `launching` is what the loop of a running `Start` has left, which holds the mutex; `none` is a free
-- mutex. `crashed` is a panic that no goroutine recovers, which ends the process.
pub record System (W : Type 0) : Type 0 where
  pub sched : Scheduler W
  pub launching : Option (List (Job W))
  pub routines : List (Routine W)
  pub done : Bool
  pub crashed : Bool
  pub world : W

-- The case of a `select`: the timer or the ticker fired, at the time `now`, or `ctx.Done()`.
pub data Case : Type 0 where
  fired : (now : Time) → Case
  ctx_done : Case

module _ {W : Type 0} where
  abbrev pub new : Scheduler W
  new = record { jobs = []; wg = 0 }

  unfoldable pub add : Bytes → ℤ → (Time → W → W × Bool) → Scheduler W → Scheduler W
  add name interval fn s = record s {
    jobs = s.jobs ++ record { name = name; interval = interval; fn = fn } ∷ [];
  }

  unfoldable pub job_names : Scheduler W → List Bytes
  job_names s = map (λ j. j.name) s.jobs

  -- Where `Wait` does not block.
  abbrev pub wait_returns : Scheduler W → Bool
  wait_returns s = nat_eq s.wg 0

  abbrev pub boot : W → System W
  boot world = record {
    sched = new;
    launching = none;
    routines = [];
    done = false;
    crashed = false;
    world = world;
  }

  -- A pass of the loop of `Start`, or the unlocking behind it.
  abbrev pub launched : System W → List (Job W) → System W
  launched s [] = record s { launching = none }
  launched s (j ∷ js) = record s {
    sched = record s.sched { wg = s.sched.wg + 1 };
    launching = some js;
    routines = s.routines ++ record { job = j; phase = jittering } ∷ [];
  }

  abbrev pub goto : System W → ℕ → Routine W → Phase → System W
  goto s i r phase = record s { routines = set s.routines i (record r { phase = phase }) }

  abbrev pub crash : System W → System W
  crash s = record s { crashed = true }

  -- `defer s.wg.Done()`, which panics where the counter gets negative.
  unfoldable pub finish : System W → ℕ → Routine W → System W
  finish s i r =
      if nat_eq s.sched.wg 0
      then crash s
      else record (goto s i r stopped) { sched = record s.sched { wg = s.sched.wg - 1 } }

  -- `time.NewTicker`, which panics where the interval is not positive.
  unfoldable pub new_ticker : System W → ℕ → Routine W → System W
  new_ticker s i r = if ltb_ℤ (pos 0) r.job.interval then goto s i r ticking else crash s

  -- The call of `j.Fn`, whose panic is recovered.
  abbrev pub call : System W → Routine W → Time → System W
  call s r now = let (world, panicked) = r.job.fn now s.world in record s { world = world }

  -- `none`: the goroutine cannot make this move.
  unfoldable pub advance : System W → ℕ → Routine W → Phase → Case → Option (System W)
  unfolding finish new_ticker
  advance s i r jittering (fired now) = some (new_ticker s i r)
  advance s i r ticking (fired now) = some (call s r now)
  advance s i r stopped (fired now) = none
  advance s i r stopped ctx_done = none
  advance s i r _ ctx_done = if s.done then some (finish s i r) else none

  unfoldable pub move : System W → ℕ → Case → Option (System W)
  unfolding advance
  move s i c = do r ← get_elem? s.routines i; advance s i r r.phase c

  -- A call of `Add` or `Start`, a pass of the loop of `Start`, a move of a goroutine, the end of the
  -- context, or a change of the world by the rest of the program. Nothing moves behind a crash.
  pub data Step (s : System W) : System W → Type 0 where
    adds :
        (name : Bytes) (interval : ℤ) (fn : Time → W → W × Bool)
        → s.crashed ≡ false
        → s.launching ≡ none
        → Step s (record s { sched = add name interval fn s.sched })
    starts :
        s.crashed ≡ false → s.launching ≡ none → Step s (record s { launching = some s.sched.jobs })
    launches :
        (js : List (Job W)) → s.crashed ≡ false → s.launching ≡ some js → Step s (launched s js)
    moves : {t : System W} (i : ℕ) (c : Case) → s.crashed ≡ false → move s i c ≡ some t → Step s t
    cancels : s.crashed ≡ false → Step s (record s { done = true })
    changes : (world : W) → s.crashed ≡ false → Step s (record s { world = world })

  pub data Reach (s : System W) : System W → Type 0 where
    here : Reach s s
    later : {t t' : System W} → Reach s t → Step t t' → Reach s t'
