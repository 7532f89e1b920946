-- ===== src/Scheduler/Waits.antt =====
-- internal/scheduler/scheduler.go: the WaitGroup, and when goroutines return.
use mathlib.Core.Option.{some-injective}
use go_kafka.Base.{
  sum_of, ℕ, ◌≡◌, refl, Bool, true, false, List, [], ◌∷◌, none, some, get_elem?, arith, ap, subst,
  length, nat_eq, if◌then◌else◌, Bool-cases, Option-cases, inl, inr, length-set, length-append,
}
use go_kafka.Base.Int.{pos, ltb_ℤ}
use go_kafka.Scheduler.{
  Job, Routine, System, Phase, jittering, ticking, stopped, Case, fired, ctx_done, add, launched,
  finish, new_ticker, advance, move, boot, Step, adds, starts, launches, moves, cancels, changes,
  Reach, here, later,
}
use go_kafka.Scheduler.Counts.{alive, live, live-set, live-append, alive-le-live}

if_some :
    {A : Type 0} (b : Bool) (a a' : A)
    → (if b then some a else none) ≡ some a'
    → (b ≡ true) × (a ≡ a')
if_some true a a' e = (refl, some-injective a a' e)
if_some false a a' e = ground arith

module _ {W : Type 0} where
  -- A goroutine whose job has an interval that is not positive.
  pub record Blamed (routines : List (Routine W)) : Type 0 where
    pub i : ℕ
    pub r : Routine W
    pub there : get_elem? routines i ≡ some r
    pub bad : ltb_ℤ (pos 0) r.job.interval ≡ false

  pub record IsCounted (s : System W) : Type 0 where
    pub counted : s.sched.wg ≡ live s.routines
    pub going : s.done ≡ false → live s.routines ≡ length s.routines
    pub blamed : s.crashed ≡ true → Blamed s.routines

  boot-IsCounted : (world : W) → IsCounted (boot world)
  unfolding sum_of
  boot-IsCounted world = record { counted = refl; going = λ e. refl; blamed = λ e. ground arith }

  launched-IsCounted :
      (s : System W) (js : List (Job W))
      → s.crashed ≡ false
      → IsCounted s
      → IsCounted (launched s js)
  launched-IsCounted s [] h v = record {
    counted = v.counted;
    going = v.going;
    blamed = λ e. ground arith;
  }
  launched-IsCounted s (j ∷ js) h v =
      let r : Routine W = record { job = j; phase = jittering } in
      record {
        counted = omega (arith, v.counted, live-append s.routines r);
        going = λ e.
            omega (arith, v.going e, live-append s.routines r, length-append s.routines (r ∷ []));
        blamed = λ e. ground arith;
      }

  module _ (s : System W) (h : s.crashed ≡ false) (v : IsCounted s) (i : ℕ) (r : Routine W)
      (q : get_elem? s.routines i ≡ some r) where
    new_ticker-IsCounted : alive r.phase ≡ 1 → IsCounted (new_ticker s i r)
    unfolding new_ticker
    new_ticker-IsCounted a = elim (Bool-cases (ltb_ℤ (pos 0) r.job.interval)) [
      | inl e ↦
          let n = live-set s.routines i r (record r { phase = ticking }) q in
          rw e (record {
            counted = omega (arith, v.counted, n, a);
            going = λ g.
                omega
                  (arith, v.going g, n, a, length-set s.routines i (record r { phase = ticking }));
            blamed = λ g. ground arith;
          })
      | inr e ↦ rw e (record {
        counted = v.counted;
        going = v.going;
        blamed = λ g. record { i = i; r = r; there = q; bad = e };
      })
    ]

    finish-IsCounted : alive r.phase ≡ 1 → s.done ≡ true → IsCounted (finish s i r)
    unfolding finish
    finish-IsCounted a d =
        let n = live-set s.routines i r (record r { phase = stopped }) q in
        let positive : nat_eq s.sched.wg 0 ≡ false =
          ground (arith, v.counted, alive-le-live s.routines i r q) in
        rw positive (record {
          counted = omega (arith, v.counted, n, a, alive-le-live s.routines i r q);
          going = λ g. ground arith;
          blamed = λ g. ground arith;
        })

  some-IsCounted : {s t : System W} → some s ≡ some t → IsCounted s → IsCounted t
  some-IsCounted {s} {t} e v = subst IsCounted (some-injective s t e) v

  -- A move by `ctx.Done()`.
  done-IsCounted :
      (s t : System W)
      → s.crashed ≡ false
      → IsCounted s
      → (i : ℕ) (r : Routine W) → get_elem? s.routines i ≡ some r
      → alive r.phase ≡ 1
      → (if s.done then some (finish s i r) else none) ≡ some t
      → IsCounted t
  done-IsCounted s t h v i r q a e =
      let (d, x) = if_some s.done (finish s i r) t e in
      subst IsCounted x (finish-IsCounted s h v i r q a d)

  advance-IsCounted :
      (s t : System W)
      → s.crashed ≡ false
      → IsCounted s
      → (i : ℕ) (r : Routine W) → get_elem? s.routines i ≡ some r
      → (ph : Phase) (c : Case) → r.phase ≡ ph
      → advance s i r ph c ≡ some t
      → IsCounted t
  unfolding advance
  advance-IsCounted s t h v i r q jittering (fired now) p e =
      some-IsCounted e (new_ticker-IsCounted s h v i r q (ap alive p))
  advance-IsCounted s t h v i r q ticking (fired now) p e =
      some-IsCounted e (record { counted = v.counted; going = v.going; blamed = λ g. ground arith })
  advance-IsCounted s t h v i r q stopped (fired now) p e = ground arith
  advance-IsCounted s t h v i r q stopped ctx_done p e = ground arith
  advance-IsCounted s t h v i r q jittering ctx_done p e =
      done-IsCounted s t h v i r q (ap alive p) e
  advance-IsCounted s t h v i r q ticking ctx_done p e = done-IsCounted s t h v i r q (ap alive p) e

  pub move-IsCounted :
      (s t : System W) (i : ℕ) (c : Case)
      → s.crashed ≡ false
      → IsCounted s
      → move s i c ≡ some t
      → IsCounted t
  unfolding move
  move-IsCounted s t i c h v e = elim (Option-cases (get_elem? s.routines i)) [
    | inl q ↦ ground arith
    | inr (r, q) ↦
        let x : advance s i r r.phase c ≡ some t = rw q at e in
        advance-IsCounted s t h v i r q r.phase c refl x
  ]

  Step-IsCounted : {s t : System W} → Step s t → IsCounted s → IsCounted t
  unfolding add
  Step-IsCounted (adds name interval fn h l) v = record {
    counted = v.counted;
    going = v.going;
    blamed = v.blamed;
  }
  Step-IsCounted (starts h l) v = record { counted = v.counted; going = v.going; blamed = v.blamed }
  Step-IsCounted {s} (launches js h l) v = launched-IsCounted s js h v
  Step-IsCounted {s} {t} (moves i c h e) v = move-IsCounted s t i c h v e
  Step-IsCounted (cancels h) v = record {
    counted = v.counted;
    going = λ g. ground arith;
    blamed = v.blamed;
  }
  Step-IsCounted (changes world h) v = record {
    counted = v.counted;
    going = v.going;
    blamed = v.blamed;
  }

  -- Whatever jobs do, panics included, and however calls of Add and Start, the goroutines and the
  -- context interleave from a new scheduler: the WaitGroup counts the goroutines that have not returned,
  -- none returns before the context ends, and the process crashes only by a job whose interval is not
  -- positive.
  pub Reach-IsCounted : (world : W) {t : System W} → Reach (boot world) t → IsCounted t
  Reach-IsCounted world here = boot-IsCounted world
  Reach-IsCounted world (later r st) = Step-IsCounted st (Reach-IsCounted world r)
