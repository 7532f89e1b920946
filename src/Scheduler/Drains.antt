-- ===== src/Scheduler/Drains.antt =====
-- internal/scheduler/scheduler.go: the end of the goroutines, and `Wait`.
use go_kafka.Base.{
  sum_of, ℕ, zero, suc, ◌-◌, ◌≡◌, ◌⊎◌, inl, inr, refl, true, false, List, [], ◌∷◌, some, get_elem?,
  arith, ◌∙◌,
}
use go_kafka.Scheduler.{
  Routine, System, Phase, jittering, ticking, stopped, ctx_done, goto, finish, advance, move, boot,
  wait_returns, Step, moves, Reach, here, later,
}
use go_kafka.Scheduler.Counts.{alive, live, live-set}
use go_kafka.Scheduler.Waits.{IsCounted, move-IsCounted, Reach-IsCounted}

alive-cases : (ph : Phase) → (alive ph ≡ 1) ⊎ (alive ph ≡ 0)
alive-cases jittering = inl refl
alive-cases ticking = inl refl
alive-cases stopped = inr refl

module _ {W : Type 0} where
  prepend : {s t u : System W} → Step s t → Reach t u → Reach s u
  prepend st here = later here st
  prepend st (later r st') = later (prepend st r) st'

  -- A goroutine that has not returned.
  record Alive (rs : List (Routine W)) : Type 0 where
    pub i : ℕ
    pub r : Routine W
    pub there : get_elem? rs i ≡ some r
    pub is_alive : alive r.phase ≡ 1

  some_live : (rs : List (Routine W)) (n : ℕ) → live rs ≡ suc n → Alive rs
  unfolding sum_of
  some_live [] n e = ground arith
  some_live (r ∷ rs) n e = elim (alive-cases r.phase) [
    | inl a ↦ record { i = 0; r = r; there = refl; is_alive = a }
    | inr a ↦
        let rest = some_live rs n (omega (arith, e, a)) in
        record { i = suc rest.i; r = rest.r; there = rest.there; is_alive = rest.is_alive }
  ]

  -- Behind the return of goroutine `i`.
  abbrev returned : System W → ℕ → Routine W → System W
  returned s i r = record (goto s i r stopped) { sched = record s.sched { wg = s.sched.wg - 1 } }

  advance-returned :
      (s : System W) (i : ℕ) (r : Routine W) (ph : Phase) (n : ℕ)
      → s.done ≡ true
      → alive ph ≡ 1
      → s.sched.wg ≡ suc n
      → advance s i r ph ctx_done ≡ some (returned s i r)
  unfolding advance finish
  advance-returned s i r jittering n d a e = ground (arith, d, e)
  advance-returned s i r ticking n d a e = ground (arith, d, e)
  advance-returned s i r stopped n d a e = ground arith

  -- All goroutines have returned, without a crash.
  pub record Drained (s : System W) : Type 0 where
    pub after : System W
    pub reached : Reach s after
    pub waited : wait_returns after.sched ≡ true
    pub alive_none : live after.routines ≡ 0
    pub same_world : after.world ≡ s.world
    pub safe : after.crashed ≡ false

  drain :
      (n : ℕ) (s : System W)
      → IsCounted s
      → s.crashed ≡ false
      → s.done ≡ true
      → live s.routines ≡ n
      → Drained s
  unfolding move
  drain zero s v h d e = record {
    after = s;
    reached = here;
    waited = ground (arith, v.counted, e);
    alive_none = e;
    same_world = refl;
    safe = h;
  }
  drain (suc n) s v h d e =
      let a = some_live s.routines n e in
      let t = returned s a.i a.r in
      let q : move s a.i ctx_done ≡ some t =
        rw a.there (advance-returned s a.i a.r a.r.phase n d a.is_alive (v.counted ∙ e)) in
      let m = live-set s.routines a.i a.r (record a.r { phase = stopped }) a.there in
      let rest =
        drain n t (move-IsCounted s t a.i ctx_done h v q) h d (omega (arith, m, e, a.is_alive)) in
      record {
        after = rest.after;
        reached = prepend (moves a.i ctx_done h q) rest.reached;
        waited = rest.waited;
        alive_none = rest.alive_none;
        same_world = rest.same_world;
        safe = rest.safe;
      }

  -- From every state that a new scheduler reaches, with the context ended and no crash before, the
  -- goroutines can all return, without a crash or a further call of a job, so that Wait returns.
  pub Reach-Drained :
      (world : W) {s : System W}
      → Reach (boot world) s
      → s.crashed ≡ false
      → s.done ≡ true
      → Drained s
  Reach-Drained world {s} r h d = drain (live s.routines) s (Reach-IsCounted world r) h d refl
