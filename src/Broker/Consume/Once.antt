-- ===== src/Broker/Consume/Once.antt =====
-- internal/broker/broker.go: `consumePartition` with one goroutine of a group for each partition.
use mathlib.Core.Option.{some-injective}
use go_kafka.Base.{
  ℕ, ◌+◌, ◌<◌, ◌≡◌, refl, true, false, some, arith, nat_key, All, ap, sym, ◌∙◌, subst,
}
use go_kafka.Broker.Group.{get_offset}
use go_kafka.Broker.Consume.{
  after_get, Phase, starting, looping, stopped, fetching, waiting, committing, delivering, burying,
  System, Act, run, notified, cancelled, answered, next_attempt, move, Step, publishes, works,
  other_subscribes, other_receives, other_buries, Reach, here, later,
}
use go_kafka.Broker.Consume.Settled.{IsFresh, Facts-init}
use go_kafka.Broker.Consume.Facts.{IsTrue}
use go_kafka.Broker.Consume.Handled
use go_kafka.Broker.Consume.Held.{start-Quiet, fetch_next-Quiet, receive-Quiet}
use go_kafka.Broker.Consume.Single.{
  times, At, Inv, Inv-same, Inv-Quiet, next_attempt-At, after_get-At, le-bound, below-once,
  goto-Inv, commit_next-Inv, accept-Inv, bury-Inv,
}

move-Inv :
    (max : ℕ) (s t : System) (i : ℕ) (ph : Phase) (a : Act)
    → 0 < max
    → Inv s
    → (s.workers i).phase ≡ ph
    → At (get_offset s.group i) ph
    → move max s i ph a ≡ some t
    → Inv t
unfolding move
move-Inv max s t i starting run some_try v e x h =
    let (ch, q) = start-Quiet s t i h in Inv-Quiet s t i _ v q tt (rw e)
move-Inv max s t i looping run some_try v e x h = subst Inv (some-injective _ t h) (
    goto-Inv s i v (fetching (get_offset s.group (s.workers i).p_idx))
      (ap (get_offset s.group) (v.own i)) (rw e))
move-Inv max s t i (fetching o) run some_try v e x h =
    let (found, q) = fetch_next-Quiet max s t i o h in
    let (at, b) = after_get-At max (get_offset s.group i) o found some_try x in
    Inv-Quiet s t i (record (s.workers i) { phase = after_get max o found }) v q at (rw e b)
move-Inv max s t i (waiting o) cancelled some_try v e x h =
    subst Inv (some-injective _ t h) (goto-Inv s i v stopped tt (rw e))
move-Inv max s t i (waiting o) notified some_try v e x h =
    Inv-Quiet s t i (record (s.workers i) { phase = looping }) v (receive-Quiet s t i h) tt (rw e)
move-Inv max s t i (delivering o m k) (answered true) some_try v e x h =
    let (at, b) = next_attempt-At max (get_offset s.group i) o (k + 1) m true x (λ z. cc) in
    subst Inv (some-injective _ t h)
      (goto-Inv s i v (next_attempt max o m (k + 1) true) at (rw e b))
move-Inv max s t i (delivering o m k) (answered false) some_try v e x h =
    subst Inv (some-injective _ t h) (accept-Inv s i v o m (sym x) (rw e (sym x)))
move-Inv max s t i (burying o m) run some_try v e x h =
    subst Inv (some-injective _ t h) (bury-Inv s i v o m (sym x) (rw e (sym x)))
move-Inv max s t i (committing o) run some_try v e x h =
    subst Inv (some-injective _ t h) (commit_next-Inv s i v o e x)
move-Inv max s t i _ _ some_try v e x h = cc

Step-Inv : (max : ℕ) {s t : System} → 0 < max → Inv s → Step max s t → Inv t
Step-Inv max {s} {t} some_try v (publishes p o m u h e) = Inv-same s t v (rw e) (rw e) (rw e)
Step-Inv max {s} {t} some_try v (works i a h) =
    move-Inv max s t i (s.workers i).phase a some_try v refl (v.at i) h
Step-Inv max {s} {t} some_try v (other_subscribes p part h e) = Inv-same s t v (rw e) (rw e) (rw e)
Step-Inv max {s} {t} some_try v (other_receives p ch part h foreign e) =
    Inv-same s t v (rw e) (rw e) (rw e)
Step-Inv max {s} {t} some_try v (other_buries m e) = Inv-same s t v (rw e) (rw e) (rw e)

-- One call of `Subscribe`: goroutine `i` is the one of partition `i`, and none has run.
pub record IsSingle (s : System) : Type 0 where
  pub fresh : IsFresh s
  pub own : (i : ℕ) → (s.workers i).p_idx ≡ i

Inv-init : (s : System) → IsSingle s → Inv s
Inv-init s f = record {
  own = f.own;
  at = λ i. rw (f.fresh.not_started i) tt;
  counts = λ i x.
      rw (f.fresh.no_history, f.fresh.not_started i, f.fresh.nothing_committed i) (ground arith);
}

Reach-Inv : (max : ℕ) {s t : System} → 0 < max → IsSingle s → Reach max s t → Inv t
Reach-Inv max some_try f here = Inv-init _ f
Reach-Inv max some_try f (later r st) = Step-Inv max some_try (Reach-Inv max some_try f r) st

-- With one call of `Subscribe` for the group, none of whose goroutines has run, and at least one
-- attempt: every committed offset has exactly one event in the group's history, every event there is one
-- of the message that the partition has at its offset, and one that was dead-lettered is in the DLQ.
pub committed_once :
    (max : ℕ) (s t : System) (p o : ℕ)
    → 0 < max
    → IsSingle s
    → Reach max s t
    → o < get_offset t.group p
    → (times p o t.history ≡ 1) × All (IsTrue t.topic) t.history
committed_once max s t p o some_try f r lt =
    let v = Reach-Inv max some_try f r in
    (
      v.counts p o
          ∙ below-once _ o (omega (arith, le-bound (get_offset t.group p) (t.workers p).phase)),
      (Handled.Reach-Inv max (Facts-init s f.fresh) r).history,
    )
