-- ===== src/Broker/Consume/Settled.antt =====
-- internal/broker/broker.go: the committed offsets of `consumePartition`.
use mathlib.Core.Option.{some-injective}
use go_kafka.Base.{
  dec_lt, ℕ, ◌+◌, ◌≤◌, ◌<◌, ◌≡◌, refl, inl, inr, true, false, [], ◌∷◌, some, arith, nat_key, subst,
}
use go_kafka.Broker.Log.{Message}
use go_kafka.Broker.Group.{get_offset}
use go_kafka.Broker.Consume.{
  Phase, starting, looping, stopped, fetching, waiting, committing, delivering, burying, Event,
  delivered, dead_lettered, System, Act, run, notified, cancelled, answered, next_attempt, update,
  goto, move, bury, accept, commit_next, Step, publishes, works, other_subscribes, other_receives,
  other_buries, Reach, here, later,
}
use go_kafka.Broker.Consume.Facts
use go_kafka.Broker.Consume.Handled
use go_kafka.Broker.Consume.Handled.{Settled, Noted-Settled}
use go_kafka.Broker.Consume.Held.{
  Noted, Held, Inv, Inv-goto, Inv-same, Inv-Quiet, start-Quiet, fetch_next-Quiet, receive-Quiet,
  retry_Held, after_get-Held, commit_le, commit_below,
}

goto-Inv :
    (max : ℕ) (s : System) (i : ℕ) (ph : Phase)
    → Inv max s
    → Held max (get_offset s.group) s.history (s.workers i).p_idx ph
    → Inv max (goto s i ph)
goto-Inv max s i ph v mine =
    Inv-Quiet max s (goto s i ph) i (record (s.workers i) { phase = ph }) v
      (record { workers = refl; group = refl; history = refl; same_part = refl }) mine

-- One more event settles its own offset and leaves the others settled.
settle-Inv :
    (max : ℕ) (s t : System) (i o : ℕ) (e : Event)
    → Inv max s
    → o ≤ get_offset s.group (s.workers i).p_idx
    → ((p x : ℕ) → Noted s.history p x → Noted (e ∷ s.history) p x)
    → Noted (e ∷ s.history) (s.workers i).p_idx o
    → t.workers ≡ update s.workers i (record (s.workers i) { phase = committing o })
    → t.group ≡ s.group
    → t.history ≡ e ∷ s.history
    → Inv max t
settle-Inv max s t i o e v le keep it ew eg eh =
    Inv-goto max s t i (record (s.workers i) { phase = committing o }) v ew
      (λ p. rw eg (omega arith)) (rw eh keep) (rw (eg, eh) (λ p x lt. keep p x (v.below p x lt)))
      (rw (eg, eh) (le, it))

accept-Inv :
    (max : ℕ) (s : System) (i o : ℕ) (m : Message)
    → Inv max s
    → o ≤ get_offset s.group (s.workers i).p_idx
    → Inv max (accept s i o m)
unfolding accept
accept-Inv max s i o m v le =
    settle-Inv max s (accept s i o m) i o (delivered (s.workers i).p_idx o m) v le (λ p x h. inr h)
      (inl (refl, refl)) refl refl refl

bury-Inv :
    (max : ℕ) (s : System) (i o : ℕ) (m : Message)
    → Inv max s
    → o ≤ get_offset s.group (s.workers i).p_idx
    → Inv max (bury s i o m)
unfolding bury
bury-Inv max s i o m v le =
    settle-Inv max s (bury s i o m) i o (dead_lettered (s.workers i).p_idx o m) v le
      (λ p x h. inr h) (inl (refl, refl)) refl refl refl

commit_next-Inv :
    (max : ℕ) (s : System) (i o : ℕ)
    → Inv max s
    → o ≤ get_offset s.group (s.workers i).p_idx
    → Noted s.history (s.workers i).p_idx o
    → Inv max (commit_next s i o)
unfolding commit_next
commit_next-Inv max s i o v le it =
    Inv-goto max s (commit_next s i o) i (record (s.workers i) { phase = looping }) v refl
      (commit_le s.group p (o + 1)) (λ q x h. h)
      (λ q x lt. elim (commit_below s.group p (o + 1) q x lt) [
        | inl old ↦ v.below q x old
        | inr (same, small) ↦ subst (λ z. Noted s.history z x) same (upto x (omega arith))
      ])
      tt
  where
    p : ℕ
    p = (s.workers i).p_idx

    upto : (x : ℕ) → x ≤ o → Noted s.history p x
    upto x small = elim (dec_lt x o) [
      | yes lt ↦ v.below p x (omega arith)
      | no ge ↦ subst (Noted s.history p) (let e : o ≡ x = omega arith in e) it
    ]

move-Inv :
    (max : ℕ) (s t : System) (i : ℕ) (ph : Phase) (a : Act)
    → 0 < max
    → Inv max s
    → Held max (get_offset s.group) s.history (s.workers i).p_idx ph
    → move max s i ph a ≡ some t
    → Inv max t
unfolding move
move-Inv max s t i starting run some_try v x h =
    let (ch, q) = start-Quiet s t i h in Inv-Quiet max s t i _ v q tt
move-Inv max s t i looping run some_try v x h =
    subst (Inv max) (some-injective _ t h) (goto-Inv max s i (fetching _) v (omega arith))
move-Inv max s t i (fetching o) run some_try v x h =
    let (found, q) = fetch_next-Quiet max s t i o h in
    Inv-Quiet max s t i _ v q
      (after_get-Held max (get_offset s.group) s.history (s.workers i).p_idx o found some_try x)
move-Inv max s t i (waiting o) cancelled some_try v x h =
    subst (Inv max) (some-injective _ t h) (goto-Inv max s i stopped v tt)
move-Inv max s t i (waiting o) notified some_try v x h =
    Inv-Quiet max s t i _ v (receive-Quiet s t i h) tt
move-Inv max s t i (delivering o m k) (answered true) some_try v x h =
    subst (Inv max) (some-injective _ t h) (
      goto-Inv max s i (next_attempt max o m (k + 1) true) v
        (retry_Held max (get_offset s.group) s.history (s.workers i).p_idx o k m x))
move-Inv max s t i (delivering o m k) (answered false) some_try v x h =
    subst (Inv max) (some-injective _ t h) (accept-Inv max s i o m v x.0)
move-Inv max s t i (burying o m) run some_try v x h =
    subst (Inv max) (some-injective _ t h) (bury-Inv max s i o m v x.0)
move-Inv max s t i (committing o) run some_try v x h =
    subst (Inv max) (some-injective _ t h) (commit_next-Inv max s i o v x.0 x.1)
move-Inv max s t i _ _ some_try v x h = cc

pub Step-Inv : (max : ℕ) {s t : System} → 0 < max → Inv max s → Step max s t → Inv max t
Step-Inv max {s} {t} some_try v (publishes p o m u h e) = Inv-same max s t v (rw e) (rw e) (rw e)
Step-Inv max {s} {t} some_try v (works i a h) =
    move-Inv max s t i (s.workers i).phase a some_try v (v.held i) h
Step-Inv max {s} {t} some_try v (other_subscribes p part h e) =
    Inv-same max s t v (rw e) (rw e) (rw e)
Step-Inv max {s} {t} some_try v (other_receives p ch part h foreign e) =
    Inv-same max s t v (rw e) (rw e) (rw e)
Step-Inv max {s} {t} some_try v (other_buries m e) = Inv-same max s t v (rw e) (rw e) (rw e)

-- A group that has committed nothing, before its goroutines run.
pub record IsFresh (s : System) : Type 0 where
  pub nothing_committed : (p : ℕ) → get_offset s.group p ≡ 0
  pub not_started : (i : ℕ) → (s.workers i).phase ≡ starting
  pub no_history : s.history ≡ []

pub Facts-init : (s : System) → IsFresh s → Facts.Inv s
Facts-init s f = record { history = rw f.no_history tt; hands = λ i. rw (f.not_started i) tt }

Inv-init : (max : ℕ) (s : System) → IsFresh s → Inv max s
Inv-init max s f = record {
  below = λ p o lt. absurd (omega (arith, f.nothing_committed p));
  held = λ i. rw (f.not_started i) tt;
}

pub Reach-Inv : (max : ℕ) {s t : System} → 0 < max → IsFresh s → Reach max s t → Inv max t
Reach-Inv max some_try f here = Inv-init max _ f
Reach-Inv max some_try f (later r st) = Step-Inv max some_try (Reach-Inv max some_try f r) st

-- However the goroutines of a group, the publishers and the other groups interleave: of each offset
-- below the committed one, the message that the partition has there was accepted by a handler, at some
-- attempt, or it is in the DLQ. The group starts with nothing committed and no goroutine run, and there
-- is at least one attempt.
pub committed-Settled :
    (max : ℕ) (s t : System) (p o : ℕ)
    → 0 < max
    → IsFresh s
    → Reach max s t
    → o < get_offset t.group p
    → Settled t p o
committed-Settled max s t p o some_try f r lt =
    Noted-Settled t p o (Handled.Reach-Inv max (Facts-init s f) r)
      ((Reach-Inv max some_try f r).below p o lt)
