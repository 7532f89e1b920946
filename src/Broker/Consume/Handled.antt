-- ===== src/Broker/Consume/Handled.antt =====
-- internal/broker/broker.go: what has become of the message at an offset.
use mathlib.Core.Option.{some-injective}
use mathlib.Core.Path.{subst₂}
use go_kafka.Base.{
  ℕ, ◌+◌, ◌≡◌, ◌⊎◌, refl, inl, inr, true, false, List, [], ◌∷◌, some, get_elem?, set, All, sym,
  subst,
}
use go_kafka.Base.Int.{pos}
use go_kafka.Broker.{Topic}
use go_kafka.Broker.Log
use go_kafka.Broker.Log.{Message, Partition}
use go_kafka.Broker.Logs.{in_topic}
use go_kafka.Broker.Consume.{
  Phase, starting, looping, stopped, fetching, waiting, committing, delivering, burying, Worker,
  Event, delivered, dead_lettered, System, Act, run, notified, cancelled, answered, next_attempt,
  after_get, update, move, commit_next, start, fetch_next, receive, Step, publishes, works,
  other_subscribes, other_receives, other_buries, Reach, here, later, with_part,
}
use go_kafka.Broker.Consume.Grown.{Grown, Grown-refl, append_to-Grown, relogged-Grown, dlq-Grown}
use go_kafka.Broker.Consume.Moves.{start_lem, fetch_next_lem, receive_lem}
use go_kafka.Broker.Consume.Facts.{
  IsAt, IsDead, IsTrue, InHand, Inv, Inv-moves, Inv-grows, history-Grown, goto-Inv, accept-Inv,
  bury-Inv, next_attempt-InHand, after_get-InHand,
}
use go_kafka.Broker.Consume.Held.{Noted}

subscribe-Grown :
    (t : Topic) (p : ℕ) (part : Partition)
    → get_elem? t.partitions p ≡ some part
    → Grown t (record t { partitions = set t.partitions p (Log.subscribe part).0 })
unfolding Log.subscribe
subscribe-Grown t p part e = relogged-Grown t p part (Log.subscribe part).0 e refl

-- A move that changes the topic, the phase and the channel of goroutine `i` only.
move_with :
    (s : System) (i : ℕ) (u : Topic) (w : Worker)
    → Inv s
    → Grown s.topic u
    → InHand u w.p_idx w.phase
    → Inv (record s { topic = u; workers = update s.workers i w })
move_with s i u w v g h =
    Inv-moves s (record s { topic = u; workers = update s.workers i w }) i w v g refl
      (history-Grown s.topic u s.history g v.history) h

module _ (max : ℕ) (s t : System) (i : ℕ) (v : Inv s) where
  start-Inv : start s i ≡ some t → Inv t
  start-Inv h =
      let (part, at, e) = start_lem s t i h in
      subst Inv (sym e) (
        move_with s i (with_part s (s.workers i).p_idx (Log.subscribe part).0).topic
          (record (s.workers i) { sub = (Log.subscribe part).1; phase = looping }) v
          (subscribe-Grown s.topic (s.workers i).p_idx part at) tt)

  receive-Inv : receive s i ≡ some t → Inv t
  receive-Inv h =
      let (part, at, full, e) = receive_lem s t i h in
      let part' : Partition = record part { subs = set part.subs (s.workers i).sub false } in
      subst Inv (sym e) (
        move_with s i (with_part s (s.workers i).p_idx part').topic
          (record (s.workers i) { phase = looping }) v
          (relogged-Grown s.topic (s.workers i).p_idx part part' at refl) tt)

  fetch_next-Inv : (o : ℕ) → fetch_next max s i o ≡ some t → Inv t
  fetch_next-Inv o h =
      let (part, at, e) = fetch_next_lem max s t i o h in
      let found : in_topic s.topic (s.workers i).p_idx o ≡ Log.get part (pos o) = rw at refl in
      subst Inv (sym e) (
        goto-Inv s i (after_get max o (Log.get part (pos o))) v
          (after_get-InHand s.topic max (s.workers i).p_idx o (Log.get part (pos o)) found))

  move-Inv :
      (ph : Phase) (a : Act)
      → InHand s.topic (s.workers i).p_idx ph
      → move max s i ph a ≡ some t
      → Inv t
  unfolding move commit_next
  move-Inv starting run x h = start-Inv h
  move-Inv looping run x h = subst Inv (some-injective _ t h) (goto-Inv s i (fetching _) v tt)
  move-Inv (fetching o) run x h = fetch_next-Inv o h
  move-Inv (waiting o) cancelled x h = subst Inv (some-injective _ t h) (goto-Inv s i stopped v tt)
  move-Inv (waiting o) notified x h = receive-Inv h
  move-Inv (delivering o m k) (answered true) x h = subst Inv (some-injective _ t h) (
      goto-Inv s i (next_attempt max o m (k + 1) true) v
        (next_attempt-InHand s.topic max (s.workers i).p_idx o (k + 1) m true x))
  move-Inv (delivering o m k) (answered false) x h =
      subst Inv (some-injective _ t h) (accept-Inv s i o m v x)
  move-Inv (burying o m) run x h = subst Inv (some-injective _ t h) (bury-Inv s i o m v x)
  move-Inv (committing o) run x h = subst Inv (some-injective _ t h) (
      Inv-moves s (commit_next s i o) i (record (s.workers i) { phase = looping }) v
        (Grown-refl s.topic) refl v.history tt)
  move-Inv _ _ x h = cc

Step-Inv : (max : ℕ) {s t : System} → Inv s → Step max s t → Inv t
Step-Inv max {s} {t} v (publishes p o m u h e) =
    Inv-grows s t v (rw e (append_to-Grown s.topic u p o m h)) (rw e refl) (rw e refl)
Step-Inv max {s} {t} v (works i a h) = move-Inv max s t i v (s.workers i).phase a (v.hands i) h
Step-Inv max {s} {t} v (other_subscribes p part at e) =
    Inv-grows s t v (rw e (subscribe-Grown s.topic p part at)) (rw e refl) (rw e refl)
Step-Inv max {s} {t} v (other_receives p ch part at foreign e) =
    Inv-grows s t v
      (rw e (relogged-Grown s.topic p part (record part { subs = set part.subs ch false }) at refl))
      (rw e refl) (rw e refl)
Step-Inv max {s} {t} v (other_buries m e) =
    Inv-grows s t v (rw e (dlq-Grown s.topic m)) (rw e refl) (rw e refl)

pub Reach-Inv : (max : ℕ) {s t : System} → Inv s → Reach max s t → Inv t
Reach-Inv max v here = v
Reach-Inv max v (later r st) = Step-Inv max (Reach-Inv max v r) st

-- The handler returned no error for `m`.
abbrev pub Accepted : List Event → ℕ → ℕ → Message → Type 0
Accepted [] p o m = ⊥
Accepted (delivered q k n ∷ h) p o m = ((q ≡ p) × (k ≡ o) × (n ≡ m)) ⊎ Accepted h p o m
Accepted (dead_lettered q k n ∷ h) p o m = Accepted h p o m

-- The message at offset `o` of partition `p` was accepted by the handler, at some attempt, or it is in the
-- DLQ.
abbrev pub Settled : System → ℕ → ℕ → Type 0
Settled t p o =
    (stored : Message) × (attempt : ℕ) × (in_topic t.topic p o ≡ some stored)
    × (Accepted t.history p o (record stored { attempt = attempt })
        ⊎ IsDead t.topic (record stored { attempt = attempt }))

-- What an event that is true says of its offset.
Noted-first :
    (t : Topic) (p o : ℕ) (h : List Event)
    → All (IsTrue t) h
    → Noted h p o
    → (m : Message) × IsAt t p o m × (Accepted h p o m ⊎ IsDead t m)
Noted-first t p o [] a n = elim n [ ]
Noted-first t p o (delivered q k m ∷ h) a (inl (eq, ek)) =
    (m, subst₂ (λ x y. IsAt t x y m) eq ek a.0, inl (inl (eq, ek, refl)))
Noted-first t p o (dead_lettered q k m ∷ h) a (inl (eq, ek)) =
    (m, subst₂ (λ x y. IsAt t x y m) eq ek a.0.0, inr a.0.1)
Noted-first t p o (delivered q k m ∷ h) a (inr n) =
    let (d, at, c) = Noted-first t p o h a.1 n in
    (d, at, elim c [ inl was ↦ inl (inr was) | inr was ↦ inr was ])
Noted-first t p o (dead_lettered q k m ∷ h) a (inr n) = Noted-first t p o h a.1 n

pub Noted-Settled : (t : System) (p o : ℕ) → Inv t → Noted t.history p o → Settled t p o
Noted-Settled t p o v n =
    let (m, (stored, e, q), h) = Noted-first t.topic p o t.history v.history n in
    (stored, m.attempt, e, subst (λ (d : Message). Accepted t.history p o d ⊎ IsDead t.topic d) q h)
