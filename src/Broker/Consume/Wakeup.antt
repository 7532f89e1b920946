-- ===== src/Broker/Consume/Wakeup.antt =====
-- internal/broker/broker.go: the wake-ups by the channels of `consumePartition`.
use mathlib.Core.Option.{some-injective}
use go_kafka.Base.{
  ℕ, ◌+◌, ◌≤◌, ◌<◌, ◌≡◌, refl, inl, inr, Bool, true, false, List, Option, none, some, arith, length,
  get_elem?, get_elem?-total, dec_lt, leb, set, Bool-cases, Option-cases, ap, sym, ◌∙◌, subst,
}
use go_kafka.Base.Int.{pos}
use go_kafka.Broker.{Topic, append_to}
use go_kafka.Broker.Group.{get_offset}
use go_kafka.Broker.Log
use go_kafka.Broker.Log.{Message, Partition, append, wake}
use go_kafka.Broker.Logs.{get-pos}
use go_kafka.Broker.Invariant.Topics.{stored, append_to-stored}
use go_kafka.Broker.Consume.{
  after_get, Phase, starting, looping, stopped, fetching, waiting, committing, delivering, burying,
  System, Act, run, notified, cancelled, answered, received, part_at, next_attempt, goto, move,
  receive, bury, accept, commit_next, Step, publishes, works, other_subscribes, other_receives,
  other_buries, Reach, here, later,
}
use go_kafka.Broker.Consume.Moves.{start_lem, fetch_next_lem, receive_lem}
use go_kafka.Broker.Consume.Channels.{
  Awake, Inv, append-Safe, subscribe-Safe, receive-Safe, with_part-Inv, goto-Inv, received-Inv,
}
use go_kafka.Broker.Consume.Arrivals.{started-Inv}

-- The other fields of the system do not matter.
Inv-same :
    (s t : System) → t.workers ≡ s.workers → t.topic.partitions ≡ s.topic.partitions → Inv s → Inv t
Inv-same s t ew ep v = record { safe = rw (ew, ep) v.safe; apart = rw ew v.apart }

next_attempt-Awake :
    (max o k : ℕ) (m : Message) (failed : Bool) (ch : ℕ) (part : Partition)
    → Awake (next_attempt max o m k failed) ch part
unfolding next_attempt
next_attempt-Awake max o k m failed ch part = elim (Bool-cases (leb k max)) [
  | inl go ↦ rw go tt
  | inr over ↦ elim (Bool-cases failed) [
    | inl bad ↦ rw (over, bad) tt
    | inr good ↦ rw (over, good) tt
  ]
]

get_elem?-none_le : (subs : List Message) (n : ℕ) → get_elem? subs n ≡ none → length subs ≤ n
get_elem?-none_le subs n h = elim (dec_lt n (length subs)) [
  | yes lt ↦ let (m, e) = get_elem?-total subs n lt in absurd (ground arith)
  | no ge ↦ omega arith
]

after_get-Awake :
    (max o : ℕ) (found : Option Message) (ch : ℕ) (part : Partition)
    → Log.get part (pos o) ≡ found
    → Awake (after_get max o found) ch part
unfolding after_get
after_get-Awake max o none ch part e = inr (get_elem?-none_le part.log o (sym (get-pos part o) ∙ e))
after_get-Awake max o (some m) ch part e = next_attempt-Awake max o 1 m false ch part

move-Inv :
    (max : ℕ) (s t : System) (i : ℕ) (ph : Phase) (a : Act)
    → Inv s
    → (s.workers i).phase ≡ ph
    → move max s i ph a ≡ some t
    → Inv t
unfolding move
move-Inv max s t i starting run v e h =
    let (part, at, r) = start_lem s t i h in subst Inv (sym r) (started-Inv s i part v at)
move-Inv max s t i looping run v e h = subst Inv (some-injective _ t h) (
    goto-Inv s i (fetching (get_offset s.group (s.workers i).p_idx)) v (rw e (λ z. cc)) (λ q x. tt))
move-Inv max s t i (fetching o) run v e h =
    let (part, at, r) = fetch_next_lem max s t i o h in
    subst Inv (sym r) (
      goto-Inv s i (after_get max o (Log.get part (pos o))) v (rw e (λ z. cc)) (λ q x.
        subst (Awake (after_get max o (Log.get part (pos o))) (s.workers i).sub)
          (some-injective part q (sym at ∙ x))
          (after_get-Awake max o (Log.get part (pos o)) (s.workers i).sub part refl)))
move-Inv max s t i (waiting o) cancelled v e h =
    subst Inv (some-injective _ t h) (goto-Inv s i stopped v (rw e (λ z. cc)) (λ q x. tt))
move-Inv max s t i (waiting o) notified v e h =
    let (part, at, _, r) = receive_lem s t i h in
    subst Inv (sym r) (received-Inv s i part v (rw e (λ z. cc)) at)
move-Inv max s t i (delivering o m k) (answered true) v e h = subst Inv (some-injective _ t h) (
    goto-Inv s i (next_attempt max o m (k + 1) true) v (rw e (λ z. cc))
      (λ q x. next_attempt-Awake max o (k + 1) m true (s.workers i).sub q))
move-Inv max s t i (delivering o m k) (answered false) v e h = subst Inv (some-injective _ t h) (
    Inv-same (goto s i (committing o)) (accept s i o m) (unfold accept in refl)
      (unfold accept in refl) (goto-Inv s i (committing o) v (rw e (λ z. cc)) (λ q x. tt)))
move-Inv max s t i (burying o m) run v e h = subst Inv (some-injective _ t h) (
    Inv-same (goto s i (committing o)) (bury s i o m) (unfold bury in refl) (unfold bury in refl)
      (goto-Inv s i (committing o) v (rw e (λ z. cc)) (λ q x. tt)))
move-Inv max s t i (committing o) run v e h = subst Inv (some-injective _ t h) (
    Inv-same (goto s i looping) (commit_next s i o) (unfold commit_next in refl)
      (unfold commit_next in refl) (goto-Inv s i looping v (rw e (λ z. cc)) (λ q x. tt)))
move-Inv max s t i _ _ v e h = cc

publishes-Inv :
    (s : System) (p o : ℕ) (m : Message) {u : Topic}
    → Inv s
    → append_to s.topic p m ≡ some (u, o)
    → Inv (record s { topic = u })
publishes-Inv s p o m {u} v h = elim (Option-cases (part_at s p)) [
  | inl e ↦ absurd (unfold append_to in ground arith)
  | inr (part, e) ↦
      let it : stored s.topic p part m ≡ u =
        ap (λ (r : Topic × ℕ). r.0)
          (some-injective _ (u, o) (sym (append_to-stored s.topic p m e) ∙ h)) in
      subst (λ x. Inv (record s { topic = x })) it
        (with_part-Inv s p part (append part m).0 v e
          (λ j _ _ w. append-Safe (s.workers j) part m w))
]

Step-Inv : (max : ℕ) {s t : System} → Inv s → Step max s t → Inv t
Step-Inv max {s} {t} v (publishes p o m u h e) = rw e (publishes-Inv s p o m v h)
Step-Inv max {s} {t} v (works i a h) = move-Inv max s t i (s.workers i).phase a v refl h
Step-Inv max {s} {t} v (other_subscribes p part h e) = rw e (
    with_part-Inv s p part (Log.subscribe part).0 v h
      (λ j _ _ w. subscribe-Safe (s.workers j) part w))
Step-Inv max {s} {t} v (other_receives p ch part h foreign e) = rw e (
    with_part-Inv s p part (record part { subs = set part.subs ch false }) v h
      (λ j st same w. receive-Safe (s.workers j) part ch (foreign j st same) w))
Step-Inv max {s} {t} v (other_buries m e) = rw e (
    Inv-same s (record s { topic = record s.topic { dlq = (append s.topic.dlq m).0 } }) refl refl v)

Inv-init : (s : System) → ((i : ℕ) → (s.workers i).phase ≡ starting) → Inv s
Inv-init s f = record {
  safe = λ i part st h. absurd (st (f i));
  apart = λ i j ne si sj e. absurd (si (f i));
}

Reach-Inv :
    (max : ℕ) {s t : System} → ((i : ℕ) → (s.workers i).phase ≡ starting) → Reach max s t → Inv t
Reach-Inv max f here = Inv-init _ f
Reach-Inv max f (later r st) = Step-Inv max (Reach-Inv max f r) st

-- No wake-up is lost: a goroutine that waits for an offset which its partition has by now can leave
-- the `select` by its channel, however the system came there from a start where none has run.
pub wakes :
    (max : ℕ) (s t : System) (i o : ℕ) (part : Partition)
    → ((j : ℕ) → (s.workers j).phase ≡ starting)
    → Reach max s t
    → (t.workers i).phase ≡ waiting o
    → part_at t (t.workers i).p_idx ≡ some part
    → o < length part.log
    → (u : System) × (move max t i (t.workers i).phase notified ≡ some u)
      × ((u.workers i).phase ≡ looping)
unfolding move receive
wakes max s t i o part f r e at lt = (received t i part, enabled token, ground arith)
  where
    token : get_elem? part.subs (t.workers i).sub ≡ some true
    token =
        let w = (Reach-Inv max f r).safe i part (rw e (λ z. cc)) at in
        let a : Awake (waiting o) (t.workers i).sub part = rw e at w.awake in
        elim a [ inl full ↦ full | inr end ↦ absurd (omega arith) ]

    enabled :
        get_elem? part.subs (t.workers i).sub ≡ some true
        → move max t i (t.workers i).phase notified ≡ some (received t i part)
    enabled full = rw (e, move) (rw (at, receive) (rw full))
