-- ===== src/Tests/Consume.antt =====
-- The consumer goroutines of internal/broker on a topic with one partition.
use go_kafka.Base.{
  All, ℕ, ◌+◌, ◌-◌, ◌<◌, ◌≡◌, refl, true, false, [], ◌∷◌, Option, none, some, lit, arith,
}
use go_kafka.Base.Dict.{lookup, insert}
use go_kafka.Broker.{Topic, fresh_topic, append_to, message}
use go_kafka.Broker.Log
use go_kafka.Broker.Log.{Partition}
use go_kafka.Broker.Group
use go_kafka.Broker.Group.{get_offset, commit}
use go_kafka.Broker.Consume.{
  Phase, starting, looping, delivering, System, Act, run, answered, notified, move, works,
  publishes, Reach, here, later,
}
use go_kafka.Broker.Consume.Settled.{IsFresh, committed-Settled}
use go_kafka.Broker.Consume.Facts.{IsTrue}
use go_kafka.Broker.Consume.Handled.{Settled}
use go_kafka.Broker.Consume.Single.{times}
use go_kafka.Broker.Consume.Once.{committed_once}
use go_kafka.Broker.Consume.Twice.{delivered_twice}
use go_kafka.Broker.Consume.Wakeup.{wakes}
use go_kafka.Broker.Consume.Returns.{Run, stay, own, other, Returns, delivering-Returns}

abbrev or_same {ℓ} : {A : Type ℓ} → A → Option A → A
or_same a none = a
or_same a (some b) = b

abbrev empty_topic : Topic
empty_topic = fresh_topic (lit "t") 1

abbrev with_message : Topic
with_message = record empty_topic {
  partitions = (Log.append Log.empty (message (lit "t") [] (lit "v") 0 3)).0 ∷ [];
}

abbrev idle : Topic → (ℕ → ℕ) → Phase → System
idle t p_idx phase = record {
  topic = t;
  group = Group.empty;
  workers = λ i. record { p_idx = p_idx i; sub = 0; phase = phase };
  history = [];
}

abbrev go : ℕ → System → ℕ → Act → System
go max s i a = or_same s (move max s i (s.workers i).phase a)

-- One goroutine delivers the message at the second attempt and commits it.
abbrev c0 : System
c0 = idle with_message (λ i. i) starting

abbrev c1 : System
c1 = go 3 c0 0 run

abbrev c2 : System
c2 = go 3 c1 0 run

abbrev c3 : System
c3 = go 3 c2 0 run

abbrev c4 : System
c4 = go 3 c3 0 (answered true)

abbrev c5 : System
c5 = go 3 c4 0 (answered false)

abbrev c6 : System
c6 = go 3 c5 0 run

c6_reached : Reach 3 c0 c6
unfolding move lookup insert Log.get get_offset Log.subscribe Log.append
c6_reached =
    later
      (later
        (later (later (later (later here (works 0 run refl)) (works 0 run refl)) (works 0 run refl))
          (works 0 (answered true) refl))
        (works 0 (answered false) refl))
      (works 0 run refl)

c6_committed : 0 < get_offset c6.group 0
unfolding move lookup insert Log.get get_offset commit Log.subscribe Log.append
c6_committed = omega arith

c0-IsFresh : IsFresh c0
unfolding get_offset lookup
c0-IsFresh = record { nothing_committed = λ p. refl; not_started = λ i. refl; no_history = refl }

committed-Settled_example : Settled c6 0 0
committed-Settled_example =
    committed-Settled 3 c0 c6 0 0 (omega arith) c0-IsFresh c6_reached c6_committed

committed_once_example : (times 0 0 c6.history ≡ 1) × All (IsTrue c6.topic) c6.history
committed_once_example =
    committed_once 3 c0 c6 0 0 (omega arith) (record { fresh = c0-IsFresh; own = λ i. refl })
      c6_reached c6_committed

-- Two goroutines of one group on partition 0.
abbrev pair : System
pair = idle with_message (λ i. 0) looping

abbrev the_part : Partition
the_part = (Log.append Log.empty (message (lit "t") [] (lit "v") 0 3)).0

delivered_twice_example :
    (t : System) × Reach 3 pair t × (times 0 0 t.history ≡ times 0 0 pair.history + 2)
unfolding get_offset lookup Log.get Log.append
delivered_twice_example =
    delivered_twice 3 pair 0 1 the_part (message (lit "t") [] (lit "v") 0 3) (omega arith) refl refl
      refl refl refl refl

-- A goroutine that found nothing, and a publication.
abbrev w0 : System
w0 = idle empty_topic (λ i. i) starting

abbrev w1 : System
w1 = go 3 w0 0 run

abbrev w2 : System
w2 = go 3 w1 0 run

abbrev w3 : System
w3 = go 3 w2 0 run

abbrev w4 : System
w4 = record w3 {
  topic = (or_same (w3.topic, 0) (append_to w3.topic 0 (message (lit "t") [] (lit "v") 0 3))).0;
}

w4_reached : Reach 3 w0 w4
unfolding move lookup append_to Log.subscribe
w4_reached =
    later (later (later (later here (works 0 run refl)) (works 0 run refl)) (works 0 run refl))
      (publishes 0 0 (message (lit "t") [] (lit "v") 0 3) w4.topic refl refl)

abbrev w_part : Partition
w_part = record { log = message (lit "t") [] (lit "v") 0 3 ∷ []; subs = true ∷ [] }

wakes_example :
    (u : System) × (move 3 w4 0 (w4.workers 0).phase notified ≡ some u)
    × ((u.workers 0).phase ≡ looping)
unfolding move lookup append_to get_offset Log.get Log.subscribe
wakes_example = wakes 3 w0 w4 0 0 w_part (λ j. refl) w4_reached refl refl (omega arith)

-- The handler refuses the first of three attempts, a message arrives, and it refuses the second.
abbrev r0 : System
r0 = idle with_message (λ i. i) (delivering 0 (message (lit "t") [] (lit "v") 0 3) 1)

abbrev r1 : System
r1 = go 3 r0 0 (answered true)

abbrev r2 : System
r2 = record r1 {
  topic = (or_same (r1.topic, 0) (append_to r1.topic 0 (message (lit "t") [] (lit "w") 0 4))).0;
}

abbrev r3 : System
r3 = go 3 r2 0 (answered true)

r3-Run : Run 3 0 r0 2 r3
unfolding move append_to
r3-Run =
    own (answered true)
      (other (own (answered true) stay (λ z. cc) refl)
        (publishes 0 1 (message (lit "t") [] (lit "w") 0 4) r2.topic refl refl) refl)
      (λ z. cc) refl

delivering-Returns_example : Returns 3 0 0 0 ((3 - 1) + 3) 2 r3
delivering-Returns_example =
    delivering-Returns 3 0 2 r0 r3 0 (message (lit "t") [] (lit "v") 0 3) 1 refl r3-Run
