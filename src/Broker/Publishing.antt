-- ===== src/Broker/Publishing.antt =====
-- internal/broker/broker.go: calls of `Publish` that run at the same time. A call is cut at its three
-- critical sections: `ensureTopic`, `append` on a partition, and the count under `b.mu`. Its topic
-- pointer is that of the broker's map, which never changes an entry.
pub mod Moves
pub mod Calls
pub mod Reached
pub mod Depth
use go_kafka.Base.{
  ℕ, ◌≡◌, List, [], ◌∷◌, ◌++◌, Option, none, some, Bytes, bytes_key, get_elem?, set, length, ◌>>=◌,
}
use go_kafka.Base.Dict.{Dict, lookup}
use go_kafka.Broker.{Broker, Topic, ensure_topic, append_to, with_topic, count_publish, message}
use go_kafka.Broker.Log.{Message}
use go_kafka.Broker.Fnv.{partition_for}
use go_kafka.Broker.Group.{ConsumerGroup}
use go_kafka.Broker.Invariant.Settling.{dead_letter, commit_group}

-- The arguments of a call, and the time that its message gets.
pub record Call : Type 0 where
  pub topic : Bytes
  pub key : Bytes
  pub value : Bytes
  pub now : ℕ

-- Where a call stands: before `ensureTopic`, before the append to a partition, before the count, or
-- returned, with its partition and offset.
pub data Phase : Type 0 where
  entering : Phase
  appending : ℕ → Phase
  counting returned : (p offset : ℕ) → Phase

pub record Caller : Type 0 where
  pub call : Call
  pub phase : Phase

pub record System : Type 0 where
  pub broker : Broker
  pub callers : List Caller

abbrev pub message_of : Call → ℕ → Message
message_of c p = message c.topic c.key c.value p c.now

-- `none` is a panic, or a call that has returned.
unfoldable pub advance : Broker → Call → Phase → Option (Broker × Phase)
advance b c entering = do
  (b', t) ← ensure_topic b c.topic
  some (b', appending (partition_for c.key (length t.partitions)))
advance b c (appending p) = do
  t ← lookup c.topic b.topics
  (t', offset) ← append_to t p (message_of c p)
  some (with_topic b c.topic t', counting p offset)
advance b c (counting p offset) = some (count_publish b c.topic, returned p offset)
advance b c (returned p offset) = none

-- The system behind a move of the call `i`, which stood at `x`.
abbrev pub moved : System → ℕ → Caller → Broker × Phase → System
moved s i x (b, phase) = record {
  broker = b;
  callers = set s.callers i (record x { phase = phase });
}

unfoldable pub move : System → ℕ → Option System
move s i = do x ← get_elem? s.callers i; r ← advance s.broker x.call x.phase; some (moved s i x r)

-- A call begins or moves, or a consumer goroutine dead-letters a message or commits an offset.
pub data Step (s : System) : System → Type 0 where
  begins :
      (c : Call)
      → Step s (record s { callers = s.callers ++ record { call = c; phase = entering } ∷ [] })
  moves : {t : System} (i : ℕ) → move s i ≡ some t → Step s t
  buries :
      (name : Bytes) (t : Topic) (m : Message)
      → lookup name s.broker.topics ≡ some t
      → Step s (record s { broker = dead_letter s.broker name t m })
  commits :
      (name : Bytes) (gs : Dict Bytes ConsumerGroup) (group_id : Bytes) (cg : ConsumerGroup)
      (p_idx offset : ℕ)
      → Step s (record s { broker = commit_group s.broker name gs group_id cg p_idx offset })

pub data Reach (s : System) : System → Type 0 where
  here : Reach s s
  later : {t t' : System} → Reach s t → Step t t' → Reach s t'
