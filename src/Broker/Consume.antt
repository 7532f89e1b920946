-- ===== src/Broker/Consume.antt =====
-- internal/broker/broker.go: `consumePartition`, the goroutines of one consumer group on one topic.
-- A goroutine is cut at its accesses to shared objects: each method of a partition or of the group
-- holds a lock and is one move. The shared `*topic` and `*consumerGroup` are fields of the system.
pub mod Moves
pub mod Held
pub mod Grown
pub mod Facts
pub mod Handled
pub mod Settled
pub mod Single
pub mod Once
pub mod Twice
pub mod Channels
pub mod Arrivals
pub mod Wakeup
pub mod Grows
pub mod Returns
use go_kafka.Base.{
  ℕ, suc, ◌+◌, ◌≡◌, ◌≢◌, Bool, true, false, List, [], ◌∷◌, Option, none, some, get_elem?, set, leb,
  nat_eq, if◌then◌else◌, ◌>>=◌,
}
use go_kafka.Base.Int.{pos}
use go_kafka.Broker.{Topic, append_to}
use go_kafka.Broker.Log
use go_kafka.Broker.Log.{Message, Partition, append}
use go_kafka.Broker.Group.{ConsumerGroup, get_offset, commit}

-- Where a goroutine stands: before `p.subscribe()`, at the head of the loop, before `p.get(offset)`,
-- in the `select`, in a call of the handler, before `t.dlq.append(msg)`, before `cg.commit`, or
-- returned.
pub data Phase : Type 0 where
  starting looping stopped : Phase
  fetching waiting committing : ℕ → Phase
  delivering : ℕ → Message → ℕ → Phase
  burying : ℕ → Message → Phase

-- `sub` is the place of the channel `notify` among the subscribers of the partition.
pub record Worker : Type 0 where
  pub p_idx : ℕ
  pub sub : ℕ
  pub phase : Phase

-- What a goroutine has done at an offset of a partition: the handler returned no error for the message
-- that it was called with, or the message was dead-lettered.
pub data Event : Type 0 where
  delivered dead_lettered : (p offset : ℕ) → Message → Event

-- `history` is not a part of the program: it records, newest first, how messages were settled.
pub record System : Type 0 where
  pub topic : Topic
  pub group : ConsumerGroup
  pub workers : ℕ → Worker
  pub history : List Event

-- The environment's choice: go on, the handler returned (with an error or not), or one of the two
-- cases of the `select`.
pub data Act : Type 0 where
  run notified cancelled : Act
  answered : Bool → Act

-- `for attempt := 1; attempt <= b.maxRetries; attempt++` and the test of `lastErr` behind it.
unfoldable pub next_attempt : ℕ → ℕ → Message → ℕ → Bool → Phase
next_attempt max_retries offset m attempt failed =
    if leb attempt max_retries
    then delivering offset (record m { attempt = attempt }) attempt
    else if failed
    then burying offset m
    else committing offset

abbrev pub update {ℓ} : {A : Type ℓ} → (ℕ → A) → ℕ → A → ℕ → A
update f i a j = if nat_eq i j then a else f j

abbrev pub goto : System → ℕ → Phase → System
goto s i phase = record s { workers = update s.workers i (record (s.workers i) { phase = phase }) }

abbrev pub part_at : System → ℕ → Option Partition
part_at s p = get_elem? s.topic.partitions p

abbrev pub with_part : System → ℕ → Partition → System
with_part s p part = record s {
  topic = record s.topic { partitions = set s.topic.partitions p part };
}

-- After `p.subscribe()`, on the partition `part`.
abbrev pub started : System → ℕ → Partition → System
started s i part =
    let (part', ch) = Log.subscribe part in
    let s' = with_part s (s.workers i).p_idx part' in
    record s' {
      workers = update s'.workers i (record (s'.workers i) { sub = ch; phase = looping });
    }

-- `none`: the goroutine cannot make this move.
unfoldable pub start : System → ℕ → Option System
start s i = do part ← part_at s (s.workers i).p_idx; some (started s i part)

-- What follows `p.get(offset)`.
unfoldable pub after_get : ℕ → ℕ → Option Message → Phase
unfolding next_attempt
after_get max_retries offset none = waiting offset
after_get max_retries offset (some m) = next_attempt max_retries offset m 1 false

unfoldable pub fetch_next : ℕ → System → ℕ → ℕ → Option System
unfolding after_get
fetch_next max_retries s i offset = do
  part ← part_at s (s.workers i).p_idx
  some (goto s i (after_get max_retries offset (Log.get part (pos offset))))

-- After `case <-notify`, which takes the token.
abbrev pub received : System → ℕ → Partition → System
received s i part =
    let part' = record part { subs = set part.subs (s.workers i).sub false } in
    goto (with_part s (s.workers i).p_idx part') i looping

unfoldable pub receive : System → ℕ → Option System
receive s i = do
  part ← part_at s (s.workers i).p_idx
  token ← get_elem? part.subs (s.workers i).sub
  if token then some (received s i part) else none

unfoldable pub bury : System → ℕ → ℕ → Message → System
bury s i offset m =
    let s' = goto s i (committing offset) in
    record s' {
      topic = record s'.topic { dlq = (append s'.topic.dlq m).0 };
      history = dead_lettered (s.workers i).p_idx offset m ∷ s.history;
    }

unfoldable pub accept : System → ℕ → ℕ → Message → System
accept s i offset m =
    let s' = goto s i (committing offset) in
    record s' { history = delivered (s.workers i).p_idx offset m ∷ s.history }

unfoldable pub commit_next : System → ℕ → ℕ → System
commit_next s i offset =
    let s' = goto s i looping in
    record s' { group = commit s.group (s.workers i).p_idx (offset + 1) }

unfoldable pub move : ℕ → System → ℕ → Phase → Act → Option System
unfolding start fetch_next receive bury accept commit_next next_attempt
move max_retries s i starting run = start s i
move max_retries s i looping run =
    some (goto s i (fetching (get_offset s.group (s.workers i).p_idx)))
move max_retries s i (fetching offset) run = fetch_next max_retries s i offset
move max_retries s i (waiting offset) cancelled = some (goto s i stopped)
move max_retries s i (waiting offset) notified = receive s i
move max_retries s i (delivering offset m attempt) (answered true) =
    some (goto s i (next_attempt max_retries offset m (attempt + 1) true))
move max_retries s i (delivering offset m attempt) (answered false) = some (accept s i offset m)
move max_retries s i (burying offset m) run = some (bury s i offset m)
move max_retries s i (committing offset) run = some (commit_next s i offset)
move _ _ _ _ _ = none

-- A goroutine of this group that has run `p.subscribe()`.
abbrev pub Started : Worker → Type 0
Started w = w.phase ≢ starting

-- A publisher, a goroutine of this group, or one of another group on the same topic, moves.
pub data Step (max_retries : ℕ) (s t : System) : Type 0 where
  publishes :
      (p offset : ℕ) (m : Message) (u : Topic)
      → append_to s.topic p m ≡ some (u, offset)
      → t ≡ record s { topic = u }
      → Step max_retries s t
  works :
      (i : ℕ) (a : Act) → move max_retries s i (s.workers i).phase a ≡ some t → Step max_retries s t
  other_subscribes :
      (p : ℕ) (part : Partition)
      → part_at s p ≡ some part
      → t ≡ with_part s p (Log.subscribe part).0
      → Step max_retries s t
  other_receives :
      (p ch : ℕ) (part : Partition)
      → part_at s p ≡ some part
      → ((i : ℕ) → Started (s.workers i) → (s.workers i).p_idx ≡ p → (s.workers i).sub ≢ ch)
      → t ≡ with_part s p (record part { subs = set part.subs ch false })
      → Step max_retries s t
  other_buries :
      (m : Message)
      → t ≡ record s { topic = record s.topic { dlq = (append s.topic.dlq m).0 } }
      → Step max_retries s t

pub data Reach (max_retries : ℕ) (s : System) : System → Type 0 where
  here : Reach max_retries s s
  later : {t u : System} → Reach max_retries s t → Step max_retries t u → Reach max_retries s u
