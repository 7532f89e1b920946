-- ===== src/Broker.antt =====
-- internal/broker/broker.go: the broker's state and its operations, each under its lock.
-- A `*topic` or `*consumerGroup` is named by its keys: no entry is ever replaced or deleted.
pub mod Log
pub mod Group
pub mod Fnv
pub mod Invariant
pub mod Logs
pub mod History
pub mod Queries
pub mod Publishing
pub mod Consume
use mathlib.Core.List.{foldl, filter}
use go_kafka.Base.{
  ℕ, ◌+◌, ◌^◌, leb, Bool, List, [], ◌∷◌, ◌++◌, map, Option, none, some, Bytes, length, get_elem?,
  set, replicate, range, if◌then◌else◌, bytes_key, nat_key, ◌>>=◌, Result, ok, err,
}
use go_kafka.Base.Int.{ℤ, pos, pos_part, ltb_ℤ, leb_ℤ}
use go_kafka.Base.Dict.{Dict, lookup, insert, or_zero, total, keys}
use Log.{Partition, Message, append}
use Group.{ConsumerGroup}
use Fnv.{partition_for}

pub record Topic : Type 0 where
  pub name : Bytes
  pub partitions : List Partition
  pub dlq : Partition

pub record TopicStats : Type 0 where
  pub published : ℕ
  pub partitions : ℕ
  pub dlq_size : ℕ

pub record Broker : Type 0 where
  pub topics : Dict Bytes Topic
  pub groups : Dict Bytes (Dict Bytes ConsumerGroup)
  pub publish_count : Dict Bytes ℕ
  pub default_partitions : ℕ
  pub max_retries : ℕ

pub data Error : Type 0 where
  topic_not_found : Bytes → Error

-- The functional options of `New`.
unfoldable pub with_partitions : ℤ → Broker → Broker
with_partitions n b = if ltb_ℤ (pos 0) n then record b { default_partitions = pos_part n } else b

unfoldable pub with_max_retries : ℤ → Broker → Broker
with_max_retries n b = if ltb_ℤ (pos 0) n then record b { max_retries = pos_part n } else b

abbrev pub default_broker : Broker
default_broker = record {
  topics = [];
  groups = [];
  publish_count = [];
  default_partitions = 4;
  max_retries = 3;
}

unfoldable pub new : List (Broker → Broker) → Broker
new opts = foldl (λ b o. o b) default_broker opts

-- The longest slice of pointers that `make` gives, with the 48 bits of address of linux/amd64.
abbrev pub max_slice : ℕ
max_slice = 2 ^ 45

abbrev pub fresh_topic : Bytes → ℕ → Topic
fresh_topic name n = record { name = name; partitions = replicate n Log.empty; dlq = Log.empty }

-- The new topic; `none` is the panic of `make` on a length that is out of range.
unfoldable pub make_topic : Bytes → ℕ → Option Topic
make_topic name n = if leb n max_slice then some (fresh_topic name n) else none

unfoldable pub ensure_topic : Broker → Bytes → Option (Broker × Topic)
unfolding make_topic
ensure_topic b name = elim (lookup name b.topics) [
  | some t ↦ some (b, t)
  | none ↦ do
    t ← make_topic name b.default_partitions
    some (record b { topics = insert name t b.topics; groups = insert name [] b.groups }, t)
]

unfoldable pub get_topic : Broker → Bytes → Option Topic
get_topic b name = lookup name b.topics

abbrev pub message : Bytes → Bytes → Bytes → ℕ → ℕ → Message
message name key value p now = record {
  key = key;
  value = value;
  topic = name;
  partition = p;
  offset = 0;
  timestamp = now;
  attempt = 1;
}

-- `b.publishCount[topicName]++`
unfoldable pub count_publish : Broker → Bytes → Broker
count_publish b name = record b {
  publish_count = insert name (or_zero 0 (lookup name b.publish_count) + 1) b.publish_count;
}

-- A write through the pointer that `topics[name]` holds.
abbrev pub with_topic : Broker → Bytes → Topic → Broker
with_topic b name t = record b { topics = insert name t b.topics }

-- `t.partitions[p].append(msg)`; `none` is the panic of an index that is out of range.
unfoldable pub append_to : Topic → ℕ → Message → Option (Topic × ℕ)
unfolding append
append_to t p msg = do
  part ← get_elem? t.partitions p
  let (part', offset) = append part msg
  some (record t { partitions = set t.partitions p part' }, offset)

unfoldable pub publish : Broker → Bytes → Bytes → Bytes → ℕ → Option (Broker × ℕ × ℕ)
unfolding append_to count_publish
publish b name key value now = do
  (b', t) ← ensure_topic b name
  let p = partition_for key (length t.partitions)
  (t', offset) ← append_to t p (message name key value p now)
  some (count_publish (with_topic b' name t') name, p, offset)

-- The group's pointer, made on first use. `none` is the panic of a write to a nil map.
unfoldable pub ensure_group : Broker → Bytes → Bytes → Option Broker
ensure_group b name group_id = do
  gs ← lookup name b.groups
  elim (lookup group_id gs) [
    | some cg ↦ some b
    | none ↦ some (record b { groups = insert name (insert group_id Group.empty gs) b.groups })
  ]

-- The second part holds the partition indexes for which `Subscribe` starts a goroutine.
unfoldable pub subscribe : Broker → Bytes → Bytes → Option (Broker × List ℕ)
unfolding ensure_topic ensure_group
subscribe b name group_id = do
  (b', t) ← ensure_topic b name
  b'' ← ensure_group b' name group_id
  some (b'', range (length t.partitions))

abbrev pub reaches : ℤ → Message → Bool
reaches from m = leb_ℤ from (pos m.offset)

unfoldable pub select_from : ℤ → List Message → List Message
select_from from [] = []
select_from from (m ∷ ms) = if reaches from m then m ∷ select_from from ms else select_from from ms

unfoldable pub replay_partitions : ℤ → List Partition → List Message
replay_partitions from [] = []
replay_partitions from (p ∷ ps) = select_from from p.log ++ replay_partitions from ps

unfoldable pub replay : Broker → Bytes → ℤ → Result Error (List Message)
unfolding get_topic
replay b name from = elim (get_topic b name) [
  | none ↦ err (topic_not_found name)
  | some t ↦ ok (replay_partitions from t.partitions)
]

unfoldable pub dlq : Broker → Bytes → Result Error (List Message)
unfolding get_topic
dlq b name = elim (get_topic b name) [ none ↦ err (topic_not_found name) | some t ↦ ok t.dlq.log ]

unfoldable pub topic_names : Broker → List Bytes
topic_names b = keys b.topics

unfoldable pub topic_stats : Broker → Bytes → Topic → TopicStats
topic_stats b name t = record {
  published = or_zero 0 (lookup name b.publish_count);
  partitions = length t.partitions;
  dlq_size = Log.length t.dlq;
}

unfoldable pub get_stats : Broker → Dict Bytes TopicStats
get_stats b = map (λ p. (p.0, topic_stats b p.0 p.1)) b.topics

-- The inner loop of `QueueDepth`.
unfoldable pub depth : List Partition → ℕ
depth [] = 0
depth (p ∷ ps) = Log.length p + depth ps

unfoldable pub queue_depth : Broker → ℕ
unfolding depth
queue_depth b = total (λ t. depth t.partitions) b.topics
