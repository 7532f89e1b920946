-- ===== src/Broker/Invariant.antt =====
-- internal/broker/broker.go: what holds of the broker between two operations.
pub mod Logs
pub mod Topics
pub mod Ensure
pub mod Publish
pub mod Setup
pub mod Settling
use go_kafka.Base.{ℕ, suc, ◌<◌, ◌≡◌, ◌≤◌, List, [], ◌∷◌, some, none, Bytes, length, All, bytes_key}
use go_kafka.Base.Dict.{Dict, lookup, or_zero, Unique}
use go_kafka.Broker.{Broker, Topic, depth, max_slice}
use go_kafka.Broker.Log.{Message, Partition}
use go_kafka.Broker.Fnv.{partition_for}
use go_kafka.Broker.Group.{ConsumerGroup}
use Logs.{Numbered}

-- Where the messages of partition `i` of a topic with `n` partitions belong.
abbrev pub Routed : Bytes → ℕ → ℕ → Message → Type 0
Routed name n i m = (m.topic ≡ name) × (m.partition ≡ i) × (partition_for m.key n ≡ i)

abbrev pub Parts : Bytes → ℕ → ℕ → List Partition → Type 0
Parts name n i [] = Unit
Parts name n i (p ∷ ps) = Numbered 0 p.log × All (Routed name n i) p.log × Parts name n (suc i) ps

-- A topic under its name, with the number of messages that were published to it.
pub record IsTopic (name : Bytes) (published : ℕ) (t : Topic) : Type 0 where
  pub named : t.name ≡ name
  pub some_partition : 0 < length t.partitions
  pub parts : Parts name (length t.partitions) 0 t.partitions
  pub dead : Numbered 0 t.dlq.log
  pub published_all : depth t.partitions ≡ published

abbrev pub published_count : Broker → Bytes → ℕ
published_count b name = or_zero 0 (lookup name b.publish_count)

pub record IsBroker (b : Broker) : Type 0 where
  pub topic :
      (name : Bytes) (t : Topic)
      → lookup name b.topics ≡ some t
      → IsTopic name (published_count b name) t
  pub uncounted : (name : Bytes) → lookup name b.topics ≡ none → published_count b name ≡ 0
  pub grouped :
      (name : Bytes) (t : Topic)
      → lookup name b.topics ≡ some t
      → (gs : Dict Bytes ConsumerGroup) × (lookup name b.groups ≡ some gs)
  pub one_each : Unique b.topics
  pub partitions_positive : 0 < b.default_partitions
  pub partitions_fit : b.default_partitions ≤ max_slice
  pub retries_positive : 0 < b.max_retries
