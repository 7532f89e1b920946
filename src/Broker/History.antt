-- ===== src/Broker/History.antt =====
-- internal/broker/broker.go: what `Publish` adds to the broker's logs, and what it leaves alone.
use mathlib.Core.Option.{some-injective}
use go_kafka.Base.{
  ℕ, ◌<◌, ◌≡◌, some, Bytes, length, length-set, get_elem?-lt, ap, ◌∙◌, sym, subst, bytes_key,
}
use go_kafka.Base.Int.{pos}
use go_kafka.Base.Dict.{lookup, insert, lookup-insert_self}
use go_kafka.Broker.{Broker, Topic, publish, message}
use go_kafka.Broker.Log
use go_kafka.Broker.Log.{Message, Partition, append}
use go_kafka.Broker.Fnv.{partition_for}
use go_kafka.Broker.Invariant.{IsBroker}
use go_kafka.Broker.Invariant.Topics.{stored}
use go_kafka.Broker.Invariant.Ensure.{ensured}
use go_kafka.Broker.Invariant.Publish.{topics-published, Publication, publication, published}
use go_kafka.Broker.Logs.{
  get-pos, in_topic-stored, in_topic, fetch, Extends, Extends-trans, replace-Extends,
  ensured-Extends, stored_keeps,
}

module _ {b : Broker} {name key value : Bytes} {now : ℕ}
    (a : Publication b name key value now) where
  open a use {topic, part}

  -- The topic, the broker and the answer that `result` names.
  abbrev index : ℕ
  index = partition_for key (length topic.partitions)

  abbrev topic_after : Topic
  topic_after = stored topic index part (message name key value index now)

  abbrev broker_after : Broker
  broker_after = published (ensured b name).0 name topic_after

  topics_after : broker_after.topics ≡ insert name topic_after (ensured b name).0.topics
  topics_after = topics-published (ensured b name).0 name topic_after

  lookup_after : lookup name broker_after.topics ≡ some topic_after
  lookup_after = rw topics_after (lookup-insert_self name topic_after (ensured b name).0.topics)

  width_after : length topic_after.partitions ≡ length topic.partitions
  width_after = length-set topic.partitions index (append part _).0

  after-Extends : Extends b broker_after
  after-Extends = Extends-trans (ensured-Extends b name) (
      replace-Extends (ensured b name).0 broker_after name topic topic_after a.known topics_after
        width_after (stored_keeps topic index (message name key value index now) a.at))

  fetch_after :
      fetch broker_after name index (length part.log)
      ≡ some (record (message name key value index now) { offset = length part.log })
  fetch_after =
      rw lookup_after (in_topic-stored topic index (message name key value index now) a.at)

  index_after :
      (t : Topic)
      → lookup name broker_after.topics ≡ some t
      → index ≡ partition_for key (length t.partitions)
  index_after t e = ap (partition_for key) (
      sym width_after
      ∙ ap (λ (u : Topic). length u.partitions)
          (some-injective topic_after t (sym lookup_after ∙ e)))

  fresh_after :
      (offset : ℕ) (m : Message) → fetch b name index offset ≡ some m → offset < length part.log
  fresh_after offset m h =
      let g = (ensured-Extends b name).kept name index offset m h in
      let g' : in_topic topic index offset ≡ some m = rw a.known at g in
      let g'' : Log.get part (pos offset) ≡ some m = rw a.at at g' in
      get_elem?-lt part.log offset (sym (get-pos part offset) ∙ g'')

module _ (b : Broker) (name key value : Bytes) (now : ℕ) where
  -- `Publish` adds to the logs: every message keeps its topic, partition and offset, and no topic
  -- changes its number of partitions.
  pub publish-Extends :
      {c : Broker} {p offset : ℕ}
      → IsBroker b
      → publish b name key value now ≡ some (c, p, offset)
      → Extends b c
  publish-Extends {c} {p} {offset} v e =
      let a = publication b name key value now v in
      subst (λ (r : Broker × ℕ × ℕ). Extends b r.0)
        (some-injective _ (c, p, offset) (sym a.result ∙ e)) (after-Extends a)

  -- The offset lies behind all that the partition held.
  pub publish_fresh :
      {c : Broker} {p offset : ℕ}
      → IsBroker b
      → publish b name key value now ≡ some (c, p, offset)
      → (o : ℕ) (m : Message) → fetch b name p o ≡ some m
      → o < offset
  publish_fresh {c} {p} {offset} v e =
      let a = publication b name key value now v in
      subst (λ (r : Broker × ℕ × ℕ). (o : ℕ) (m : Message) → fetch b name r.1 o ≡ some m → o < r.2)
        (some-injective _ (c, p, offset) (sym a.result ∙ e)) (fresh_after a)

  -- The message can be read where `Publish` says that it put it, and `partitionFor` chose the
  -- partition.
  pub publish-fetch :
      {c : Broker} {p offset : ℕ}
      → IsBroker b
      → publish b name key value now ≡ some (c, p, offset)
      → (fetch c name p offset ≡ some (record (message name key value p now) { offset = offset }))
        × ((t : Topic)
            → lookup name c.topics ≡ some t
            → p ≡ partition_for key (length t.partitions))
  publish-fetch {c} {p} {offset} v e =
      let a = publication b name key value now v in
      subst
        (λ (r : Broker × ℕ × ℕ).
          (fetch r.0 name r.1 r.2 ≡ some (record (message name key value r.1 now) { offset = r.2 }))
          × ((t : Topic)
              → lookup name r.0.topics ≡ some t
              → r.1 ≡ partition_for key (length t.partitions)))
        (some-injective _ (c, p, offset) (sym a.result ∙ e)) (fetch_after a, index_after a)

-- The topic is there after a publication.
pub publish_topic :
    (b : Broker) (name key value : Bytes) (now : ℕ) {c : Broker} {p offset : ℕ}
    → IsBroker b
    → publish b name key value now ≡ some (c, p, offset)
    → (t : Topic) × (lookup name c.topics ≡ some t)
publish_topic b name key value now {c} {p} {offset} v e =
    let a = publication b name key value now v in
    subst (λ (r : Broker × ℕ × ℕ). (t : Topic) × (lookup name r.0.topics ≡ some t))
      (some-injective _ (c, p, offset) (sym a.result ∙ e)) (topic_after a, lookup_after a)

-- Messages of one topic with one key go to one partition, the later one under a larger offset,
-- whatever the broker did in between.
pub publish_order :
    (name key : Bytes) (x y : Bytes) (now later : ℕ) (b c d e : Broker) (p q offset offset' : ℕ)
    → IsBroker b
    → publish b name key x now ≡ some (c, p, offset)
    → Extends c d
    → IsBroker d
    → publish d name key y later ≡ some (e, q, offset')
    → (q ≡ p) × (offset < offset')
publish_order name key x y now later b c d e p q offset offset' v first between w second =
    let (t, ht) = publish_topic b name key x now v first in
    let (u, hu, eu) =
      (Extends-trans between (publish-Extends d name key y later w second)).same_width name t ht in
    let (here, at_p) = publish-fetch b name key x now v first in
    let same : q ≡ p =
      (publish-fetch d name key y later w second).1 u hu
      ∙ ap (partition_for key) eu
      ∙ sym (at_p t ht) in
    let m = record (message name key x p now) { offset = offset } in
    (
      same,
      publish_fresh d name key y later w second offset m
          (rw same (between.kept name p offset m here)),
    )
