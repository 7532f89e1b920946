-- ===== src/Broker/Invariant/Publish.antt =====
-- internal/broker/broker.go: `Publish` on a well-formed broker.
use mathlib.Core.Option.{some-injective}
use mathlib.Core.Path.{subst₂}
use go_kafka.Base.{
  ℕ, ◌+◌, ◌≡◌, refl, inl, inr, false, none, some, Bytes, arith, length, get_elem?, get_elem?-total,
  Bool-cases, ap, ◌∙◌, sym, subst, ◌==◌, bytes_key,
}
use go_kafka.Base.Dict.{
  Dict, lookup, insert, or_zero, lookup-insert, lookup-insert_self, lookup-insert_ne,
  lookup-insert-cases, lookup-insert-none, insert-Unique,
}
use go_kafka.Broker.{Broker, Topic, publish, count_publish, with_topic, message}
use go_kafka.Broker.Log.{Partition}
use go_kafka.Broker.Group.{ConsumerGroup}
use go_kafka.Broker.Fnv.{partition_for}
use go_kafka.Broker.Invariant.{IsTopic, IsBroker, published_count}
use go_kafka.Broker.Invariant.Topics.{partition_for-lt, stored, append_to-stored, stored-IsTopic}
use go_kafka.Broker.Invariant.Ensure.{ensured, ensure_topic-ensured, ensured-IsBroker}

module _ (b : Broker) (name : Bytes) (t : Topic) where
  -- The broker after a message more under a topic that it has.
  abbrev pub published : Broker
  published = count_publish (with_topic b name t) name

  pub topics-published : published.topics ≡ insert name t b.topics
  unfolding count_publish
  topics-published = refl

  pub count_self : published_count published name ≡ published_count b name + 1
  unfolding count_publish
  count_self = ap (or_zero 0) (lookup-insert_self name _ b.publish_count)

  pub count_other :
      (j : Bytes) → (name == j) ≡ false → published_count published j ≡ published_count b j
  unfolding count_publish
  count_other j other = ap (or_zero 0) (lookup-insert_ne name j _ b.publish_count other)

  published-topic :
      IsBroker b
      → IsTopic name (published_count b name + 1) t
      → (j : Bytes) (u : Topic) → lookup j published.topics ≡ some u
      → IsTopic j (published_count published j) u
  unfolding count_publish
  published-topic v h j u q = elim (lookup-insert-cases name j t b.topics q) [
    | inl (same, it) ↦
        subst₂ (λ k w. IsTopic k (published_count published k) w) same it
          (subst (λ c. IsTopic name c t) (sym count_self) h)
    | inr (other, old) ↦ subst (λ c. IsTopic j c u) (sym (count_other j other)) (v.topic j u old)
  ]

  published-uncounted :
      IsBroker b → (j : Bytes) → lookup j published.topics ≡ none → published_count published j ≡ 0
  unfolding count_publish
  published-uncounted v j q = elim (Bool-cases (name == j)) [
    | inl same ↦ absurd (ground (arith, lookup-insert name j t b.topics))
    | inr other ↦ count_other j other ∙ v.uncounted j (lookup-insert-none name j t b.topics q)
  ]

  published-grouped :
      {old : Topic}
      → IsBroker b
      → lookup name b.topics ≡ some old
      → (j : Bytes) (u : Topic) → lookup j published.topics ≡ some u
      → (gs : Dict Bytes ConsumerGroup) × (lookup j published.groups ≡ some gs)
  unfolding count_publish
  published-grouped {old} v e j u q = elim (lookup-insert-cases name j t b.topics q) [
    | inl (same, _) ↦ v.grouped j old (subst (λ k. lookup k b.topics ≡ some old) same e)
    | inr (_, before) ↦ v.grouped j u before
  ]

  pub published-IsBroker :
      {old : Topic}
      → IsBroker b
      → lookup name b.topics ≡ some old
      → IsTopic name (published_count b name + 1) t
      → IsBroker published
  published-IsBroker v e h = record {
    topic = published-topic v h;
    uncounted = published-uncounted v;
    grouped = published-grouped v e;
    one_each = unfold count_publish in insert-Unique name t b.topics v.one_each;
    partitions_positive = unfold count_publish in v.partitions_positive;
    partitions_fit = unfold count_publish in v.partitions_fit;
    retries_positive = unfold count_publish in v.retries_positive;
  }

-- What `Publish` does, in terms of the partition that it appends to.
pub record Publication (b : Broker) (name key value : Bytes) (now : ℕ) : Type 0 where
  pub topic : Topic
  pub part : Partition
  pub known : lookup name (ensured b name).0.topics ≡ some topic
  pub room : IsTopic name (published_count (ensured b name).0 name) topic
  pub at : get_elem? topic.partitions (partition_for key (length topic.partitions)) ≡ some part
  pub result :
      let p = partition_for key (length topic.partitions) in
      publish b name key value now
      ≡ some (
        published (ensured b name).0 name (stored topic p part (message name key value p now)),
        p,
        length part.log,
      )

module _ (b : Broker) (name key value : Bytes) (now : ℕ) where
  pub publication : IsBroker b → Publication b name key value now
  unfolding publish
  publication v =
      let (v', e) = ensured-IsBroker b name v in
      let t = (ensured b name).1 in
      let w = v'.topic name t e in
      let p = partition_for key (length t.partitions) in
      let (part, q) = get_elem?-total t.partitions p (partition_for-lt key _ w.some_partition) in
      record {
        topic = t;
        part = part;
        known = e;
        room = w;
        at = q;
        result =
            rw
              (
                ensure_topic-ensured b name v.partitions_fit,
                append_to-stored t p (message name key value p now) q,
              )
              refl;
      }

  -- On a well-formed broker `Publish` does not panic, and leaves a well-formed broker.
  pub publish-IsBroker :
      IsBroker b → (r : Broker × ℕ × ℕ) × (publish b name key value now ≡ some r) × IsBroker r.0
  publish-IsBroker v =
      let a = publication v in
      let p = partition_for key (length a.topic.partitions) in
      let m = message name key value p now in
      let h = stored-IsTopic name _ a.topic p m a.room a.at (refl, refl, refl) in
      (_, a.result, published-IsBroker _ name _ (ensured-IsBroker b name v).0 a.known h)

  pub publish_keeps :
      {c : Broker} {p offset : ℕ}
      → IsBroker b
      → publish b name key value now ≡ some (c, p, offset)
      → IsBroker c
  publish_keeps {c} {p} {offset} v e =
      let (r, h, w) = publish-IsBroker v in
      subst (λ (x : Broker × ℕ × ℕ). IsBroker x.0) (some-injective r (c, p, offset) (sym h ∙ e)) w
