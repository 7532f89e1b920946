-- ===== src/Broker/Invariant/Settling.antt =====
-- internal/broker/broker.go: the changes that a consumer goroutine makes through its pointers.
use go_kafka.Base.{
  ℕ, ◌≡◌, refl, some, Bytes, arith, bytes_key, bytes_eq_iff, ◌==◌, Bool-cases, inl, inr, ◌∙◌, sym,
  subst,
}
use go_kafka.Base.Dict.{Dict, lookup, insert, lookup-insert, insert-Unique, Every-insert}
use go_kafka.Broker.{Broker, Topic}
use go_kafka.Broker.Log.{Message, append}
use go_kafka.Broker.Group.{ConsumerGroup, commit}
use go_kafka.Broker.Invariant.{IsBroker, IsTopic, published_count}
use go_kafka.Broker.Invariant.Topics.{append-Numbered}

-- `t.dlq.append(msg)` on the topic of a name.
abbrev pub dead_letter : Broker → Bytes → Topic → Message → Broker
dead_letter b name t m = record b {
  topics = insert name (record t { dlq = (append t.dlq m).0 }) b.topics;
}

-- `cg.commit(pIdx, offset)` on one of the groups `gs` of a topic.
abbrev pub commit_group :
    Broker → Bytes → Dict Bytes ConsumerGroup → Bytes → ConsumerGroup → ℕ → ℕ → Broker
commit_group b name gs group_id cg p_idx offset = record b {
  groups = insert name (insert group_id (commit cg p_idx offset) gs) b.groups;
}

module _ (b : Broker) (v : IsBroker b) (name : Bytes) where
  pub dead_letter-IsBroker :
      (t : Topic) (m : Message) → lookup name b.topics ≡ some t → IsBroker (dead_letter b name t m)
  dead_letter-IsBroker t m e =
      let was = v.topic name t e in
      record {
        topic =
            Every-insert (λ (k : Bytes) (x : Topic). IsTopic k (published_count b k) x) name _
              b.topics v.topic
              (record {
                named = was.named;
                some_partition = was.some_partition;
                parts = was.parts;
                dead = append-Numbered t.dlq m was.dead;
                published_all = was.published_all;
              });
        uncounted = λ k q.
            v.uncounted k (
              ground
                (arith, lookup-insert name k (record t { dlq = (append t.dlq m).0 }) b.topics));
        grouped = λ k x q. elim (Bool-cases (name == k)) [
          | inl same ↦
              v.grouped k t
                (subst (λ j. lookup j b.topics ≡ some t) ((bytes_eq_iff name k).0 same) e)
          | inr other ↦ v.grouped k x (
              sym (
                lookup-insert name k (record t { dlq = (append t.dlq m).0 }) b.topics
                ∙ (rw other refl))
              ∙ q)
        ];
        one_each = insert-Unique name _ b.topics v.one_each;
        partitions_positive = v.partitions_positive;
        partitions_fit = v.partitions_fit;
        retries_positive = v.retries_positive;
      }

  pub commit_group-IsBroker :
      (gs : Dict Bytes ConsumerGroup) (group_id : Bytes) (cg : ConsumerGroup) (p_idx offset : ℕ)
      → IsBroker (commit_group b name gs group_id cg p_idx offset)
  commit_group-IsBroker gs group_id cg p_idx offset = record {
    topic = v.topic;
    uncounted = v.uncounted;
    grouped = λ k x q. elim (Bool-cases (name == k)) [
      | inl same ↦ (
        insert group_id (commit cg p_idx offset) gs,
        lookup-insert name k (insert group_id (commit cg p_idx offset) gs) b.groups
            ∙ (rw same refl),
      )
      | inr other ↦
          let g = v.grouped k x q in
          (
            g.0,
            lookup-insert name k (insert group_id (commit cg p_idx offset) gs) b.groups
                ∙ (rw other g.1),
          )
    ];
    one_each = v.one_each;
    partitions_positive = v.partitions_positive;
    partitions_fit = v.partitions_fit;
    retries_positive = v.retries_positive;
  }
