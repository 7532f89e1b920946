-- ===== src/Broker/Publishing/Moves.antt =====
-- internal/broker/broker.go: what one move of a call of `Publish` does to the broker. The broker `c` has
-- counted the messages that `b` has stored and not yet counted.
use go_kafka.Base.{
  ℕ, ◌+◌, ◌<◌, ◌≡◌, refl, inl, inr, none, some, Bytes, arith, length, get_elem?, Option-cases,
  Bool-cases, ap, ◌∙◌, sym, subst, ◌==◌, if◌then◌else◌, bytes_key, bytes_eq_iff,
}
use go_kafka.Base.Dict.{Dict, lookup, insert, lookup-insert_self, Unique}
use go_kafka.Broker.{Broker, Topic, with_topic, count_publish, message, fresh_topic}
use go_kafka.Broker.Log.{Message, Partition}
use go_kafka.Broker.Fnv.{partition_for}
use go_kafka.Broker.Group.{ConsumerGroup}
use go_kafka.Broker.Invariant.{IsBroker, IsTopic, published_count}
use go_kafka.Broker.Invariant.Topics.{stored, stored-IsTopic}
use go_kafka.Broker.Invariant.Ensure.{ensured, ensured-IsBroker, ensure_old, ensure_new, created}
use go_kafka.Broker.Invariant.Publish.{published, published-IsBroker, count_self, count_other}
use go_kafka.Broker.Invariant.Settling.{
  dead_letter, commit_group, dead_letter-IsBroker, commit_group-IsBroker,
}

-- `c` is `b` with `owed` messages more in its counts.
pub record Owes (b : Broker) (owed : Bytes → ℕ) : Type 0 where
  pub c : Broker
  pub whole : IsBroker c
  pub same_topics : c.topics ≡ b.topics
  pub same_groups : c.groups ≡ b.groups
  pub same_partitions : c.default_partitions ≡ b.default_partitions
  pub same_retries : c.max_retries ≡ b.max_retries
  pub counts : (j : Bytes) → published_count c j ≡ published_count b j + owed j

-- A broker to which nothing is owed is well-formed.
pub Owes-IsBroker :
    (b : Broker) (owed : Bytes → ℕ) → ((j : Bytes) → owed j ≡ 0) → Owes b owed → IsBroker b
Owes-IsBroker b owed none_owed g =
    let same : (j : Bytes) → published_count g.c j ≡ published_count b j =
      λ j. omega (arith, g.counts j, none_owed j) in
    record {
      topic = λ name t q.
          subst (λ n. IsTopic name n t) (same name)
            (g.whole.topic name t (ap (lookup name) g.same_topics ∙ q));
      uncounted =
          λ name q. sym (same name) ∙ g.whole.uncounted name (ap (lookup name) g.same_topics ∙ q);
      grouped = λ name t q.
          let (gs, h) = g.whole.grouped name t (ap (lookup name) g.same_topics ∙ q) in
          (gs, sym (ap (lookup name) g.same_groups) ∙ h);
      one_each = subst Unique g.same_topics g.whole.one_each;
      partitions_positive = rw (← g.same_partitions) g.whole.partitions_positive;
      partitions_fit = rw (← g.same_partitions) g.whole.partitions_fit;
      retries_positive = rw (← g.same_retries) g.whole.retries_positive;
    }

pub IsBroker-Owes :
    (b : Broker) (owed : Bytes → ℕ) → ((j : Bytes) → owed j ≡ 0) → IsBroker b → Owes b owed
IsBroker-Owes b owed none_owed v = record {
  c = b;
  whole = v;
  same_topics = refl;
  same_groups = refl;
  same_partitions = refl;
  same_retries = refl;
  counts = λ j. omega (arith, none_owed j);
}

module _ (b : Broker) (owed : Bytes → ℕ) (g : Owes b owed) (name : Bytes) where
  pub ensured-Owes : Owes (ensured b name).0 owed
  ensured-Owes = elim (Option-cases (lookup name b.topics)) [
    | inl e ↦
        let e' : lookup name g.c.topics ≡ none = ap (lookup name) g.same_topics ∙ e in
        let w = (ensured-IsBroker g.c name g.whole).0 in
        rw (ensure_new b name e) (record {
          c = created g.c name;
          whole = subst (λ (r : Broker × Topic). IsBroker r.0) (ensure_new g.c name e') w;
          same_topics = rw (g.same_topics, g.same_partitions) refl;
          same_groups = rw g.same_groups refl;
          same_partitions = g.same_partitions;
          same_retries = g.same_retries;
          counts = g.counts;
        })
    | inr (t, e) ↦ rw (ensure_old b name e) g
  ]

-- One message of the topic `name`.
abbrev pub one_of : Bytes → Bytes → ℕ
one_of name j = if name == j then 1 else 0

count-one :
    (b : Broker) (name : Bytes) (t : Topic) (j : Bytes)
    → published_count (published b name t) j ≡ published_count b j + one_of name j
count-one b name t j = elim (Bool-cases (name == j)) [
  | inl same ↦ let e = (bytes_eq_iff name j).0 same in rw (same, ← e) (count_self b name t)
  | inr other ↦ rw other (count_other b name t j other ∙ omega arith)
]

module _ (b : Broker) (owed : Bytes → ℕ) (g : Owes b owed) (name : Bytes) where
  -- A message that is stored is owed to the counts.
  pub stored-Owes :
      (t : Topic) (key value : Bytes) (p now : ℕ) (part : Partition)
      → lookup name b.topics ≡ some t
      → get_elem? t.partitions p ≡ some part
      → p ≡ partition_for key (length t.partitions)
      → Owes
          (with_topic b name (stored t p part (message name key value p now)))
          (λ j. owed j + one_of name j)
  unfolding count_publish
  stored-Owes t key value p now part e at q =
      let u = stored t p part (message name key value p now) in
      let e' : lookup name g.c.topics ≡ some t = ap (lookup name) g.same_topics ∙ e in
      let h =
        stored-IsTopic name _ t p (message name key value p now) (g.whole.topic name t e') at
          (refl, refl, sym q) in
      record {
        c = published g.c name u;
        whole = published-IsBroker g.c name u g.whole e' h;
        same_topics = ap (insert name u) g.same_topics;
        same_groups = g.same_groups;
        same_partitions = g.same_partitions;
        same_retries = g.same_retries;
        counts = λ j. omega (arith, count-one g.c name u j, g.counts j);
      }

  -- The count pays it.
  pub count-Owes :
      (rest : Bytes → ℕ)
      → ((j : Bytes) → owed j ≡ rest j + one_of name j)
      → Owes (count_publish b name) rest
  unfolding count_publish
  count-Owes rest split = record {
    c = g.c;
    whole = g.whole;
    same_topics = g.same_topics;
    same_groups = g.same_groups;
    same_partitions = g.same_partitions;
    same_retries = g.same_retries;
    counts = λ j. omega (arith, count-one b name (fresh_topic name 1) j, g.counts j, split j);
  }

  pub dead_letter-Owes :
      (t : Topic) (m : Message) → lookup name b.topics ≡ some t → Owes (dead_letter b name t m) owed
  dead_letter-Owes t m e = record {
    c = dead_letter g.c name t m;
    whole = dead_letter-IsBroker g.c g.whole name t m (ap (lookup name) g.same_topics ∙ e);
    same_topics = ap (insert name _) g.same_topics;
    same_groups = g.same_groups;
    same_partitions = g.same_partitions;
    same_retries = g.same_retries;
    counts = g.counts;
  }

  pub commit_group-Owes :
      (gs : Dict Bytes ConsumerGroup) (group_id : Bytes) (cg : ConsumerGroup) (p_idx offset : ℕ)
      → Owes (commit_group b name gs group_id cg p_idx offset) owed
  commit_group-Owes gs group_id cg p_idx offset = record {
    c = commit_group g.c name gs group_id cg p_idx offset;
    whole = commit_group-IsBroker g.c g.whole name gs group_id cg p_idx offset;
    same_topics = g.same_topics;
    same_groups = ap (insert name _) g.same_groups;
    same_partitions = g.same_partitions;
    same_retries = g.same_retries;
    counts = g.counts;
  }

pub Owes-ext :
    {b : Broker} {owed rest : Bytes → ℕ}
    → ((j : Bytes) → rest j ≡ owed j)
    → Owes b owed
    → Owes b rest
Owes-ext same g = record {
  c = g.c;
  whole = g.whole;
  same_topics = g.same_topics;
  same_groups = g.same_groups;
  same_partitions = g.same_partitions;
  same_retries = g.same_retries;
  counts = λ j. omega (arith, g.counts j, same j);
}

pub Owes-known :
    (b : Broker) (owed : Bytes → ℕ) (g : Owes b owed) (name : Bytes) (t : Topic)
    → lookup name b.topics ≡ some t
    → 0 < length t.partitions
Owes-known b owed g name t e =
    (g.whole.topic name t (ap (lookup name) g.same_topics ∙ e)).some_partition

pub ensured-known :
    (b : Broker) (name : Bytes) → lookup name (ensured b name).0.topics ≡ some (ensured b name).1
ensured-known b name = elim (Option-cases (lookup name b.topics)) [
  | inl e ↦ rw (ensure_new b name e) (lookup-insert_self name _ b.topics)
  | inr (t, e) ↦ rw (ensure_old b name e) e
]
