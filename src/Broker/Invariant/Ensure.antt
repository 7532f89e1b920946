-- ===== src/Broker/Invariant/Ensure.antt =====
-- internal/broker/broker.go: `ensureTopic` keeps the broker well-formed.
use go_kafka.Base.{
  ℕ, zero, suc, ◌<◌, ◌≤◌, leb, true, ◌≡◌, refl, inl, inr, [], none, some, Bytes, arith,
  length-replicate, replicate, Option-cases, ◌∙◌, bytes_key,
}
use go_kafka.Base.Dict.{
  Dict, lookup, insert, lookup-insert_self, lookup-insert_ne, lookup-insert-cases,
  lookup-insert-none, insert-Unique, Every-insert,
}
use go_kafka.Broker.{Broker, Topic, ensure_topic, make_topic, max_slice, depth, fresh_topic}
use go_kafka.Broker.Log
use go_kafka.Broker.Log.{Message, Partition}
use go_kafka.Broker.Group.{ConsumerGroup}
use go_kafka.Broker.Invariant.{Parts, IsTopic, IsBroker, published_count}

Parts-fresh : (name : Bytes) (n i k : ℕ) → Parts name n i (replicate k Log.empty)
Parts-fresh name n i zero = tt
Parts-fresh name n i (suc k) = (tt, tt, Parts-fresh name n (suc i) k)

depth-fresh : (k : ℕ) → depth (replicate k Log.empty) ≡ 0
unfolding depth Log.length
depth-fresh zero = refl
depth-fresh (suc k) = omega (arith, depth-fresh k)

fresh-IsTopic : (name : Bytes) (n : ℕ) → 0 < n → IsTopic name 0 (fresh_topic name n)
fresh-IsTopic name n h = record {
  named = refl;
  some_partition = rw (length-replicate n Log.empty) h;
  parts = Parts-fresh name _ 0 n;
  dead = tt;
  published_all = depth-fresh n;
}

-- What `ensureTopic` does where it does not panic.
unfoldable pub ensured : Broker → Bytes → Broker × Topic
ensured b name = elim (lookup name b.topics) [
  | some t ↦ (b, t)
  | none ↦
      let t = fresh_topic name b.default_partitions in
      (record b { topics = insert name t b.topics; groups = insert name [] b.groups }, t)
]

pub ensure_topic-ensured :
    (b : Broker) (name : Bytes)
    → b.default_partitions ≤ max_slice
    → ensure_topic b name ≡ some (ensured b name)
unfolding ensure_topic make_topic ensured
ensure_topic-ensured b name fit =
    let q : leb b.default_partitions max_slice ≡ true = ground (arith, fit) in
    elim (Option-cases (lookup name b.topics)) [
      | inl e ↦ rw (e, q, ensure_topic, ensured, make_topic) refl
      | inr (t, e) ↦ rw (e, ensure_topic, ensured) refl
    ]

module _ (b : Broker) (name : Bytes) where
  -- The broker after the creation of a topic.
  abbrev pub created : Broker
  created = record b {
    topics = insert name (fresh_topic name b.default_partitions) b.topics;
    groups = insert name [] b.groups;
  }

  pub ensure_old : {t : Topic} → lookup name b.topics ≡ some t → ensured b name ≡ (b, t)
  unfolding ensured
  ensure_old e = rw (e, ensured)

  pub ensure_new :
      lookup name b.topics ≡ none
      → ensured b name ≡ (created, fresh_topic name b.default_partitions)
  unfolding ensured
  ensure_new e = rw (e, ensured)

  created-grouped :
      IsBroker b
      → (j : Bytes) {t : Topic} → lookup j created.topics ≡ some t
      → (gs : Dict Bytes ConsumerGroup) × (lookup j created.groups ≡ some gs)
  created-grouped v j {t} q = elim (lookup-insert-cases name j _ b.topics q) [
    | inl (same, _) ↦ ([], rw (← same) (lookup-insert_self name [] b.groups))
    | inr (other, old) ↦
        let (gs, h) = v.grouped j t old in (gs, lookup-insert_ne name j [] b.groups other ∙ h)
  ]

  created-IsBroker : IsBroker b → lookup name b.topics ≡ none → IsBroker created
  created-IsBroker v e = record {
    topic =
        Every-insert (λ j t. IsTopic j (published_count b j) t) name _ b.topics v.topic
          (rw (v.uncounted name e) (fresh-IsTopic name b.default_partitions v.partitions_positive));
    uncounted = λ j q. v.uncounted j (lookup-insert-none name j _ b.topics q);
    grouped = λ j t q. created-grouped v j q;
    one_each = insert-Unique name _ b.topics v.one_each;
    partitions_positive = v.partitions_positive;
    partitions_fit = v.partitions_fit;
    retries_positive = v.retries_positive;
  }

  -- `ensureTopic` returns the topic that the broker then has under that name.
  pub ensured-IsBroker :
      IsBroker b
      → IsBroker (ensured b name).0
        × (lookup name (ensured b name).0.topics ≡ some (ensured b name).1)
  ensured-IsBroker v = elim (Option-cases (lookup name b.topics)) [
    | inl e ↦ rw (ensure_new e) (created-IsBroker v e, lookup-insert_self name _ b.topics)
    | inr (t, e) ↦ rw (ensure_old e) (v, e)
  ]
