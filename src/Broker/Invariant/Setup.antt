-- ===== src/Broker/Invariant/Setup.antt =====
-- internal/broker/broker.go: `New` with its options, and `Subscribe`.
use go_kafka.Base.{
  ◌≡◌, ◌≤◌, ◌<◌, none, refl, inl, inr, [], ◌∷◌, some, Bytes, arith, length, range, Option-cases,
  Bool-cases, ◌∙◌, ◌==◌, bytes_key,
}
use go_kafka.Base.Int.{ℤ, pos_part}
use go_kafka.Base.Dict.{Dict, lookup, insert, lookup-insert, lookup-insert_ne}
use go_kafka.Broker.{
  Broker, Topic, new, with_partitions, with_max_retries, max_slice, ensure_topic, make_topic,
  ensure_group, subscribe,
}
use go_kafka.Broker.Group
use go_kafka.Broker.Group.{ConsumerGroup}
use go_kafka.Broker.Invariant.{IsBroker}
use go_kafka.Broker.Invariant.Ensure.{ensured, ensured-IsBroker, ensure_topic-ensured}

-- The options set positive counts only, so `New` has no topic without partitions to offer.
pub new-IsBroker :
    (n m : ℤ)
    → pos_part n ≤ max_slice
    → IsBroker (new (with_partitions n ∷ with_max_retries m ∷ []))
unfolding new with_partitions with_max_retries lookup
new-IsBroker n m small = record {
  topic = λ j t q. absurd (ground arith);
  uncounted = λ j q. ground arith;
  grouped = λ j t q. absurd (ground arith);
  one_each =
      let e : (new (with_partitions n ∷ with_max_retries m ∷ [])).topics ≡ [] = ground arith in
      rw e tt;
  partitions_positive = ground arith;
  partitions_fit = ground (arith, small);
  retries_positive = ground arith;
}

-- With more partitions than a slice can have, the first topic makes `Subscribe` panic.
pub subscribe-panics :
    (n m : ℤ) (name group_id : Bytes)
    → max_slice < pos_part n
    → subscribe (new (with_partitions n ∷ with_max_retries m ∷ [])) name group_id ≡ none
unfolding subscribe ensure_topic make_topic new with_partitions with_max_retries lookup
subscribe-panics n m name group_id many = ground (arith, many)

-- New groups under one topic.
abbrev regrouped : Broker → Bytes → Dict Bytes ConsumerGroup → Broker
regrouped b name gs = record b { groups = insert name gs b.groups }

regrouped-IsBroker :
    (b : Broker) (name : Bytes) (gs : Dict Bytes ConsumerGroup)
    → IsBroker b
    → IsBroker (regrouped b name gs)
regrouped-IsBroker b name gs v = record {
  topic = v.topic;
  uncounted = v.uncounted;
  grouped = λ j t q. elim (Bool-cases (name == j)) [
    | inl same ↦ (gs, ground (arith, lookup-insert name j gs b.groups))
    | inr other ↦
        let (hs, h) = v.grouped j t q in (hs, lookup-insert_ne name j gs b.groups other ∙ h)
  ];
  one_each = v.one_each;
  partitions_positive = v.partitions_positive;
  partitions_fit = v.partitions_fit;
  retries_positive = v.retries_positive;
}

ensure_group-IsBroker :
    (b : Broker) (name group_id : Bytes) {t : Topic}
    → IsBroker b
    → lookup name b.topics ≡ some t
    → (c : Broker) × (ensure_group b name group_id ≡ some c) × (c.topics ≡ b.topics) × IsBroker c
unfolding ensure_group
ensure_group-IsBroker b name group_id {t} v e =
    let (gs, h) = v.grouped name t e in
    elim (Option-cases (lookup group_id gs)) [
      | inl new_group ↦ (
        regrouped b name (insert group_id Group.empty gs),
        ground arith,
        refl,
        regrouped-IsBroker b name _ v,
      )
      | inr (cg, old_group) ↦ (b, ground arith, refl, v)
    ]

module _ (b : Broker) (name group_id : Bytes) where
  -- `Subscribe` finds the groups of its topic, leaves a well-formed broker, and starts a goroutine
  -- for each partition.
  pub subscribe-IsBroker :
      IsBroker b
      → (c : Broker) × (t : Topic) × (lookup name c.topics ≡ some t)
        × (subscribe b name group_id ≡ some (c, range (length t.partitions)))
        × IsBroker c
  unfolding subscribe
  subscribe-IsBroker v =
      let (v', e) = ensured-IsBroker b name v in
      let (c, r, same, w) = ensure_group-IsBroker (ensured b name).0 name group_id v' e in
      (
        c,
        (ensured b name).1,
        rw same e,
        rw (ensure_topic-ensured b name v.partitions_fit, r) refl,
        w,
      )
