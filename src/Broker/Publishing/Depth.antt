-- ===== src/Broker/Publishing/Depth.antt =====
-- internal/broker/broker.go: `QueueDepth` beside the published counts of `GetStats`, while calls of
-- `Publish` run.
use go_kafka.Base.{
  ℕ, suc, ◌+◌, ◌≡◌, refl, none, some, List, [], ◌∷◌, Bytes, arith, ap, All, ◌∙◌, sym, subst,
  bytes_key, map, Option-cases, inl, inr, sum_of, get_elem?, bytes_eq_iff,
}
use go_kafka.Base.Dict.{Dict, lookup, total, Every-All, Unique}
use go_kafka.Broker.{Broker, Topic, queue_depth, depth, topic_stats, get_stats, TopicStats}
use go_kafka.Broker.Invariant.{IsBroker, IsTopic, published_count}
use go_kafka.Broker.Publishing.{
  Call, Caller, Phase, entering, appending, counting, returned, System, Reach,
}
use go_kafka.Broker.Publishing.Moves.{one_of}
use go_kafka.Broker.Publishing.Calls.{Holds, debt}
use go_kafka.Broker.Publishing.Reached.{owed, Inv, Reach-Inv, start-Inv}

-- A number for each topic, summed over the topics.
abbrev over : (Bytes → ℕ) → Dict Bytes Topic → ℕ
over f [] = 0
over f ((name, t) ∷ m) = f name + over f m

over-zero : (m : Dict Bytes Topic) → over (λ j. 0) m ≡ 0
over-zero [] = refl
over-zero ((name, t) ∷ m) = omega (arith, over-zero m)

over-add : (f g : Bytes → ℕ) (m : Dict Bytes Topic) → over (λ j. f j + g j) m ≡ over f m + over g m
over-add f g [] = refl
over-add f g ((name, t) ∷ m) = omega (arith, over-add f g m)

over-absent :
    (name : Bytes) (m : Dict Bytes Topic) → lookup name m ≡ none → over (one_of name) m ≡ 0
unfolding lookup
over-absent name [] e = refl
over-absent name ((k, t) ∷ m) e =
    ground (arith, over-absent name m, bytes_eq_iff k name, bytes_eq_iff name k)

over-one :
    (name : Bytes) (t : Topic) (m : Dict Bytes Topic)
    → Unique m
    → lookup name m ≡ some t
    → over (one_of name) m ≡ 1
unfolding lookup
over-one name t [] u e = ground arith
over-one name t ((k, w) ∷ m) u e = ground (
  arith,
  over-one name t m u.1,
  over-absent name m,
  bytes_eq_iff k name,
  bytes_eq_iff name k,
  u.0,
)

-- A call between its append and its count.
abbrev pub at_count : Phase → ℕ
at_count (counting p offset) = 1
at_count _ = 0

-- The calls between their append and their count.
abbrev pub counting_calls : List Caller → ℕ
counting_calls callers = sum_of (λ (x : Caller). at_count x.phase) callers

-- A call that is to count owes one message, to a topic that is there.
over-debt :
    (b : Broker) (c : Call) (ph : Phase)
    → Unique b.topics
    → Holds b c ph
    → over (debt c ph) b.topics ≡ at_count ph
over-debt b c entering u h = over-zero b.topics
over-debt b c (appending p) u h = over-zero b.topics
over-debt b c (returned p o) u h = over-zero b.topics
over-debt b c (counting p o) u h = elim (Option-cases (lookup c.topic b.topics)) [
  | inl e ↦ let z : none ≡ some _ = sym (rw e refl) ∙ h in cc
  | inr (t, e) ↦ over-one c.topic t b.topics u e
]

over-owed :
    (m : Dict Bytes Topic) (callers : List Caller)
    → ((i : ℕ) (x : Caller)
        → get_elem? callers i ≡ some x
        → over (debt x.call x.phase) m ≡ at_count x.phase)
    → over (owed callers) m ≡ counting_calls callers
unfolding sum_of
over-owed m [] h = over-zero m
over-owed m (x ∷ xs) h = omega (
  arith,
  over-add (debt x.call x.phase) (owed xs) m,
  h 0 x refl,
  over-owed m xs (λ i y q. h (suc i) y q),
)

-- The sum of the published counts that `GetStats` reports.
abbrev pub all_published : Dict Bytes TopicStats → ℕ
all_published [] = 0
all_published ((name, s) ∷ m) = s.published + all_published m

module _ (b : Broker) (more : Bytes → ℕ) where
  abbrev stats_of : Dict Bytes Topic → Dict Bytes TopicStats
  stats_of m = map (λ p. (p.0, topic_stats b p.0 p.1)) m

  depth_published :
      (m : Dict Bytes Topic)
      → All (λ p. IsTopic p.0 (published_count b p.0 + more p.0) p.1) m
      → total (λ t. depth t.partitions) m ≡ all_published (stats_of m) + over more m
  unfolding total topic_stats
  depth_published [] h = refl
  depth_published ((name, t) ∷ m) h = omega (arith, h.0.published_all, depth_published m h.1)

module _ (s : System) (v : Inv s) where
  topics_Unique : Unique s.broker.topics
  topics_Unique = subst Unique v.owes.same_topics v.owes.whole.one_each

  topic_owed :
      (name : Bytes) (t : Topic)
      → lookup name s.broker.topics ≡ some t
      → IsTopic name (published_count s.broker name + owed s.callers name) t
  topic_owed name t q =
      subst (λ n. IsTopic name n t) (v.owes.counts name)
        (v.owes.whole.topic name t (ap (lookup name) v.owes.same_topics ∙ q))

  counted : queue_depth s.broker ≡ all_published (get_stats s.broker) + counting_calls s.callers
  unfolding queue_depth get_stats
  counted =
      let b = s.broker in
      depth_published b (owed s.callers) b.topics (Every-All _ b.topics topics_Unique topic_owed)
      ∙ ap (λ n. all_published (stats_of b (owed s.callers) b.topics) + n)
          (over-owed b.topics s.callers
            (λ i x q. over-debt b x.call x.phase topics_Unique (v.held i x q)))

-- From a well-formed broker without calls, however calls of Publish interleave at their critical
-- sections, with each other and with dead-lettering and committing consumers: the depth is the sum of
-- the published counts that GetStats shows, and one more for every call of Publish that has stored its
-- message and not yet counted it.
pub queue_depth-published :
    {b : Broker} {t : System}
    → IsBroker b
    → Reach (record { broker = b; callers = [] }) t
    → queue_depth t.broker ≡ all_published (get_stats t.broker) + counting_calls t.callers
queue_depth-published {b} {t} v r = counted t (Reach-Inv r (start-Inv b v))
