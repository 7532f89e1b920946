-- ===== src/Broker/Publishing/Calls.antt =====
-- internal/broker/broker.go: the phases of a call of `Publish` and its moves.
use go_kafka.Base.{
  ℕ, ◌+◌, ◌≡◌, ◌≤◌, refl, some, Bytes, arith, length, length-set, get_elem?-total, ap, ◌∙◌, sym,
  bytes_key,
}
use go_kafka.Base.Dict.{lookup, lookup-insert_self}
use go_kafka.Broker.{Broker, Topic, max_slice, with_topic, count_publish}
use go_kafka.Broker.Log.{append}
use go_kafka.Broker.Fnv.{partition_for}
use go_kafka.Broker.Invariant.Ensure.{ensured, ensure_topic-ensured}
use go_kafka.Broker.Invariant.Topics.{partition_for-lt, stored, append_to-stored}
use go_kafka.Broker.Logs.{
  fetch, Extends, replace-Extends, ensured-Extends, stored_keeps, in_topic-stored,
}
use go_kafka.Broker.Publishing.{
  Call, Phase, entering, appending, counting, returned, message_of, advance,
}
use go_kafka.Broker.Publishing.Moves.{
  Owes, one_of, ensured-Owes, stored-Owes, count-Owes, Owes-known, Owes-ext, ensured-known,
}

-- What a call that stands in a phase knows of the broker.
abbrev pub Holds : Broker → Call → Phase → Type 0
Holds b c entering = Unit
Holds b c (appending p) =
    (t : Topic) × (lookup c.topic b.topics ≡ some t)
    × (p ≡ partition_for c.key (length t.partitions))
Holds b c (counting p offset) =
    fetch b c.topic p offset ≡ some (record (message_of c p) { offset = offset })
Holds b c (returned p offset) =
    fetch b c.topic p offset ≡ some (record (message_of c p) { offset = offset })

pub Holds-Extends :
    (b b' : Broker) (c : Call) (ph : Phase) → Extends b b' → Holds b c ph → Holds b' c ph
Holds-Extends b b' c entering x h = tt
Holds-Extends b b' c (appending p) x (t, e, q) =
    let (u, e', w) = x.same_width c.topic t e in (u, e', q ∙ ap (partition_for c.key) (sym w))
Holds-Extends b b' c (counting p offset) x h =
    x.kept c.topic p offset (record (message_of c p) { offset = offset }) h
Holds-Extends b b' c (returned p offset) x h =
    x.kept c.topic p offset (record (message_of c p) { offset = offset }) h

-- The messages that a call owes to the counts.
abbrev pub debt : Call → Phase → Bytes → ℕ
debt c (counting p offset) j = one_of c.topic j
debt c _ j = 0

-- A call that has not returned.
abbrev pub Running : Phase → Type 0
Running (returned p offset) = ⊥
Running _ = Unit

-- The move of a call, which ends in the broker and the phase of `result`.
pub record Advanced (b : Broker) (owed : Bytes → ℕ) (c : Call) (ph : Phase) : Type 0 where
  pub result : Broker × Phase
  pub moves : advance b c ph ≡ some result
  pub owes :
      (rest : Bytes → ℕ)
      → ((j : Bytes) → rest j + debt c ph j ≡ owed j + debt c result.1 j)
      → Owes result.0 rest
  pub extends : Extends b result.0
  pub holds : Holds result.0 c result.1

count-Extends : (b : Broker) (name : Bytes) → Extends b (count_publish b name)
unfolding count_publish
count-Extends b name = record { kept = λ j i o m h. h; same_width = λ j t h. (t, h, refl) }

module _ (b : Broker) (owed : Bytes → ℕ) (g : Owes b owed) (c : Call) where
  enters : Advanced b owed c entering
  unfolding advance
  enters =
      let fit : b.default_partitions ≤ max_slice =
        rw (← g.same_partitions) g.whole.partitions_fit in
      record {
        result = (
          (ensured b c.topic).0,
          appending (partition_for c.key (length (ensured b c.topic).1.partitions)),
        );
        moves = rw (ensure_topic-ensured b c.topic fit) refl;
        owes = λ rest e. Owes-ext (λ j. omega (arith, e j)) (ensured-Owes b owed g c.topic);
        extends = ensured-Extends b c.topic;
        holds = ((ensured b c.topic).1, ensured-known b c.topic, refl);
      }

  appends :
      (p : ℕ) (t : Topic)
      → lookup c.topic b.topics ≡ some t
      → p ≡ partition_for c.key (length t.partitions)
      → Advanced b owed c (appending p)
  unfolding advance
  appends p t e q =
      let w = Owes-known b owed g c.topic t e in
      let (part, at) = get_elem?-total t.partitions p (rw q (partition_for-lt c.key _ w)) in
      let u = stored t p part (message_of c p) in
      let known : lookup c.topic (with_topic b c.topic u).topics ≡ some u =
        lookup-insert_self c.topic u b.topics in
      record {
        result = (with_topic b c.topic u, counting p (length part.log));
        moves = rw (e, append_to-stored t p (message_of c p) at) refl;
        owes = λ rest h.
            Owes-ext (λ j. omega (arith, h j))
              (stored-Owes b owed g c.topic t c.key c.value p c.now part e at q);
        extends =
            replace-Extends b (with_topic b c.topic u) c.topic t u e refl
              (length-set t.partitions p (append part (message_of c p)).0)
              (stored_keeps t p (message_of c p) at);
        holds = rw known (in_topic-stored t p (message_of c p) at);
      }

  counts : (p offset : ℕ) → Holds b c (counting p offset) → Advanced b owed c (counting p offset)
  unfolding advance
  counts p offset h = record {
    result = (count_publish b c.topic, returned p offset);
    moves = refl;
    owes = λ rest e. count-Owes b owed g c.topic rest (λ j. omega (arith, e j));
    extends = count-Extends b c.topic;
    holds =
        Holds-Extends b (count_publish b c.topic) c (returned p offset) (count-Extends b c.topic) h;
  }

  -- A call that has not returned moves, without a panic.
  pub advanced : (ph : Phase) → Running ph → Holds b c ph → Advanced b owed c ph
  advanced entering r h = enters
  advanced (appending p) r (t, e, q) = appends p t e q
  advanced (counting p offset) r h = counts p offset h
  advanced (returned p offset) r h = absurd r
