-- ===== src/Broker/Logs.antt =====
-- internal/broker/broker.go: messages by topic, partition and offset, and brokers that extend one another.
use mathlib.Core.Option.{some-injective}
use go_kafka.Base.{
  ℕ, ◌<◌, ◌≡◌, refl, inl, inr, false, none, some, Option, Bytes, arith, length, get_elem?,
  get_elem?-set_self, get_elem?-set_ne, get_elem?-lt, get_elem?-none, get_elem?-append_left,
  get_elem?-append_last, Option-cases, Bool-cases, ap, ◌∙◌, sym, subst, ◌==◌, bytes_key,
  bytes_eq_iff, ◌≢◌, true, ◌>>=◌, ℕ_discrete, dec_lt,
}
use go_kafka.Base.Int.{pos}
use go_kafka.Base.Dict.{lookup, insert, lookup-insert, lookup-insert_ne}
use go_kafka.Broker.{Broker, Topic}
use go_kafka.Broker.Log
use go_kafka.Broker.Log.{Message, Partition, append}
use go_kafka.Broker.Invariant.Topics.{stored}
use go_kafka.Broker.Invariant.Ensure.{ensured, created, ensure_old, ensure_new}

pub get-pos : (p : Partition) (n : ℕ) → Log.get p (pos n) ≡ get_elem? p.log n
unfolding Log.get
get-pos p n = elim (dec_lt n (length p.log)) [
  | yes h ↦ ground arith
  | no h ↦ ground (arith, get_elem?-none p.log n)
]

-- The new entry is read back under the offset that `append` returned.
pub get-append_last :
    (p : Partition) (m : Message)
    → Log.get (append p m).0 (pos (append p m).1) ≡ some (record m { offset = (append p m).1 })
get-append_last p m = get-pos (append p m).0 _ ∙ unfold append in get_elem?-append_last p.log _

pub log-append_old :
    (p : Partition) (m : Message) (n : ℕ)
    → n < length p.log
    → get_elem? (append p m).0.log n ≡ get_elem? p.log n
unfolding append
log-append_old p m n h = get_elem?-append_left p.log _ n h

pub get-append_old :
    (p : Partition) (m : Message) (n : ℕ) {old : Message}
    → Log.get p (pos n) ≡ some old
    → Log.get (append p m).0 (pos n) ≡ some old
get-append_old p m n h =
    let e = sym (get-pos p n) ∙ h in
    get-pos (append p m).0 n ∙ log-append_old p m n (get_elem?-lt p.log n e) ∙ e

-- The message at an offset of a partition of a topic.
abbrev pub in_topic : Topic → ℕ → ℕ → Option Message
in_topic t i offset = do part ← get_elem? t.partitions i; Log.get part (pos offset)

abbrev pub fetch : Broker → Bytes → ℕ → ℕ → Option Message
fetch b name i offset = do t ← lookup name b.topics; in_topic t i offset

append_offset : (p : Partition) (m : Message) → (append p m).1 ≡ length p.log
unfolding append
append_offset p m = refl

-- The message that was stored is read back.
pub in_topic-stored :
    (t : Topic) (p : ℕ) (m : Message) {part : Partition}
    → get_elem? t.partitions p ≡ some part
    → in_topic (stored t p part m) p (length part.log)
      ≡ some (record m { offset = length part.log })
in_topic-stored t p m {part} at =
    rw (get_elem?-set_self t.partitions p (append part m).0 (get_elem?-lt t.partitions p at))
      (rw (append_offset part m) at (get-append_last part m))

-- Every message stays under its topic, partition and offset, and no topic is repartitioned.
pub record Extends (b c : Broker) : Type 0 where
  pub kept :
      (name : Bytes) (i offset : ℕ) (m : Message)
      → fetch b name i offset ≡ some m
      → fetch c name i offset ≡ some m
  pub same_width :
      (name : Bytes) (t : Topic)
      → lookup name b.topics ≡ some t
      → (u : Topic) × (lookup name c.topics ≡ some u) × (length u.partitions ≡ length t.partitions)

pub Extends-refl : (b : Broker) → Extends b b
Extends-refl b = record { kept = λ name i o m h. h; same_width = λ name t h. (t, h, refl) }

pub Extends-trans : {a b c : Broker} → Extends a b → Extends b c → Extends a c
Extends-trans x y = record {
  kept = λ name i o m h. y.kept name i o m (x.kept name i o m h);
  same_width = λ name t h.
      let (u, hu, eu) = x.same_width name t h in
      let (v, hv, ev) = y.same_width name u hu in (v, hv, ev ∙ eu);
}

-- Replacing a topic by one that keeps its messages and its number of partitions.
pub replace-Extends :
    (b : Broker) (c : Broker) (name : Bytes) (t u : Topic)
    → lookup name b.topics ≡ some t
    → c.topics ≡ insert name u b.topics
    → length u.partitions ≡ length t.partitions
    → ((i offset : ℕ) (m : Message) → in_topic t i offset ≡ some m → in_topic u i offset ≡ some m)
    → Extends b c
replace-Extends b c name t u e ec w k = record {
  kept = λ j i o m h. elim (Bool-cases (name == j)) [
    | inl same ↦ rw (after_same j same) (k i o m (rw (before_same j same) at h))
    | inr other ↦ rw (after_other j other) h
  ];
  same_width = λ j s h. elim (Bool-cases (name == j)) [
    | inl same ↦ (
      u,
      after_same j same,
      w
          ∙ ap (λ (x : Topic). length x.partitions)
              (some-injective t s (sym (before_same j same) ∙ h)),
    )
    | inr other ↦ (s, after_other j other ∙ h, refl)
  ];
}
  where
    before_same : (j : Bytes) → (name == j) ≡ true → lookup j b.topics ≡ some t
    before_same j same = subst (λ x. lookup x b.topics ≡ some t) ((bytes_eq_iff name j).0 same) e

    after_same : (j : Bytes) → (name == j) ≡ true → lookup j c.topics ≡ some u
    after_same j same = rw (ec, lookup-insert name j u b.topics, same) refl

    after_other : (j : Bytes) → (name == j) ≡ false → lookup j c.topics ≡ lookup j b.topics
    after_other j other = rw ec (lookup-insert_ne name j u b.topics other)

-- A topic that was not there brings no message and repartitions nothing.
pub created-Extends :
    (b : Broker) (name : Bytes) → lookup name b.topics ≡ none → Extends b (created b name)
created-Extends b name e = record {
  kept = λ j i o m h. rw (absent j (not_none j i o m h)) h;
  same_width = λ j s h. (s, absent j (λ z. cc) ∙ h, refl);
}
  where
    not_none :
        (j : Bytes) (i o : ℕ) (m : Message) → fetch b j i o ≡ some m → lookup j b.topics ≢ none
    not_none j i o m h z = let x : none ≡ some m = rw z at h in cc

    absent :
        (j : Bytes)
        → lookup j b.topics ≢ none
        → lookup j (created b name).topics ≡ lookup j b.topics
    absent j h = elim (Bool-cases (name == j)) [
      | inl same ↦
          absurd (h (subst (λ x. lookup x b.topics ≡ none) ((bytes_eq_iff name j).0 same) e))
      | inr other ↦ lookup-insert_ne name j _ b.topics other
    ]

pub ensured-Extends : (b : Broker) (name : Bytes) → Extends b (ensured b name).0
ensured-Extends b name = elim (Option-cases (lookup name b.topics)) [
  | inl e ↦ rw (ensure_new b name e) (created-Extends b name e)
  | inr (t, e) ↦ rw (ensure_old b name e) (Extends-refl b)
]

pub stored_keeps :
    (t : Topic) (p : ℕ) (m : Message) {part : Partition}
    → get_elem? t.partitions p ≡ some part
    → (i offset : ℕ) (old : Message) → in_topic t i offset ≡ some old
    → in_topic (stored t p part m) i offset ≡ some old
stored_keeps t p m {part} at i o old h = elim (ℕ_discrete p i) [
  | yes same ↦
      let at_i : get_elem? t.partitions i ≡ some part = rw (← same) at in
      let new_i : get_elem? (stored t p part m).partitions i ≡ some (append part m).0 =
        rw (← same) (get_elem?-set_self t.partitions p _ (get_elem?-lt t.partitions p at)) in
      rw new_i (get-append_old part m o (rw at_i at h))
  | no other ↦ rw (get_elem?-set_ne t.partitions p i (append part m).0 other) h
]
