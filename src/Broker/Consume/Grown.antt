-- ===== src/Broker/Consume/Grown.antt =====
-- internal/broker/broker.go: a topic that lost no message of its partitions and of its DLQ.
use mathlib.Core.Option.{some-injective}
use go_kafka.Base.{
  ℕ, arith, ◌≡◌, refl, inl, inr, some, get_elem?, set, get_elem?-set_self, get_elem?-set_ne,
  get_elem?-lt, Option-cases, ◌∙◌, sym, subst, ℕ_discrete, bytes_key,
}
use go_kafka.Base.Int.{pos}
use go_kafka.Broker.{Topic, append_to}
use go_kafka.Broker.Log
use go_kafka.Broker.Log.{Message, Partition, append}
use go_kafka.Broker.Logs.{in_topic, stored_keeps, log-append_old}
use go_kafka.Broker.Invariant.Topics.{append_to-stored}

pub record Grown (t u : Topic) : Type 0 where
  pub kept : (p o : ℕ) (m : Message) → in_topic t p o ≡ some m → in_topic u p o ≡ some m
  pub dead : (j : ℕ) (m : Message) → get_elem? t.dlq.log j ≡ some m → get_elem? u.dlq.log j ≡ some m

pub Grown-refl : (t : Topic) → Grown t t
Grown-refl t = record { kept = λ p o m h. h; dead = λ j m h. h }

pub append_to-Grown :
    (t u : Topic) (p offset : ℕ) (m : Message) → append_to t p m ≡ some (u, offset) → Grown t u
unfolding append_to
append_to-Grown t u p offset m h = elim (Option-cases (get_elem? t.partitions p)) [
  | inl e ↦ ground arith
  | inr (part, e) ↦
      subst (λ (r : Topic × ℕ). Grown t r.0)
        (some-injective _ (u, offset) (sym (append_to-stored t p m e) ∙ h))
        (record { kept = stored_keeps t p m e; dead = λ j d k. k })
]

get-relogged : (a b : Partition) (o : ℕ) → a.log ≡ b.log → Log.get a (pos o) ≡ Log.get b (pos o)
unfolding Log.get
get-relogged a b o e = rw e refl

-- Another value of the channels of a partition.
pub relogged-Grown :
    (t : Topic) (p : ℕ) (part part' : Partition)
    → get_elem? t.partitions p ≡ some part
    → part'.log ≡ part.log
    → Grown t (record t { partitions = set t.partitions p part' })
relogged-Grown t p part part' at same = record {
  kept = λ q o m h. elim (ℕ_discrete p q) [
    | yes e ↦
        let before : get_elem? t.partitions q ≡ some part = rw (← e) at in
        let after : get_elem? (set t.partitions p part') q ≡ some part' =
          rw (← e) (get_elem?-set_self t.partitions p part' (get_elem?-lt t.partitions p at)) in
        rw after (get-relogged part' part o same ∙ (rw before at h))
    | no other ↦ rw (get_elem?-set_ne t.partitions p q part' other) h
  ];
  dead = λ j m h. h;
}

-- An append to the DLQ.
pub dlq-Grown : (t : Topic) (m : Message) → Grown t (record t { dlq = (append t.dlq m).0 })
dlq-Grown t m = record {
  kept = λ p o d h. h;
  dead = λ j d h. log-append_old t.dlq m j (get_elem?-lt t.dlq.log j h) ∙ h;
}
