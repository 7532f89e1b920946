-- ===== src/Broker/Invariant/Topics.antt =====
-- internal/broker/broker.go: an append to a partition of a topic, and `partitionFor`.
use mathlib.Core.Option.{some-injective}
use go_kafka.Base.{
  ℕ, zero, suc, ◌+◌, ◌<◌, ◌≡◌, List, [], ◌∷◌, some, Bytes, arith, length, length-append, length-set,
  All, All-append, get_elem?, set, ap, subst,
}
use go_kafka.Broker.{Topic, append_to, depth}
use go_kafka.Broker.Log
use go_kafka.Broker.Log.{Message, Partition, append}
use go_kafka.Broker.Fnv.{partition_for}
use go_kafka.Broker.Invariant.{Routed, Parts, IsTopic}
use go_kafka.Broker.Invariant.Logs.{Numbered, Numbered-append}

pub partition_for-lt : (key : Bytes) (n : ℕ) → 0 < n → partition_for key n < n
unfolding partition_for
partition_for-lt key n h = ground arith

-- The topic after an append to its partition `p`, which held `part`.
abbrev pub stored : Topic → ℕ → Partition → Message → Topic
stored t p part m = record t { partitions = set t.partitions p (append part m).0 }

pub append_to-stored :
    (t : Topic) (p : ℕ) (m : Message) {part : Partition}
    → get_elem? t.partitions p ≡ some part
    → append_to t p m ≡ some (stored t p part m, length part.log)
unfolding append_to append
append_to-stored t p m e = ground arith

pub append-Numbered :
    (p : Partition) (m : Message) → Numbered 0 p.log → Numbered 0 (append p m).0.log
unfolding append
append-Numbered p m h = Numbered-append 0 p.log _ h (omega arith)

append-Routed :
    (name : Bytes) (n i : ℕ) (p : Partition) (m : Message)
    → All (Routed name n i) p.log
    → Routed name n i m
    → All (Routed name n i) (append p m).0.log
unfolding append
append-Routed name n i p m h r = All-append (Routed name n i) p.log (_ ∷ []) h (r, tt)

Parts-append :
    (name : Bytes) (n i : ℕ) (ps : List Partition) (k : ℕ) (m : Message) {part : Partition}
    → Parts name n i ps
    → get_elem? ps k ≡ some part
    → Routed name n (i + k) m
    → Parts name n i (set ps k (append part m).0)
Parts-append name n i [] k m h e r = tt
Parts-append name n i (p ∷ ps) zero m {part} h e r =
    subst (λ q. Parts name n i ((append q m).0 ∷ ps)) (some-injective p part e)
      (append-Numbered p m h.0, append-Routed name n i p m h.1 (ground arith), h.2)
Parts-append name n i (p ∷ ps) (suc k) m h e r =
    (h.0, h.1, Parts-append name n (suc i) ps k m h.2 e (ground arith))

pub depth-append :
    (ps : List Partition) (k : ℕ) (m : Message) {part : Partition}
    → get_elem? ps k ≡ some part
    → depth (set ps k (append part m).0) ≡ depth ps + 1
unfolding depth append Log.length
depth-append [] k m e = absurd (ground arith)
depth-append (p ∷ ps) zero m {part} e = ground (
  arith,
  ap (λ (q : Partition). length q.log) (some-injective p part e),
  length-append part.log (record m { offset = length part.log } ∷ []),
)
depth-append (p ∷ ps) (suc k) m e = omega (arith, depth-append ps k m e)

pub stored-IsTopic :
    (name : Bytes) (c : ℕ) (t : Topic) (p : ℕ) (m : Message) {part : Partition}
    → IsTopic name c t
    → get_elem? t.partitions p ≡ some part
    → Routed name (length t.partitions) p m
    → IsTopic name (c + 1) (stored t p part m)
stored-IsTopic name c t p m {part} h e r = record {
  named = h.named;
  some_partition = rw (length-set t.partitions p (append part m).0) h.some_partition;
  parts =
      rw (length-set t.partitions p (append part m).0)
        (Parts-append name (length t.partitions) 0 t.partitions p m h.parts e (ground arith));
  dead = h.dead;
  published_all = omega (arith, h.published_all, depth-append t.partitions p m e);
}
