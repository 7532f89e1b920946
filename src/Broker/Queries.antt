-- ===== src/Broker/Queries.antt =====
-- internal/broker/broker.go: `Replay` on a well-formed broker.
use go_kafka.Base.{
  ℕ, suc, ◌≡◌, refl, none, some, List, [], ◌∷◌, ◌++◌, Bytes, arith, drop, ap, ◌∙◌, bytes_key, ok,
  err, Option, Result, Option-cases, inl, inr,
}
use mathlib.Core.Path.{ap₂}
use go_kafka.Base.Int.{ℤ, pos, negsuc, pos_part}
use go_kafka.Base.Dict.{lookup}
use go_kafka.Broker.{Broker, Topic, Error, topic_not_found, replay, select_from, replay_partitions}
use go_kafka.Broker.Log.{Message, Partition}
use go_kafka.Broker.Invariant.{IsBroker, Parts}
use go_kafka.Broker.Invariant.Logs.{Numbered, select_from-drop, select_from-negative}

-- What is left of a log from an offset on; a negative offset is before the first message.
abbrev pub slice : ℤ → List Message → List Message
slice from ms = drop (pos_part from) ms

abbrev pub slices : ℤ → List Partition → List Message
slices from [] = []
slices from (p ∷ ps) = slice from p.log ++ slices from ps

select_from-slice :
    (from : ℤ) (ms : List Message) → Numbered 0 ms → select_from from ms ≡ slice from ms
select_from-slice (pos k) ms h = select_from-drop 0 k ms h ∙ ap (λ n. drop n ms) (omega arith)
select_from-slice (negsuc k) ms h = select_from-negative k ms

replay-slices :
    (from : ℤ) (name : Bytes) (n i : ℕ) (ps : List Partition)
    → Parts name n i ps
    → replay_partitions from ps ≡ slices from ps
unfolding replay_partitions
replay-slices from name n i [] h = refl
replay-slices from name n i (p ∷ ps) h =
    ap₂ ◌++◌ (select_from-slice from p.log h.0) (replay-slices from name n (suc i) ps h.2)

-- What `Replay` is meant to return for a topic, if there is one.
abbrev pub replay_spec : ℤ → Bytes → Option Topic → Result Error (List Message)
replay_spec from name none = err (topic_not_found name)
replay_spec from name (some t) = ok (slices from t.partitions)

-- `Replay` of a topic that exists returns, partition by partition, the logs without their first
-- `from` messages; a negative `from` leaves none out. It fails on a topic that does not exist.
pub replay_lem :
    (b : Broker) (name : Bytes) (from : ℤ)
    → IsBroker b
    → replay b name from ≡ replay_spec from name (lookup name b.topics)
unfolding replay
replay_lem b name from v = elim (Option-cases (lookup name b.topics)) [
  | inl e ↦ rw (e, replay) refl
  | inr (t, e) ↦
      rw (e, replay) (ap ok (replay-slices from name _ 0 t.partitions (v.topic name t e).parts))
]
