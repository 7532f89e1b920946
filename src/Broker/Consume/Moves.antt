-- ===== src/Broker/Consume/Moves.antt =====
-- internal/broker/broker.go: the moves of `consumePartition` that can be refused, inverted.
use mathlib.Core.Option.{some-injective}
use go_kafka.Base.{ℕ, ◌≡◌, inl, inr, true, false, Option, none, some, get_elem?, Option-cases, sym}
use go_kafka.Base.Int.{pos}
use go_kafka.Broker.Log
use go_kafka.Broker.Log.{Partition}
use go_kafka.Broker.Consume.{
  System, start, started, fetch_next, after_get, receive, received, goto, part_at,
}

module _ (s t : System) (i : ℕ) where
  abbrev part_of : Option Partition
  part_of = part_at s (s.workers i).p_idx

  pub start_lem :
      start s i ≡ some t → (part : Partition) × (part_of ≡ some part) × (t ≡ started s i part)
  unfolding start
  start_lem h = elim (Option-cases part_of) [
    | inl e ↦ let x : none ≡ some t = rw e at h in cc
    | inr (part, e) ↦
        let x : some (started s i part) ≡ some t = rw e at h in
        (part, e, sym (some-injective _ t x))
  ]

module _ (max : ℕ) (s t : System) (i o : ℕ) where
  pub fetch_next_lem :
      fetch_next max s i o ≡ some t
      → (part : Partition) × (part_at s (s.workers i).p_idx ≡ some part)
        × (t ≡ goto s i (after_get max o (Log.get part (pos o))))
  unfolding fetch_next
  fetch_next_lem h = elim (Option-cases (part_at s (s.workers i).p_idx)) [
    | inl e ↦ let x : none ≡ some t = rw e at h in cc
    | inr (part, e) ↦
        let x : some (goto s i (after_get max o (Log.get part (pos o)))) ≡ some t = rw e at h in
        (part, e, sym (some-injective _ t x))
  ]

module _ (s t : System) (i : ℕ) where
  pub receive_lem :
      receive s i ≡ some t
      → (part : Partition) × (part_at s (s.workers i).p_idx ≡ some part)
        × (get_elem? part.subs (s.workers i).sub ≡ some true)
        × (t ≡ received s i part)
  unfolding receive
  receive_lem h = elim (Option-cases (part_at s (s.workers i).p_idx)) [
    | inl e ↦ let x : none ≡ some t = rw e at h in cc
    | inr (part, e) ↦ elim (Option-cases (get_elem? part.subs (s.workers i).sub)) [
      | inl f ↦ let x : none ≡ some t = rw (e, f) at h in cc
      | inr (true, f) ↦
          let x : some (received s i part) ≡ some t = rw (e, f) at h in
          (part, e, f, sym (some-injective _ t x))
      | inr (false, f) ↦ let x : none ≡ some t = rw (e, f) at h in cc
    ]
  ]
