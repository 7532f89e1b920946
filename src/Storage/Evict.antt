-- ===== src/Storage/Evict.antt =====
-- internal/storage/store.go: `EvictExpired`.
use go_kafka.Base.{
  ℕ, ◌+◌, ◌≡◌, refl, [], ◌∷◌, Option, none, some, Bytes, bytes_key, bytes_eq_iff, arith, ◌==◌,
  if◌then◌else◌, Bool-cases, inl, inr, ap, ◌∙◌, subst, length,
}
use go_kafka.Base.Dict.{Dict, lookup, remove, Unique, Fresh, Every-tail}
use go_kafka.Base.Time.{Time}
use go_kafka.Base.Text.{Unicode}
use go_kafka.Events.{WeekendEvent}
use go_kafka.Storage.{Store, get, size, remove_index, evict_loop, evict_expired, evicted, expired}
use go_kafka.Storage.Invariant.{IsIndexed}
use go_kafka.Storage.Updates.{removed-IsIndexed, lookup-removed}

length-remove :
    {V : Type 0} (id : Bytes) (m : Dict Bytes V) (v : V)
    → lookup id m ≡ some v
    → length (remove id m) + 1 ≡ length m
unfolding lookup remove
length-remove id [] v q = absurd (ground arith)
length-remove id ((k, w) ∷ m) v q = ground (arith, length-remove id m v)

module _ {F : Type 0} (u : Unicode) (now : Time) where
  -- What a visit of an entry leaves of an event.
  abbrev pub swept : Option (WeekendEvent F) → Option (WeekendEvent F) → Option (WeekendEvent F)
  swept none before_loop = before_loop
  swept (some e) before_loop = if expired u now e then none else before_loop

  -- A loop over the entries `rest`, which the store holds.
  record Loop (rest : Dict Bytes (WeekendEvent F)) (s t : Store F) (n k : ℕ) : Type 0 where
    indexed : IsIndexed u t
    counted : size t + k ≡ size s + n
    left : (j : Bytes) → lookup j t.primary ≡ swept (lookup j rest) (lookup j s.primary)

  abbrev Holds : Dict Bytes (WeekendEvent F) → Store F → Type 0
  Holds rest s =
      (j : Bytes) (e : WeekendEvent F) → lookup j rest ≡ some e → lookup j s.primary ≡ some e

  module _ (id : Bytes) (e : WeekendEvent F) (rest : Dict Bytes (WeekendEvent F)) (s : Store F)
      (n : ℕ) (v : IsIndexed u s) (new_key : Fresh id rest) (at : lookup id s.primary ≡ some e)
      (h : Holds rest s) where
    abbrev round : Store F × ℕ
    round = evicted u now id e s n

    round-IsIndexed : IsIndexed u round.0
    round-IsIndexed = elim (Bool-cases (expired u now e)) [
      | inl old ↦ rw old (removed-IsIndexed u s v id e at)
      | inr young ↦ rw young v
    ]

    round-lookup :
        (j : Bytes)
        → lookup j round.0.primary ≡ (
            if expired u now e
            then (if id == j then none else lookup j s.primary)
            else lookup j s.primary)
    round-lookup j = elim (Bool-cases (expired u now e)) [
      | inl old ↦ rw old (lookup-removed u s v id e j)
      | inr young ↦ rw young refl
    ]

    round-Holds : Holds rest round.0
    round-Holds j x q = ground (arith, round-lookup j, h j x q, bytes_eq_iff id j)

    round-counted : size round.0 + round.1 ≡ size s + n
    unfolding size remove_index
    round-counted = elim (Bool-cases (expired u now e)) [
      | inl old ↦ rw old (omega (arith, length-remove id s.primary e at))
      | inr young ↦ rw young refl
    ]

    round-swept :
        (j : Bytes)
        → swept (lookup j rest) (lookup j round.0.primary)
          ≡ swept (if id == j then some e else lookup j rest) (lookup j s.primary)
    round-swept j = elim (Bool-cases (id == j)) [
      | inl same ↦
          let it : id ≡ j = (bytes_eq_iff id j).0 same in
          let missing : lookup j rest ≡ none = subst (λ k. lookup k rest ≡ none) it new_key in
          rw (same, missing) (ground (arith, round-lookup j))
      | inr other ↦ rw other (ap (swept (lookup j rest)) (ground (arith, round-lookup j)))
    ]

  evict_loop-Loop :
      (rest : Dict Bytes (WeekendEvent F)) (s : Store F) (n : ℕ)
      → IsIndexed u s
      → Unique rest
      → Holds rest s
      → Loop rest s (evict_loop u now rest s n).0 n (evict_loop u now rest s n).1
  unfolding evict_loop lookup
  evict_loop-Loop [] s n v one h = record { indexed = v; counted = refl; left = λ j. refl }
  evict_loop-Loop ((id, e) ∷ rest) s n v one h =
      let at : lookup id s.primary ≡ some e = h id e (rw ((bytes_eq_iff id id).1 refl) refl) in
      let h' : Holds rest s = λ j x q. h j x (Every-tail id e rest one.0 j x q) in
      let r = round id e rest s n v one.0 at h' in
      let w =
        evict_loop-Loop rest r.0 r.1 (round-IsIndexed id e rest s n v one.0 at h') one.1
          (round-Holds id e rest s n v one.0 at h') in
      record {
        indexed = w.indexed;
        counted = w.counted ∙ round-counted id e rest s n v one.0 at h';
        left = λ j. w.left j ∙ round-swept id e rest s n v one.0 at h' j;
      }

  -- `EvictExpired` takes away exactly the events whose expiry time is set and past, keeps the indices
  -- right, and returns the number of the events that it took away.
  pub evict_expired_lem :
      (s : Store F)
      → IsIndexed u s
      → IsIndexed u (evict_expired u s now).0
        × (size (evict_expired u s now).0 + (evict_expired u s now).1 ≡ size s)
        × ((j : Bytes) → get (evict_expired u s now).0 j ≡ swept (get s j) (get s j))
  unfolding evict_expired get
  evict_expired_lem s v =
      let w = evict_loop-Loop s.primary s 0 v v.one_each (λ j e q. q) in
      (w.indexed, ground (arith, w.counted), w.left)
