-- ===== src/Storage/Scans.antt =====
-- internal/storage/store.go: a loop over the whole map that collects the events that pass a test.
use mathlib.Core.Bool.{Bool, ◌&&◌}
use go_kafka.Base.{
  ◌≡◌, refl, List, [], ◌∷◌, Option, none, some, Bytes, bytes_key, bytes_eq_iff, arith, ◌==◌,
  if◌then◌else◌, Bool-cases, inl, inr, ap, ◌∙◌, subst, All,
}
use go_kafka.Base.Dict.{Dict, lookup, Unique, values}
use go_kafka.Events.{WeekendEvent}

module _ {F : Type 0} where
  -- The events of a list that have an id.
  abbrev pub with_id : Bytes → List (WeekendEvent F) → List (WeekendEvent F)
  with_id j [] = []
  with_id j (e ∷ es) = let rest = with_id j es in if e.id == j then e ∷ rest else rest

  -- The event of an id, if it passes the test.
  abbrev pub picked_by : (WeekendEvent F → Bool) → Option (WeekendEvent F) → List (WeekendEvent F)
  picked_by test none = []
  picked_by test (some e) = if test e then e ∷ [] else []

  -- A loop that collects what passes a test.
  pub record Collects (test : WeekendEvent F → Bool)
      (pass : List (WeekendEvent F) → List (WeekendEvent F)) : Type 0 where
    pub empty : pass [] ≡ []
    pub next :
        (e : WeekendEvent F) (es : List (WeekendEvent F))
        → pass (e ∷ es) ≡ (if test e then e ∷ pass es else pass es)

  module _ (test : WeekendEvent F → Bool) (pass : List (WeekendEvent F) → List (WeekendEvent F))
      (c : Collects test pass) where
    pub with_id-pass :
        (i j : Bytes) (e : WeekendEvent F) (es : List (WeekendEvent F))
        → e.id ≡ i
        → with_id j (pass (e ∷ es))
          ≡ (if (i == j) && test e then e ∷ with_id j (pass es) else with_id j (pass es))
    with_id-pass i j e es own = ground (arith, c.next e es, ap (λ k. k == j) own)

    -- Of each id the loop collects the stored event once, if it passes.
    pub scan-picked_by :
        (j : Bytes) (m : Dict Bytes (WeekendEvent F))
        → Unique m
        → All (λ p. p.1.id ≡ p.0) m
        → with_id j (pass (values m)) ≡ picked_by test (lookup j m)
    unfolding lookup
    scan-picked_by j [] one own = ap (with_id j) c.empty
    scan-picked_by j ((i, e) ∷ m) one own =
        with_id-pass i j e (values m) own.0 ∙ (elim (Bool-cases (i == j)) [
          | inl same ↦
              let it : i ≡ j = (bytes_eq_iff i j).0 same in
              let gone : lookup j m ≡ none = subst (λ k. lookup k m ≡ none) it one.0 in
              let ih : with_id j (pass (values m)) ≡ [] =
                scan-picked_by j m one.1 own.1 ∙ ap (picked_by test) gone in
              rw (same, ih) refl
          | inr other ↦ rw other (scan-picked_by j m one.1 own.1)
        ])
