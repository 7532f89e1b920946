-- ===== src/Base/Dict.antt =====
-- Go maps as association lists with one entry for each key. The order of the entries stands for
-- the order in which `range` visits them, which Go leaves open.
use Prim.Native.Nat.{ℕ, ◌+◌}
use mathlib.Core.Path.{◌≡◌, refl}
use mathlib.Core.Bool.{true, false}
use mathlib.Core.Logic.{◌⊎◌, inl, inr}
use mathlib.Core.List.{List, [], ◌∷◌, map}
use mathlib.Core.Option.{Option, none, some}
use native.Mathlib.Omega.{arith}
use go_kafka.Base.Tests.{Bool-cases, if◌then◌else◌}
use go_kafka.Base.Lists.{length, All}
use go_kafka.Base.Keys.{Key, ◌==◌}

-- `m[k]` of a missing key is the zero value.
abbrev pub or_zero {ℓ} : {V : Type ℓ} → V → Option V → V
or_zero z none = z
or_zero z (some v) = v

abbrev pub Dict {ℓ} : Type ℓ → Type ℓ → Type ℓ
Dict K V = List (K × V)

-- `m[k]` with its `ok`, the write `m[k] = v`, and `delete(m, k)`.
module _ {ℓ} {K V : Type ℓ} ⦃e : Key K⦄ where
  unfoldable pub lookup : K → Dict K V → Option V
  lookup k [] = none
  lookup k ((i, w) ∷ m) = if i == k then some w else lookup k m

  unfoldable pub insert : K → V → Dict K V → Dict K V
  insert k v [] = (k, v) ∷ []
  insert k v ((i, w) ∷ m) = if i == k then (k, v) ∷ m else (i, w) ∷ insert k v m

  unfoldable pub remove : K → Dict K V → Dict K V
  remove k [] = []
  remove k ((i, w) ∷ m) = if i == k then m else (i, w) ∷ remove k m

  abbrev pub Fresh : K → Dict K V → Type ℓ
  Fresh k m = lookup k m ≡ none

  -- No key twice.
  abbrev pub Unique : Dict K V → Type ℓ
  Unique [] = Unit
  Unique ((j, v) ∷ m) = Fresh j m × Unique m

abbrev pub keys {ℓ} : {K V : Type ℓ} → Dict K V → List K
keys m = map (λ p. p.0) m

abbrev pub values {ℓ} : {K V : Type ℓ} → Dict K V → List V
values m = map (λ p. p.1) m

module _ {ℓ} {K V : Type ℓ} ⦃e : Key K⦄ where
  pub lookup-insert :
      (k j : K) (new : V) (dict : Dict K V)
      → lookup j (insert k new dict) ≡ (if k == j then some new else lookup j dict)
  unfolding lookup insert
  lookup-insert k j new [] = refl
  lookup-insert k j new ((i, old) ∷ rest) =
      let ih = lookup-insert k j new rest in
      ground (arith, e.same_iff k j, e.same_iff i k, e.same_iff i j, ih)

  pub lookup-insert_self : (k : K) (v : V) (m : Dict K V) → lookup k (insert k v m) ≡ some v
  lookup-insert_self k v m = ground (arith, lookup-insert k k v m, e.same_iff k k)

  pub lookup-insert_ne :
      (k j : K) (v : V) (m : Dict K V) → (k == j) ≡ false → lookup j (insert k v m) ≡ lookup j m
  lookup-insert_ne k j v m h = ground (arith, lookup-insert k j v m)

  pub lookup-insert-cases :
      (k j : K) (v : V) (m : Dict K V) {u : V}
      → lookup j (insert k v m) ≡ some u
      → ((k ≡ j) × (v ≡ u)) ⊎ (((k == j) ≡ false) × (lookup j m ≡ some u))
  lookup-insert-cases k j v m q = elim (Bool-cases (k == j)) [
    | inl same ↦ inl ((e.same_iff k j).0 same, ground (arith, lookup-insert k j v m))
    | inr other ↦ inr (other, ground (arith, lookup-insert k j v m))
  ]

  pub lookup-insert-none :
      (k j : K) (v : V) (m : Dict K V) → lookup j (insert k v m) ≡ none → lookup j m ≡ none
  lookup-insert-none k j v m q = ground (arith, lookup-insert k j v m)

  pub insert-Unique : (k : K) (v : V) (m : Dict K V) → Unique m → Unique (insert k v m)
  unfolding insert lookup
  insert-Unique k v [] u = (refl, tt)
  insert-Unique k v ((i, w) ∷ m) u =
      ground (arith, e.same_iff i k, e.same_iff k i, lookup-insert k i v m, insert-Unique k v m u.1)

  -- Only with unique keys: `remove` takes one entry away.
  pub lookup-remove :
      (k j : K) (m : Dict K V)
      → Unique m
      → lookup j (remove k m) ≡ (if k == j then none else lookup j m)
  unfolding lookup remove
  lookup-remove k j [] u = ground arith
  lookup-remove k j ((i, w) ∷ m) u =
      ground (arith, e.same_iff k j, e.same_iff i k, e.same_iff i j, lookup-remove k j m u.1)

  pub remove-Unique : (k : K) (m : Dict K V) → Unique m → Unique (remove k m)
  unfolding remove lookup
  remove-Unique k [] u = tt
  remove-Unique k ((i, w) ∷ m) u =
      ground (arith, e.same_iff i k, e.same_iff k i, lookup-remove k i m u.1, remove-Unique k m u.1)

  pub length-insert :
      (k : K) (v : V) (m : Dict K V)
      → length (insert k v m)
        ≡ (if (elim (lookup k m) [ none ↦ true | some w ↦ false ]) then length m + 1 else length m)
  unfolding lookup insert
  length-insert k v [] = refl
  length-insert k v ((i, w) ∷ m) = ground (arith, length-insert k v m)

abbrev pub weight {ℓ} : {V : Type ℓ} → (V → ℕ) → Option V → ℕ
weight w none = 0
weight w (some v) = w v

-- A weight summed over the values, as a loop over the map adds it up.
module _ {ℓ} {K V : Type ℓ} ⦃e : Key K⦄ (w : V → ℕ) where
  unfoldable pub total : Dict K V → ℕ
  total [] = 0
  total ((k, v) ∷ m) = w v + total m

  pub total-insert :
      (k : K) (v : V) (m : Dict K V) → total (insert k v m) + weight w (lookup k m) ≡ total m + w v
  unfolding total insert lookup
  total-insert k v [] = omega arith
  total-insert k v ((i, u) ∷ m) = ground (arith, total-insert k v m)

  pub total-remove : (k : K) (m : Dict K V) → total (remove k m) + weight w (lookup k m) ≡ total m
  unfolding total remove lookup
  total-remove k [] = omega arith
  total-remove k ((i, u) ∷ m) = ground (arith, total-remove k m)

module _ {ℓ} {K V : Type ℓ} ⦃e : Key K⦄ where
  pub Every-tail :
      (k : K) (v : V) (m : Dict K V)
      → Fresh k m
      → (j : K) (w : V) → lookup j m ≡ some w
      → lookup j ((k, v) ∷ m) ≡ some w
  unfolding lookup
  Every-tail k v m f j w q = ground (arith, e.same_iff k j)

-- A property of every value.
module _ {ℓ} {K V : Type ℓ} ⦃e : Key K⦄ (P : K → V → Type ℓ) where
  abbrev pub Every : Dict K V → Type ℓ
  Every m = (k : K) (v : V) → lookup k m ≡ some v → P k v

  pub Every-insert : (k : K) (v : V) (m : Dict K V) → Every m → P k v → Every (insert k v m)
  Every-insert k v m h p j u q = ground (arith, lookup-insert k j v m, e.same_iff k j, h j u)

  -- The same, entry by entry.
  pub Every-All : (m : Dict K V) → Unique m → Every m → All (λ p. P p.0 p.1) m
  unfolding lookup
  Every-All [] u h = tt
  Every-All ((k, v) ∷ m) u h = (
    h k v (rw ((e.same_iff k k).1 refl) refl),
    Every-All m u.1 (λ j w q. h j w (Every-tail k v m u.0 j w q)),
  )
