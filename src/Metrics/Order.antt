-- ===== src/Metrics/Order.antt =====
-- internal/metrics/metrics.go: the order of the percentiles of `LatencySnapshot`.
use mathlib.Core.Option.{some-injective}
use mathlib.Core.Path.{subst₂}
use go_kafka.Base.{
  ℕ, zero, suc, ◌-◌, ◌≤◌, ◌≡◌, refl, false, true, List, [], ◌∷◌, some, Bytes, bytes_key, arith,
  length, nat_eq, get_elem?, Bool-cases, inl, inr, subst,
}
use go_kafka.Base.Int.{ℤ, pos, ltb_ℤ, ◌≤ℤ◌}
use go_kafka.Base.Float.{Float64}
use go_kafka.Base.Sort.{sort_slice, IsSorted, sort_slice-IsSorted}
use go_kafka.Metrics.{Collector, latency_snapshot}
use go_kafka.Metrics.Ring.{samples}
use go_kafka.Metrics.Percentiles.{Fraction, At, percentile-At, length-sort_slice}

not_ltb-≤ℤ : (a b : ℤ) → ltb_ℤ b a ≡ false → a ≤ℤ b
not_ltb-≤ℤ a b h = ground arith

ltb_ℤ_asym : (a b : ℤ) → ltb_ℤ a b ≡ true → ltb_ℤ b a ≡ false
ltb_ℤ_asym a b h = ground arith

tail-IsSorted : (x : ℤ) (xs : List ℤ) → IsSorted ltb_ℤ (x ∷ xs) → IsSorted ltb_ℤ xs
tail-IsSorted x [] h = tt
tail-IsSorted x (y ∷ ys) h = h.1

head_least :
    (x : ℤ) (xs : List ℤ)
    → IsSorted ltb_ℤ (x ∷ xs)
    → (j : ℕ) (b : ℤ) → get_elem? (x ∷ xs) j ≡ some b
    → x ≤ℤ b
head_least x xs h zero b e = subst (λ z. x ≤ℤ z) (some-injective x b e) (omega arith)
head_least x [] h (suc j) b e = ground arith
head_least x (y ∷ ys) h (suc j) b e =
    let rest = head_least y ys h.1 j b e in omega (arith, not_ltb-≤ℤ x y h.0, rest)

-- In a sorted list a later element is not smaller.
pub later_greater :
    (xs : List ℤ)
    → IsSorted ltb_ℤ xs
    → (i j : ℕ) (a b : ℤ) → i ≤ j
    → get_elem? xs i ≡ some a
    → get_elem? xs j ≡ some b
    → a ≤ℤ b
later_greater [] h i j a b le p q = ground arith
later_greater (x ∷ xs) h zero j a b le p q =
    subst (λ z. z ≤ℤ b) (some-injective x a p) (head_least x xs h j b q)
later_greater (x ∷ xs) h (suc i) zero a b le p q = absurd (omega (arith, le))
later_greater (x ∷ xs) h (suc i) (suc j) a b le p q =
    later_greater xs (tail-IsSorted x xs h) i j a b (omega (arith, le)) p q

module _ (fl : Float64) where
  open fl use {F, of_int, of_ratio, mul, trunc}

  -- Up to `bound`, the first fraction of an integer is cut to no more than the second one is.
  abbrev pub Below : ℕ → F → F → Type 0
  Below bound p q =
      (n : ℕ) → n ≤ bound → trunc (mul (of_int (pos n)) p) ≤ℤ trunc (mul (of_int (pos n)) q)

  value-le :
      (bound : ℕ) (buf : List ℤ) (p q : F)
      → IsSorted ltb_ℤ buf
      → length buf ≤ bound
      → Below bound p q
      → (a : At fl buf p) (b : At fl buf q) → a.value ≤ℤ b.value
  value-le bound buf p q s high below a b =
      let h : pos a.k ≤ℤ pos b.k =
        subst₂ (λ u v. u ≤ℤ v) a.index b.index (below (length buf - 1) (omega (arith, high))) in
      later_greater buf s a.k b.k a.value b.value (omega (arith, h)) a.found b.found

  -- `LatencySnapshot` returns three percentiles in ascending order, without an index out of range, where
  -- the three fractions of float64, up to the number of the samples, are within bounds and in order.
  pub latency_snapshot-ordered :
      (c : Collector) (name : Bytes)
      → Fraction fl (length (samples c name)) (of_ratio 50 100)
      → Fraction fl (length (samples c name)) (of_ratio 95 100)
      → Fraction fl (length (samples c name)) (of_ratio 99 100)
      → Below (length (samples c name)) (of_ratio 50 100) (of_ratio 95 100)
      → Below (length (samples c name)) (of_ratio 95 100) (of_ratio 99 100)
      → (p50 : ℤ) × (p95 : ℤ) × (p99 : ℤ) × (latency_snapshot fl c name ≡ some (p50, p95, p99))
        × (p50 ≤ℤ p95)
        × (p95 ≤ℤ p99)
  unfolding latency_snapshot
  latency_snapshot-ordered c name h50 h95 h99 b1 b2 =
      elim (Bool-cases (nat_eq (length (samples c name)) 0)) [
        | inl e ↦ (pos 0, pos 0, pos 0, rw e refl, omega arith, omega arith)
        | inr e ↦
            let bound = length (samples c name) in
            let buf = sort_slice ltb_ℤ (samples c name) in
            let sorted = sort_slice-IsSorted ltb_ℤ ltb_ℤ_asym (samples c name) in
            let same = length-sort_slice ltb_ℤ (samples c name) in
            let low : 1 ≤ length buf = ground (arith, same) in
            let high : length buf ≤ bound = omega (arith, same) in
            let x = percentile-At fl bound buf (of_ratio 50 100) h50 low high in
            let y = percentile-At fl bound buf (of_ratio 95 100) h95 low high in
            let z = percentile-At fl bound buf (of_ratio 99 100) h99 low high in
            (
              x.value,
              y.value,
              z.value,
              rw (e, x.result, y.result, z.result) refl,
              value-le bound buf (of_ratio 50 100) (of_ratio 95 100) sorted high b1 x y,
              value-le bound buf (of_ratio 95 100) (of_ratio 99 100) sorted high b2 y z,
            )
      ]
