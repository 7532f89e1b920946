-- ===== src/Metrics/Percentiles.antt =====
-- internal/metrics/metrics.go: the indices of `LatencySnapshot`.
use mathlib.Core.Bool.{Bool}
use go_kafka.Base.{
  ℕ, suc, ◌-◌, ◌≤◌, ◌≡◌, refl, List, [], ◌∷◌, some, Bytes, bytes_key, arith, length, nat_eq,
  get_elem?, get_elem?-total, Bool-cases, inl, inr, ap, ◌∙◌,
}
use go_kafka.Base.Int.{ℤ, pos, ltb_ℤ}
use go_kafka.Base.Float.{Float64}
use go_kafka.Base.Sort.{sort_slice, insert_sorted}
use go_kafka.Metrics.{Collector, percentile, latency_snapshot, at_index}
use go_kafka.Metrics.Ring.{samples}

module _ {A : Type 0} (less : A → A → Bool) where
  length-insert_sorted : (a : A) (xs : List A) → length (insert_sorted less a xs) ≡ suc (length xs)
  unfolding insert_sorted
  length-insert_sorted a [] = refl
  length-insert_sorted a (x ∷ xs) = ground (arith, length-insert_sorted a xs)

  pub length-sort_slice : (xs : List A) → length (sort_slice less xs) ≡ length xs
  unfolding sort_slice
  length-sort_slice [] = refl
  length-sort_slice (x ∷ xs) =
      length-insert_sorted x (sort_slice less xs) ∙ ap suc (length-sort_slice xs)

module _ (fl : Float64) where
  open fl use {F, of_int, of_ratio, mul, trunc}

  -- Up to `bound`, a fraction of an integer cut to an integer is not negative and not above it.
  abbrev pub Fraction : ℕ → F → Type 0
  Fraction bound p =
      (n : ℕ) → n ≤ bound → (k : ℕ) × (trunc (mul (of_int (pos n)) p) ≡ pos k) × (k ≤ n)

  -- A percentile of a sorted list that is not empty.
  pub record At (buf : List ℤ) (p : F) : Type 0 where
    pub k : ℕ
    pub value : ℤ
    pub index : trunc (mul (of_int (pos (length buf - 1))) p) ≡ pos k
    pub found : get_elem? buf k ≡ some value
    pub result : percentile fl buf p ≡ some value

  pub percentile-At :
      (bound : ℕ) (buf : List ℤ) (p : F)
      → Fraction bound p
      → 1 ≤ length buf
      → length buf ≤ bound
      → At buf p
  unfolding percentile
  percentile-At bound buf p h low high =
      let (k, q, le) = h (length buf - 1) (omega arith) in
      let (v, at) = get_elem?-total buf k (omega arith) in
      record { k = k; value = v; index = q; found = at; result = ap (at_index fl buf) q ∙ at }

  -- `LatencySnapshot` returns, without an index out of range, where the three fractions of float64 are
  -- within bounds up to the number of the samples.
  pub latency_snapshot-total :
      (c : Collector) (name : Bytes)
      → Fraction (length (samples c name)) (of_ratio 50 100)
      → Fraction (length (samples c name)) (of_ratio 95 100)
      → Fraction (length (samples c name)) (of_ratio 99 100)
      → (r : ℤ × ℤ × ℤ) × (latency_snapshot fl c name ≡ some r)
  unfolding latency_snapshot
  latency_snapshot-total c name h50 h95 h99 =
      elim (Bool-cases (nat_eq (length (samples c name)) 0)) [
        | inl e ↦ ((pos 0, pos 0, pos 0), rw e refl)
        | inr e ↦
            let buf = sort_slice ltb_ℤ (samples c name) in
            let same = length-sort_slice ltb_ℤ (samples c name) in
            let low : 1 ≤ length buf = ground (arith, same) in
            let high : length buf ≤ length (samples c name) = omega (arith, same) in
            let bound = length (samples c name) in
            let x = percentile-At bound buf (of_ratio 50 100) h50 low high in
            let y = percentile-At bound buf (of_ratio 95 100) h95 low high in
            let z = percentile-At bound buf (of_ratio 99 100) h99 low high in
            ((x.value, y.value, z.value), rw (e, x.result, y.result, z.result) refl)
      ]
