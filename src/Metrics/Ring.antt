-- ===== src/Metrics/Ring.antt =====
-- internal/metrics/metrics.go: the samples of `RecordLatency`.
use mathlib.Core.List.{append-nil, append_assoc}
use go_kafka.Base.{
  ℕ, zero, suc, ◌-◌, ◌≤◌, ◌≡◌, refl, List, [], ◌∷◌, ◌++◌, Bytes, bytes_key, arith, length, drop,
  leb, Bool-cases, inl, inr, length-append, length-drop, ap, ◌∙◌, sym, map,
}
use go_kafka.Base.Int.{ℤ}
use go_kafka.Base.Dict.{lookup, or_zero, lookup-insert_self}
use go_kafka.Metrics.{Collector, record_latency, push, microseconds}

module _ {A : Type 0} where
  drop-append : (n : ℕ) (xs ys : List A) → n ≤ length xs → drop n (xs ++ ys) ≡ drop n xs ++ ys
  drop-append zero xs ys h = refl
  drop-append (suc n) [] ys h = absurd (omega arith)
  drop-append (suc n) (x ∷ xs) ys h = drop-append n xs ys (omega arith)

  drop-one : (n : ℕ) (xs : List A) → drop 1 (drop n xs) ≡ drop (suc n) xs
  drop-one zero xs = refl
  drop-one (suc n) [] = refl
  drop-one (suc n) (x ∷ xs) = drop-one n xs

push-recent :
    (xs : List ℤ) (x : ℤ)
    → push (drop (length xs - 1000) xs) x ≡ drop (length (xs ++ x ∷ []) - 1000) (xs ++ x ∷ [])
unfolding push
push-recent xs x = elim (Bool-cases (leb 1000 (length (drop (length xs - 1000) xs)))) [
  | inl full ↦ rw full (
      ap (λ l. l ++ x ∷ []) (drop-one (length xs - 1000) xs)
      ∙ sym (
          drop-append (suc (length xs - 1000)) xs (x ∷ [])
            (ground (arith, length-drop (length xs - 1000) xs)))
      ∙ ap (λ n. drop n (xs ++ x ∷ [])) {x = suc (length xs - 1000)}
          (ground (arith, length-drop (length xs - 1000) xs, length-append xs (x ∷ []))))
  | inr room ↦ rw room (
      sym (drop-append (length xs - 1000) xs (x ∷ []) (omega arith))
      ∙ ap (λ n. drop n (xs ++ x ∷ [])) {x = length xs - 1000}
          (ground (arith, length-drop (length xs - 1000) xs, length-append xs (x ∷ []))))
]

-- `RecordLatency` of one duration after another.
abbrev pub record_all : Collector → Bytes → List ℤ → Collector
record_all c name [] = c
record_all c name (d ∷ ds) = record_all (record_latency c name d) name ds

abbrev pub samples : Collector → Bytes → List ℤ
samples c name = or_zero [] (lookup name c.latency)

samples-record_latency :
    (c : Collector) (name : Bytes) (d : ℤ)
    → samples (record_latency c name d) name ≡ push (samples c name) (microseconds d)
unfolding record_latency
samples-record_latency c name d =
    rw (lookup-insert_self name (push (samples c name) (microseconds d)) c.latency) refl

record_all-recent :
    (c : Collector) (name : Bytes) (done ds : List ℤ)
    → samples c name ≡ drop (length done - 1000) done
    → samples (record_all c name ds) name
      ≡ drop (length (done ++ map microseconds ds) - 1000) (done ++ map microseconds ds)
record_all-recent c name done [] h = h ∙ ap (λ l. drop (length l - 1000) l) (sym (append-nil done))
record_all-recent c name done (d ∷ ds) h =
    record_all-recent (record_latency c name d) name (done ++ microseconds d ∷ []) ds (
      samples-record_latency c name d
      ∙ ap (λ l. push l (microseconds d)) h
      ∙ push-recent done (microseconds d))
    ∙ ap (λ l. drop (length l - 1000) l)
        (append_assoc done (microseconds d ∷ []) (map microseconds ds))

-- However many durations are recorded under a name that had no sample, its samples are the last 1000
-- of them in microseconds, or all of them if they are fewer.
pub record_all-last :
    (c : Collector) (name : Bytes) (ds : List ℤ)
    → samples c name ≡ []
    → samples (record_all c name ds) name
      ≡ drop (length (map microseconds ds) - 1000) (map microseconds ds)
record_all-last c name ds h = record_all-recent c name [] ds h
