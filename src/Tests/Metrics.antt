-- ===== src/Tests/Metrics.antt =====
-- The latency percentiles on concrete inputs.
use go_kafka.Base.{ℕ, ◌≡◌, refl, [], ◌∷◌, some, lit, arith, ap, bytes_eq, length}
use go_kafka.Base.Int.{ℤ, pos, ◌≤ℤ◌}
use go_kafka.Base.Dict.{lookup}
use go_kafka.Base.Sort.{sort_slice, insert_sorted}
use go_kafka.Metrics.{Collector, latency_snapshot, percentile}
use go_kafka.Metrics.Ring.{samples}
use go_kafka.Metrics.Percentiles.{Fraction}
use go_kafka.Metrics.Order.{latency_snapshot-ordered}
use go_kafka.Tests.Events.{whole}

abbrev collector : Collector
collector = record {
  counters = [];
  latency = (lit "http.latency", pos 7 ∷ pos 2 ∷ pos 5 ∷ []) ∷ [];
}

-- A fraction below one is cut to zero.
whole-Fraction : (bound : ℕ) → Fraction whole bound 0
whole-Fraction bound n h = (0, ap pos (omega arith), omega arith)

abbrev whole_samples : ℕ
whole_samples = length (samples collector (lit "http.latency"))

latency_snapshot-ordered_example :
    (p50 : ℤ) × (p95 : ℤ) × (p99 : ℤ) × (latency_snapshot whole collector (lit "http.latency")
      ≡ some (p50, p95, p99))
    × (p50 ≤ℤ p95)
    × (p95 ≤ℤ p99)
latency_snapshot-ordered_example =
    latency_snapshot-ordered whole collector (lit "http.latency") (whole-Fraction whole_samples)
      (whole-Fraction whole_samples) (whole-Fraction whole_samples) (λ n h. omega arith)
      (λ n h. omega arith)

latency_run : latency_snapshot whole collector (lit "http.latency") ≡ some (pos 2, pos 2, pos 2)
unfolding latency_snapshot percentile sort_slice insert_sorted lookup bytes_eq
latency_run = refl
