-- ===== src/Metrics/Counters.antt =====
-- internal/metrics/metrics.go: which counter an operation moves.
use mathlib.Core.Bool.{false}
use go_kafka.Base.{
  ℕ, ◌+◌, ◌^◌, ◌%◌, Bytes, bytes_key, bytes_eq_iff, arith, if◌then◌else◌, ◌==◌, refl, ◌≡◌, ◌∙◌,
}
use go_kafka.Base.Dict.{lookup, or_zero, lookup-insert}
use go_kafka.Metrics.{Collector, inc, add, set_gauge}

-- The value of a counter.
abbrev pub counter : Collector → Bytes → ℕ
counter mc name = or_zero 0 (lookup name mc.counters)

counter-inc :
    (mc : Collector) (name other : Bytes)
    → counter (inc mc name) other
      ≡ (if name == other then (counter mc name + 1) % 2 ^ 64 else counter mc other)
unfolding inc
counter-inc mc name other =
    ground (arith, lookup-insert name other ((counter mc name + 1) % 2 ^ 64) mc.counters)

pub counter-inc_self :
    (mc : Collector) (name : Bytes) → counter (inc mc name) name ≡ (counter mc name + 1) % 2 ^ 64
counter-inc_self mc name = counter-inc mc name name ∙ (rw ((bytes_eq_iff name name).1 refl) refl)

pub counter-inc_ne :
    (mc : Collector) (name other : Bytes)
    → (name == other) ≡ false
    → counter (inc mc name) other ≡ counter mc other
counter-inc_ne mc name other h = counter-inc mc name other ∙ (rw h refl)

pub counter-add_ne :
    (mc : Collector) (name other : Bytes) (delta : ℕ)
    → (name == other) ≡ false
    → counter (add mc name delta) other ≡ counter mc other
unfolding add
counter-add_ne mc name other delta h =
    ground (arith, lookup-insert name other ((counter mc name + delta) % 2 ^ 64) mc.counters)

pub counter-set_gauge_ne :
    (mc : Collector) (name other : Bytes) (val : ℕ)
    → (name == other) ≡ false
    → counter (set_gauge mc name val) other ≡ counter mc other
unfolding set_gauge
counter-set_gauge_ne mc name other val h = ground (arith, lookup-insert name other val mc.counters)
