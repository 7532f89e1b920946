-- ===== src/Metrics.antt =====
-- internal/metrics/metrics.go: counters and latency samples, each operation under its lock. A counter
-- is the 64-bit word of its int64.
pub mod Counters
pub mod Ring
pub mod Percentiles
pub mod Order
use mathlib.Core.Bool.{Bool, true, false}
use go_kafka.Base.{
  ℕ, zero, suc, ◌+◌, ◌*◌, ◌/◌, ◌%◌, ◌^◌, List, [], ◌∷◌, ◌++◌, Option, none, some, Bytes, lit,
  bytes_key, length, drop, get_elem?, leb, nat_eq, if◌then◌else◌, ◌>>=◌, ◌-◌,
}
use go_kafka.Base.Int.{ℤ, pos, negsuc, ltb_ℤ}
use go_kafka.Base.Float.{Float64}
use go_kafka.Base.Sort.{sort_slice}
use go_kafka.Base.Dict.{Dict, lookup, insert, or_zero}

pub record Collector : Type 0 where
  pub counters : Dict Bytes ℕ
  pub latency : Dict Bytes (List ℤ)

abbrev pub well_known : List Bytes
well_known =
    lit "events.published"
    ∷ lit "events.processed"
    ∷ lit "events.failed"
    ∷ lit "events.expired"
    ∷ lit "broker.queue_depth"
    ∷ lit "store.total_events"
    ∷ lit "http.requests"
    ∷ lit "http.errors"
    ∷ lit "pipeline.runs"
    ∷ lit "pipeline.stage_errors"
    ∷ lit "scheduler.ticks"
    ∷ []

unfoldable pub register : List Bytes → Dict Bytes ℕ → Dict Bytes ℕ
register [] counters = counters
register (name ∷ names) counters = register names (insert name 0 counters)

unfoldable pub new : Collector
unfolding register
new = record { counters = register well_known []; latency = [] }

-- `Add` of a delta that is given as a 64-bit word. A missing counter is made at 0 first.
unfoldable pub add : Collector → Bytes → ℕ → Collector
add c name delta = record c {
  counters = insert name ((or_zero 0 (lookup name c.counters) + delta) % 2 ^ 64) c.counters;
}

unfoldable pub inc : Collector → Bytes → Collector
unfolding add
inc c name = add c name 1

unfoldable pub set_gauge : Collector → Bytes → ℕ → Collector
set_gauge c name val = record c { counters = insert name val c.counters }

-- `Duration.Microseconds`, which rounds toward zero.
abbrev pub microseconds : ℤ → ℤ
microseconds (pos ns) = pos (ns / 1000)
microseconds (negsuc n) = let us = suc n / 1000 in if nat_eq us 0 then pos 0 else negsuc (us - 1)

abbrev pub recent : ℕ
recent = 1000

-- A buffer with one more sample.
unfoldable pub push : List ℤ → ℤ → List ℤ
push buf us = let kept = if leb recent (length buf) then drop 1 buf else buf in kept ++ us ∷ []

unfoldable pub record_latency : Collector → Bytes → ℤ → Collector
unfolding push
record_latency c name d = record c {
  latency = insert name (push (or_zero [] (lookup name c.latency)) (microseconds d)) c.latency;
}

unfoldable pub snapshot : Collector → Dict Bytes ℕ
snapshot c = c.counters

module _ (fl : Float64) where
  open fl use {F, of_int, of_ratio, mul, trunc}

  -- `buf[idx]`; `none` is the panic of an index out of range.
  abbrev pub at_index : List ℤ → ℤ → Option ℤ
  at_index buf (pos i) = get_elem? buf i
  at_index buf (negsuc i) = none

  unfoldable pub percentile : List ℤ → F → Option ℤ
  percentile buf p = at_index buf (trunc (mul (of_int (pos (length buf - 1))) p))

  unfoldable pub latency_snapshot : Collector → Bytes → Option (ℤ × ℤ × ℤ)
  unfolding percentile
  latency_snapshot c name =
      let buf = or_zero [] (lookup name c.latency) in
      if nat_eq (length buf) 0
      then some (pos 0, pos 0, pos 0)
      else (let sorted = sort_slice ltb_ℤ buf in
          percentile sorted (of_ratio 50 100) >>= (λ p50.
            percentile sorted (of_ratio 95 100)
            >>= (λ p95. percentile sorted (of_ratio 99 100) >>= (λ p99. some (p50, p95, p99)))))
