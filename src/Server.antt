-- ===== src/Server.antt =====
-- cmd/api/main.go and cmd/worker/main.go: the objects that `main` makes and shares, the handler of the
-- messages, and the recurring jobs.
pub mod Counters
pub mod Invariant
pub mod Journey
pub mod Workers
use mathlib.Core.Bool.{Bool, true, false}
use go_kafka.Base.{
  ℕ, zero, suc, ◌^◌, ◌%◌, ◌≡◌, refl, List, [], ◌∷◌, Option, none, some, Bytes, lit, bytes_key,
  if◌then◌else◌, ltb, ◌>>=◌,
}
use go_kafka.Base.Int.{ℤ, pos}
use go_kafka.Base.Float.{Float64}
use go_kafka.Base.Text.{Unicode}
use go_kafka.Base.Time.{Time}
use go_kafka.Broker
use go_kafka.Broker.{Broker, queue_depth, with_partitions, with_max_retries}
use go_kafka.Broker.Log.{Message}
use go_kafka.Config.{Config}
use go_kafka.Events.{WeekendEvent}
use go_kafka.Metrics
use go_kafka.Metrics.{Collector, inc, add, set_gauge, record_latency}
use go_kafka.Middleware.{Limiter, new_limiter}
use go_kafka.Middleware.Stack.{Shared}
use go_kafka.Pipeline
use go_kafka.Pipeline.{Pipeline, StageError, Fresh, standard}
use go_kafka.Storage
use go_kafka.Storage.{Store, evict_expired, size}

abbrev pub topic_name : Bytes
topic_name = lit "weekend-events"

-- `createEventRequest` and `replayRequest`.
pub record CreateRequest : Type 0 where
  pub name : Bytes
  pub category : Bytes
  pub mood_boost : ℤ
  pub tags : List Bytes

pub record ReplayRequest : Type 0 where
  pub topic : Bytes
  pub from_offset : ℤ

-- Package encoding/json on the types that the program gives it. `none` is an error.
pub record Json (F : Type 0) : Type 0 where
  pub marshal : WeekendEvent F → Option Bytes
  pub unmarshal : Bytes → Option (WeekendEvent F)
  pub decode_create : Bytes → Option CreateRequest
  pub decode_replay : Bytes → Option ReplayRequest

pub record Server (F : Type 0) : Type 0 where
  pub broker : Broker
  pub store : Store F
  pub metrics : Collector
  pub limiter : Limiter F

-- What the clock and uuid give to one call of the message handler.
pub record Delivery : Type 0 where
  pub fresh : Fresh
  pub duration : ℤ

-- The loop of cmd/worker that subscribes `WorkerCount` times.
unfoldable pub subscribe_workers : ℕ → Broker → Option Broker
subscribe_workers zero brk = some brk
subscribe_workers (suc n) brk = do
  (brk', started) ← Broker.subscribe brk topic_name (lit "standalone-workers")
  subscribe_workers n brk'

module _ {F : Type 0} where
  -- The limiter is made when `RateLimiter` is called; `none` is a panic of `Subscribe`.
  unfoldable pub boot : Config F → Option (Server F)
  boot cfg =
      let brk =
        Broker.new (with_partitions cfg.broker_partitions ∷ with_max_retries (pos 3) ∷ []) in
      do
        (brk', started) ← Broker.subscribe brk topic_name (lit "pipeline-workers")
        some (record {
          broker = brk';
          store = Storage.new;
          metrics = Metrics.new;
          limiter = new_limiter cfg.rate_limit_rps cfg.rate_limit_burst;
        })

  -- The job "ttl-eviction".
  unfoldable pub evict_job : Unicode → Time → Server F → Server F
  evict_job u now s =
      let (store, n) = evict_expired u s.store now in
      record s {
        store = store;
        metrics = if ltb 0 n then add s.metrics (lit "events.expired") (n % 2 ^ 64) else s.metrics;
      }

  -- The job "metrics-snapshot".
  unfoldable pub snapshot_job : Server F → Server F
  snapshot_job s = record s {
    metrics =
        inc
          (set_gauge (set_gauge s.metrics (lit "store.total_events") (size s.store % 2 ^ 64))
            (lit "broker.queue_depth") (queue_depth s.broker % 2 ^ 64))
          (lit "scheduler.ticks");
  }

  -- The tests of the error of `pipe.Run`. The Boolean says whether the handler returns an error.
  abbrev pub settled :
      ℤ → Collector → Store F × WeekendEvent F × Option StageError → Store F × Collector × Bool
  settled duration mc (s, e, some x) =
      (s, inc (inc mc (lit "events.failed")) (lit "pipeline.stage_errors"), true)
  settled duration mc (s, e, none) =
      (s, inc (record_latency mc (lit "pipeline.latency") duration) (lit "events.processed"), false)

  -- The handler that cmd/worker gives to `Subscribe`.
  unfoldable pub handle_message :
      Json F → Pipeline F → ℤ → Store F → Collector → Message → Store F × Collector × Bool
  handle_message json pipe duration s mc msg = elim (json.unmarshal msg.value) [
    | none ↦ (s, inc mc (lit "events.failed"), true)
    | some evt ↦ settled duration (inc mc (lit "pipeline.runs")) (Pipeline.run pipe s evt)
  ]

module _ (fl : Float64) (u : Unicode) (json : Json fl.F) (cfg : Config fl.F) where
  open fl use {F}

  -- The one that cmd/api gives to it.
  unfoldable pub on_message : Delivery → Server F → Message → Server F × Bool
  unfolding handle_message
  on_message d s msg =
      let pipe = standard fl u cfg.pipeline_timeout cfg.ttl d.fresh in
      let (store, metrics, failed) = handle_message json pipe d.duration s.store s.metrics msg in
      (record s { store = store; metrics = metrics }, failed)
