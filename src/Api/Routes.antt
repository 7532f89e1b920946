-- ===== src/Api/Routes.antt =====
-- cmd/api/main.go: the handlers that read scores, the mux and the stack of middleware. The mux gets
-- clean paths, and not the path /broker/dlq, which it redirects.
use mathlib.Core.Bool.{◌||◌}
use go_kafka.Base.{
  ℕ, ◌^◌, [], ◌∷◌, none, some, Bytes, lit, bytes_key, if◌then◌else◌, ◌==◌, length, drop, refl,
}
use go_kafka.Base.Int.{ℤ, pos}
use go_kafka.Base.Float.{Float64}
use go_kafka.Base.Text.{Unicode, contains, has_prefix}
use go_kafka.Base.Time.{Time}
use go_kafka.Base.Dict.{Dict, insert}
use go_kafka.Config.{Config}
use go_kafka.Events.{is_empty}
use go_kafka.Http.{Handler, done, http_error, query_get}
use go_kafka.Metrics.{Collector, snapshot, latency_snapshot}
use go_kafka.Middleware.{Limiter, chain}
use go_kafka.Middleware.Stack.{
  Shared, request_id, logger, recovery, cors, request_size, security_headers, powered, rate_limiter,
}
use go_kafka.Pipeline.{Fresh, standard}
use go_kafka.Server.{Server, Json}
use go_kafka.Storage.{search}
use go_kafka.Storage.Stats.{stats}
use go_kafka.Api.{
  Value, error, results, aggregated, counters, word, write_json, not_allowed, crashed,
  handle_healthz, handle_get, handle_topics, handle_dlq, handle_pipeline, handle_replay,
  handle_delete, handle_list, handle_create,
}

-- What the clock, uuid and the duration of the call give to one request.
pub record Visit : Type 0 where
  pub now : Time
  pub created : Time
  pub published : Time
  pub id : Bytes
  pub duration : ℤ

abbrev pub metrics_of : {F : Type 0} → Shared (Server F) Collector
metrics_of = record {
  get = λ s. s.metrics;
  set = λ mc s. record s { metrics = mc };
  get-set = λ mc s. refl;
}

abbrev pub limiter_of : {F : Type 0} → Shared (Server F) (Limiter F)
limiter_of = record {
  get = λ s. s.limiter;
  set = λ l s. record s { limiter = l };
  get-set = λ l s. refl;
}

-- `snap[name+"_p50_us"] = p50` and its likes.
abbrev pub with_percentiles : Bytes → Bytes → Bytes → ℤ × ℤ × ℤ → Dict Bytes ℕ → Dict Bytes ℕ
with_percentiles n50 n95 n99 (p50, p95, p99) snap =
    insert n99 (word p99) (insert n95 (word p95) (insert n50 (word p50) snap))

module _ {F : Type 0} where
  abbrev pub method_not_allowed : Handler (Server F) (Value F)
  method_not_allowed r s w = done s (not_allowed w)

  abbrev pub invalid_id : Handler (Server F) (Value F)
  invalid_id r s w = done s (http_error (lit "invalid event id") 400 w)

  abbrev pub not_found : Handler (Server F) (Value F)
  not_found r s w = done s (http_error (lit "404 page not found") 404 w)

module _ (fl : Float64) where
  open fl use {F, of_int}

  unfoldable pub handle_stats : Handler (Server F) (Value F)
  handle_stats r s w = done s (write_json 200 (aggregated (stats fl s.store)) w)

  unfoldable pub handle_metrics : Handler (Server F) (Value F)
  handle_metrics r s w = elim (latency_snapshot fl s.metrics (lit "pipeline.latency")) [
    | none ↦ crashed s w
    | some run_times ↦ elim (latency_snapshot fl s.metrics (lit "http.latency")) [
      | none ↦ crashed s w
      | some call_times ↦
          let snap =
            with_percentiles (lit "pipeline.latency_p50_us") (lit "pipeline.latency_p95_us")
              (lit "pipeline.latency_p99_us") run_times (snapshot s.metrics) in
          done s (
            write_json 200
              (counters (
                with_percentiles (lit "http.latency_p50_us") (lit "http.latency_p95_us")
                  (lit "http.latency_p99_us") call_times snap))
              w)
    ]
  ]

  module _ (u : Unicode) where
    unfoldable pub handle_search : Handler (Server F) (Value F)
    handle_search r s w =
        let q = query_get r (lit "q") in
        if is_empty q
        then done s (write_json 400 (error (lit "q parameter required")) w)
        else (let found = search fl u s.store q in
            done s (write_json 200 (results q (length found) found) w))

    module _ (js : Json F) (cfg : Config F) (v : Visit) where
      abbrev pub events_route : Handler (Server F) (Value F)
      events_route r s w =
          if r.method == lit "POST"
          then handle_create u js (of_int (pos 0)) v.created v.published r s w
          else if r.method == lit "GET"
          then handle_list u (of_int (pos 0)) r s w
          else method_not_allowed r s w

      abbrev pub event_route : Bytes → Handler (Server F) (Value F)
      event_route id r s w =
          if is_empty id || contains id (lit "/")
          then invalid_id r s w
          else if r.method == lit "GET"
          then handle_get id r s w
          else if r.method == lit "DELETE"
          then handle_delete u id r s w
          else method_not_allowed r s w

      abbrev pub pipe : Fresh → Handler (Server F) (Value F)
      pipe fresh =
          handle_pipeline (standard fl u cfg.pipeline_timeout cfg.ttl fresh) cfg.pipeline_timeout

      -- An exact pattern before a prefix, and a longer one before a shorter.
      unfoldable pub mux : Handler (Server F) (Value F)
      mux r s w =
          if r.path == lit "/healthz"
          then handle_healthz r s w
          else if r.path == lit "/events"
          then events_route r s w
          else if r.path == lit "/events/search"
          then handle_search r s w
          else if r.path == lit "/stats"
          then handle_stats r s w
          else if r.path == lit "/metrics"
          then handle_metrics r s w
          else if r.path == lit "/broker/topics"
          then handle_topics r s w
          else if r.path == lit "/broker/replay"
          then handle_replay js r s w
          else if r.path == lit "/pipeline"
          then pipe (record { uuid = []; created = 0; processed = 0 }) r s w
          else if has_prefix r.path (lit "/events/")
          then event_route (drop 8 r.path) r s w
          else if has_prefix r.path (lit "/broker/dlq/")
          then handle_dlq (drop 12 r.path) r s w
          else not_found r s w

      -- The handler of the server.
      unfoldable pub serve : Handler (Server F) (Value F)
      serve = chain mux (
          security_headers
          ∷ cors
          ∷ recovery
          ∷ request_id v.id
          ∷ logger metrics_of v.duration
          ∷ rate_limiter fl limiter_of v.now
          ∷ request_size (2 ^ 20)
          ∷ powered (lit "1.0")
          ∷ [])
