-- ===== src/Api/Served.antt =====
-- cmd/api/main.go: the routes and the stack of middleware on such a property.
use mathlib.Core.Bool.{◌||◌}
use go_kafka.Base.{◌^◌, [], Bytes, lit, bytes_key, ◌==◌, drop}
use go_kafka.Base.Int.{pos}
use go_kafka.Base.Float.{Float64}
use go_kafka.Base.Text.{Unicode, contains, has_prefix}
use go_kafka.Config.{Config}
use go_kafka.Events.{is_empty}
use go_kafka.Http.{Handler}
use go_kafka.Middleware.{chain}
use go_kafka.Middleware.Stack.Keeps.{
  Keeps, request_id-Keeps, security_headers-Keeps, powered-Keeps, request_size-Keeps, cors-Keeps,
  recovery-Keeps, logger-Keeps, rate_limiter-Keeps,
}
use go_kafka.Server.{Server, Json}
use go_kafka.Api.{
  Value, handle_healthz, handle_get, handle_topics, handle_dlq, handle_pipeline, handle_replay,
  handle_list,
}
use go_kafka.Api.Routes.{
  Visit, metrics_of, limiter_of, handle_stats, handle_metrics, handle_search, events_route,
  event_route, pipe, mux, serve, method_not_allowed, invalid_id, not_found,
}
use go_kafka.Api.Keeps.{
  Stable, either-Keeps, handle_get-Reads, handle_dlq-Reads, handle_replay-Reads, handle_list-Reads,
  handle_metrics-Reads, handle_search-Reads, Reads-Safe, handle_delete-Safe, handle_create-Safe,
}

module _ (fl : Float64) (u : Unicode) (js : Json fl.F) (cfg : Config fl.F) (v : Visit)
    (P : Server fl.F → Type 0) (c : Stable u P) where
  open fl use {F, of_int}

  abbrev Safe : Handler (Server F) (Value F) → Type 0
  Safe h = Keeps P h

  events_route-Safe : Safe (events_route fl u js cfg v)
  events_route-Safe =
      either-Keeps P (λ r. r.method == lit "POST") _ _
        (handle_create-Safe u P c js (of_int (pos 0)) v.created v.published)
        (either-Keeps P (λ r. r.method == lit "GET") _ method_not_allowed
          (Reads-Safe u P c (handle_list u (of_int (pos 0))) (handle_list-Reads u (of_int (pos 0))))
          (λ r s w p. p))

  event_route-Safe : (id : Bytes) → Safe (event_route fl u js cfg v id)
  event_route-Safe id =
      either-Keeps P (λ r. is_empty id || contains id (lit "/")) invalid_id _ (λ r s w p. p)
        (either-Keeps P (λ r. r.method == lit "GET") _ _
          (Reads-Safe u P c (handle_get id) (handle_get-Reads id))
          (either-Keeps P (λ r. r.method == lit "DELETE") _ method_not_allowed
            (handle_delete-Safe u P c id) (λ r s w p. p)))

  mux-Safe : Safe (mux fl u js cfg v)
  unfolding mux handle_healthz handle_stats handle_topics handle_pipeline
  mux-Safe =
      either-Keeps P (λ r. r.path == lit "/healthz") handle_healthz _ (λ r s w p. p)
        (either-Keeps P (λ r. r.path == lit "/events") _ _ events_route-Safe
          (either-Keeps P (λ r. r.path == lit "/events/search") _ _
            (Reads-Safe u P c (handle_search fl u) (handle_search-Reads fl u))
            (either-Keeps P (λ r. r.path == lit "/stats") (handle_stats fl) _ (λ r s w p. p)
              (either-Keeps P (λ r. r.path == lit "/metrics") _ _
                (Reads-Safe u P c (handle_metrics fl) (handle_metrics-Reads fl))
                (either-Keeps P (λ r. r.path == lit "/broker/topics") handle_topics _ (λ r s w p. p)
                  (either-Keeps P (λ r. r.path == lit "/broker/replay") _ _
                    (Reads-Safe u P c (handle_replay js) (handle_replay-Reads js))
                    (either-Keeps P (λ r. r.path == lit "/pipeline")
                      (pipe fl u js cfg v (record { uuid = []; created = 0; processed = 0 })) _
                      (λ r s w p. p)
                      (either-Keeps P (λ r. has_prefix r.path (lit "/events/")) _ _
                        (λ r. event_route-Safe (drop 8 r.path) r)
                        (either-Keeps P (λ r. has_prefix r.path (lit "/broker/dlq/")) _ not_found
                          (λ r.
                            Reads-Safe u P c (handle_dlq (drop 12 r.path))
                              (handle_dlq-Reads (drop 12 r.path)) r)
                          (λ r s w p. p))))))))))

  -- What every change of a handler keeps, a whole request keeps, on every route and with every way
  -- through the middleware.
  pub serve-Keeps : Keeps P (serve fl u js cfg v)
  unfolding serve chain
  serve-Keeps = security_headers-Keeps P _ (
      cors-Keeps P _ (
        recovery-Keeps P _ (
          request_id-Keeps P v.id _ (
            logger-Keeps P metrics_of v.duration (λ status s p. c.counts s v.duration status p) _
              (rate_limiter-Keeps P fl limiter_of v.now (λ l s p. c.limits s l p) _
                (request_size-Keeps P (2 ^ 20) _ (powered-Keeps P (lit "1.0") _ mux-Safe)))))))
