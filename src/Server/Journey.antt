-- ===== src/Server/Journey.antt =====
-- cmd/api/main.go: an event on its way from the request over the broker to the store.
use mathlib.Core.Bool.{false}
use go_kafka.Base.{◌≡◌, refl, none, some, lit, bytes_key, bytes_eq_iff, ◌∙◌}
use go_kafka.Base.Float.{Float64}
use go_kafka.Base.Text.{Unicode}
use go_kafka.Base.Time.{Time}
use go_kafka.Broker.{message}
use go_kafka.Broker.Log.{Message}
use go_kafka.Broker.Logs.{fetch}
use go_kafka.Config.{Config}
use go_kafka.Events.{WeekendEvent, validate}
use go_kafka.Http.{Request, Response}
use go_kafka.Metrics.{inc}
use go_kafka.Pipeline.Laws.{finished, run-stores}
use go_kafka.Storage.{get, put}
use go_kafka.Storage.Invariant.{IsIndexed}
use go_kafka.Api.{Value, requested}
use go_kafka.Api.Create.{Queued, outcome}
use go_kafka.Server.{Server, Delivery, Json, handle_message, on_message, topic_name}

module _ (fl : Float64) (u : Unicode) (js : Json fl.F) (cfg : Config fl.F) (d : Delivery) where
  open fl use {F}

  -- The store behind the delivery of a message whose value is a valid event.
  on_message-valid :
      (s : Server F) (msg : Message) (e : WeekendEvent F)
      → IsIndexed u s.store
      → js.unmarshal msg.value ≡ some e
      → validate u e ≡ none
      → ((on_message fl u js cfg d s msg).1 ≡ false)
        × ((on_message fl u js cfg d s msg).0.store
            ≡ put u s.store (finished fl u cfg.pipeline_timeout cfg.ttl d.fresh s.store e))
  unfolding on_message
  on_message-valid s msg e v q ok =
      let h = run-stores fl u cfg.pipeline_timeout cfg.ttl d.fresh s.store e v ok in
      rw (q, handle_message) (rw h.0 (refl, refl))

  -- The message of an event that a request queued can be fetched, and when a consumer hands it to the
  -- handler, the handler returns no error and the event, enriched, scored and classified, is in the
  -- store under its id. JSON must give back the event that it encoded.
  pub queued-stored :
      (zero_score : F) (now published : Time) (r : Request) (s : Server F) (w : Response (Value F))
      (q : Queued u js zero_score now published r s w)
      → IsIndexed u s.store
      → js.unmarshal q.payload ≡ some (requested zero_score now q.req)
      → (msg : Message) × (fetch q.broker topic_name q.p q.o ≡ some msg)
        × ((on_message fl u js cfg d (outcome u js zero_score now published r s w).world msg).1
            ≡ false)
        × (get
              (on_message fl u js cfg d
                (outcome u js zero_score now published r s w).world
                msg).0.store
              (finished fl u cfg.pipeline_timeout cfg.ttl d.fresh s.store
                (requested zero_score now q.req)).id
            ≡ some (
                finished fl u cfg.pipeline_timeout cfg.ttl d.fresh s.store
                  (requested zero_score now q.req)))
  queued-stored zero_score now published r s w q v back =
      let evt = requested zero_score now q.req in
      let msg : Message = record (message topic_name q.req.category q.payload q.p published) {
        offset = q.o;
      } in
      let s1 : Server F = record s {
        broker = q.broker;
        metrics = inc s.metrics (lit "events.published");
      } in
      let stop = finished fl u cfg.pipeline_timeout cfg.ttl d.fresh s.store evt in
      let h = on_message-valid s1 msg evt v back q.valid in
      let got =
        (run-stores fl u cfg.pipeline_timeout cfg.ttl d.fresh s.store evt v q.valid).2 stop.id in
      (
        msg,
        q.stored,
        rw q.result h.0,
        rw (q.result, h.1) (got ∙ (rw ((bytes_eq_iff stop.id stop.id).1 refl) refl)),
      )
