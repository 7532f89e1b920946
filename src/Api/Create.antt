-- ===== src/Api/Create.antt =====
-- cmd/api/main.go: `handleCreateEvent`.
use mathlib.Core.Bool.{false, not}
use go_kafka.Base.{
  ℕ, ◌∷◌, none, some, Bytes, lit, bytes_key, ◌==◌, ◌≡◌, ◌∙◌, ap, ◌≤◌, ◌⊎◌, refl, arith, Bool-cases,
  Option-cases, inl, inr,
}
use go_kafka.Base.Text.{Unicode}
use go_kafka.Base.Time.{Time}
use go_kafka.Broker.{Broker, message}
use go_kafka.Broker.Logs.{fetch}
use go_kafka.Broker.History.{publish-fetch}
use go_kafka.Broker.Invariant.{IsBroker}
use go_kafka.Broker.Invariant.Publish.{publish-IsBroker}
use go_kafka.Events.{key, validate}
use go_kafka.Http.{Request, Response, Outcome, done, http_error, write_header, set_header}
use go_kafka.Metrics.{inc}
use go_kafka.Server.{Server, Json, CreateRequest, topic_name}
use go_kafka.Api.{
  Value, queued, error, not_allowed, write_json, enqueue, accept_event, requested, handle_create,
}

module _ {F : Type 0} (u : Unicode) (js : Json F) (zero_score : F) (now published : Time)
    (r : Request) (s : Server F) (w : Response (Value F)) where
  abbrev pub outcome : Outcome (Server F) (Value F)
  outcome = handle_create u js zero_score now published r s w

  -- A request that is answered by an error and without a change of the server.
  pub record Refused : Type 0 where
    pub code : ℕ
    pub is_error : 400 ≤ code
    pub coded : outcome.response.codes ≡ code ∷ w.codes
    pub unchanged : outcome.world ≡ s
    pub answered : outcome.panicked ≡ false

  -- A request whose event was published, at the place that the answer names.
  pub record Queued : Type 0 where
    pub req : CreateRequest
    pub payload : Bytes
    pub broker : Broker
    pub p : ℕ
    pub o : ℕ
    pub decoded : js.decode_create r.body ≡ some req
    pub valid : validate u (requested zero_score now req) ≡ none
    pub encoded : js.marshal (requested zero_score now req) ≡ some payload
    pub well_formed : IsBroker broker
    pub stored :
        fetch broker topic_name p o
        ≡ some (record (message topic_name req.category payload p published) { offset = o })
    pub result :
        outcome
        ≡ done
            (record s { broker = broker; metrics = inc s.metrics (lit "events.published") })
            (write_json 202 (queued p o (requested zero_score now req)) w)

  refusal :
      (code : ℕ) (answer : Response (Value F))
      → 400 ≤ code
      → answer.codes ≡ code ∷ w.codes
      → outcome ≡ done s answer
      → Refused
  refusal code answer high c e = record {
    code = code;
    is_error = high;
    coded = ap (λ o. o.response.codes) e ∙ c;
    unchanged = ap (λ o. o.world) e;
    answered = ap (λ o. o.panicked) e;
  }

  -- With a well-formed broker, a request to create an event never panics: it answers an error and
  -- changes nothing, or its event is valid and its encoding stands at the partition and offset of the answer.
  pub handle_create-cases : IsBroker s.broker → Refused ⊎ Queued
  unfolding handle_create write_json http_error write_header set_header
  handle_create-cases v = elim (Bool-cases (not (r.method == lit "POST"))) [
    | inl e ↦ inl (refusal 405 (not_allowed w) (omega arith) refl (rw e refl))
    | inr post ↦ elim (Option-cases (js.decode_create r.body)) [
      | inl e ↦ inl (
          refusal 400 (http_error (lit "invalid JSON payload") 400 w) (omega arith) refl
            (rw (post, e) refl))
      | inr (req, d) ↦
          let evt = requested zero_score now req in
          elim (Option-cases (validate u evt)) [
            | inr (cause, e) ↦ inl (
                refusal 422 (write_json 422 (error cause) w) (omega arith) refl
                  (rw (post, d, e, accept_event) refl))
            | inl valid ↦ elim (Option-cases (js.marshal evt)) [
              | inl e ↦ inl (
                  refusal 500 (http_error (lit "encoding error") 500 w) (omega arith) refl
                    (rw (post, d, valid, e, accept_event) refl))
              | inr (payload, m) ↦
                  let ((b, p, o), q, h) =
                    publish-IsBroker s.broker topic_name (key evt) payload published v in
                  inr (record {
                    req = req;
                    payload = payload;
                    broker = b;
                    p = p;
                    o = o;
                    decoded = d;
                    valid = valid;
                    encoded = m;
                    well_formed = h;
                    stored =
                        (publish-fetch s.broker topic_name req.category payload published v q).0;
                    result = rw (post, d, valid, m, q, accept_event, enqueue) refl;
                  })
            ]
          ]
    ]
  ]
