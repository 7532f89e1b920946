-- ===== src/Api.antt =====
-- cmd/api/main.go: the handlers of the HTTP server, its routes and its stack of middleware. The mux
-- gets clean paths. The result of the clock is an argument.
pub mod Routes
pub mod Keeps
pub mod Served
pub mod Create
pub mod Limited
use mathlib.Core.Bool.{Bool, true, false, ◌&&◌, ◌||◌, not}
use go_kafka.Base.{
  ℕ, ◌+◌, ◌*◌, ◌-◌, ◌^◌, ◌%◌, List, [], ◌∷◌, Option, none, some, Bytes, lit, bytes_key,
  if◌then◌else◌, ◌==◌, length, drop, ok, err, Result, leb, ltb, nat_eq, zero,
}
use go_kafka.Base.Int.{ℤ, pos, negsuc}
use go_kafka.Base.Float.{Float64}
use go_kafka.Base.Text.{Unicode, contains, has_prefix}
use go_kafka.Base.Time.{Time}
use go_kafka.Base.Dict.{Dict, insert}
use go_kafka.Broker.{Broker, Error, topic_not_found, TopicStats, publish, get_stats, dlq, replay}
use go_kafka.Broker.Log.{Message}
use go_kafka.Config.{Config}
use go_kafka.Events.{WeekendEvent, Filter, is_empty, key, validate, zero_event}
use go_kafka.Http.{
  Request, Response, Outcome, Handler, done, json, set_header, write_header, write, http_error,
  query_get,
}
use go_kafka.Metrics.{inc, snapshot, latency_snapshot}
use go_kafka.Pipeline.{Pipeline, stage_names}
use go_kafka.Server.{Server, Json, CreateRequest, ReplayRequest, topic_name}
use go_kafka.Storage.{Store, ListResult, get, delete, list, search}
use go_kafka.Storage.Stats.{AggregatedStats, stats}

-- What `writeJSON` is given.
pub data Value (F : Type 0) : Type 0 where
  status : Bytes → Value F
  error : Bytes → Value F
  failure : Error → Value F
  queued : (partition offset : ℕ) → WeekendEvent F → Value F
  event : WeekendEvent F → Value F
  page : ListResult F → Value F
  results : (query : Bytes) (count : ℕ) → List (WeekendEvent F) → Value F
  aggregated : AggregatedStats F → Value F
  counters : Dict Bytes ℕ → Value F
  topics : Dict Bytes TopicStats → Value F
  dead : (topic : Bytes) (count : ℕ) → List Message → Value F
  replayed : (topic : Bytes) (from : ℤ) (count : ℕ) → List Message → Value F
  stages : List Bytes → (timeout : ℤ) → Value F

-- An int64 as its 64-bit word.
abbrev pub word : ℤ → ℕ
word (pos n) = n % 2 ^ 64
word (negsuc n) = 2 ^ 64 - (n % 2 ^ 64 + 1)

-- The digits that `strconv.ParseUint` reads; it stops where the value leaves a uint64.
unfoldable pub scan : ℕ → Bytes → Option ℕ
scan n [] = some n
scan n (c ∷ cs) =
    let m = n * 10 + (c - 48) in
    let rest = scan m cs in
    if leb 48 c && leb c 57 then (if ltb m (2 ^ 64) then rest else some m) else none

abbrev pub scanned : Bytes → Option ℕ
scanned [] = none
scanned (c ∷ cs) = scan 0 (c ∷ cs)

abbrev pub nearest : Bool → Option ℕ → ℤ
nearest negative none = pos 0
nearest true (some n) =
    if nat_eq n 0 then pos 0 else if ltb (2 ^ 63) n then negsuc (2 ^ 63 - 1) else negsuc (n - 1)
nearest false (some n) = if ltb n (2 ^ 63) then pos n else pos (2 ^ 63 - 1)

-- The number that `strconv.Atoi` returns, with or without an error: the nearest int64 to a number that
-- is out of range, and 0 for what is no number.
unfoldable pub atoi_value : Bytes → ℤ
unfolding scan
atoi_value [] = pos 0
atoi_value (c ∷ cs) =
    if nat_eq c 45
    then nearest true (scanned cs)
    else if nat_eq c 43
    then nearest false (scanned cs)
    else nearest false (scanned (c ∷ cs))

module _ {F : Type 0} where
  unfoldable pub write_json : ℕ → Value F → Response (Value F) → Response (Value F)
  unfolding set_header write_header
  write_json code v w =
      write (json v)
        (write_header code (set_header (lit "Content-Type") (lit "application/json") w))

  abbrev pub not_allowed : Response (Value F) → Response (Value F)
  not_allowed w = http_error (lit "method not allowed") 405 w

  abbrev pub crashed : Server F → Response (Value F) → Outcome (Server F) (Value F)
  crashed s w = record { world = s; response = w; panicked = true }

  unfoldable pub handle_healthz : Handler (Server F) (Value F)
  handle_healthz r s w = done s (write_json 200 (status (lit "ok")) w)

  -- The event of a request, before the pipeline.
  abbrev pub requested : F → Time → CreateRequest → WeekendEvent F
  requested zero_score now req = record (zero_event zero_score) {
    name = req.name;
    category = req.category;
    mood_boost = req.mood_boost;
    tags = req.tags;
    created_at = now;
  }

  unfoldable pub handle_get : Bytes → Handler (Server F) (Value F)
  handle_get id r s w = elim (get s.store id) [
    | none ↦ done s (write_json 404 (error (lit "event not found")) w)
    | some evt ↦ done s (write_json 200 (event evt) w)
  ]

  unfoldable pub handle_topics : Handler (Server F) (Value F)
  handle_topics r s w = done s (write_json 200 (topics (get_stats s.broker)) w)

  unfoldable pub handle_dlq : Bytes → Handler (Server F) (Value F)
  handle_dlq name r s w = elim (dlq s.broker name) [
    | err e ↦ done s (write_json 404 (failure e) w)
    | ok msgs ↦ done s (write_json 200 (dead name (length msgs) msgs) w)
  ]

  unfoldable pub handle_pipeline : Pipeline F → ℤ → Handler (Server F) (Value F)
  handle_pipeline p timeout r s w = done s (write_json 200 (stages (stage_names p) timeout) w)

  -- The part of `handleBrokerReplay` behind the decoding.
  abbrev pub replay_from : ReplayRequest → Handler (Server F) (Value F)
  replay_from req r s w =
      let topic = if is_empty req.topic then topic_name else req.topic in
      elim (replay s.broker topic req.from_offset) [
        | err e ↦ done s (write_json 404 (failure e) w)
        | ok msgs ↦ done s (write_json 200 (replayed topic req.from_offset (length msgs) msgs) w)
      ]

  -- `brk.Publish`, the counting and the answer.
  unfoldable pub enqueue : Time → WeekendEvent F → Bytes → Handler (Server F) (Value F)
  enqueue now evt payload r s w = elim (publish s.broker topic_name (key evt) payload now) [
    | none ↦ crashed s w
    | some (brk, p, o) ↦
        done (record s { broker = brk; metrics = inc s.metrics (lit "events.published") })
          (write_json 202 (queued p o evt) w)
  ]

  module _ (js : Json F) where
    unfoldable pub handle_replay : Handler (Server F) (Value F)
    handle_replay r s w =
        if not (r.method == lit "POST")
        then done s (not_allowed w)
        else (elim (js.decode_replay r.body) [
          | none ↦ done s (http_error (lit "invalid JSON") 400 w)
          | some req ↦ replay_from req r s w
        ])

  module _ (u : Unicode) where
    unfoldable pub handle_delete : Bytes → Handler (Server F) (Value F)
    handle_delete id r s w =
        let (store, existed) = delete u s.store id in
        if existed
        then done (record s { store = store }) (write_json 200 (status (lit "deleted")) w)
        else done s (write_json 404 (error (lit "event not found")) w)

    unfoldable pub handle_list : F → Handler (Server F) (Value F)
    unfolding atoi_value
    handle_list zero_score r s w =
        let f : Filter = record {
          category = query_get r (lit "category");
          priority = query_get r (lit "priority");
          query = [];
        } in
        elim (list u zero_score s.store f (atoi_value (query_get r (lit "page")))
          (atoi_value (query_get r (lit "limit")))) [
            | none ↦ crashed s w
            | some result ↦ done s (write_json 200 (page result) w)
          ]

    module _ (js : Json F) where
      abbrev pub accept_event : Time → WeekendEvent F → Handler (Server F) (Value F)
      accept_event now evt r s w = elim (validate u evt) [
        | some cause ↦ done s (write_json 422 (error cause) w)
        | none ↦ elim (js.marshal evt) [
          | none ↦ done s (http_error (lit "encoding error") 500 w)
          | some payload ↦ enqueue now evt payload r s w
        ]
      ]

      -- `now` is the time of the event, `published` that of the message.
      unfoldable pub handle_create : F → (now published : Time) → Handler (Server F) (Value F)
      unfolding enqueue
      handle_create zero_score now published r s w =
          if not (r.method == lit "POST")
          then done s (not_allowed w)
          else (elim (js.decode_create r.body) [
            | none ↦ done s (http_error (lit "invalid JSON payload") 400 w)
            | some req ↦ accept_event published (requested zero_score now req) r s w
          ])
