-- ===== src/Tests/Api.antt =====
-- The HTTP server of cmd/api on concrete requests, with a JSON package that reads and writes one event.
use go_kafka.Base.{
  arith, ℕ, ◌≡◌, ◌⊎◌, refl, true, false, [], ◌∷◌, Option, none, some, lit, bytes_key, bytes_eq,
}
use go_kafka.Base.Int.{pos}
use go_kafka.Base.Dict.{lookup, insert}
use go_kafka.Base.Text.{trims_to_empty}
use go_kafka.Broker.{
  Broker, make_topic, new, with_partitions, with_max_retries, publish, ensure_topic, append_to,
  count_publish, message,
}
use go_kafka.Broker.Fnv.{partition_for}
use go_kafka.Broker.Log
use go_kafka.Broker.Log.{Message}
use go_kafka.Broker.Logs.{fetch}
use go_kafka.Broker.Invariant.Setup.{new-IsBroker}
use go_kafka.Broker.Invariant.Publish.{publish_keeps}
use go_kafka.Config.{Config}
use go_kafka.Events.{WeekendEvent, validate}
use go_kafka.Http.{Request, Handler, blank, done}
use go_kafka.Metrics
use go_kafka.Metrics.{inc}
use go_kafka.Middleware.{allow, spend, seconds, refilled}
use go_kafka.Middleware.Stack.{recovery, counted}
use go_kafka.Middleware.Stack.Logs.{status_or, recovery-answers}
use go_kafka.Pipeline.Laws.{finished}
use go_kafka.Server.{Server, Json, CreateRequest, Delivery, topic_name, on_message}
use go_kafka.Server.Journey.{queued-stored}
use go_kafka.Storage
use go_kafka.Storage.{get}
use go_kafka.Storage.Updates.{new-IsIndexed}
use go_kafka.Api.{requested, handle_create, enqueue, queued, write_json}
use go_kafka.Api.Create.{Refused, Queued, outcome, handle_create-cases}
use go_kafka.Api.Limited.{serve-limited}
use go_kafka.Api.Routes.{Visit, serve}
use go_kafka.Tests.Events.{plain, whole}

abbrev pub wish : CreateRequest
wish = record { name = lit "Hike"; category = lit "Outdoors"; mood_boost = pos 8; tags = [] }

abbrev pub wished : WeekendEvent ℕ
wished = requested 0 7 wish

abbrev pub one_json : Json ℕ
one_json = record {
  marshal = λ e. some (lit "{}");
  unmarshal = λ b. some wished;
  decode_create = λ b. some wish;
  decode_replay = λ b. none;
}

abbrev pub first_broker : Broker
first_broker = new (with_partitions (pos 2) ∷ with_max_retries (pos 3) ∷ [])

-- A server whose limiter has no token for one address.
abbrev pub first_server : Server ℕ
first_server = record {
  broker = first_broker;
  store = Storage.new;
  metrics = Metrics.new;
  limiter = record {
    buckets = (lit "10.0.0.1", record { tokens = 0; last_time = 7 }) ∷ [];
    rps = 10;
    burst = pos 3;
  };
}

abbrev pub post : Request
post = record {
  method = lit "POST";
  path = lit "/events";
  query = [];
  body = lit "{}";
  remote_addr = lit "10.0.0.1";
}

abbrev pub plain_config : Config ℕ
plain_config = record {
  port = lit "8080";
  broker_partitions = pos 2;
  pipeline_timeout = pos 5;
  rate_limit_rps = 10;
  rate_limit_burst = pos 3;
  ttl = pos 60;
  worker_count = pos 2;
  metrics_enabled = true;
}

abbrev pub visit : Visit
visit = record { now = 7; created = 7; published = 8; id = lit "r1"; duration = pos 3 }

serve-limited_example :
    ((serve whole plain one_json plain_config visit post first_server blank).world
      ≡ record first_server {
        metrics = counted (pos 3) 429 first_server.metrics;
        limiter = (allow whole first_server.limiter (lit "10.0.0.1") 7).0;
      })
    × ((serve whole plain one_json plain_config visit post first_server blank).panicked ≡ false)
    × (status_or 200
          (serve whole plain one_json plain_config visit post first_server blank).response.sent
        ≡ 429)
unfolding bytes_eq allow spend refilled seconds lookup insert
serve-limited_example =
    serve-limited whole plain one_json plain_config visit post first_server refl refl

abbrev panicking : Handler ℕ ℕ
panicking r s w = record { world = s; response = w; panicked = true }

recovery-answers_example :
    ((recovery panicking post 5 blank).panicked ≡ false)
    × ((recovery panicking post 5 blank).world ≡ 5)
    × (status_or 200 (recovery panicking post 5 blank).response.sent ≡ 500)
recovery-answers_example = recovery-answers panicking post 5 blank

handle_create-cases_example :
    Refused plain one_json 0 7 8 post first_server blank
    ⊎ Queued plain one_json 0 7 8 post first_server blank
handle_create-cases_example =
    handle_create-cases plain one_json 0 7 8 post first_server blank
      (new-IsBroker (pos 2) (pos 3) (omega arith))

wished_valid : validate plain wished ≡ none
unfolding validate trims_to_empty
wished_valid = refl

-- The broker after a publication, or the one before if it panics.
abbrev after : Broker → Option (Broker × ℕ × ℕ) → Broker × ℕ × ℕ
after b none = (b, 0, 0)
after b (some r) = r

abbrev place : Broker × ℕ × ℕ
place = after first_broker (publish first_broker topic_name (lit "Outdoors") (lit "{}") 8)

published : publish first_broker topic_name (lit "Outdoors") (lit "{}") 8 ≡ some place
unfolding publish ensure_topic make_topic append_to count_publish partition_for lookup insert new
    with_partitions with_max_retries Log.append bytes_eq
published = refl

kept :
    fetch place.0 topic_name place.1 place.2
    ≡ some (record (message topic_name (lit "Outdoors") (lit "{}") place.1 8) { offset = place.2 })
unfolding publish ensure_topic make_topic append_to count_publish partition_for lookup insert new
    with_partitions with_max_retries Log.append Log.get bytes_eq
kept = refl

answered :
    outcome plain one_json 0 7 8 post first_server blank
    ≡ done
        (record first_server {
          broker = place.0;
          metrics = inc first_server.metrics (lit "events.published");
        })
        (write_json 202 (queued place.1 place.2 wished) blank)
unfolding handle_create enqueue validate trims_to_empty publish ensure_topic make_topic append_to
    count_publish partition_for lookup insert new with_partitions with_max_retries Log.append
    bytes_eq
answered = refl

abbrev one_queued : Queued plain one_json 0 7 8 post first_server blank
one_queued = record {
  req = wish;
  payload = lit "{}";
  broker = place.0;
  p = place.1;
  o = place.2;
  decoded = refl;
  valid = wished_valid;
  encoded = refl;
  well_formed =
      publish_keeps first_broker topic_name (lit "Outdoors") (lit "{}") 8
        (new-IsBroker (pos 2) (pos 3) (omega arith)) published;
  stored = kept;
  result = answered;
}

abbrev delivery : Delivery
delivery = record {
  fresh = record { uuid = lit "u1"; created = 7; processed = 9 };
  duration = pos 4;
}

abbrev behind : Server ℕ
behind = (outcome plain one_json 0 7 8 post first_server blank).world

abbrev stop : WeekendEvent ℕ
stop = finished whole plain (pos 5) (pos 60) delivery.fresh Storage.new wished

queued-stored_example :
    (msg : Message) × (fetch place.0 topic_name place.1 place.2 ≡ some msg)
    × ((on_message whole plain one_json plain_config delivery behind msg).1 ≡ false)
    × (get (on_message whole plain one_json plain_config delivery behind msg).0.store stop.id
        ≡ some stop)
queued-stored_example =
    queued-stored whole plain one_json plain_config delivery 0 7 8 post first_server blank
      one_queued (new-IsIndexed plain) refl
