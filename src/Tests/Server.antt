-- ===== src/Tests/Server.antt =====
-- The server and its store on concrete runs.
use go_kafka.Server.Invariant
use go_kafka.Base.{
  arith, refl, none, ◌≤◌, ◌<◌, ◌⊎◌, ℕ, ◌≡◌, List, [], ◌∷◌, some, lit, bytes_key, ◌^◌,
}
use go_kafka.Base.Int.{pos}
use go_kafka.Base.Dict.{lookup}
use go_kafka.Broker
use go_kafka.Broker.{message, max_slice, ensure_topic, make_topic}
use go_kafka.Broker.Log.{Message}
use go_kafka.Http.{blank}
use go_kafka.Metrics
use go_kafka.Metrics.{Collector}
use go_kafka.Pipeline.{standard}
use go_kafka.Server.{Server, Delivery, boot, handle_message, on_message, evict_job, snapshot_job}
use go_kafka.Server.Counters.{IsBalanced, new-IsBalanced, handle_message-IsBalanced}
use go_kafka.Server.Invariant.{
  IsServer, Reach, here, later, serves, delivers, snapshots, Reach-IsServer, boot-IsServer,
}
use go_kafka.Broker.Invariant.Setup.{new-IsBroker}
use go_kafka.Storage
use go_kafka.Storage.{Store, get}
use go_kafka.Storage.Invariant.{IsIndexed}
use go_kafka.Storage.Updates.{new-IsIndexed}
use go_kafka.Storage.Refines.{Call, puts, deletes, evicts, calls, effects, calls-refines}
use go_kafka.Api.Routes.{serve}
use go_kafka.Tests.Api.{first_server, one_json, plain_config, visit, post}
use go_kafka.Tests.Events.{plain, whole, hike}

abbrev delivery : Delivery
delivery = record {
  fresh = record { uuid = lit "u1"; created = 7; processed = 9 };
  duration = pos 4;
}

abbrev arrived : Message
arrived = message (lit "weekend-events") (lit "Outdoors") (lit "{}") 0 8

first-IsServer : IsServer plain first_server
first-IsServer = record {
  broker = new-IsBroker (pos 2) (pos 3) (omega arith);
  store = new-IsIndexed plain;
  metrics = new-IsBalanced;
}

abbrev served : Server ℕ
served = (serve whole plain one_json plain_config visit post first_server blank).world

abbrev handled : Server ℕ
handled = (on_message whole plain one_json plain_config delivery served arrived).0

abbrev swept : Server ℕ
swept = evict_job plain 99 handled

a_run : Reach whole plain plain_config one_json first_server (snapshot_job swept)
a_run =
    later
      (later (later (later here (serves visit post blank)) (delivers delivery arrived))
        (Invariant.evicts 99))
      snapshots

Reach-IsServer_example : IsServer plain (snapshot_job swept)
Reach-IsServer_example = Reach-IsServer whole plain plain_config one_json a_run first-IsServer

boot-IsServer_example :
    ((s : Server ℕ) × (boot plain_config ≡ some s) × IsServer plain s × (2 ≤ max_slice))
    ⊎ ((boot plain_config ≡ none) × (max_slice < 2))
boot-IsServer_example = boot-IsServer plain plain_config

-- BROKER_PARTITIONS = 2^62 passes the checks of Load.
boot_panics : boot (record plain_config { broker_partitions = pos (2 ^ 62) }) ≡ none
unfolding boot Broker.subscribe ensure_topic make_topic Broker.new Broker.with_partitions
    Broker.with_max_retries lookup
boot_panics = refl

handle_message-IsBalanced_example :
    IsBalanced
      (handle_message one_json
        (standard whole plain (pos 5) (pos 60) delivery.fresh)
        (pos 4)
        Storage.new
        Metrics.new
        arrived).1
handle_message-IsBalanced_example =
    handle_message-IsBalanced one_json (standard whole plain (pos 5) (pos 60) delivery.fresh)
      (pos 4) Storage.new Metrics.new arrived new-IsBalanced

-- An event put twice, one deleted, and an eviction at time 50.
abbrev history : List (Call ℕ)
history =
    puts hike
    ∷ puts (record hike { id = lit "e2"; expires_at = 40 })
    ∷ puts (record hike { category = lit "Food" })
    ∷ deletes (lit "e3")
    ∷ evicts 50
    ∷ []

calls-refines_example :
    IsIndexed plain (calls plain history Storage.new)
    × (get (calls plain history Storage.new) ≡ effects plain history (get Storage.new))
calls-refines_example = calls-refines plain history Storage.new (new-IsIndexed plain)
