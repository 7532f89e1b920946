-- ===== src/Tests/Broker.antt =====
-- The broker of internal/broker on the inputs of internal/broker/broker_test.go and a few more.
use go_kafka.Base.{
  arith, ℕ, ◌<◌, ◌≡◌, refl, [], ◌∷◌, Option, none, some, Bytes, lit, bytes_eq, length, range, ok,
  bytes_key,
}
use go_kafka.Base.Int.{pos, negsuc}
use go_kafka.Base.Dict.{lookup, insert, total}
use go_kafka.Broker.{
  Broker, Topic, make_topic, new, with_partitions, with_max_retries, publish, ensure_topic,
  append_to, count_publish, replay, replay_partitions, select_from, queue_depth, depth, subscribe,
  message, get_topic,
}
use go_kafka.Broker.Log
use go_kafka.Broker.Log.{Message}
use go_kafka.Broker.Fnv.{partition_for, sum32}
use go_kafka.Broker.Invariant.{IsBroker}
use go_kafka.Broker.Invariant.Ensure.{ensured}
use go_kafka.Broker.Invariant.Publish.{publish-IsBroker, publish_keeps}
use go_kafka.Broker.Invariant.Setup.{new-IsBroker, subscribe-IsBroker}
use go_kafka.Broker.Logs.{Extends, Extends-refl, fetch}
use go_kafka.Broker.History.{publish-Extends, publish-fetch, publish_order}
use go_kafka.Broker.Queries.{replay_spec, replay_lem}

abbrev start : Broker
start = new (with_partitions (pos 2) ∷ with_max_retries (negsuc 0) ∷ [])

start-IsBroker : IsBroker start
start-IsBroker = new-IsBroker (pos 2) (negsuc 0) (omega arith)

-- FNV-1a of "a".
sum32_a : sum32 (lit "a") ≡ 0xe40c292c
unfolding sum32
sum32_a = refl

abbrev orders : Bytes
orders = lit "orders"

-- The broker after a publication, or the one before if it panics.
abbrev after : Broker → Option (Broker × ℕ × ℕ) → Broker
after b none = b
after b (some (c, p, o)) = c

abbrev next : Broker
next = after start (publish start orders (lit "k1") (lit "v1") 7)

first_publish : publish start orders (lit "k1") (lit "v1") 7 ≡ some (next, 1, 0)
unfolding publish ensure_topic make_topic append_to count_publish partition_for lookup insert new
    with_partitions with_max_retries Log.append bytes_eq
first_publish = refl

publish-IsBroker_example :
    (r : Broker × ℕ × ℕ) × (publish start orders (lit "k1") (lit "v1") 7 ≡ some r) × IsBroker r.0
publish-IsBroker_example = publish-IsBroker start orders (lit "k1") (lit "v1") 7 start-IsBroker

subscribe-IsBroker_example :
    (c : Broker) × (t : Topic) × (lookup orders c.topics ≡ some t)
    × (subscribe start orders (lit "g") ≡ some (c, range (length t.partitions)))
    × IsBroker c
subscribe-IsBroker_example = subscribe-IsBroker start orders (lit "g") start-IsBroker

publish-Extends_example : Extends start next
publish-Extends_example =
    publish-Extends start orders (lit "k1") (lit "v1") 7 start-IsBroker first_publish

publish-fetch_example :
    (fetch next orders 1 0
      ≡ some (record (message orders (lit "k1") (lit "v1") 1 7) { offset = 0 }))
    × ((t : Topic)
        → lookup orders next.topics ≡ some t
        → 1 ≡ partition_for (lit "k1") (length t.partitions))
publish-fetch_example =
    publish-fetch start orders (lit "k1") (lit "v1") 7 start-IsBroker first_publish

abbrev last : Broker
last = after next (publish next orders (lit "k1") (lit "v2") 9)

second_publish : publish next orders (lit "k1") (lit "v2") 9 ≡ some (last, 1, 1)
unfolding publish ensure_topic make_topic append_to count_publish partition_for lookup insert new
    with_partitions with_max_retries Log.append bytes_eq
second_publish = refl

next-IsBroker : IsBroker next
next-IsBroker = publish_keeps start orders (lit "k1") (lit "v1") 7 start-IsBroker first_publish

last-IsBroker : IsBroker last
last-IsBroker = publish_keeps next orders (lit "k1") (lit "v2") 9 next-IsBroker second_publish

publish_order_example : (◌≡◌ {A = ℕ} 1 1) × (0 < 1)
publish_order_example =
    publish_order orders (lit "k1") (lit "v1") (lit "v2") 7 9 start next next last 1 1 0 1
      start-IsBroker first_publish (Extends-refl next) next-IsBroker second_publish

-- `Replay` from offset 1: the first partition is empty, and the second has one message left.
abbrev second_message : Message
second_message = record (message orders (lit "k1") (lit "v2") 1 9) { offset = 1 }

abbrev orders_topic : Topic
orders_topic = (ensured last orders).1

known : lookup orders last.topics ≡ some orders_topic
unfolding publish ensure_topic make_topic append_to count_publish partition_for lookup insert new
    with_partitions with_max_retries Log.append bytes_eq ensured
known = refl

replay_lem_example :
    replay last orders (pos 1) ≡ replay_spec (pos 1) orders (lookup orders last.topics)
replay_lem_example = replay_lem last orders (pos 1) last-IsBroker

replay_run : replay last orders (pos 1) ≡ ok (second_message ∷ [])
unfolding replay replay_partitions select_from publish ensure_topic make_topic append_to
    count_publish partition_for lookup insert new with_partitions with_max_retries Log.append
    bytes_eq get_topic
replay_run = refl

depth_run : queue_depth last ≡ 2
unfolding queue_depth depth total Log.length publish ensure_topic make_topic append_to count_publish
    partition_for lookup insert new with_partitions with_max_retries Log.append bytes_eq
depth_run = refl
