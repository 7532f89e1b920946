-- ===== src/Tests/Publishing.antt =====
-- Two calls of `Publish` for one new topic, whose moves alternate.
use go_kafka.Base.{
  arith, ◌+◌, sum_of, ℕ, ◌≡◌, refl, [], ◌∷◌, Option, none, some, lit, bytes_eq, bytes_key,
}
use go_kafka.Base.Int.{pos}
use go_kafka.Base.Dict.{lookup, insert}
use go_kafka.Broker.{
  Broker, queue_depth, get_stats, make_topic, new, with_partitions, with_max_retries, ensure_topic,
  append_to,
}
use go_kafka.Broker.Log
use go_kafka.Broker.Fnv.{partition_for}
use go_kafka.Broker.Invariant.Setup.{new-IsBroker}
use go_kafka.Broker.Publishing.{
  Call, System, entering, advance, move, Reach, here, later, begins, moves,
}
use go_kafka.Broker.Publishing.Reached.{IsSound, Reach-IsSound}
use go_kafka.Broker.Publishing.Depth.{queue_depth-published, all_published, counting_calls}

abbrev start : Broker
start = new (with_partitions (pos 2) ∷ with_max_retries (pos 3) ∷ [])

abbrev first : Call
first = record { topic = lit "orders"; key = lit "k1"; value = lit "v1"; now = 7 }

abbrev second : Call
second = record { topic = lit "orders"; key = lit "k1"; value = lit "v2"; now = 8 }

abbrev or_same : System → Option System → System
or_same s none = s
or_same s (some t) = t

abbrev next : ℕ → System → System
next i s = or_same s (move s i)

abbrev both : System
both = record {
  broker = start;
  callers =
      record { call = first; phase = entering } ∷ record { call = second; phase = entering } ∷ [];
}

abbrev entered : System
entered = next 1 (next 0 both)

abbrev stored : System
stored = next 0 (next 1 entered)

both_reached : Reach (record { broker = start; callers = [] }) both
both_reached = later (later here (begins first)) (begins second)

stored_reached : Reach (record { broker = start; callers = [] }) stored
unfolding move advance ensure_topic make_topic append_to partition_for lookup insert new
    with_partitions with_max_retries Log.append bytes_eq
stored_reached =
    later (later (later (later both_reached (moves 0 refl)) (moves 1 refl)) (moves 1 refl))
      (moves 0 refl)

Reach-IsSound_example : IsSound stored
Reach-IsSound_example = Reach-IsSound (new-IsBroker (pos 2) (pos 3) (omega arith)) stored_reached

-- Both messages are stored, and neither is counted yet.
queue_depth-published_example :
    queue_depth stored.broker
    ≡ all_published (get_stats stored.broker) + counting_calls stored.callers
queue_depth-published_example =
    queue_depth-published (new-IsBroker (pos 2) (pos 3) (omega arith)) stored_reached

waiting_run : counting_calls stored.callers ≡ 2
unfolding sum_of move advance ensure_topic make_topic append_to partition_for lookup insert new
    with_partitions with_max_retries Log.append bytes_eq
waiting_run = refl
