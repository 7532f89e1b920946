-- ===== src/Server/Invariant.antt =====
-- cmd/api/main.go: the steps of the running server, and the invariant of its shared objects.
use go_kafka.Base.{
  ◌≤◌, ◌<◌, ◌⊎◌, dec_le, ℕ, ◌^◌, ◌%◌, ◌≡◌, refl, Option, none, some, Bytes, lit, bytes_key,
  bytes_eq, Option-cases, Bool-cases, inl, inr, ltb, arith,
}
use go_kafka.Base.Int.{ℤ, pos, pos_part}
use go_kafka.Base.Dict.{Dict, lookup}
use go_kafka.Base.Float.{Float64}
use go_kafka.Base.Text.{Unicode}
use go_kafka.Base.Time.{Time}
use go_kafka.Broker.{Topic, max_slice}
use go_kafka.Broker.Log.{Message}
use go_kafka.Broker.Group.{ConsumerGroup}
use go_kafka.Broker.Invariant.{IsBroker}
use go_kafka.Broker.Invariant.Publish.{publish_keeps}
use go_kafka.Broker.Invariant.Setup.{new-IsBroker, subscribe-IsBroker, subscribe-panics}
use go_kafka.Broker.Invariant.Settling.{
  dead_letter, commit_group, dead_letter-IsBroker, commit_group-IsBroker,
}
use go_kafka.Config.{Config}
use go_kafka.Metrics
use go_kafka.Storage
use go_kafka.Middleware.{new_limiter}
use go_kafka.Events.{WeekendEvent, validate}
use go_kafka.Http.{Request, Response}
use go_kafka.Metrics.{Collector, inc, add, set_gauge}
use go_kafka.Pipeline.{StageError, run, standard}
use go_kafka.Pipeline.Laws.{run-stores, run-refuses}
use go_kafka.Storage.{Store, evict_expired}
use go_kafka.Storage.Invariant.{IsIndexed}
use go_kafka.Storage.Updates.{new-IsIndexed, delete-IsIndexed}
use go_kafka.Storage.Evict.{evict_expired_lem}
use go_kafka.Server.{
  topic_name, Server, Delivery, Json, boot, evict_job, snapshot_job, settled, handle_message,
  on_message,
}
use go_kafka.Server.Counters.{
  new-IsBalanced, IsBalanced, runs, inc-IsBalanced, add-IsBalanced, gauge-IsBalanced,
  counted-IsBalanced, handle_message-IsBalanced,
}
use go_kafka.Api.{Value}
use go_kafka.Api.Keeps.{Stable}
use go_kafka.Api.Routes.{Visit, serve}
use go_kafka.Api.Served.{serve-Keeps}

pub record IsServer {F : Type 0} (u : Unicode) (s : Server F) : Type 0 where
  pub broker : IsBroker s.broker
  pub store : IsIndexed u s.store
  pub metrics : IsBalanced s.metrics

module _ {F : Type 0} (u : Unicode) where
  IsServer-Stable : Stable {F = F} u (IsServer u)
  unfolding bytes_eq
  IsServer-Stable = record {
    deletes = λ s id v. record {
      broker = v.broker;
      store = delete-IsIndexed u s.store v.store id;
      metrics = v.metrics;
    };
    publishes = λ s brk k payload now p o e v. record {
      broker = publish_keeps s.broker (lit "weekend-events") k payload now v.broker e;
      store = v.store;
      metrics = inc-IsBalanced s.metrics (lit "events.published") refl refl refl v.metrics;
    };
    counts = λ s duration status v. record {
      broker = v.broker;
      store = v.store;
      metrics = counted-IsBalanced duration status s.metrics v.metrics;
    };
    limits = λ s l v. record { broker = v.broker; store = v.store; metrics = v.metrics };
  }

  pub evict_job-IsServer :
      (now : Time) (s : Server F) → IsServer u s → IsServer u (evict_job u now s)
  unfolding evict_job
  evict_job-IsServer now s v =
      let n = (evict_expired u s.store now).1 in
      record {
        broker = v.broker;
        store = (evict_expired_lem u now s.store v.store).0;
        metrics = elim (Bool-cases (ltb 0 n)) [
          | inl e ↦ rw e (add-IsBalanced s.metrics (n % 2 ^ 64) v.metrics)
          | inr e ↦ rw e v.metrics
        ];
      }

  pub snapshot_job-IsServer : (s : Server F) → IsServer u s → IsServer u (snapshot_job s)
  unfolding snapshot_job bytes_eq
  snapshot_job-IsServer s v = record {
    broker = v.broker;
    store = v.store;
    metrics = inc-IsBalanced _ (lit "scheduler.ticks") refl refl refl (
        gauge-IsBalanced _ (lit "broker.queue_depth") _ refl refl refl
          (gauge-IsBalanced s.metrics (lit "store.total_events") _ refl refl refl v.metrics));
  }

module _ (fl : Float64) (u : Unicode) (cfg : Config fl.F) where
  open fl use {F}

  -- A run of the standard pipeline keeps the indices right, also when it refuses its event.
  run-IsIndexed :
      (d : Delivery) (s : Store F) (e : WeekendEvent F)
      → IsIndexed u s
      → IsIndexed u (run (standard fl u cfg.pipeline_timeout cfg.ttl d.fresh) s e).0
  run-IsIndexed d s e v = elim (Option-cases (validate u e)) [
    | inl q ↦ let h = run-stores fl u cfg.pipeline_timeout cfg.ttl d.fresh s e v q in rw h.0 h.1
    | inr (cause, q) ↦ rw (run-refuses fl u cfg.pipeline_timeout cfg.ttl d.fresh s e cause q) v
  ]

  settled-store :
      (duration : ℤ) (mc : Collector) (out : Store F × WeekendEvent F × Option StageError)
      → (settled duration mc out).0 ≡ out.0
  settled-store duration mc (s, e, none) = refl
  settled-store duration mc (s, e, some x) = refl

  module _ (json : Json F) where
    pub on_message-IsServer :
        (d : Delivery) (s : Server F) (msg : Message)
        → IsServer u s
        → IsServer u (on_message fl u json cfg d s msg).0
    unfolding on_message
    on_message-IsServer d s msg v =
        let pipe = standard fl u cfg.pipeline_timeout cfg.ttl d.fresh in
        record {
          broker = v.broker;
          store = elim (Option-cases (json.unmarshal msg.value)) [
            | inl e ↦ rw (e, handle_message) v.store
            | inr (evt, e) ↦
                rw (e, handle_message)
                  (rw (settled-store d.duration (inc s.metrics runs) (run pipe s.store evt))
                    (run-IsIndexed d s.store evt v.store))
          ];
          metrics = handle_message-IsBalanced json pipe d.duration s.store s.metrics msg v.metrics;
        }

    -- What the running program does: serve a request, handle a message, run a job, or, in a consumer
    -- goroutine, dead-letter a message or commit an offset.
    pub data Step : Server F → Server F → Type 0 where
      serves :
          {s : Server F} (v : Visit) (r : Request) (w : Response (Value F))
          → Step s (serve fl u json cfg v r s w).world
      delivers :
          {s : Server F} (d : Delivery) (msg : Message)
          → Step s (on_message fl u json cfg d s msg).0
      evicts : {s : Server F} (now : Time) → Step s (evict_job u now s)
      snapshots : {s : Server F} → Step s (snapshot_job s)
      buries :
          {s : Server F} (name : Bytes) (t : Topic) (m : Message)
          → lookup name s.broker.topics ≡ some t
          → Step s (record s { broker = dead_letter s.broker name t m })
      commits :
          {s : Server F} (name : Bytes) (gs : Dict Bytes ConsumerGroup) (group_id : Bytes)
          (cg : ConsumerGroup) (p_idx offset : ℕ)
          → Step s (record s { broker = commit_group s.broker name gs group_id cg p_idx offset })

    pub data Reach (s : Server F) : Server F → Type 0 where
      here : Reach s s
      later : {t t' : Server F} → Reach s t → Step t t' → Reach s t'

    Step-IsServer : {s t : Server F} → Step s t → IsServer u s → IsServer u t
    Step-IsServer {s} (serves v r w) h =
        serve-Keeps fl u json cfg v (IsServer u) (IsServer-Stable u) r s w h
    Step-IsServer {s} (delivers d msg) h = on_message-IsServer d s msg h
    Step-IsServer {s} (evicts now) h = evict_job-IsServer u now s h
    Step-IsServer {s} snapshots h = snapshot_job-IsServer u s h
    Step-IsServer {s} (buries name t m e) h = record {
      broker = dead_letter-IsBroker s.broker h.broker name t m e;
      store = h.store;
      metrics = h.metrics;
    }
    Step-IsServer {s} (commits name gs group_id cg p o) h = record {
      broker = commit_group-IsBroker s.broker h.broker name gs group_id cg p o;
      store = h.store;
      metrics = h.metrics;
    }

    -- A well-formed server stays well-formed through every sequence of requests, messages, jobs,
    -- dead letters and commits: its broker, the indices of its store and the balance of its counters.
    pub Reach-IsServer : {s t : Server F} → Reach s t → IsServer u s → IsServer u t
    Reach-IsServer here h = h
    Reach-IsServer (later r st) h = Step-IsServer st (Reach-IsServer r h)

module _ {F : Type 0} (u : Unicode) (cfg : Config F) where
  -- `main` makes its objects and subscribes without a panic, and the objects are well-formed, exactly if
  -- the partitions are no more than a slice can have; else Subscribe panics.
  pub boot-IsServer :
      ((s : Server F) × (boot cfg ≡ some s)
        × IsServer u s
        × (pos_part cfg.broker_partitions ≤ max_slice))
      ⊎ ((boot cfg ≡ none) × (max_slice < pos_part cfg.broker_partitions))
  unfolding boot bytes_eq
  boot-IsServer = elim (dec_le (pos_part cfg.broker_partitions) max_slice) [
    | yes few ↦
        let b = new-IsBroker cfg.broker_partitions (pos 3) few in
        let (c, t, e, q, h) =
          subscribe-IsBroker _ (lit "weekend-events") (lit "pipeline-workers") b in
        inl (
          record {
            broker = c;
            store = Storage.new;
            metrics = Metrics.new;
            limiter = new_limiter cfg.rate_limit_rps cfg.rate_limit_burst;
          },
          rw q refl,
          record { broker = h; store = new-IsIndexed u; metrics = new-IsBalanced },
          few,
        )
    | no many ↦
        let more : max_slice < pos_part cfg.broker_partitions = omega arith in
        let e =
          subscribe-panics cfg.broker_partitions (pos 3) topic_name (lit "pipeline-workers") more in
        inr (rw e refl, more)
  ]
