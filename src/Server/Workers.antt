-- ===== src/Server/Workers.antt =====
-- cmd/worker/main.go: the subscriptions of the workers.
use go_kafka.Base.{ℕ, zero, suc, ◌≡◌, refl, some, lit}
use go_kafka.Broker.{Broker}
use go_kafka.Broker.Invariant.{IsBroker}
use go_kafka.Broker.Invariant.Setup.{subscribe-IsBroker}
use go_kafka.Server.{subscribe_workers}

-- However often the worker subscribes to a well-formed broker, it does so without a panic and leaves a
-- well-formed broker.
pub subscribe_workers-IsBroker :
    (n : ℕ) (b : Broker) → IsBroker b → (c : Broker) × (subscribe_workers n b ≡ some c) × IsBroker c
unfolding subscribe_workers
subscribe_workers-IsBroker zero b v = (b, refl, v)
subscribe_workers-IsBroker (suc n) b v =
    let (c, t, e, q, h) =
      subscribe-IsBroker b (lit "weekend-events") (lit "standalone-workers") v in
    let (d, r, w) = subscribe_workers-IsBroker n c h in (d, rw q r, w)
