-- ===== src/Api/Keeps.antt =====
-- cmd/api/main.go: properties of the server's objects, and the handlers that change them.
use mathlib.Core.Bool.{Bool, not}
use go_kafka.Base.{
  ℕ, some, Bytes, lit, bytes_key, if◌then◌else◌, ◌==◌, ◌≡◌, refl, arith, Bool-cases, Option-cases,
  inl, inr,
}
use go_kafka.Base.Int.{ℤ}
use go_kafka.Base.Float.{Float64}
use go_kafka.Base.Text.{Unicode}
use go_kafka.Base.Time.{Time}
use go_kafka.Broker.{Broker, publish}
use go_kafka.Events.{WeekendEvent, key, validate}
use go_kafka.Http.{Request, Response, Handler}
use go_kafka.Metrics.{inc}
use go_kafka.Middleware.{Limiter}
use go_kafka.Middleware.Stack.{counted}
use go_kafka.Middleware.Stack.Keeps.{Keeps}
use go_kafka.Server.{Server, Json, ReplayRequest, topic_name}
use go_kafka.Storage.{delete}
use go_kafka.Api.{
  Value, handle_get, handle_dlq, replay_from, handle_replay, handle_delete, handle_list, enqueue,
  accept_event, handle_create, requested,
}
use go_kafka.Api.Routes.{handle_metrics, handle_search}

-- The changes that handlers make.
pub record Stable {F : Type 0} (u : Unicode) (P : Server F → Type 0) : Type 0 where
  pub deletes : (s : Server F) (id : Bytes) → P s → P (record s { store = (delete u s.store id).0 })
  pub publishes :
      (s : Server F) (brk : Broker) (k payload : Bytes) (now p o : ℕ)
      → publish s.broker topic_name k payload now ≡ some (brk, p, o)
      → P s
      → P (record s { broker = brk; metrics = inc s.metrics (lit "events.published") })
  pub counts :
      (s : Server F) (duration : ℤ) (status : ℕ)
      → P s
      → P (record s { metrics = counted duration status s.metrics })
  pub limits : (s : Server F) (l : Limiter F) → P s → P (record s { limiter = l })

-- A handler that changes no shared object.
abbrev Reads : {F : Type 0} → Handler (Server F) (Value F) → Type 0
Reads {F} h = (r : Request) (s : Server F) (w : Response (Value F)) → (h r s w).world ≡ s

module _ {F : Type 0} where
  pub handle_get-Reads : (id : Bytes) → Reads (handle_get {F = F} id)
  unfolding handle_get
  handle_get-Reads id r s w = ground arith

  pub handle_dlq-Reads : (name : Bytes) → Reads (handle_dlq {F = F} name)
  unfolding handle_dlq
  handle_dlq-Reads name r s w = ground arith

  replay_from-Reads : (req : ReplayRequest) → Reads (replay_from {F = F} req)
  replay_from-Reads req r s w = ground arith

  pub handle_replay-Reads : (js : Json F) → Reads (handle_replay js)
  unfolding handle_replay
  handle_replay-Reads js r s w = elim (Bool-cases (not (r.method == lit "POST"))) [
    | inl e ↦ rw e refl
    | inr e ↦ elim (Option-cases (js.decode_replay r.body)) [
      | inl q ↦ rw (e, q) refl
      | inr (req, q) ↦ rw (e, q) (replay_from-Reads req r s w)
    ]
  ]

  pub handle_list-Reads : (u : Unicode) (zero_score : F) → Reads (handle_list u zero_score)
  unfolding handle_list
  handle_list-Reads u zero_score r s w = ground arith

module _ (fl : Float64) where
  open fl use {F}

  pub handle_metrics-Reads : Reads (handle_metrics fl)
  unfolding handle_metrics
  handle_metrics-Reads r s w = ground arith

  pub handle_search-Reads : (u : Unicode) → Reads (handle_search fl u)
  unfolding handle_search
  handle_search-Reads u r s w = ground arith

module _ {F : Type 0} (u : Unicode) (P : Server F → Type 0) (c : Stable u P) where
  abbrev Safe : Handler (Server F) (Value F) → Type 0
  Safe h = Keeps P h

  pub handle_delete-Safe : (id : Bytes) → Safe (handle_delete u id)
  unfolding handle_delete
  handle_delete-Safe id r s w p = elim (Bool-cases (delete u s.store id).1) [
    | inl e ↦ rw e (c.deletes s id p)
    | inr e ↦ rw e p
  ]

  enqueue-Safe :
      (now : Time) (evt : WeekendEvent F) (payload : Bytes) → Safe (enqueue now evt payload)
  unfolding enqueue
  enqueue-Safe now evt payload r s w p =
      elim (Option-cases (publish s.broker topic_name (key evt) payload now)) [
        | inl e ↦ rw (e, enqueue) p
        | inr ((brk, part, o), e) ↦
            rw (e, enqueue) (c.publishes s brk (key evt) payload now part o e p)
      ]

  pub Reads-Safe : (h : Handler (Server F) (Value F)) → Reads h → Safe h
  Reads-Safe h reads r s w p = rw (reads r s w) p

  module _ (js : Json F) where
    accept_event-Safe : (now : Time) (evt : WeekendEvent F) → Safe (accept_event u js now evt)
    accept_event-Safe now evt r s w p = elim (Option-cases (validate u evt)) [
      | inr (cause, e) ↦ rw (e, accept_event) p
      | inl e ↦ elim (Option-cases (js.marshal evt)) [
        | inl q ↦ rw (e, q, accept_event) p
        | inr (payload, q) ↦ rw (e, q, accept_event) (enqueue-Safe now evt payload r s w p)
      ]
    ]

    pub handle_create-Safe :
        (zero_score : F) (now published : Time) → Safe (handle_create u js zero_score now published)
    unfolding handle_create
    handle_create-Safe zero_score now published r s w p =
        elim (Bool-cases (not (r.method == lit "POST"))) [
          | inl e ↦ rw e p
          | inr e ↦ elim (Option-cases (js.decode_create r.body)) [
            | inl q ↦ rw (e, q) p
            | inr (req, q) ↦
                rw (e, q) (accept_event-Safe published (requested zero_score now req) r s w p)
          ]
        ]

-- One test of the mux.
pub either-Keeps :
    {W V : Type 0} (P : W → Type 0) (test : Request → Bool) (h k : Handler W V)
    → Keeps P h
    → Keeps P k
    → Keeps P (λ r s w. if test r then h r s w else k r s w)
either-Keeps P test h k hk kk r s w p = elim (Bool-cases (test r)) [
  | inl e ↦ rw e (hk r s w p)
  | inr e ↦ rw e (kk r s w p)
]
