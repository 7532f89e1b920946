-- ===== src/Middleware/Stack/Keeps.antt =====
-- internal/middleware/middleware.go: properties of the world, and the wrappers.
use go_kafka.Base.{ℕ, [], Bytes, lit, bytes_key, ◌==◌, Bool-cases, inl, inr, refl, ◌≡◌}
use go_kafka.Base.Int.{ℤ}
use go_kafka.Base.Float.{Float64}
use go_kafka.Base.Time.{Time}
use go_kafka.Http.{Request, Response, Outcome, Handler}
use go_kafka.Metrics.{Collector}
use go_kafka.Middleware.{Limiter, allow}
use go_kafka.Middleware.Stack.{
  Shared, request_id, counted, logged, logger, recovered, recovery, cors, request_size,
  security_headers, powered, rate_limiter, status_of,
}

module _ {W V : Type 0} (P : W → Type 0) where
  abbrev pub Keeps : Handler W V → Type 0
  Keeps h = (r : Request) (s : W) (w : Response V) → P s → P (h r s w).world

  pub request_id-Keeps : (id : Bytes) (h : Handler W V) → Keeps h → Keeps (request_id id h)
  unfolding request_id
  request_id-Keeps id h k r s w p = k r s _ p

  pub security_headers-Keeps : (h : Handler W V) → Keeps h → Keeps (security_headers h)
  unfolding security_headers
  security_headers-Keeps h k r s w p = k r s _ p

  pub powered-Keeps : (name : Bytes) (h : Handler W V) → Keeps h → Keeps (powered name h)
  unfolding powered
  powered-Keeps name h k r s w p = k r s _ p

  pub request_size-Keeps : (n : ℕ) (h : Handler W V) → Keeps h → Keeps (request_size n h)
  unfolding request_size
  request_size-Keeps n h k r s w p = k _ s w p

  pub cors-Keeps : (h : Handler W V) → Keeps h → Keeps (cors h)
  unfolding cors
  cors-Keeps h k r s w p = elim (Bool-cases (r.method == lit "OPTIONS")) [
    | inl e ↦ rw e p
    | inr e ↦ rw e (k r s _ p)
  ]

  recovered-world : (out : Outcome W V) → (recovered out).world ≡ out.world
  recovered-world out = elim (Bool-cases out.panicked) [ inl e ↦ rw e refl | inr e ↦ rw e refl ]

  pub recovery-Keeps : (h : Handler W V) → Keeps h → Keeps (recovery h)
  unfolding recovery
  recovery-Keeps h k r s w p = rw (recovered-world (h r s w)) (k r s w p)

  -- A counted call changes the collector only.
  pub logger-Keeps :
      (mc : Shared W Collector) (duration : ℤ)
      → ((status : ℕ) (s : W) → P s → P (mc.set (counted duration status (mc.get s)) s))
      → (h : Handler W V) → Keeps h
      → Keeps (logger mc duration h)
  unfolding logger logged
  logger-Keeps mc duration still h k r s w p =
      let inner = h r s (record w { codes = [] }) in
      elim (Bool-cases inner.panicked) [
        | inl e ↦ rw e (k r s _ p)
        | inr e ↦ rw e (still (status_of inner.response.codes) inner.world (k r s _ p))
      ]

  module _ (fl : Float64) where
    open fl use {F}

    pub rate_limiter-Keeps :
        (rl : Shared W (Limiter F)) (now : Time)
        → ((l : Limiter F) (s : W) → P s → P (rl.set l s))
        → (h : Handler W V) → Keeps h
        → Keeps (rate_limiter fl rl now h)
    unfolding rate_limiter
    rate_limiter-Keeps rl now still h k r s w p =
        let out = allow fl (rl.get s) r.remote_addr now in
        elim (Bool-cases out.1) [
          | inl e ↦ rw e (k r (rl.set out.0 s) w (still out.0 s p))
          | inr e ↦ rw e (still out.0 s p)
        ]
