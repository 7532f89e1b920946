-- ===== src/Middleware/Stack.antt =====
-- internal/middleware/middleware.go: the wrappers of handlers. What the clock, uuid and the duration of
-- a call give to a wrapper is its argument; log lines are left out.
pub mod Keeps
pub mod Logs
use mathlib.Core.Bool.{Bool, true, false, ◌&&◌, not}
use go_kafka.Base.{
  ℕ, ◌^◌, List, [], ◌∷◌, ◌++◌, Option, none, some, Bytes, lit, bytes_key, if◌then◌else◌, ◌==◌, leb,
  take, ◌≡◌,
}
use go_kafka.Base.Int.{ℤ}
use go_kafka.Base.Float.{Float64}
use go_kafka.Base.Time.{Time}
use go_kafka.Http.{
  Request, Response, Outcome, Handler, done, set_header, write_header, http_error, query_get,
}
use go_kafka.Events.{is_empty}
use go_kafka.Metrics.{Collector, inc, record_latency}
use go_kafka.Middleware.{Limiter, allow}

-- An object that is shared through the world.
pub record Shared (W A : Type 0) : Type 0 where
  pub get : W → A
  pub set : A → W → W
  pub get-set : (a : A) (world : W) → get (set a world) ≡ a

-- `sw.status` behind the calls of `WriteHeader` that went through the wrapper.
abbrev pub status_of : List ℕ → ℕ
status_of [] = 200
status_of (code ∷ codes) = code

-- The counting behind `next.ServeHTTP(sw, r)`.
unfoldable pub counted : ℤ → ℕ → Collector → Collector
counted duration status mc =
    let mc' = record_latency (inc mc (lit "http.requests")) (lit "http.latency") duration in
    if leb 400 status then inc mc' (lit "http.errors") else mc'

module _ {V : Type 0} where
  abbrev pub cors_headers : Response V → Response V
  cors_headers w =
      set_header (lit "Access-Control-Allow-Headers")
        (lit "Content-Type, Authorization, X-Request-ID")
        (set_header (lit "Access-Control-Allow-Methods") (lit "GET, POST, PUT, DELETE, OPTIONS")
          (set_header (lit "Access-Control-Allow-Origin") (lit "*") w))

  abbrev pub security : Response V → Response V
  security w = set_header (lit "Referrer-Policy") (lit "strict-origin-when-cross-origin") (
      set_header (lit "X-XSS-Protection") (lit "1; mode=block") (
        set_header (lit "X-Frame-Options") (lit "DENY")
          (set_header (lit "X-Content-Type-Options") (lit "nosniff") w)))

  abbrev pub refused : Response V → Response V
  refused w =
      http_error (lit "rate limit exceeded") 429 (set_header (lit "Retry-After") (lit "1") w)

module _ {W V : Type 0} where
  unfoldable pub request_id : Bytes → Handler W V → Handler W V
  request_id id next r world w = next r world (set_header (lit "X-Request-ID") id w)

  -- What `Logger` makes of a call through the `statusWriter`; a panic runs past the counting.
  unfoldable pub logged : Shared W Collector → ℤ → List ℕ → Outcome W V → Outcome W V
  unfolding counted
  logged mc duration before out =
      let w = record out.response { codes = out.response.codes ++ before } in
      if out.panicked then record out { response = w } else record {
        world =
            mc.set (counted duration (status_of out.response.codes) (mc.get out.world)) out.world;
        response = w;
        panicked = false;
      }

  unfoldable pub logger : Shared W Collector → ℤ → Handler W V → Handler W V
  unfolding logged
  logger mc duration next r world w =
      logged mc duration w.codes (next r world (record w { codes = [] }))

  abbrev pub recovered : Outcome W V → Outcome W V
  recovered out =
      if out.panicked
      then done out.world (http_error (lit "internal server error") 500 out.response)
      else out

  unfoldable pub recovery : Handler W V → Handler W V
  recovery next r world w = recovered (next r world w)

  unfoldable pub cors : Handler W V → Handler W V
  cors next r world w =
      let rest = next r world (cors_headers w) in
      if r.method == lit "OPTIONS" then done world (write_header 204 (cors_headers w)) else rest

  unfoldable pub content_type : Bytes → Handler W V → Handler W V
  content_type value next r world w = next r world (set_header (lit "Content-Type") value w)

  unfoldable pub method_override : Handler W V → Handler W V
  method_override next r world w =
      let m = query_get r (lit "_method") in
      if (r.method == lit "POST") && not (is_empty m)
      then next (record r { method = m }) world w
      else next r world w

  -- The rest of a body that is too long is not read.
  unfoldable pub request_size : ℕ → Handler W V → Handler W V
  request_size max_bytes next r world w = next (record r { body = take max_bytes r.body }) world w

  unfoldable pub security_headers : Handler W V → Handler W V
  security_headers next r world w = next r world (security w)

  unfoldable pub powered : Bytes → Handler W V → Handler W V
  powered name next r world w =
      next r world (set_header (lit "X-Powered-By") (lit "weekend-engine/" ++ name) w)

  module _ (fl : Float64) where
    open fl use {F}

    unfoldable pub rate_limiter : Shared W (Limiter F) → Time → Handler W V → Handler W V
    rate_limiter rl now next r world w =
        let (l, ok) = allow fl (rl.get world) r.remote_addr now in
        let rest = next r (rl.set l world) w in
        if ok then rest else done (rl.set l world) (refused w)
