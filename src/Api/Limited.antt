-- ===== src/Api/Limited.antt =====
-- cmd/api/main.go: a request that the rate limiter refuses.
use mathlib.Core.Bool.{false}
use go_kafka.Base.{lit, bytes_key, ◌==◌, ◌≡◌, refl}
use go_kafka.Base.Float.{Float64}
use go_kafka.Base.Text.{Unicode}
use go_kafka.Config.{Config}
use go_kafka.Http.{Request, blank, http_error, set_header, write_header}
use go_kafka.Middleware.{chain, allow}
use go_kafka.Middleware.Stack.{
  counted, request_id, logger, logged, recovery, cors, security_headers, rate_limiter,
}
use go_kafka.Middleware.Stack.Logs.{status_or}
use go_kafka.Server.{Server, Json}
use go_kafka.Api.Routes.{Visit, serve}

module _ (fl : Float64) (u : Unicode) (js : Json fl.F) (cfg : Config fl.F) (v : Visit) where
  open fl use {F}

  -- A request that is not OPTIONS and for which the limiter has no token, whatever its path and body, is
  -- answered by the status 429 without a panic. It changes the limiter and the counting of the request
  -- as an error, and neither the broker nor the store.
  pub serve-limited :
      (r : Request) (s : Server F)
      → (r.method == lit "OPTIONS") ≡ false
      → (allow fl s.limiter r.remote_addr v.now).1 ≡ false
      → ((serve fl u js cfg v r s blank).world ≡ record s {
        metrics = counted v.duration 429 s.metrics;
        limiter = (allow fl s.limiter r.remote_addr v.now).0;
      })
        × ((serve fl u js cfg v r s blank).panicked ≡ false)
        × (status_or 200 (serve fl u js cfg v r s blank).response.sent ≡ 429)
  unfolding serve chain security_headers cors recovery request_id logger logged rate_limiter
      http_error write_header set_header
  serve-limited r s e q = rw (e, q) (refl, refl, refl)
