-- ===== src/Middleware/Stack/Logs.antt =====
-- internal/middleware/middleware.go: what `Logger` counts, and what `Recovery` answers.
use mathlib.Core.Bool.{false}
use go_kafka.Base.{
  ℕ, ◌+◌, ◌^◌, ◌%◌, Option, none, some, Bytes, lit, bytes_key, bytes_eq, if◌then◌else◌, ◌==◌,
  Bool-cases, Option-cases, inl, inr, refl, ◌≡◌, leb, ◌∙◌,
}
use go_kafka.Base.Int.{ℤ}
use go_kafka.Http.{Request, Response, Handler, Header, http_error, set_header, write_header}
use go_kafka.Metrics.{Collector, inc, record_latency}
use go_kafka.Metrics.Counters.{counter, counter-inc_self, counter-inc_ne}
use go_kafka.Middleware.Stack.{counted, recovery}

module _ (duration : ℤ) (status : ℕ) (mc : Collector) where
  abbrev once : Collector
  once = record_latency (inc mc (lit "http.requests")) (lit "http.latency") duration

  pub counter-counted_ne :
      (name : Bytes)
      → (lit "http.requests" == name) ≡ false
      → (lit "http.errors" == name) ≡ false
      → counter (counted duration status mc) name ≡ counter mc name
  unfolding counted record_latency
  counter-counted_ne name other_requests other_errors =
      let first : counter once name ≡ counter mc name =
        counter-inc_ne mc (lit "http.requests") name other_requests in
      elim (Bool-cases (leb 400 status)) [
        | inl e ↦ rw e (counter-inc_ne once (lit "http.errors") name other_errors ∙ first)
        | inr e ↦ rw e first
      ]

  pub counter-counted_requests :
      counter (counted duration status mc) (lit "http.requests")
      ≡ (counter mc (lit "http.requests") + 1) % 2 ^ 64
  unfolding counted record_latency bytes_eq
  counter-counted_requests =
      let first : counter once (lit "http.requests")
          ≡ (counter mc (lit "http.requests") + 1) % 2 ^ 64 =
        counter-inc_self mc (lit "http.requests") in
      elim (Bool-cases (leb 400 status)) [
        | inl e ↦ rw e (counter-inc_ne once (lit "http.errors") (lit "http.requests") refl ∙ first)
        | inr e ↦ rw e first
      ]

-- The status that the client gets, if it is `otherwise` where nothing was sent. The server sends 200 for
-- a handler that sends nothing.
abbrev pub status_or : ℕ → Option (ℕ × Header) → ℕ
status_or otherwise none = otherwise
status_or otherwise (some (code, header)) = code

pub status-http_error :
    {V : Type 0} (message : Bytes) (code : ℕ) (w : Response V)
    → status_or 200 (http_error message code w).sent ≡ status_or code w.sent
unfolding http_error write_header set_header
status-http_error message code w = elim (Option-cases w.sent) [
  | inl e ↦ rw e refl
  | inr (p, e) ↦ rw e refl
]

module _ {W V : Type 0} where
  -- Whatever the handler does, `Recovery` does not panic, and the world stays as the handler left it. A
  -- panic is answered by the status 500, unless a status was sent before.
  pub recovery-answers :
      (h : Handler W V) (r : Request) (s : W) (w : Response V)
      → ((recovery h r s w).panicked ≡ false)
        × ((recovery h r s w).world ≡ (h r s w).world)
        × (status_or 200 (recovery h r s w).response.sent
            ≡ status_or (if (h r s w).panicked then 500 else 200) (h r s w).response.sent)
  unfolding recovery
  recovery-answers h r s w = elim (Bool-cases (h r s w).panicked) [
    | inl e ↦
        rw e (refl, refl, status-http_error (lit "internal server error") 500 (h r s w).response)
    | inr e ↦ rw e (refl, refl, refl)
  ]
