-- ===== src/Http.antt =====
-- Package net/http, as far as cmd/api/main.go and internal/middleware use it: requests, response
-- writers and handlers. A handler works on a world, the shared objects that it was made with.
use mathlib.Core.Bool.{Bool, false}
use go_kafka.Base.{ℕ, List, [], ◌∷◌, ◌++◌, Option, none, some, Bytes, lit, bytes_key}
use go_kafka.Base.Dict.{Dict, lookup, insert, or_zero}

-- `query` has the first value of each parameter.
pub record Request : Type 0 where
  pub method : Bytes
  pub path : Bytes
  pub query : Dict Bytes Bytes
  pub body : Bytes
  pub remote_addr : Bytes

abbrev pub Header : Type 0
Header = Dict Bytes Bytes

-- `sent` is the status and the header that the client gets, `codes` the arguments of all calls of
-- `WriteHeader`, the latest first, and `body` what was written, the latest last. A body of type `V`
-- is encoded as JSON.
pub data Chunk (V : Type 0) : Type 0 where
  text : Bytes → Chunk V
  json : V → Chunk V

pub record Response (V : Type 0) : Type 0 where
  pub header : Header
  pub sent : Option (ℕ × Header)
  pub codes : List ℕ
  pub body : List (Chunk V)

-- What a call of `ServeHTTP` leaves, and whether it panicked.
pub record Outcome (W V : Type 0) : Type 0 where
  pub world : W
  pub response : Response V
  pub panicked : Bool

abbrev pub Handler : Type 0 → Type 0 → Type 0
Handler W V = Request → W → Response V → Outcome W V

-- `r.URL.Query().Get(key)`
abbrev pub query_get : Request → Bytes → Bytes
query_get r key = or_zero [] (lookup key r.query)

-- What is sent stays.
abbrev pub first_sent : Option (ℕ × Header) → ℕ × Header → Option (ℕ × Header)
first_sent none now = some now
first_sent (some before) now = some before

module _ {V : Type 0} where
  abbrev pub blank : Response V
  blank = record { header = []; sent = none; codes = []; body = [] }

  -- `w.Header().Set(key, value)`
  unfoldable pub set_header : Bytes → Bytes → Response V → Response V
  set_header key value w = record w { header = insert key value w.header }

  -- `w.WriteHeader(code)`, of which the first call is sent.
  unfoldable pub write_header : ℕ → Response V → Response V
  write_header code w = record w {
    sent = first_sent w.sent (code, w.header);
    codes = code ∷ w.codes;
  }

  -- `w.Write`, which sends the status 200 if nothing was sent.
  abbrev pub write : Chunk V → Response V → Response V
  write c w = record w { sent = first_sent w.sent (200, w.header); body = w.body ++ c ∷ [] }

  -- `http.Error`
  unfoldable pub http_error : Bytes → ℕ → Response V → Response V
  unfolding set_header write_header
  http_error message code w = write (text message) (
      write_header code (
        set_header (lit "X-Content-Type-Options") (lit "nosniff")
          (set_header (lit "Content-Type") (lit "text/plain; charset=utf-8") w)))

module _ {W V : Type 0} where
  abbrev pub done : W → Response V → Outcome W V
  done world w = record { world = world; response = w; panicked = false }
