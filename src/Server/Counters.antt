-- ===== src/Server/Counters.antt =====
-- cmd/api/main.go, cmd/worker/main.go: the counters of the runs of the pipeline.
use mathlib.Core.Bool.{false}
use go_kafka.Base.{
  ℕ, ◌+◌, ◌^◌, ◌%◌, Option, none, some, Bytes, lit, bytes_key, bytes_eq, arith, ◌==◌, refl, ◌≡◌,
  ◌∙◌, ap, Option-cases, inl, inr,
}
use go_kafka.Base.Int.{ℤ}
use go_kafka.Broker.Log.{Message}
use go_kafka.Events.{WeekendEvent}
use go_kafka.Metrics
use go_kafka.Base.Dict.{lookup, insert}
use go_kafka.Metrics.{Collector, register, inc, add, set_gauge, record_latency}
use go_kafka.Metrics.Counters.{
  counter, counter-inc_self, counter-inc_ne, counter-add_ne, counter-set_gauge_ne,
}
use go_kafka.Middleware.Stack.{counted}
use go_kafka.Middleware.Stack.Logs.{counter-counted_ne}
use go_kafka.Pipeline
use go_kafka.Pipeline.{Pipeline, StageError}
use go_kafka.Storage.{Store}
use go_kafka.Server.{Json, settled, handle_message}

abbrev pub runs : Bytes
runs = lit "pipeline.runs"

abbrev pub processed : Bytes
processed = lit "events.processed"

abbrev pub stage_errors : Bytes
stage_errors = lit "pipeline.stage_errors"

-- The three counters agree, as 64-bit words.
abbrev pub IsBalanced : Collector → Type 0
IsBalanced mc = counter mc runs % 2 ^ 64 ≡ (counter mc processed + counter mc stage_errors) % 2 ^ 64

pub new-IsBalanced : IsBalanced Metrics.new
unfolding Metrics.new register lookup insert bytes_eq
new-IsBalanced = refl

-- A change that leaves the three alone keeps them in balance.
pub same-IsBalanced :
    (mc mc' : Collector)
    → counter mc' runs ≡ counter mc runs
    → counter mc' processed ≡ counter mc processed
    → counter mc' stage_errors ≡ counter mc stage_errors
    → IsBalanced mc
    → IsBalanced mc'
same-IsBalanced mc mc' a b c h = rw (a, b, c) h

pub inc-IsBalanced :
    (mc : Collector) (name : Bytes)
    → (name == runs) ≡ false
    → (name == processed) ≡ false
    → (name == stage_errors) ≡ false
    → IsBalanced mc
    → IsBalanced (inc mc name)
inc-IsBalanced mc name a b c =
    same-IsBalanced mc (inc mc name) (counter-inc_ne mc name runs a)
      (counter-inc_ne mc name processed b) (counter-inc_ne mc name stage_errors c)

pub counted-IsBalanced :
    (duration : ℤ) (status : ℕ) (mc : Collector)
    → IsBalanced mc
    → IsBalanced (counted duration status mc)
unfolding bytes_eq
counted-IsBalanced duration status mc =
    same-IsBalanced mc (counted duration status mc)
      (counter-counted_ne duration status mc runs refl refl)
      (counter-counted_ne duration status mc processed refl refl)
      (counter-counted_ne duration status mc stage_errors refl refl)

pub add-IsBalanced :
    (mc : Collector) (n : ℕ) → IsBalanced mc → IsBalanced (add mc (lit "events.expired") n)
unfolding bytes_eq
add-IsBalanced mc n =
    same-IsBalanced mc (add mc (lit "events.expired") n)
      (counter-add_ne mc (lit "events.expired") runs n refl)
      (counter-add_ne mc (lit "events.expired") processed n refl)
      (counter-add_ne mc (lit "events.expired") stage_errors n refl)

pub gauge-IsBalanced :
    (mc : Collector) (name : Bytes) (n : ℕ)
    → (name == runs) ≡ false
    → (name == processed) ≡ false
    → (name == stage_errors) ≡ false
    → IsBalanced mc
    → IsBalanced (set_gauge mc name n)
gauge-IsBalanced mc name n a b c =
    same-IsBalanced mc (set_gauge mc name n) (counter-set_gauge_ne mc name runs n a)
      (counter-set_gauge_ne mc name processed n b) (counter-set_gauge_ne mc name stage_errors n c)

module _ (mc : Collector) (h : IsBalanced mc) where
  -- The counters behind a run that failed, and behind one that did not.
  failed-IsBalanced : IsBalanced (inc (inc (inc mc runs) (lit "events.failed")) stage_errors)
  unfolding bytes_eq
  failed-IsBalanced =
      let m1 = inc mc runs in
      let m2 = inc m1 (lit "events.failed") in
      let r : counter (inc m2 stage_errors) runs ≡ (counter mc runs + 1) % 2 ^ 64 =
        counter-inc_ne m2 stage_errors runs refl
        ∙ counter-inc_ne m1 (lit "events.failed") runs refl
        ∙ counter-inc_self mc runs in
      let p : counter (inc m2 stage_errors) processed ≡ counter mc processed =
        counter-inc_ne m2 stage_errors processed refl
        ∙ counter-inc_ne m1 (lit "events.failed") processed refl
        ∙ counter-inc_ne mc runs processed refl in
      let e : counter (inc m2 stage_errors) stage_errors ≡ (counter mc stage_errors + 1) % 2 ^ 64 =
        counter-inc_self m2 stage_errors
        ∙ ap (λ n. (n + 1) % 2 ^ 64)
            (counter-inc_ne m1 (lit "events.failed") stage_errors refl
              ∙ counter-inc_ne mc runs stage_errors refl) in
      rw (r, p, e) (omega (arith, h))

  passed-IsBalanced :
      (duration : ℤ)
      → IsBalanced (inc (record_latency (inc mc runs) (lit "pipeline.latency") duration) processed)
  unfolding bytes_eq record_latency
  passed-IsBalanced duration =
      let m1 = inc mc runs in
      let m2 = record_latency m1 (lit "pipeline.latency") duration in
      let r : counter (inc m2 processed) runs ≡ (counter mc runs + 1) % 2 ^ 64 =
        counter-inc_ne m2 processed runs refl ∙ counter-inc_self mc runs in
      let p : counter (inc m2 processed) processed ≡ (counter mc processed + 1) % 2 ^ 64 =
        counter-inc_self m2 processed
        ∙ ap (λ n. (n + 1) % 2 ^ 64) (counter-inc_ne mc runs processed refl) in
      let e : counter (inc m2 processed) stage_errors ≡ counter mc stage_errors =
        counter-inc_ne m2 processed stage_errors refl ∙ counter-inc_ne mc runs stage_errors refl in
      rw (r, p, e) (omega (arith, h))

settled-IsBalanced :
    {F : Type 0} (duration : ℤ) (mc : Collector)
    (out : Store F × WeekendEvent F × Option StageError)
    → IsBalanced mc
    → IsBalanced (settled duration (inc mc runs) out).1
settled-IsBalanced duration mc (s, e, none) h = passed-IsBalanced mc h duration
settled-IsBalanced duration mc (s, e, some x) h = failed-IsBalanced mc h

-- A message that is handled, whatever it holds and however its run ends, keeps the count of the runs of
-- the pipeline equal to that of the processed events and the stage errors, as 64-bit words.
pub handle_message-IsBalanced :
    {F : Type 0} (json : Json F) (pipe : Pipeline F) (duration : ℤ) (s : Store F) (mc : Collector)
    (msg : Message)
    → IsBalanced mc
    → IsBalanced (handle_message json pipe duration s mc msg).1
unfolding handle_message bytes_eq
handle_message-IsBalanced json pipe duration s mc msg h =
    elim (Option-cases (json.unmarshal msg.value)) [
      | inl e ↦ rw (e, handle_message) (inc-IsBalanced mc (lit "events.failed") refl refl refl h)
      | inr (evt, e) ↦
          rw (e, handle_message) (settled-IsBalanced duration mc (Pipeline.run pipe s evt) h)
    ]
