-- ===== src/Middleware.antt =====
-- internal/middleware/middleware.go: the token bucket of the rate limiter, each call under its lock, and
-- the composition of the middleware.
pub mod Tokens
pub mod Stack
use mathlib.Core.Bool.{Bool, true, false}
use go_kafka.Base.{
  ℕ, ◌-◌, ◌/◌, ◌%◌, List, [], ◌∷◌, Option, none, some, Bytes, bytes_key, if◌then◌else◌,
}
use go_kafka.Base.Int.{ℤ, pos}
use go_kafka.Base.Float.{Float64}
use go_kafka.Base.Time.{Time, second}
use go_kafka.Base.Dict.{Dict, lookup, insert}

-- `Chain`, whose loop wraps the last middleware first.
unfoldable pub chain {ℓ} : {H : Type ℓ} → H → List (H → H) → H
chain h [] = h
chain h (mw ∷ mws) = mw (chain h mws)

pub record Bucket (F : Type 0) : Type 0 where
  pub tokens : F
  pub last_time : Time

pub record Limiter (F : Type 0) : Type 0 where
  pub buckets : Dict Bytes (Bucket F)
  pub rps : F
  pub burst : ℤ

abbrev pub new_limiter : {F : Type 0} → F → ℤ → Limiter F
new_limiter rps burst = record { buckets = []; rps = rps; burst = burst }

module _ (fl : Float64) where
  open fl use {F, of_int, lt, add, sub, mul, div}

  -- `Duration.Seconds` of a duration that is not negative.
  unfoldable pub seconds : ℕ → F
  seconds d =
      add (of_int (pos (d / second))) (div (of_int (pos (d % second))) (of_int (pos second)))

  -- A bucket after the time since its last call, never above the burst.
  unfoldable pub refilled : Limiter F → Bucket F → Time → F
  unfolding seconds
  refilled l b now =
      let tokens = add b.tokens (mul (seconds (now - b.last_time)) l.rps) in
      if lt (of_int l.burst) tokens then of_int l.burst else tokens

  -- The new bucket of a key, and whether its call is allowed.
  unfoldable pub spend : Limiter F → Option (Bucket F) → Time → Bucket F × Bool
  unfolding refilled
  spend l none now =
      (record { tokens = sub (of_int l.burst) (of_int (pos 1)); last_time = now }, true)
  spend l (some b) now =
      let tokens = refilled l b now in
      if lt tokens (of_int (pos 1))
      then (record { tokens = tokens; last_time = now }, false)
      else (record { tokens = sub tokens (of_int (pos 1)); last_time = now }, true)

  unfoldable pub allow : Limiter F → Bytes → Time → Limiter F × Bool
  unfolding spend
  allow l key now =
      let (b, ok) = spend l (lookup key l.buckets) now in
      (record l { buckets = insert key b l.buckets }, ok)
