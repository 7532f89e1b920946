-- ===== src/Middleware/Tokens.antt =====
-- internal/middleware/middleware.go: what the rate limiter lets through.
use mathlib.Core.Bool.{true, false}
use Prim.Native.Nat.{min}
use go_kafka.Base.{
  ℕ, zero, suc, ◌-◌, ◌≤◌, ◌<◌, ◌≡◌, refl, none, some, Bytes, bytes_key, arith, if◌then◌else◌, ◌==◌,
  ◌∙◌, ap,
}
use go_kafka.Base.Int.{pos, ltb_ℤ}
use go_kafka.Base.Float.{Float64}
use go_kafka.Base.Time.{Time}
use go_kafka.Base.Dict.{lookup, insert, lookup-insert, lookup-insert_self}
use go_kafka.Middleware.{Bucket, Limiter, allow, spend, seconds, refilled}

module _ (fl : Float64) where
  open fl use {F, of_int, lt, add, sub, mul}

  -- A call for one key leaves the buckets of the others as they are.
  pub allow-others :
      (l : Limiter F) (key j : Bytes) (now : Time)
      → lookup j (allow fl l key now).0.buckets
        ≡ (if key == j then some (spend fl l (lookup key l.buckets) now).0 else lookup j l.buckets)
  unfolding allow
  allow-others l key j now = lookup-insert key j (spend fl l (lookup key l.buckets) now).0 l.buckets

  -- `n` calls for one key at one instant, and how many of them are allowed.
  abbrev pub allowed : ℕ → Limiter F → Bytes → Time → ℕ
  allowed zero l key now = 0
  allowed (suc n) l key now =
      let (l', ok) = allow fl l key now in
      let rest = allowed n l' key now in if ok then suc rest else rest

  -- float64 is exact on integers below 2 ^ 53, and no time adds nothing to one of them, at the given rate.
  pub record Exact (bound : ℕ) (rps : F) : Type 0 where
    pub sub_one : (n : ℕ) → n < bound → sub (of_int (pos (suc n))) (of_int (pos 1)) ≡ of_int (pos n)
    pub lt_int :
        (m n : ℕ)
        → m ≤ bound
        → n ≤ bound
        → lt (of_int (pos m)) (of_int (pos n)) ≡ ltb_ℤ (pos m) (pos n)
    pub no_refill :
        (n : ℕ) → n ≤ bound → add (of_int (pos n)) (mul (seconds fl 0) rps) ≡ of_int (pos n)

  module _ (bound : ℕ) (key : Bytes) (now : Time) where
    abbrev bucket : ℕ → Bucket F
    bucket t = record { tokens = of_int (pos t); last_time = now }

    module _ (l : Limiter F) (x : Exact bound l.rps) (b : ℕ) (some_room : 1 ≤ bound)
        (small : b ≤ bound) (q : l.burst ≡ pos b) where
      refilled-bucket : (t : ℕ) → t ≤ b → refilled fl l (bucket t) now ≡ of_int (pos t)
      unfolding refilled
      refilled-bucket t ht =
          let stays : add (of_int (pos t)) (mul (seconds fl (now - now)) l.rps) ≡ of_int (pos t) =
            ap (λ d. add (of_int (pos t)) (mul (seconds fl d) l.rps)) {y = 0} (omega arith)
            ∙ x.no_refill t (omega arith) in
          rw (q, stays) (ground (arith, x.lt_int b t small))

      spend-empty : spend fl l (some (bucket 0)) now ≡ (bucket 0, false)
      unfolding spend
      spend-empty =
          rw (refilled-bucket 0 (omega arith)) (rw (x.lt_int 0 1 (omega arith) some_room) refl)

      spend-full : (t : ℕ) → suc t ≤ b → spend fl l (some (bucket (suc t))) now ≡ (bucket t, true)
      unfolding spend
      spend-full t ht = rw (refilled-bucket (suc t) ht) (
          rw (x.lt_int (suc t) 1 (omega arith) some_room, x.sub_one t (omega arith)) (ground arith))

      first_tokens : (t : ℕ) → b ≡ suc t → sub (of_int l.burst) (of_int (pos 1)) ≡ of_int (pos t)
      first_tokens t e = rw (q, e) (x.sub_one t (omega arith))

    allowed-bucket :
        (n t b : ℕ) (l : Limiter F)
        → Exact bound l.rps
        → 1 ≤ bound
        → b ≤ bound
        → t ≤ b
        → l.burst ≡ pos b
        → lookup key l.buckets ≡ some (bucket t)
        → allowed n l key now ≡ min n t
    unfolding allow
    allowed-bucket zero t b l x h hb ht q at = omega arith
    allowed-bucket (suc n) zero b l x h hb ht q at =
        rw (at, spend-empty l x b h hb q)
          (allowed-bucket n 0 b (record l { buckets = insert key (bucket 0) l.buckets }) x h hb ht q
              (lookup-insert_self key (bucket 0) l.buckets)
            ∙ omega arith)
    allowed-bucket (suc n) (suc t) b l x h hb ht q at =
        rw (at, spend-full l x b h hb q t ht)
          (ap suc (
              allowed-bucket n t b (record l { buckets = insert key (bucket t) l.buckets }) x h hb
                (omega arith) q (lookup-insert_self key (bucket t) l.buckets))
            ∙ omega arith)

    -- A key that was not seen before has exactly `burst` of its calls at one instant allowed, and all if
    -- they are fewer, where the burst is positive and float64 is exact up to it.
    pub allowed-burst :
        (n b : ℕ) (l : Limiter F)
        → Exact bound l.rps
        → 1 ≤ b
        → b ≤ bound
        → l.burst ≡ pos b
        → lookup key l.buckets ≡ none
        → allowed n l key now ≡ min n b
    unfolding allow spend
    allowed-burst zero b l x h hb q at = omega arith
    allowed-burst (suc n) zero l x h hb q at = absurd (omega arith)
    allowed-burst (suc n) (suc t) l x h hb q at =
        rw (at, first_tokens l x (suc t) (omega arith) hb q t refl)
          (ap suc (
              allowed-bucket n t (suc t) (record l { buckets = insert key (bucket t) l.buckets }) x
                (omega arith) hb (omega arith) q (lookup-insert_self key (bucket t) l.buckets))
            ∙ omega arith)
