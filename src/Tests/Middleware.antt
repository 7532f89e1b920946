-- ===== src/Tests/Middleware.antt =====
-- The rate limiter on concrete inputs.
use Prim.Native.Nat.{min}
use go_kafka.Base.{ℕ, ◌≡◌, refl, lit, bytes_key, arith}
use go_kafka.Base.Int.{pos}
use go_kafka.Base.Dict.{lookup}
use go_kafka.Middleware.{Limiter, new_limiter, seconds}
use go_kafka.Middleware.Tokens.{Exact, allowed, allowed-burst}
use go_kafka.Tests.Events.{whole}

whole-Exact : Exact whole 20 10
unfolding seconds
whole-Exact = record {
  sub_one = λ n h. omega arith;
  lt_int = λ m n hm hn. ground arith;
  no_refill = λ n h. omega arith;
}

abbrev limiter : Limiter ℕ
limiter = new_limiter 10 (pos 3)

allowed-burst_example : allowed whole 5 limiter (lit "10.0.0.1") 7 ≡ min 5 3
unfolding lookup
allowed-burst_example =
    allowed-burst whole 20 (lit "10.0.0.1") 7 5 3 limiter whole-Exact (omega arith) (omega arith)
      refl refl
