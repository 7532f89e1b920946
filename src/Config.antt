-- ===== src/Config.antt =====
-- internal/config/config.go: the configuration and its checks. An environment is a map of strings;
-- `Strconv` stands for strconv.ParseFloat and time.ParseDuration.
pub mod Checks
use mathlib.Core.Bool.{Bool, true, false, ◌&&◌, ◌||◌}
use go_kafka.Base.{
  ℕ, ◌+◌, ◌*◌, ◌-◌, ◌≡◌, List, [], ◌∷◌, ◌++◌, Option, none, some, Bytes, lit, bytes_key, ◌==◌,
  nat_eq, leb, ltb, if◌then◌else◌, length,
}
use go_kafka.Base.Int.{ℤ, pos, negsuc, ltb_ℤ}
use go_kafka.Base.Float.{Float64}
use go_kafka.Base.Time.{second}
use go_kafka.Base.Dict.{Dict, lookup}

abbrev pub Environment : Type 0
Environment = Dict Bytes Bytes

-- `none` is an error.
pub record Strconv (F : Type 0) : Type 0 where
  pub parse_float : Bytes → Option F
  pub parse_duration : Bytes → Option ℤ

pub record Config (F : Type 0) : Type 0 where
  pub port : Bytes
  pub broker_partitions : ℤ
  pub pipeline_timeout : ℤ
  pub rate_limit_rps : F
  pub rate_limit_burst : ℤ
  pub ttl : ℤ
  pub worker_count : ℤ
  pub metrics_enabled : Bool

-- The digits of a decimal number behind the value so far.
unfoldable pub digits : ℕ → Bytes → Option ℕ
digits n [] = some n
digits n (c ∷ cs) =
    let rest = digits (n * 10 + (c - 48)) cs in if leb 48 c && leb c 57 then rest else none

-- One digit or more.
abbrev pub natural : Bytes → Option ℕ
natural [] = none
natural (c ∷ cs) = digits 0 (c ∷ cs)

-- The value in the range of an int64.
abbrev pub in_int : Bool → Option ℕ → Option ℤ
in_int negative none = none
in_int true (some n) =
    if ltb 9223372036854775808 n
    then none
    else if nat_eq n 0
    then some (pos 0)
    else some (negsuc (n - 1))
in_int false (some n) = if ltb n 9223372036854775808 then some (pos n) else none

-- `strconv.Atoi`
unfoldable pub atoi : Bytes → Option ℤ
unfolding digits
atoi [] = none
atoi (c ∷ cs) =
    if nat_eq c 45
    then in_int true (natural cs)
    else if nat_eq c 43
    then in_int false (natural cs)
    else in_int false (natural (c ∷ cs))

-- `strconv.ParseBool`
unfoldable pub parse_bool : Bytes → Option Bool
parse_bool v =
    if (v == lit "1")
      || (v == lit "t")
      || (v == lit "T")
      || (v == lit "true")
      || (v == lit "TRUE")
      || (v == lit "True")
    then some true
    else if (v == lit "0")
        || (v == lit "f")
        || (v == lit "F")
        || (v == lit "false")
        || (v == lit "FALSE")
        || (v == lit "False")
    then some false
    else none

-- `envOrDefaultInt` and its likes: the fallback where the key is not set or its value is no such number.
abbrev pub parsed_or {ℓ} : {A : Type ℓ} → (Bytes → Option A) → Option Bytes → A → A
parsed_or parse none fallback = fallback
parsed_or parse (some v) fallback = elim (parse v) [ none ↦ fallback | some a ↦ a ]

unfoldable pub env_or_default : Environment → Bytes → Bytes → Bytes
env_or_default env key fallback = elim (lookup key env) [ none ↦ fallback | some v ↦ v ]

unfoldable pub env_or_default_int : Environment → Bytes → ℤ → ℤ
unfolding atoi
env_or_default_int env key fallback = parsed_or atoi (lookup key env) fallback

unfoldable pub env_or_default_bool : Environment → Bytes → Bool → Bool
unfolding parse_bool
env_or_default_bool env key fallback = parsed_or parse_bool (lookup key env) fallback

module _ (fl : Float64) (conv : Strconv fl.F) where
  open fl use {F, of_int, le}

  unfoldable pub env_or_default_float : Environment → Bytes → F → F
  env_or_default_float env key fallback = parsed_or conv.parse_float (lookup key env) fallback

  unfoldable pub env_or_default_duration : Environment → Bytes → ℤ → ℤ
  env_or_default_duration env key fallback = parsed_or conv.parse_duration (lookup key env) fallback

  -- The struct that `Load` fills.
  unfoldable pub read : Environment → Config F
  unfolding env_or_default env_or_default_int env_or_default_bool env_or_default_float
      env_or_default_duration
  read env = record {
    port = env_or_default env (lit "PORT") (lit "8080");
    broker_partitions = env_or_default_int env (lit "BROKER_PARTITIONS") (pos 4);
    pipeline_timeout = env_or_default_duration env (lit "PIPELINE_TIMEOUT") (pos (5 * second));
    rate_limit_rps = env_or_default_float env (lit "RATE_LIMIT_RPS") (of_int (pos 50));
    rate_limit_burst = env_or_default_int env (lit "RATE_LIMIT_BURST") (pos 100);
    ttl = env_or_default_duration env (lit "EVENT_TTL") (pos (86400 * second));
    worker_count = env_or_default_int env (lit "WORKER_COUNT") (pos 4);
    metrics_enabled = env_or_default_bool env (lit "METRICS_ENABLED") true;
  }

  abbrev pub bad_port : Option ℤ → Bool
  bad_port none = true
  bad_port (some p) = ltb_ℤ p (pos 1) || ltb_ℤ (pos 65535) p

  -- `validate`; false is the end of the process by `log.Fatal`.
  unfoldable pub validate : Config F → Bool
  unfolding atoi
  validate c =
      if ltb_ℤ c.broker_partitions (pos 1)
      then false
      else if le c.rate_limit_rps (of_int (pos 0))
      then false
      else if ltb_ℤ c.worker_count (pos 1)
      then false
      else if bad_port (atoi c.port)
      then false
      else true

  unfoldable pub load : Environment → Option (Config F)
  unfolding read validate
  load env = let cfg = read env in if validate cfg then some cfg else none

abbrev pub addr : {F : Type 0} → Config F → Bytes
addr c = lit ":" ++ c.port
