-- ===== src/Tests/Config.antt =====
-- The configuration in a small environment.
use go_kafka.Base.{ℕ, ◌≡◌, ◌↔◌, refl, [], ◌∷◌, none, some, lit, bytes_eq}
use go_kafka.Base.Int.{pos, negsuc}
use go_kafka.Base.Dict.{lookup}
use go_kafka.Config.{Strconv, Environment, atoi, digits, env_or_default_int, load, read}
use go_kafka.Config.Checks.{IsValid, load_iff}
use go_kafka.Tests.Events.{whole}

-- No float and no duration is set.
abbrev defaults : Strconv ℕ
defaults = record { parse_float = λ s. none; parse_duration = λ s. none }

abbrev env : Environment
env =
    (lit "WORKER_COUNT", lit "8")
    ∷ (lit "PORT", lit "70000")
    ∷ (lit "BROKER_PARTITIONS", lit "x")
    ∷ []

load_iff_example :
    ((load whole defaults env ≡ some (read whole defaults env))
      ↔ IsValid whole defaults (read whole defaults env))
    × ((load whole defaults env ≡ none) ↔ ¬ IsValid whole defaults (read whole defaults env))
load_iff_example = load_iff whole defaults env

workers_run : env_or_default_int env (lit "WORKER_COUNT") (pos 4) ≡ pos 8
unfolding env_or_default_int atoi digits lookup bytes_eq
workers_run = refl

fallback_run : env_or_default_int env (lit "BROKER_PARTITIONS") (pos 4) ≡ pos 4
unfolding env_or_default_int atoi digits lookup bytes_eq
fallback_run = refl

atoi_run : atoi (lit "-12") ≡ some (negsuc 11)
unfolding atoi digits
atoi_run = refl

port_refused : load whole defaults env ≡ none
unfolding load read go_kafka.Config.validate go_kafka.Config.env_or_default env_or_default_int
    go_kafka.Config.env_or_default_float go_kafka.Config.env_or_default_duration
    go_kafka.Config.env_or_default_bool go_kafka.Config.parse_bool atoi digits lookup bytes_eq
port_refused = refl
