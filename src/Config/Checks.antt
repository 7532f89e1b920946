-- ===== src/Config/Checks.antt =====
-- internal/config/config.go: what a process that starts may rely on, and the numbers that are read.
use mathlib.Core.Bool.{Bool, true, false}
use go_kafka.Base.{◌≡◌, ◌↔◌, refl, Option, none, some, arith, if◌then◌else◌}
use go_kafka.Base.Int.{ℤ, pos, ◌≤ℤ◌}
use go_kafka.Base.Float.{Float64}
use go_kafka.Config.{Config, Strconv, Environment, atoi, validate, read, load, bad_port}

-- A port number as text.
abbrev pub IsPort : Option ℤ → Type 0
IsPort none = ⊥
IsPort (some p) = (pos 1 ≤ℤ p) × (p ≤ℤ pos 65535)

module _ (fl : Float64) (conv : Strconv fl.F) where
  open fl use {of_int, le}

  bad_port-IsPort : (o : Option ℤ) → (bad_port fl conv o ≡ false) ↔ IsPort o
  bad_port-IsPort none = (λ h. ground arith, λ h. ground arith)
  bad_port-IsPort (some p) = (λ h. ground arith, λ h. ground arith)

  abbrev pub IsValid : Config fl.F → Type 0
  IsValid c =
      (pos 1 ≤ℤ c.broker_partitions)
      × (le c.rate_limit_rps (of_int (pos 0)) ≡ false)
      × (pos 1 ≤ℤ c.worker_count)
      × IsPort (atoi c.port)

  validate_iff_IsValid : (c : Config fl.F) → (validate fl conv c ≡ true) ↔ IsValid c
  unfolding validate
  validate_iff_IsValid c =
      let p = bad_port-IsPort (atoi c.port) in
      (
        λ h. (ground arith, ground arith, ground arith, p.0 (ground arith)),
        λ h. ground (arith, p.1 h.3),
      )

  kept_iff : (b : Bool) (c : Config fl.F) → ((if b then some c else none) ≡ some c) ↔ (b ≡ true)
  kept_iff true c = (λ h. refl, λ h. refl)
  kept_iff false c = (λ h. absurd (ground arith), λ h. absurd (ground arith))

  stopped_iff : (b : Bool) (c : Config fl.F) → ((if b then some c else none) ≡ none) ↔ ¬ (b ≡ true)
  stopped_iff true c = (λ h. absurd (ground arith), λ h. absurd (h refl))
  stopped_iff false c = (λ h e. absurd (ground arith), λ h. refl)

  -- `Load` returns the configuration that it read exactly if there is a partition and a worker, the
  -- rate is not below or at zero, and the port is a number from 1 to 65535; and the process ends
  -- exactly if one of these does not hold.
  pub load_iff :
      (env : Environment)
      → ((load fl conv env ≡ some (read fl conv env)) ↔ IsValid (read fl conv env))
        × ((load fl conv env ≡ none) ↔ ¬ IsValid (read fl conv env))
  unfolding load
  load_iff env =
      let k = kept_iff (validate fl conv (read fl conv env)) (read fl conv env) in
      let z = stopped_iff (validate fl conv (read fl conv env)) (read fl conv env) in
      let v = validate_iff_IsValid (read fl conv env) in
      ((λ h. v.0 (k.0 h), λ h. k.1 (v.1 h)), (λ h w. z.0 h (v.1 w), λ n. z.1 (λ b. n (v.0 b))))
