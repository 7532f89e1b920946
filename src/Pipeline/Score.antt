-- ===== src/Pipeline/Score.antt =====
-- internal/pipeline/pipeline.go: the range of the score of `ScoreStage`.
use mathlib.Core.Bool.{true}
use go_kafka.Base.{◌≡◌, subst}
use go_kafka.Base.Int.{pos}
use go_kafka.Base.Float.{Float64}
use go_kafka.Base.Text.{Unicode}
use go_kafka.Events.{WeekendEvent}
use go_kafka.Pipeline.{raw_score, scored}

module _ (fl : Float64) where
  open fl use {F, of_int, le, mul, div, min, max, round}

  abbrev AtMost : F → F → Type 0
  AtMost a b = le a b ≡ true

  abbrev zero_point : F
  zero_point = of_int (pos 0)

  abbrev hundred : F
  hundred = of_int (pos 100)

  -- `math.Round(x*100) / 100`
  abbrev cents : F → F
  cents x = div (round (mul x hundred)) hundred

  -- What IEEE 754 and package math say of the comparison, of clamping and of rounding. A float that is
  -- at most itself is no NaN.
  pub record Clamps : Type 0 where
    pub number : (a b : F) → AtMost a b → AtMost b b
    pub max_zero : (x : F) → AtMost x x → AtMost zero_point (max zero_point x)
    pub min_hundred : (x : F) → AtMost x x → AtMost (min hundred x) hundred
    pub min_zero : (x : F) → AtMost zero_point x → AtMost zero_point (min hundred x)
    pub mul_mono : (x y : F) → AtMost x y → AtMost (mul x hundred) (mul y hundred)
    pub round_mono : (x y : F) → AtMost x y → AtMost (round x) (round y)
    pub div_mono : (x y : F) → AtMost x y → AtMost (div x hundred) (div y hundred)
    pub cents_zero : cents zero_point ≡ zero_point
    pub cents_hundred : cents hundred ≡ hundred

  module _ (laws : Clamps) where
    cents_mono : (x y : F) → AtMost x y → AtMost (cents x) (cents y)
    cents_mono x y h =
        laws.div_mono (round (mul x hundred)) (round (mul y hundred))
          (laws.round_mono (mul x hundred) (mul y hundred) (laws.mul_mono x y h))

    module _ (u : Unicode) (e : WeekendEvent F) where
      -- The score is from 0 to 100 for every event, where float64 compares, clamps and rounds as IEEE 754
      -- says and the sum that is clamped is no NaN.
      pub scored-bounds :
          AtMost (raw_score fl u e) (raw_score fl u e)
          → AtMost zero_point (scored fl u e).fun_score × AtMost (scored fl u e).fun_score hundred
      unfolding scored
      scored-bounds n =
          let x = max zero_point (raw_score fl u e) in
          let y = min hundred x in
          let low = laws.max_zero (raw_score fl u e) n in
          let h = cents_mono zero_point y (laws.min_zero x low) in
          let k = cents_mono y hundred (laws.min_hundred x (laws.number zero_point x low)) in
          (
            subst (λ z. AtMost z (cents y)) laws.cents_zero h,
            subst (λ z. AtMost (cents y) z) laws.cents_hundred k,
          )
