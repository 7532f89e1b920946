-- ===== src/Tests/Pipeline.antt =====
-- The pipeline on concrete inputs.
use go_kafka.Pipeline.Score.{Clamps, scored-bounds}
use go_kafka.Base.{
  ℕ, ◌≡◌, refl, true, leb, arith, none, some, Bytes, lit, bytes_key, if◌then◌else◌, ◌==◌,
}
use go_kafka.Base.Int.{pos}
use go_kafka.Events.{WeekendEvent}
use go_kafka.Storage.{new, put, get}
use go_kafka.Storage.Invariant.{IsIndexed}
use go_kafka.Storage.Updates.{new-IsIndexed}
use go_kafka.Pipeline.{Fresh, run, standard, scored}
use go_kafka.Pipeline.Laws.{finished, run-stores, run-refuses}
use go_kafka.Tests.Events.{plain, whole, hike, hike_valid, blank_refused}

abbrev fresh : Fresh
fresh = record { uuid = lit "u1"; created = 7; processed = 9 }

abbrev blank : WeekendEvent ℕ
blank = record hike { name = lit "  " }

run-stores_example :
    (run (standard whole plain (pos 0) (pos 60) fresh) new hike ≡ (
      put plain new (finished whole plain (pos 0) (pos 60) fresh new hike),
      finished whole plain (pos 0) (pos 60) fresh new hike,
      none,
    ))
    × IsIndexed plain (put plain new (finished whole plain (pos 0) (pos 60) fresh new hike))
    × ((j : Bytes)
        → get (put plain new (finished whole plain (pos 0) (pos 60) fresh new hike)) j ≡ (
            if (finished whole plain (pos 0) (pos 60) fresh new hike).id == j
            then some (finished whole plain (pos 0) (pos 60) fresh new hike)
            else get new j))
run-stores_example =
    run-stores whole plain (pos 0) (pos 60) fresh new hike (new-IsIndexed plain) hike_valid

run-refuses_example :
    run (standard whole plain (pos 0) (pos 60) fresh) new blank
    ≡ (new, blank, some (record { stage = lit "validate"; cause = lit "name is required" }))
run-refuses_example =
    run-refuses whole plain (pos 0) (pos 60) fresh new blank (lit "name is required") blank_refused

whole-Clamps : Clamps whole
whole-Clamps = record {
  number = λ a b h. ground arith;
  max_zero = λ x h. ground arith;
  min_hundred = λ x h. ground arith;
  min_zero = λ x h. ground arith;
  mul_mono = λ x y h. ground arith;
  round_mono = λ x y h. h;
  div_mono = λ x y h. ground arith;
  cents_zero = refl;
  cents_hundred = refl;
}

scored-bounds_example :
    (leb 0 (scored whole plain hike).fun_score ≡ true)
    × (leb (scored whole plain hike).fun_score 100 ≡ true)
scored-bounds_example = scored-bounds whole whole-Clamps plain hike (ground arith)
