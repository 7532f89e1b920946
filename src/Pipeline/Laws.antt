-- ===== src/Pipeline/Laws.antt =====
-- internal/pipeline/pipeline.go: what a run does.
use go_kafka.Base.{
  ◌≡◌, refl, List, [], ◌∷◌, ◌++◌, Option, none, some, Bytes, bytes_key, ◌==◌, if◌then◌else◌, ◌∙◌,
  lit, ap,
}
use go_kafka.Base.Int.{ℤ}
use go_kafka.Base.Float.{Float64}
use go_kafka.Base.Text.{Unicode}
use go_kafka.Events.{WeekendEvent, validate, classify_priority}
use go_kafka.Storage.{Store, put, get}
use go_kafka.Storage.Invariant.{IsIndexed}
use go_kafka.Storage.Updates.{put-IsIndexed, get-put}
use go_kafka.Pipeline.{
  Stage, StageError, Fresh, run_stages, run, fail_or, standard, scored, enriched,
}

module _ {F : Type 0} where
  -- The stages `ys` after a run, which are left out where it failed.
  abbrev pub then_run :
      List (Stage F)
      → Store F × WeekendEvent F × Option StageError
      → Store F × WeekendEvent F × Option StageError
  then_run ys (s, e, none) = run_stages ys s e
  then_run ys (s, e, some x) = (s, e, some x)

  fail_or-then_run :
      (name : Bytes) (ys : List (Stage F)) (out : Store F × WeekendEvent F × Option Bytes)
      (r : Store F × WeekendEvent F × Option StageError)
      → fail_or name out (then_run ys r) ≡ then_run ys (fail_or name out r)
  fail_or-then_run name ys (s, e, none) r = refl
  fail_or-then_run name ys (s, e, some x) r = refl

  -- A run of the stages `xs` and then `ys` is a run of `xs`, and of `ys` from the state that it leaves
  -- if none of `xs` failed.
  pub run_stages-append :
      (xs ys : List (Stage F)) (s : Store F) (e : WeekendEvent F)
      → run_stages (xs ++ ys) s e ≡ then_run ys (run_stages xs s e)
  unfolding run_stages
  run_stages-append [] ys s e = refl
  run_stages-append (st ∷ xs) ys s e =
      ap (fail_or st.name (st.process s e))
        (run_stages-append xs ys (st.process s e).0 (st.process s e).1)
      ∙ fail_or-then_run st.name ys (st.process s e)
          (run_stages xs (st.process s e).0 (st.process s e).1)

module _ (fl : Float64) (u : Unicode) (stage_timeout ttl : ℤ) (fresh : Fresh) (s : Store fl.F)
    (e : WeekendEvent fl.F) where
  -- The event that the stages before the last one make.
  abbrev pub finished : WeekendEvent fl.F
  finished = classify_priority fl (scored fl u (enriched ttl fresh e))

  -- A valid event passes every stage: it is stored, enriched, scored and classified, under its id, every
  -- other id reads as before, and the indices stay right.
  pub run-stores :
      IsIndexed u s
      → validate u e ≡ none
      → (run (standard fl u stage_timeout ttl fresh) s e ≡ (put u s finished, finished, none))
        × IsIndexed u (put u s finished)
        × ((j : Bytes)
            → get (put u s finished) j ≡ (if finished.id == j then some finished else get s j))
  unfolding run run_stages
  run-stores v q = (rw q refl, put-IsIndexed u s v finished, get-put u s finished)

  -- An event that is not valid is refused by the first stage, with its cause, and neither the event nor
  -- the store changes.
  pub run-refuses :
      (cause : Bytes)
      → validate u e ≡ some cause
      → run (standard fl u stage_timeout ttl fresh) s e
        ≡ (s, e, some (record { stage = lit "validate"; cause = cause }))
  unfolding run run_stages
  run-refuses cause q = rw q refl
