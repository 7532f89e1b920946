-- ===== src/Pipeline.antt =====
-- internal/pipeline/pipeline.go: the stages and their run. A stage reads and changes the event, and the
-- last one the store. No stage of the program reads its context, so a run has none; the clock's and
-- uuid's results are an argument of the stage that asks for them.
pub mod Laws
pub mod Score
use go_kafka.Base.{
  ◌+◌, ◌*◌, Bool, true, false, ◌||◌, List, [], ◌∷◌, Option, none, some, Bytes, lit, map, bytes_key,
  if◌then◌else◌, ◌==◌, length, nat_eq, ltb,
}
use go_kafka.Base.Int.{ℤ, pos, pos_part, ltb_ℤ, leb_ℤ}
use go_kafka.Base.Float.{Float64}
use go_kafka.Base.Time.{Time, is_zero, weekday, second}
use go_kafka.Base.Text.{Unicode, to_lower}
use go_kafka.Events.{WeekendEvent, is_empty, validate, enrich, classify_priority}
use go_kafka.Storage.{Store, put}

pub record Stage (F : Type 0) : Type 0 where
  pub name : Bytes
  -- `some` is the error.
  pub process : Store F → WeekendEvent F → Store F × WeekendEvent F × Option Bytes

-- `fmt.Errorf("stage %s: %w", s.Name(), err)`
pub record StageError : Type 0 where
  pub stage : Bytes
  pub cause : Bytes

pub record Pipeline (F : Type 0) : Type 0 where
  pub stages : List (Stage F)
  pub stage_timeout : ℤ

-- What uuid and the clock give to one run of the stage `enrich`.
pub record Fresh : Type 0 where
  pub uuid : Bytes
  pub created : Time
  pub processed : Time

module _ {F : Type 0} where
  abbrev pub new : ℤ → List (Stage F) → Pipeline F
  new stage_timeout stages = record {
    stages = stages;
    stage_timeout = if leb_ℤ stage_timeout (pos 0) then pos (5 * second) else stage_timeout;
  }

  abbrev pub fail_or :
      Bytes
      → Store F × WeekendEvent F × Option Bytes
      → Store F × WeekendEvent F × Option StageError
      → Store F × WeekendEvent F × Option StageError
  fail_or name (s, e, none) rest = rest
  fail_or name (s, e, some cause) rest = (s, e, some (record { stage = name; cause = cause }))

  unfoldable pub run_stages :
      List (Stage F) → Store F → WeekendEvent F → Store F × WeekendEvent F × Option StageError
  run_stages [] s e = (s, e, none)
  run_stages (st ∷ rest) s e =
      let out = st.process s e in fail_or st.name out (run_stages rest out.0 out.1)

  unfoldable pub run :
      Pipeline F → Store F → WeekendEvent F → Store F × WeekendEvent F × Option StageError
  unfolding run_stages
  run p s e = run_stages p.stages s e

  unfoldable pub stage_names : Pipeline F → List Bytes
  stage_names p = map (λ st. st.name) p.stages

  module _ (u : Unicode) where
    abbrev pub validate_stage : Stage F
    validate_stage = record { name = lit "validate"; process = λ s e. (s, e, validate u e) }

    abbrev pub persist_stage : Stage F
    persist_stage = record { name = lit "persist"; process = λ s e. (put u s e, e, none) }

  -- The event that the stage `enrich` leaves.
  unfoldable pub enriched : ℤ → Fresh → WeekendEvent F → WeekendEvent F
  unfolding enrich
  enriched ttl fresh e =
      let with_id : WeekendEvent F = if is_empty e.id then record e { id = fresh.uuid } else e in
      let with_time : WeekendEvent F =
        if is_zero with_id.created_at
        then record with_id { created_at = fresh.created }
        else with_id in
      let done : WeekendEvent F = record (enrich with_time) { processed_at = fresh.processed } in
      if ltb_ℤ (pos 0) ttl
      then record done { expires_at = done.created_at + pos_part ttl }
      else done

  abbrev pub enrich_stage : ℤ → Fresh → Stage F
  enrich_stage ttl fresh = record {
    name = lit "enrich";
    process = λ s e. (s, enriched ttl fresh e, none);
  }

module _ (fl : Float64) (u : Unicode) where
  open fl use {F, of_int, of_ratio, add, mul, div, min, max, log2, round}

  unfoldable pub category_multiplier : Bytes → F
  category_multiplier cat =
      let c = to_lower u cat in
      if (c == lit "outdoors") || (c == lit "adventure")
      then of_ratio 3 2
      else if (c == lit "social") || (c == lit "games")
      then of_ratio 13 10
      else if (c == lit "creative") || (c == lit "music")
      then of_ratio 12 10
      else if (c == lit "food") || (c == lit "cooking")
      then of_ratio 11 10
      else of_int (pos 1)

  -- Saturday is 6 and Sunday 0.
  abbrev pub weekend_bonus : Time → F
  weekend_bonus t =
      if nat_eq (weekday t) 6 || nat_eq (weekday t) 0 then of_int (pos 10) else of_int (pos 0)

  unfoldable pub raw_score : WeekendEvent F → F
  unfolding category_multiplier
  raw_score e =
      let base = mul (of_int e.mood_boost) (of_int (pos 4)) in
      let name_len = of_int (pos (length e.name)) in
      let name_bonus =
        min (of_int (pos 20)) (mul (log2 (add name_len (of_int (pos 1)))) (of_int (pos 5))) in
      let tag_bonus = min (of_int (pos 10)) (mul (of_int (pos (length e.tags))) (of_int (pos 2))) in
      add
        (add (mul (add base name_bonus) (category_multiplier e.category))
          (weekend_bonus e.created_at))
        tag_bonus

  unfoldable pub scored : WeekendEvent F → WeekendEvent F
  unfolding raw_score
  scored e = record e {
    fun_score =
        div
          (round
            (mul (min (of_int (pos 100)) (max (of_int (pos 0)) (raw_score e))) (of_int (pos 100))))
          (of_int (pos 100));
  }

  abbrev pub score_stage : Stage F
  score_stage = record { name = lit "score"; process = λ s e. (s, scored e, none) }

  abbrev pub classify_stage : Stage F
  classify_stage = record {
    name = lit "classify";
    process = λ s e. (s, classify_priority fl e, none);
  }

  -- The pipeline that cmd/worker and cmd/api build.
  abbrev pub standard : ℤ → ℤ → Fresh → Pipeline F
  standard stage_timeout ttl fresh = new stage_timeout (
      validate_stage u
      ∷ enrich_stage ttl fresh
      ∷ score_stage
      ∷ classify_stage
      ∷ persist_stage u
      ∷ [])
