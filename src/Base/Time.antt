-- ===== src/Base/Time.antt =====
-- Go's package time in UTC. A time is a count of nanoseconds from the zero time, January 1 of the
-- year 1; earlier times are not modelled.
use Prim.Native.Nat.{ℕ, ◌+◌, ◌-◌, ◌*◌, ◌/◌, ◌%◌, min}
use mathlib.Core.Path.{◌≡◌, refl}
use mathlib.Core.Bool.{Bool, ◌&&◌, ◌||◌, not}
use go_kafka.Base.Tests.{leb, ltb, nat_eq, if◌then◌else◌}
use go_kafka.Base.Keys.{Bytes, lit}

abbrev pub Time : Type 0
Time = ℕ

abbrev pub second : ℕ
second = 1000000000

abbrev pub is_zero : Time → Bool
is_zero t = nat_eq t 0

abbrev pub before : Time → Time → Bool
before t u = ltb t u

abbrev pub day_number : Time → ℕ
day_number t = t / (86400 * second)

-- Sunday is 0. January 1 of the year 1 was a Monday.
abbrev pub weekday : Time → ℕ
weekday t = (day_number t + 1) % 7

abbrev pub weekday_name : ℕ → Bytes
weekday_name d =
    if nat_eq d 0
    then lit "Sunday"
    else if nat_eq d 1
    then lit "Monday"
    else if nat_eq d 2
    then lit "Tuesday"
    else if nat_eq d 3
    then lit "Wednesday"
    else if nat_eq d 4
    then lit "Thursday"
    else if nat_eq d 5
    then lit "Friday"
    else lit "Saturday"

-- The day of the year from 0, and whether the year is a leap year, by cycles of 400, 100, 4 and 1
-- years.
abbrev pub year_day : ℕ → ℕ
year_day d =
    let d400 = d % 146097 in
    let n100 = min (d400 / 36524) 3 in
    let d100 = d400 - 36524 * n100 in let d4 = d100 % 1461 in d4 - 365 * min (d4 / 365) 3

abbrev pub leap : ℕ → Bool
leap d =
    let d400 = d % 146097 in
    let n100 = min (d400 / 36524) 3 in
    let d100 = d400 - 36524 * n100 in
    let n4 = d100 / 1461 in
    let n1 = min (d100 % 1461 / 365) 3 in nat_eq n1 3 && (not (nat_eq n4 24) || nat_eq n100 3)

-- January is 1. `y` is the day of a year, with February 29 taken out.
abbrev month_of_day : ℕ → ℕ
month_of_day y =
    if ltb y 31
    then 1
    else if ltb y 59
    then 2
    else if ltb y 90
    then 3
    else if ltb y 120
    then 4
    else if ltb y 151
    then 5
    else if ltb y 181
    then 6
    else if ltb y 212
    then 7
    else if ltb y 243
    then 8
    else if ltb y 273
    then 9
    else if ltb y 304
    then 10
    else if ltb y 334
    then 11
    else 12

unfoldable pub month : Time → ℕ
month t =
    let y = year_day (day_number t) in
    if leap (day_number t) && leb 59 y
    then (if nat_eq y 59 then 2 else month_of_day (y - 1))
    else month_of_day y

-- 2024-02-29, 2024-03-01, 2025-12-31: days 738944, 738945 and 739615.
months :
    (month (738944 * (86400 * second)) ≡ 2)
    × (month (738945 * (86400 * second)) ≡ 3)
    × (month (739615 * (86400 * second)) ≡ 12)
    × (weekday (738944 * (86400 * second)) ≡ 4)
unfolding month
months = (refl, refl, refl, refl)
