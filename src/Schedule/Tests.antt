-- ===== src/Schedule/Tests.antt =====
-- packages/ketjs/src/kernel/schedule.ts: intervals and a time of day, read and ticked.
use ketjs.Common.{
  str_eq, if◌then◌else◌, ◌%◌, ℕ, suc, ◌+◌, ◌*◌, ◌≤◌, ◌<◌, String, ◌≡◌, refl, Option, some, none,
  inl, inr, arith,
}
use ketjs.Schedule.{
  bad_timezone, date_bucket, daily_tick, local_date_time_to_utc, wall_to_utc, time_ms,
  correct_instant, every, daily_at, too_short, min_every_ms, unit_ms, count_ms, long_enough,
  parse_every, is_time, validate_schedule, tick_at, ticks_between,
}
use ketjs.Schedule.Ticks.{tick_at_every, ticks_between_every}
use ketjs.Schedule.Daily.{tick_at_daily}

quarter : parse_every "15m" ≡ inr 900000
unfolding parse_every long_enough count_ms unit_ms
quarter = refl

short : parse_every "9s" ≡ inl (too_short "9s")
unfolding parse_every long_enough count_ms unit_ms
short = refl

time_of_day : validate_schedule (daily_at "03:00" none) ≡ none
unfolding validate_schedule is_time
time_of_day = refl

-- One time zone, of a clock that is an hour ahead.
abbrev one_zone : String → Option (ℕ → ℕ)
one_zone zone = if str_eq zone "Etc/GMT-1" then some (λ i. i + 3600000) else none

unknown_zone : tick_at one_zone (daily_at "03:00" none) 0 "Mars" ≡ inl (bad_timezone "Mars")
unfolding tick_at date_bucket
unknown_zone = refl

-- At one o'clock of the sixth day.
one_day_back :
    tick_at one_zone (daily_at "03:00" (some "Etc/GMT-1")) 435600000 "UTC" ≡ inr 352800000
unfolding tick_at date_bucket daily_tick local_date_time_to_utc wall_to_utc time_ms correct_instant
one_day_back = refl

tick_at_every_example :
    (tick : ℕ) × (tick_at one_zone (every "15m") 2000000 "UTC" ≡ inr tick)
    × (tick ≤ 2000000)
    × (2000000 < tick + 900000)
    × ((n : ℕ) × (tick ≡ n * 900000))
    × (min_every_ms ≤ 900000)
tick_at_every_example = tick_at_every one_zone "15m" "UTC" 2000000 900000 quarter

tick_at_daily_example :
    (tick : ℕ) × (tick_at one_zone (daily_at "03:00" (some "Etc/GMT-1")) 435600000 "UTC" ≡ inr tick)
    × (tick ≤ 435600000)
    × (435600000 < tick + 86400000)
    × ((tick + 3600000) % 86400000 ≡ 10800000)
unfolding time_ms
tick_at_daily_example =
    tick_at_daily one_zone (λ i. i + 3600000) "03:00" "Etc/GMT-1" 435600000 10800000 3600000 0 refl
      refl (omega arith) (omega arith) (omega arith) (omega arith) (λ i a b. omega arith) "UTC"

ticks_between_every_example : ticks_between (every "15m") 100 (100 + suc 4 * 900000) ≡ inr 4
ticks_between_every_example = ticks_between_every "15m" 900000 100 4 quarter
