-- ===== src/Schedule.antt =====
-- Job schedules, packages/ketjs/src/kernel/schedule.ts, with `dateBucket` of a day and
-- `localDateTimeToUtc` of packages/ketjs/src/data/time.ts. Instants and wall times are milliseconds
-- from 1970 on, and a date is its number of days. `clock` is what Intl knows: for the name of a time
-- zone, the wall time that it shows at an instant.
pub mod Ticks
pub mod Daily
mod Tests
use ketjs.Common.{
  ℕ, zero, suc, ◌+◌, ◌-◌, ◌*◌, ◌/◌, String, Bool, true, false, ◌&&◌, ◌||◌, not, Option, none, some,
  List, [], ◌∷◌, inl, inr, ◌⊎◌, ltb, leb, ◌==◌, if◌then◌else◌,
}
use ketjs.Types.{is_digit}
use ketjs.Types.Dates.{codes, digit}

pub data JobSchedule : Type 0 where
  every : String → JobSchedule
  daily_at : String → Option String → JobSchedule

-- The KetErrors of the two files. A Date has a date, so that `cannot read a date` is not reached.
pub data BadSchedule : Type 0 where
  not_an_interval : String → BadSchedule
  too_short : String → BadSchedule
  not_a_time : String → BadSchedule
  bad_timezone : String → BadSchedule
  bad_local_datetime : String → BadSchedule

abbrev pub min_every_ms : ℕ
min_every_ms = 10000

-- `UNITS`
unfoldable pub unit_ms : ℕ → Option ℕ
unit_ms c =
    if c == b's'
    then some 1000
    else if c == b'm'
    then some 60000
    else if c == b'h'
    then some 3600000
    else if c == b'd'
    then some 86400000
    else none

abbrev pub times : ℕ → Option ℕ → Option ℕ
times n none = none
times n (some unit) = some (n * unit)

-- `EVERY`: digits, at least one, and a unit.
unfoldable pub count_ms : Bool → ℕ → List ℕ → Option ℕ
count_ms seen n [] = none
count_ms seen n (c ∷ []) = if seen then times n (unit_ms c) else none
count_ms seen n (c ∷ d ∷ cs) =
    let rest = count_ms true (n * 10 + digit c) (d ∷ cs) in if is_digit c then rest else none

unfoldable pub long_enough : String → Option ℕ → BadSchedule ⊎ ℕ
long_enough value none = inl (not_an_interval value)
long_enough value (some ms) = if ltb ms min_every_ms then inl (too_short value) else inr ms

unfoldable pub parse_every : String → BadSchedule ⊎ ℕ
parse_every value = long_enough value (count_ms false 0 (codes value))

-- `AT`
unfoldable pub is_time : List ℕ → Bool
is_time (h ∷ i ∷ s ∷ m ∷ n ∷ []) =
    (((h == b'0' || h == b'1') && is_digit i) || (h == b'2' && (leb b'0' i && leb i b'3')))
    && (s == b':' && ((leb b'0' m && leb m b'5') && is_digit n))
is_time _ = false

abbrev pub error_of : BadSchedule ⊎ ℕ → Option BadSchedule
error_of (inl e) = some e
error_of (inr ms) = none

-- What validateSchedule throws, if it does.
unfoldable pub validate_schedule : JobSchedule → Option BadSchedule
validate_schedule (every value) = error_of (parse_every value)
validate_schedule (daily_at time timezone) =
    if is_time (codes time) then none else some (not_a_time time)

abbrev pub floor_to : ℕ → BadSchedule ⊎ ℕ → BadSchedule ⊎ ℕ
floor_to now (inl e) = inl e
floor_to now (inr ms) = inr (now / ms * ms)

abbrev pub zone_or : String → Option String → String
zone_or default_zone none = default_zone
zone_or default_zone (some zone) = zone

abbrev pub and_then : BadSchedule ⊎ ℕ → (ℕ → BadSchedule ⊎ ℕ) → BadSchedule ⊎ ℕ
and_then (inl e) f = inl e
and_then (inr n) f = f n

-- Two digits, as a number of units.
abbrev pub two_digits : ℕ → ℕ → ℕ → Option ℕ
two_digits unit a b =
    if is_digit a && is_digit b then some ((digit a * 10 + digit b) * unit) else none

abbrev pub plus : Option ℕ → Option ℕ → Option ℕ
plus none o = none
plus (some a) none = none
plus (some a) (some b) = some (a + b)

-- The time of day that localDateTimeToUtc reads: hours, or with minutes, or with seconds too.
unfoldable pub time_ms : List ℕ → Option ℕ
time_ms (h ∷ i ∷ []) = two_digits 3600000 h i
time_ms (h ∷ i ∷ s ∷ m ∷ n ∷ []) =
    if s == b':' then plus (two_digits 3600000 h i) (two_digits 60000 m n) else none
time_ms (h ∷ i ∷ s ∷ m ∷ n ∷ t ∷ u ∷ v ∷ []) =
    if s == b':' && t == b':'
    then plus (plus (two_digits 3600000 h i) (two_digits 60000 m n)) (two_digits 1000 u v)
    else none
time_ms _ = none

-- The loop that corrects an instant until the clock shows the wall time.
unfoldable pub correct_instant : ℕ → (ℕ → ℕ) → ℕ → ℕ → ℕ
correct_instant zero shown wall instant = instant
correct_instant (suc n) shown wall instant =
    let corrected = correct_instant n shown wall (instant + wall - shown instant) in
    if shown instant == wall then instant else corrected

module _ (clock : String → Option (ℕ → ℕ)) where
  -- `dateBucket(now, 'day', timezone)`
  unfoldable pub date_bucket : ℕ → String → BadSchedule ⊎ ℕ
  date_bucket now timezone = elim (clock timezone) [
    | none ↦ inl (bad_timezone timezone)
    | some shown ↦ inr (shown now / 86400000)
  ]

  unfoldable pub wall_to_utc : ℕ → String → String → Option ℕ → BadSchedule ⊎ ℕ
  wall_to_utc day time timezone none = inl (bad_local_datetime time)
  wall_to_utc day time timezone (some ms) = elim (clock timezone) [
    | none ↦ inl (bad_timezone timezone)
    | some shown ↦ inr (correct_instant 3 shown (day * 86400000 + ms) (day * 86400000 + ms))
  ]

  -- `localDateTimeToUtc` of a date and a time.
  unfoldable pub local_date_time_to_utc : ℕ → String → String → BadSchedule ⊎ ℕ
  local_date_time_to_utc day time timezone = wall_to_utc day time timezone (time_ms (codes time))

  -- The occurrence of a time of day that has passed, by today's date.
  unfoldable pub daily_tick : ℕ → String → String → ℕ → BadSchedule ⊎ ℕ
  daily_tick now time timezone today =
      and_then (local_date_time_to_utc today time timezone) (λ todays.
        if leb todays now then inr todays else local_date_time_to_utc (today - 1) time timezone)

  unfoldable pub tick_at : JobSchedule → ℕ → String → BadSchedule ⊎ ℕ
  tick_at (every value) now default_zone = floor_to now (parse_every value)
  tick_at (daily_at time timezone) now default_zone =
      and_then (date_bucket now (zone_or default_zone timezone))
        (daily_tick now time (zone_or default_zone timezone))

-- `Math.max(0, Math.round(span / ms) - 1)`
abbrev pub passed_over : ℕ → BadSchedule ⊎ ℕ → BadSchedule ⊎ ℕ
passed_over span (inl e) = inl e
passed_over span (inr ms) = inr ((2 * span + ms) / (2 * ms) - 1)

abbrev pub interval : JobSchedule → BadSchedule ⊎ ℕ
interval (every value) = parse_every value
interval (daily_at time timezone) = inr 86400000

unfoldable pub ticks_between : JobSchedule → ℕ → ℕ → BadSchedule ⊎ ℕ
ticks_between schedule from to =
    if ltb from to then passed_over (to - from) (interval schedule) else inr 0
