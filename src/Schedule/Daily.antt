-- ===== src/Schedule/Daily.antt =====
-- packages/ketjs/src/kernel/schedule.ts: the tick of a daily schedule.
use ketjs.Common.{
  ℕ, ◌+◌, ◌-◌, ◌*◌, ◌/◌, ◌%◌, ◌≤◌, ◌<◌, String, true, false, ◌≡◌, refl, ap, Option, some, inl, inr,
  leb, ◌==◌, Bool-cases, arith,
}
use ketjs.Types.Dates.{codes}
use ketjs.Schedule.{
  daily_at, time_ms, correct_instant, date_bucket, wall_to_utc, local_date_time_to_utc, daily_tick,
  tick_at,
}

-- A clock that is `east` ahead and `west` behind settles at once.
correct_instant_lem :
    (shown : ℕ → ℕ) (east west wall : ℕ)
    → east ≤ wall
    → shown wall + west ≡ wall + east
    → shown (wall + west - east) + west ≡ (wall + west - east) + east
    → correct_instant 3 shown wall wall ≡ wall + west - east
unfolding correct_instant
correct_instant_lem shown east west wall small first second =
    elim (Bool-cases (shown wall == wall)) [
      | inl c ↦ rw c (ground (arith, c, first))
      | inr c ↦ rw (c, next, shows) refl
    ]
  where
    next : wall + wall - shown wall ≡ wall + west - east
    next = omega (arith, first, small)

    shows : (shown (wall + west - east) == wall) ≡ true
    shows = ground (arith, second, small)

module _ (clock : String → Option (ℕ → ℕ)) (shown : ℕ → ℕ) (time zone : String)
    (now ms east west : ℕ) (known : clock zone ≡ some shown) (read : time_ms (codes time) ≡ some ms)
    (in_day : ms < 86400000) (ahead : east ≤ 86400000) (behind : west ≤ 86400000)
    (late : 345600000 ≤ now)
    (steady : (i : ℕ) → now ≤ i + 345600000 → i ≤ now + 345600000 → shown i + west ≡ i + east) where
  -- The instant of the time of a day that is near.
  abbrev instant : ℕ → ℕ
  instant day = day * 86400000 + ms + west - east

  near_instant :
      (day : ℕ)
      → now ≤ day * 86400000 + ms + 259200000
      → day * 86400000 + ms ≤ now + 259200000
      → (local_date_time_to_utc clock day time zone ≡ inr (instant day))
        × (shown (instant day) ≡ day * 86400000 + ms)
  unfolding local_date_time_to_utc wall_to_utc
  near_instant day a b =
      let wall : ℕ = day * 86400000 + ms in
      let first = steady wall (omega (arith, a)) (omega (arith, b)) in
      let second =
        steady (instant day) (omega (arith, a, late, ahead, behind))
          (omega (arith, b, late, ahead, behind)) in
      (
        rw (read, wall_to_utc, known)
            (ap inr (
              correct_instant_lem shown east west wall (omega (arith, a, late, ahead)) first
                second)),
        omega (arith, a, late, ahead, behind, second),
      )

  time_of :
      (day : ℕ) → shown (instant day) ≡ day * 86400000 + ms → shown (instant day) % 86400000 ≡ ms
  time_of day e = omega (arith, e, in_day)

  -- Where the clock of the time zone does not change within four days of an instant, and is at most
  -- a day off, the tick of a valid time of day is no later than the instant and less than a day
  -- before it, and the clock shows that time of day at the tick.
  pub tick_at_daily :
      (default_zone : String)
      → (tick : ℕ) × (tick_at clock (daily_at time (some zone)) now default_zone ≡ inr tick)
        × (tick ≤ now)
        × (now < tick + 86400000)
        × (shown tick % 86400000 ≡ ms)
  unfolding tick_at daily_tick date_bucket
  tick_at_daily default_zone =
      let today : ℕ = shown now / 86400000 in
      let here = steady now (omega arith) (omega arith) in
      let (e, t) =
        near_instant today (omega (arith, here, in_day, ahead, behind, late))
          (omega (arith, here, in_day, ahead, behind, late)) in
      elim (Bool-cases (leb (instant today) now)) [
        | inl c ↦ (
          instant today,
          rw (date_bucket, known, e, c) refl,
          ground (arith, c),
          omega (arith, here, in_day, ahead, behind, late),
          time_of today t,
        )
        | inr c ↦
            let (f, u) =
              near_instant (today - 1) (omega (arith, here, in_day, ahead, behind, late))
                (omega (arith, here, in_day, ahead, behind, late)) in
            (
              instant (today - 1),
              rw (date_bucket, known, e, c, f) refl,
              omega (arith, here, in_day, ahead, behind, late),
              omega (arith, later today c, here, in_day, ahead, behind, late),
              time_of (today - 1) u,
            )
      ]
    where
      later : (day : ℕ) → leb (instant day) now ≡ false → now < instant day
      later day c = ground (arith, c)
