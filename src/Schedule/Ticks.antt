-- ===== src/Schedule/Ticks.antt =====
-- packages/ketjs/src/kernel/schedule.ts: the tick of a schedule is the last one.
use native.Mathlib.Nat.{div-mul-le_self, div-eq_of_lt-le, div-add-mod', mod-lt}
use ketjs.Common.{
  ℕ, suc, ◌+◌, ◌-◌, ◌*◌, ◌/◌, ◌≤◌, ◌<◌, String, true, false, ◌≡◌, refl, ap, Option, none, some, inl,
  inr, ◌⊎◌, ltb, Bool-cases, arith,
}
use ketjs.Schedule.{
  every, BadSchedule, min_every_ms, long_enough, parse_every, count_ms, tick_at, ticks_between,
}
use ketjs.Types.Dates.{codes}

long_enough_lem :
    (value : String) (o : Option ℕ) (ms : ℕ) → long_enough value o ≡ inr ms → min_every_ms ≤ ms
unfolding long_enough
long_enough_lem value none ms h = cc
long_enough_lem value (some n) ms h = elim (Bool-cases (ltb n min_every_ms)) [
  | inl c ↦ cc (rw c at h)
  | inr c ↦ ground (arith, c, ap ms_of (rw c at h))
]
  where
    ms_of : BadSchedule ⊎ ℕ → ℕ
    ms_of (inl e) = 0
    ms_of (inr m) = m

floor-bounds : (now ms : ℕ) → 0 < ms → now < now / ms * ms + ms
floor-bounds now ms h = omega (arith, div-add-mod' now ms, mod-lt now h)

module _ (clock : String → Option (ℕ → ℕ)) where
  -- The tick of an interval that is accepted is a multiple of the interval, no later than the
  -- instant and less than an interval before it, and the interval is at least ten seconds.
  pub tick_at_every :
      (value zone : String) (now ms : ℕ)
      → parse_every value ≡ inr ms
      → (tick : ℕ) × (tick_at clock (every value) now zone ≡ inr tick)
        × (tick ≤ now)
        × (now < tick + ms)
        × ((n : ℕ) × (tick ≡ n * ms))
        × (min_every_ms ≤ ms)
  unfolding tick_at parse_every
  tick_at_every value zone now ms h =
      let long = long_enough_lem value (count_ms false 0 (codes value)) ms h in
      (
        now / ms * ms,
        rw h refl,
        div-mul-le_self now ms,
        floor-bounds now ms (omega (arith, long)),
        (now / ms, refl),
        long,
      )

rounded : (n ms : ℕ) → 0 < ms → (2 * (suc n * ms) + ms) / (2 * ms) ≡ suc n
rounded n ms h = div-eq_of_lt-le (2 * ms) (grind arith) (grind arith)

-- Between a tick of an accepted interval and a later one, the ticks in between are counted.
pub ticks_between_every :
    (value : String) (ms from n : ℕ)
    → parse_every value ≡ inr ms
    → ticks_between (every value) from (from + suc n * ms) ≡ inr n
unfolding ticks_between parse_every
ticks_between_every value ms from n h = rw (later, h, same, rounded n ms positive) (ap inr one_less)
  where
    positive : 0 < ms
    positive = omega (arith, long_enough_lem value (count_ms false 0 (codes value)) ms h)

    more : from < from + suc n * ms
    more = grind (arith, positive)

    one_less : suc n - 1 ≡ n
    one_less = omega arith

    later : ltb from (from + suc n * ms) ≡ true
    later = ground (arith, more)

    same : from + suc n * ms - from ≡ suc n * ms
    same = omega arith
