-- ===== src/Types/Calendar.antt =====
-- packages/ketjs/src/kernel/types.ts: the texts that are dates.
use ketjs.Common.{
  ℕ, ◌+◌, ◌*◌, ◌/◌, ◌%◌, ◌≤◌, ◌<◌, true, Bool-cases, leb, ◌==◌, inl, inr, ◌⊎◌, ◌≡◌, refl, sym, ◌∙◌,
  ◌↔◌, List, [], ◌∷◌, arith,
}
use native.Mathlib.Omega.{div_any}
use native.Mathlib.Nat.{mul-mod_right}
use ketjs.Types.{is_digit}
use ketjs.Types.Dates.{digit, days_in, is_leap, is_day, is_date_codes}

-- The text of a date, with four, two and two digits.
abbrev pub date_codes : ℕ → ℕ → ℕ → List ℕ
date_codes y m d =
    (b'0' + y / 1000)
    ∷ (b'0' + y / 100 % 10)
    ∷ (b'0' + y / 10 % 10)
    ∷ (b'0' + y % 10)
    ∷ b'-'
    ∷ (b'0' + m / 10)
    ∷ (b'0' + m % 10)
    ∷ b'-'
    ∷ (b'0' + d / 10)
    ∷ (b'0' + d % 10)
    ∷ []

is_day_bounds :
    (y m d : ℕ) → is_day y m d ≡ true → (1 ≤ y) × (1 ≤ m) × (m ≤ 12) × (1 ≤ d) × (d ≤ days_in y m)
unfolding is_day
is_day_bounds y m d h = ground (arith, h)

day_of_bounds : (y m d : ℕ) → 1 ≤ y → 1 ≤ m → m ≤ 12 → 1 ≤ d → d ≤ days_in y m → is_day y m d ≡ true
unfolding is_day
day_of_bounds y m d a b c e f = ground arith

is_digit_of : (x : ℕ) → x < 10 → is_digit (b'0' + x) ≡ true
is_digit_of x h = ground arith

digit_of : (x : ℕ) → digit (b'0' + x) ≡ x
digit_of x = omega arith

read_date :
    (y m d : ℕ) → y < 10000 → m < 100 → d < 100 → is_date_codes (date_codes y m d) ≡ is_day y m d
unfolding is_date_codes
read_date y m d h k l =
    rw
      (
        is_digit_of (y / 1000) (omega arith),
        is_digit_of (y / 100 % 10) (omega arith),
        is_digit_of (y / 10 % 10) (omega arith),
        is_digit_of (y % 10) (omega arith),
        is_digit_of (m / 10) (omega arith),
        is_digit_of (m % 10) (omega arith),
        is_digit_of (d / 10) (omega arith),
        is_digit_of (d % 10) (omega arith),
      )
      (same_day (digits_of_year y h) (digits_of_two m k) (digits_of_two d l))
  where
    digits_of_year :
        (y : ℕ)
        → y < 10000
        → ((digit (b'0' + y / 1000) * 10 + digit (b'0' + y / 100 % 10)) * 10
                + digit (b'0' + y / 10 % 10))
              * 10
            + digit (b'0' + y % 10)
          ≡ y
    digits_of_year y h = omega arith

    digits_of_two : (n : ℕ) → n < 100 → digit (b'0' + n / 10) * 10 + digit (b'0' + n % 10) ≡ n
    digits_of_two n h = omega arith

    same_day : {a b e y m d : ℕ} → a ≡ y → b ≡ m → e ≡ d → is_day a b e ≡ is_day y m d
    same_day p q r = rw (p, q, r) refl

-- The Gregorian calendar: a multiple of four is a leap year, but a multiple of a hundred only if it
-- is one of four hundred.
abbrev pub Divides : ℕ → ℕ → Type 0
Divides k y = (q : ℕ) × (y ≡ k * q)

abbrev pub IsLeapYear : ℕ → Type 0
IsLeapYear y = Divides 4 y × (Divides 100 y → Divides 400 y)

-- The last day of a month: the thirtieth of April, June, September and November, the twenty-eighth
-- of February, or the twenty-ninth in a leap year, and the thirty-first of the others.
abbrev pub IsWithin : ℕ → ℕ → ℕ → Type 0
IsWithin y m d =
    (d ≤ 31)
    × ((m ≡ 4) ⊎ ((m ≡ 6) ⊎ ((m ≡ 9) ⊎ (m ≡ 11))) → d ≤ 30)
    × (m ≡ 2 → (d ≤ 28) ⊎ ((d ≡ 29) × IsLeapYear y))

quotient : (k y : ℕ) → y % k ≡ 0 → Divides k y
quotient k y h = (y / k, sym (div-add-mod k y h))
  where
    div-add-mod : (k y : ℕ) → y % k ≡ 0 → k * (y / k) ≡ y
    div-add-mod k y h = omega (arith, div_any y k, h)

no_rest : (k y : ℕ) → Divides k y → y % k ≡ 0
no_rest k y (q, e) = rw e (mul-mod_right k q)

is_leap-IsLeapYear : (y : ℕ) → is_leap y ≡ true → IsLeapYear y
is_leap-IsLeapYear y h = (
  quotient 4 y (ground (arith, h)),
  λ hundred. quotient 400 y (ground (arith, h, no_rest 100 y hundred)),
)

IsLeapYear-is_leap : (y : ℕ) → IsLeapYear y → is_leap y ≡ true
IsLeapYear-is_leap y (four, more) = elim (Bool-cases (y % 100 == 0)) [
  | inl c ↦
      ground (arith, c, no_rest 4 y four, no_rest 400 y (more (quotient 100 y (ground (arith, c)))))
  | inr c ↦ ground (arith, c, no_rest 4 y four)
]

days_in-IsWithin : (y m d : ℕ) → 1 ≤ m → m ≤ 12 → d ≤ days_in y m → IsWithin y m d
unfolding days_in
days_in-IsWithin y m d a b h = elim (Bool-cases (is_leap y)) [
  | inl c ↦ (
    ground (arith, h, c),
    (λ thirty. ground (arith, h, c, thirty)),
    λ february. elim (Bool-cases (leb d 28)) [
      | inl e ↦ inl (ground (arith, e))
      | inr e ↦ inr (ground (arith, h, c, e, february), is_leap-IsLeapYear y c)
    ],
  )
  | inr c ↦ (
    ground (arith, h, c),
    (λ thirty. ground (arith, h, c, thirty)),
    λ february. inl (ground (arith, h, c, february)),
  )
]

IsWithin-days_in : (y m d : ℕ) → 1 ≤ m → m ≤ 12 → IsWithin y m d → d ≤ days_in y m
unfolding days_in
IsWithin-days_in y m d a b (most, thirty, february) = elim (Bool-cases (m == 2)) [
  | inl c ↦ elim (february (ground (arith, c))) [
    | inl e ↦ ground (arith, c, e)
    | inr (e, leap) ↦ ground (arith, c, e, IsLeapYear-is_leap y leap)
  ]
  | inr c ↦ ground (
    arith,
    c,
    most,
    (λ (e : m ≡ 4). thirty (inl e)),
    (λ (e : m ≡ 6). thirty (inr (inl e))),
    (λ (e : m ≡ 9). thirty (inr (inr (inl e)))),
    (λ (e : m ≡ 11). thirty (inr (inr (inr e)))),
  )
]

-- The text of a year, a month and a day, with four, two and two digits, is a date exactly if it is
-- a day of the Gregorian calendar from the year 1 on.
pub is_date_codes-date_codes :
    (y m d : ℕ)
    → y < 10000
    → m < 100
    → d < 100
    → (is_date_codes (date_codes y m d) ≡ true)
      ↔ ((1 ≤ y) × (1 ≤ m) × (m ≤ 12) × (1 ≤ d) × IsWithin y m d)
is_date_codes-date_codes y m d h k l = (
  λ e.
      let (a, b, c, f, g) = is_day_bounds y m d (sym (read_date y m d h k l) ∙ e) in
      (a, b, c, f, days_in-IsWithin y m d b c g),
  λ (a, b, c, e, f).
      read_date y m d h k l ∙ day_of_bounds y m d a b c e (IsWithin-days_in y m d b c f),
)
