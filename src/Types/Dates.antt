-- ===== src/Types/Dates.antt =====
-- packages/ketjs/src/kernel/types.ts: `isDateText`, over the code points of a text.
use Prim.Native.Char.{code}
use ketjs.Common.{
  ℕ, ◌+◌, ◌-◌, ◌*◌, ◌%◌, String, Bool, false, ◌&&◌, ◌||◌, not, List, [], ◌∷◌, leb, ltb, ◌==◌,
  if◌then◌else◌,
}
use ketjs.Types.{is_digit}

abbrev pub codes : String → List ℕ
codes String.[] = []
codes (String.◌∷◌ c s) = code c ∷ codes s

-- The value of a digit.
abbrev pub digit : ℕ → ℕ
digit c = c - b'0'

abbrev pub is_leap : ℕ → Bool
is_leap year = year % 4 == 0 && (not (year % 100 == 0) || year % 400 == 0)

-- `days[month - 1]`
unfoldable pub days_in : ℕ → ℕ → ℕ
days_in year month =
    if month == 2
    then (if is_leap year then 29 else 28)
    else if month == 4 || (month == 6 || (month == 9 || month == 11))
    then 30
    else 31

unfoldable pub is_day : ℕ → ℕ → ℕ → Bool
is_day year month day =
    if year == 0 || (ltb month 1 || (ltb 12 month || ltb day 1))
    then false
    else leb day (days_in year month)

unfoldable pub is_date_codes : List ℕ → Bool
is_date_codes (y1 ∷ y2 ∷ y3 ∷ y4 ∷ s1 ∷ m1 ∷ m2 ∷ s2 ∷ d1 ∷ d2 ∷ []) =
    ((is_digit y1 && (is_digit y2 && (is_digit y3 && is_digit y4)))
      && ((is_digit m1 && is_digit m2)
          && ((is_digit d1 && is_digit d2) && (s1 == b'-' && s2 == b'-'))))
    && is_day (((digit y1 * 10 + digit y2) * 10 + digit y3) * 10 + digit y4)
        (digit m1 * 10 + digit m2) (digit d1 * 10 + digit d2)
is_date_codes _ = false

unfoldable pub is_date_text : String → Bool
is_date_text value = is_date_codes (codes value)
