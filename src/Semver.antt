-- ===== src/Semver.antt =====
-- packages/ketjs/src/kernel/semver.ts: the order of versions and the ranges. What the two regular
-- expressions capture is the input here; `numeric` reads an identifier of digits, and `text_lt` is
-- `<` on texts.
mod Caret
mod Tests
use ketjs.Common.{
  ℕ, suc, ◌+◌, String, Bool, true, false, ◌&&◌, ◌||◌, not, Option, none, some, List, [], ◌∷◌, ltb,
  ◌==◌, if◌then◌else◌, is_empty, length,
}

-- A negative number, zero, or a positive number.
pub data Sign : Type 0 where
  before same after : Sign

pub record Version : Type 0 where
  pub major : ℕ
  pub minor : ℕ
  pub patch : ℕ
  pub pre : List String

pub data Operator : Type 0 where
  exact caret tilde : Operator

-- The groups of `RANGE`, the numbers read and the prerelease split.
pub record Range : Type 0 where
  pub operator : Operator
  pub major : ℕ
  pub minor : Option ℕ
  pub patch : Option ℕ
  pub pre : Option (List String)

abbrev pub compare_nat : ℕ → ℕ → Sign
compare_nat a b = if ltb a b then before else if ltb b a then after else same

-- `a || b` on signs.
abbrev pub then_by : Sign → Sign → Sign
then_by before s = before
then_by same s = s
then_by after s = after

abbrev pub is_before : Sign → Bool
is_before before = true
is_before _ = false

abbrev pub is_same : Sign → Bool
is_same same = true
is_same _ = false

abbrev pub number_or : Option ℕ → ℕ
number_or none = 0
number_or (some n) = n

abbrev pub is_absent : Option ℕ → Bool
is_absent none = true
is_absent (some n) = false

unfoldable pub low_of : Range → Version
low_of r = record {
  major = r.major;
  minor = number_or r.minor;
  patch = number_or r.patch;
  pre = elim r.pre [ none ↦ [] | some pre ↦ pre ];
}

abbrev pub until : ℕ → ℕ → ℕ → Version
until major minor patch = record { major = major; minor = minor; patch = patch; pre = "0" ∷ [] }

unfoldable pub caret_high : Range → Version
caret_high r =
    if ltb 0 r.major || is_absent r.minor
    then until (r.major + 1) 0 0
    else if ltb 0 (number_or r.minor) || is_absent r.patch
    then until r.major (number_or r.minor + 1) 0
    else until r.major (number_or r.minor) (number_or r.patch + 1)

unfoldable pub tilde_high : Range → Version
tilde_high r =
    if is_absent r.minor then until (r.major + 1) 0 0 else until r.major (number_or r.minor + 1) 0

module _ (numeric : String → Option ℕ) (text_lt : String → String → Bool) where
  unfoldable pub compare_identifiers : String → String → Sign
  compare_identifiers left right = elim (numeric left) [
    | some a ↦ elim (numeric right) [ some b ↦ compare_nat a b | none ↦ before ]
    | none ↦ elim (numeric right) [
      | some b ↦ after
      | none ↦ if text_lt left right then before else if text_lt right left then after else same
    ]
  ]

  unfoldable pub compare_pre : List String → List String → Sign
  compare_pre [] [] = same
  compare_pre [] (y ∷ ys) = before
  compare_pre (x ∷ xs) [] = after
  compare_pre (x ∷ xs) (y ∷ ys) = then_by (compare_identifiers x y) (compare_pre xs ys)

  unfoldable pub compare_versions : Version → Version → Sign
  compare_versions l r =
      then_by
        (then_by (compare_nat l.major r.major)
          (then_by (compare_nat l.minor r.minor) (compare_nat l.patch r.patch)))
        (if is_empty l.pre || is_empty r.pre
          then compare_nat (length r.pre) (length l.pre)
          else compare_pre l.pre r.pre)

  -- A prerelease is taken only next to a lower bound that is one of the same release.
  unfoldable pub is_other_prerelease : Version → Version → Bool
  is_other_prerelease v low =
      not (is_empty v.pre)
      && not (
          not (is_empty low.pre)
          && (v.major == low.major && (v.minor == low.minor && v.patch == low.patch)))

  unfoldable pub within : Version → Version → Version → Bool
  within v low high =
      if is_other_prerelease v low
      then false
      else not (is_before (compare_versions v low)) && is_before (compare_versions v high)

  unfoldable pub in_range : Version → Range → Bool
  in_range v r = elim r.operator [
    | caret ↦ within v (low_of r) (caret_high r)
    | tilde ↦ within v (low_of r) (tilde_high r)
    | exact ↦
        if is_absent r.patch
        then within v (low_of r) (tilde_high r)
        else is_same (compare_versions v (low_of r))
  ]

  -- A side that cannot be read is absent.
  unfoldable pub satisfies : Option Version → Option Range → Option Bool
  satisfies none range = none
  satisfies (some v) none = none
  satisfies (some v) (some r) = elim r.pre [
    | none ↦ some (in_range v r)
    | some pre ↦ if is_absent r.patch then none else some (in_range v r)
  ]
