-- ===== src/Semver/Tests.antt =====
-- packages/ketjs/src/kernel/semver.ts: a release within a caret range, and a prerelease.
use ketjs.Common.{ℕ, String, Bool, true, false, ◌≡◌, refl, Option, none, some, [], ◌∷◌, arith}
use ketjs.Semver.{
  Range, caret, satisfies, in_range, within, is_other_prerelease, compare_versions, low_of,
}
use ketjs.Semver.Caret.{satisfies_caret}

abbrev no_number : String → Option ℕ
no_number s = none

abbrev never : String → String → Bool
never a b = false

abbrev from_1_5 : Range
from_1_5 = record { operator = caret; major = 1; minor = some 5; patch = none; pre = none }

beta :
    satisfies no_number never
      (some (record { major = 1; minor = 6; patch = 0; pre = "beta" ∷ [] }))
      (some from_1_5)
    ≡ some false
unfolding satisfies in_range within is_other_prerelease low_of
beta = refl

satisfies_caret_example :
    satisfies no_number never
      (some (record { major = 1; minor = 6; patch = 0; pre = [] }))
      (some from_1_5)
    ≡ some true
unfolding compare_versions low_of
satisfies_caret_example = satisfies_caret no_number never 1 6 0 1 (some 5) none (omega arith)
