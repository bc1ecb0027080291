-- ===== src/Semver/Caret.antt =====
-- packages/ketjs/src/kernel/semver.ts: what a caret admits.
use ketjs.Common.{ℕ, ◌<◌, String, Bool, ◌&&◌, not, ◌≡◌, Option, none, some, [], ◌==◌, arith}
use ketjs.Semver.{
  Version, Range, caret, is_before, low_of, caret_high, compare_versions, is_other_prerelease,
  within, in_range, satisfies,
}

module _ (numeric : String → Option ℕ) (text_lt : String → String → Bool) where
  -- A release satisfies a caret range of a major version above 0, with or without the other
  -- numbers, exactly if it has that major version and does not come before the lower bound.
  pub satisfies_caret :
      (major minor patch m : ℕ) (n p : Option ℕ)
      → 0 < m
      → let v : Version = record { major = major; minor = minor; patch = patch; pre = [] } in
        let r : Range = record { operator = caret; major = m; minor = n; patch = p; pre = none } in
        satisfies numeric text_lt (some v) (some r)
        ≡ some (major == m && not (is_before (compare_versions numeric text_lt v (low_of r))))
  unfolding satisfies in_range within is_other_prerelease compare_versions low_of caret_high
  satisfies_caret major minor patch m n p h = ground arith
