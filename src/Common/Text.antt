-- ===== src/Common/Text.antt =====
-- Template literals and the string methods that the code uses.
use Prim.Native.Nat.{ℕ, zero, suc, ◌-◌}
use Prim.Native.String
use Prim.Native.String.{String, len, slice}
use mathlib.Core.Bool.{Bool, ◌&&◌}
use mathlib.Core.List.{List, [], ◌∷◌}
use ketjs.Common.Tests.{str_eq, leb}

-- A template literal, as the list of its parts.
unfoldable pub template : List String → String
template [] = ""
template (s ∷ ss) = String.◌++◌ s (template ss)

-- `parts.join(sep)`
unfoldable pub join : String → List String → String
join sep [] = ""
join sep (s ∷ []) = s
join sep (s ∷ t ∷ ss) = String.◌++◌ s (String.◌++◌ sep (join sep (t ∷ ss)))

unfoldable pub starts_with : String → String → Bool
starts_with s t = str_eq (slice s 0 (len t)) t

unfoldable pub ends_with : String → String → Bool
ends_with s t = leb (len t) (len s) && str_eq (slice s (len s - len t) (len s)) t

abbrev pub spaces : ℕ → String
spaces zero = ""
spaces (suc n) = template (" " ∷ spaces n ∷ [])

-- `padEnd`
unfoldable pub pad_end : String → ℕ → String
pad_end s width = template (s ∷ spaces (width - len s) ∷ [])
