-- ===== src/Routes/Text.antt =====
-- The string methods of packages/ketjs/src/kernel/routes.ts.
use Prim.Native.Char.{Char, code}
use ketjs.Common.{
  ℕ, String, Bool, true, false, ◌&&◌, ◌||◌, Option, none, some, List, [], ◌∷◌, leb, ◌==◌,
  if◌then◌else◌,
}

-- A character in front of the first part.
abbrev onto_first : Char → List String → List String
onto_first c [] = []
onto_first c (s ∷ ss) = (String.◌∷◌ c s) ∷ ss

-- `split` at a character.
unfoldable pub split_on : ℕ → String → List String
split_on sep String.[] = "" ∷ []
split_on sep (String.◌∷◌ c s) =
    if code c == sep then "" ∷ split_on sep s else onto_first c (split_on sep s)

-- `slice(1)`
unfoldable pub after_slash : String → String
after_slash String.[] = ""
after_slash (String.◌∷◌ c s) = s

-- `includes` of a character.
unfoldable pub mentions : ℕ → String → Bool
mentions c String.[] = false
mentions c (String.◌∷◌ x s) = code x == c || mentions c s

abbrev is_letter : ℕ → Bool
is_letter c = ((leb b'A' c && leb c b'Z') || (leb b'a' c && leb c b'z')) || c == b'_'

abbrev is_word : ℕ → Bool
is_word c = is_letter c || (leb b'0' c && leb c b'9')

abbrev is_end : String → Bool
is_end String.[] = true
is_end (String.◌∷◌ c s) = false

abbrev then_char : Char → Option String → Option String
then_char c none = none
then_char c (some s) = some (String.◌∷◌ c s)

-- The rest of a name, up to a brace that ends the text.
unfoldable pub name_tail : String → Option String
name_tail String.[] = none
name_tail (String.◌∷◌ c s) =
    if code c == b'}'
    then (if is_end s then some "" else none)
    else if is_word (code c)
    then then_char c (name_tail s)
    else none

abbrev name_in : String → Option String
name_in String.[] = none
name_in (String.◌∷◌ c s) = if is_letter (code c) then then_char c (name_tail s) else none

-- The expression `PARAM`: the name of a segment that is one parameter.
unfoldable pub param_name : String → Option String
param_name String.[] = none
param_name (String.◌∷◌ c s) = if code c == b'{' then name_in s else none
