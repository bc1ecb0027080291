-- ===== src/Types.antt =====
-- Field types, packages/ketjs/src/kernel/types.ts, with their printed form, `typeOf` of
-- packages/ketjs/src/kernel/classification.ts. Dates is `isDateText`; RoundTrip and Calendar prove
-- what the two accept.
pub mod Dates
pub mod RoundTrip
pub mod Calendar
mod Tests
use Prim.Native.Char.{Char, code}
use ketjs.Common.{
  ℕ, String, Bool, true, false, ◌&&◌, ◌||◌, not, Option, none, some, List, [], ◌∷◌, str_eq, leb,
  ◌==◌, if◌then◌else◌, template,
}
use ketjs.Manifest.{FieldBase, id, text, int, float, decimal, bool, json, date, datetime, ref}
use ketjs.Diff.Item.{base_text}

pub record ParsedType : Type 0 where
  pub base : FieldBase
  pub target : Option String
  pub optional : Bool

pub data TypeParse : Type 0 where
  parsed : ParsedType → TypeParse
  rejected : String → TypeParse

-- `s.endsWith('?')` with what `slice(0, -1)` leaves.
unfoldable pub split_mark : String → String × Bool
split_mark String.[] = ("", false)
split_mark (String.◌∷◌ c String.[]) =
    if code c == b'?' then ("", true) else (String.◌∷◌ c "", false)
split_mark (String.◌∷◌ c (String.◌∷◌ d s)) =
    let rest = split_mark (String.◌∷◌ d s) in (String.◌∷◌ c rest.0, rest.1)

-- What follows a prefix, if it is there.
unfoldable pub after_prefix : List ℕ → String → Option String
after_prefix [] s = some s
after_prefix (x ∷ xs) String.[] = none
after_prefix (x ∷ xs) (String.◌∷◌ c s) = if code c == x then after_prefix xs s else none

abbrev pub is_lower : ℕ → Bool
is_lower c = leb b'a' c && leb c b'z'

abbrev pub is_upper : ℕ → Bool
is_upper c = leb b'A' c && leb c b'Z'

abbrev pub is_digit : ℕ → Bool
is_digit c = leb b'0' c && leb c b'9'

-- The expression of a target: a module name, a dot and a model name.
unfoldable pub is_model_tail : String → Bool
is_model_tail String.[] = true
is_model_tail (String.◌∷◌ c s) =
    (is_upper (code c) || (is_lower (code c) || is_digit (code c))) && is_model_tail s

unfoldable pub is_model : String → Bool
is_model String.[] = false
is_model (String.◌∷◌ c s) = is_upper (code c) && is_model_tail s

unfoldable pub is_target_tail : String → Bool
is_target_tail String.[] = false
is_target_tail (String.◌∷◌ c s) =
    if code c == b'.'
    then is_model s
    else ((is_lower (code c) || (is_digit (code c) || code c == b'_')) && is_target_tail s)

unfoldable pub is_target : String → Bool
is_target String.[] = false
is_target (String.◌∷◌ c s) = is_lower (code c) && is_target_tail s

-- `SCALARS.has(s)`, and the base that has the name.
unfoldable pub scalar_of : String → Option FieldBase
scalar_of s =
    if str_eq s "id"
    then some id
    else if str_eq s "text"
    then some text
    else if str_eq s "int"
    then some int
    else if str_eq s "float"
    then some float
    else if str_eq s "decimal"
    then some decimal
    else if str_eq s "bool"
    then some bool
    else if str_eq s "json"
    then some json
    else if str_eq s "date"
    then some date
    else if str_eq s "datetime"
    then some datetime
    else none

abbrev ref_prefix : List ℕ
ref_prefix = b'r' ∷ b'e' ∷ b'f' ∷ b':' ∷ []

-- What follows the question mark's removal.
unfoldable pub parse_split : String → String × Bool → TypeParse
parse_split spec (s, optional) = elim (after_prefix ref_prefix s) [
  | some target ↦
      if is_target target
      then parsed (record { base = ref; target = some target; optional = optional })
      else rejected (template ("ref target must be \"module.Model\", got \"" ∷ target ∷ "\"" ∷ []))
  | none ↦ elim (scalar_of s) [
    | some base ↦ parsed (record { base = base; target = none; optional = optional })
    | none ↦ rejected (template ("unknown type \"" ∷ spec ∷ "\"" ∷ []))
  ]
]

unfoldable pub parse_type : String → TypeParse
parse_type spec = parse_split spec (split_mark spec)

-- Two texts, one after the other.
unfoldable pub append_text : String → String → String
append_text String.[] t = t
append_text (String.◌∷◌ c s) t = String.◌∷◌ c (append_text s t)

-- `typeOf` of a field; an absent target prints as the text `undefined`.
unfoldable pub type_of : ParsedType → String
type_of f =
    let base : String = elim (f.base) [
      | ref ↦ append_text "ref:" (elim (f.target) [ none ↦ "undefined" | some t ↦ t ])
      | b ↦ base_text b
    ] in
    append_text base (if f.optional then "?" else "")

-- `tsTypeOf` and `sqlTypeOf`.
unfoldable pub ts_type_of : ParsedType → String
ts_type_of t =
    let base : String = elim (t.base) [
      | int ↦ "number"
      | float ↦ "number"
      | bool ↦ "boolean"
      | json ↦ "unknown"
      | _ ↦ "string"
    ] in
    append_text base (if t.optional then " | null" else "")

unfoldable pub sql_type_of : ParsedType → String
sql_type_of t = elim (t.base) [
  | id ↦ "TEXT PRIMARY KEY"
  | int ↦ "INTEGER"
  | float ↦ "REAL"
  | bool ↦ "INTEGER"
  | _ ↦ "TEXT"
]
