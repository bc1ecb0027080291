-- ===== src/Layout/Settings.antt =====
-- packages/ketjs/src/kernel/layout.ts: the declarations of sections, the errors of a layout, and the
-- check of a setting against its type.
use ketjs.Common.{
  ◌||◌, ℕ, String, Bool, true, false, ◌&&◌, not, Option, none, some, List, [], ◌∷◌, map, str_eq,
  if◌then◌else◌, lookup, has_key, keys, template, join,
}
use ketjs.Manifest.{FieldBase, int, float, decimal, bool, json, date}
use ketjs.Diff.Item.{base_text}
use ketjs.Types.{ParsedType, parsed, rejected, parse_type}
use ketjs.Types.Dates.{is_date_text}
use ketjs.Layout.Json.{is_inherited, setting_value, Json, type_name, is_null}

pub record SlotDef : Type 0 where
  pub accepts : Option (List String)
  pub max : Option ℕ

pub record SectionDef : Type 0 where
  pub settings : List (String × String)
  pub slots : List (String × SlotDef)

-- A position of -1 is absent.
pub record LayoutError : Type 0 where
  pub at : Option ℕ
  pub type : String
  pub field : Option String
  pub path : Option String
  pub message : String

abbrev pub max_layout_depth : ℕ
max_layout_depth = 6

abbrev pub max_layout_nodes : ℕ
max_layout_nodes = 100

-- `sections[type]` and `declared[slot]`: what every object inherits has no settings, slots or rules.
abbrev pub or_inherited {ℓ} : {A : Type ℓ} → String → A → Option A → Option A
or_inherited name empty (some a) = some a
or_inherited name empty none = if is_inherited name then some empty else none

unfoldable pub find_section : String → List (String × SectionDef) → Option SectionDef
find_section type sections =
    or_inherited type (record { settings = []; slots = [] }) (lookup type sections)

unfoldable pub find_slot : String → List (String × SlotDef) → Option SlotDef
find_slot name declared =
    or_inherited name (record { accepts = none; max = none }) (lookup name declared)

-- `JS_OF`
unfoldable pub js_of : FieldBase → Option String
js_of int = some "number"
js_of float = some "number"
js_of bool = some "boolean"
js_of json = some "object"
js_of decimal = none
js_of _ = some "string"

abbrev pub is_date_value : Json → Bool
is_date_value (Json.text s) = is_date_text s
is_date_value _ = false

abbrev is_date_base : FieldBase → Bool
is_date_base date = true
is_date_base _ = false

abbrev pub or_word : String → String
or_word s = if str_eq s "" then "none" else s

-- What a value that is there lacks of its type.
unfoldable pub value_error : FieldBase → Json → Option String
value_error base value =
    let date_error : Option String =
      if is_date_base base && not (is_date_value value)
      then some "expects date in YYYY-MM-DD format"
      else none in
    elim (js_of base) [
      | none ↦ date_error
      | some want ↦
          if str_eq (type_name value) want
          then date_error
          else some (template ("expects " ∷ base_text base ∷ ", got " ∷ type_name value ∷ []))
    ]

abbrev required_error : String → ParsedType → Option String
required_error spec t =
    if t.optional then none else some (template ("is required (" ∷ spec ∷ ")" ∷ []))

-- A value, if it is there, against the type of its field.
abbrev pub typed_error : String → ParsedType → Option Json → Option String
typed_error spec t none = required_error spec t
typed_error spec t (some value) =
    if is_null value then required_error spec t else value_error t.base value

-- One field of the schema against the settings.
unfoldable pub setting_error : List (String × Json) → String × String → Option String
setting_error settings (field, spec) = elim (parse_type spec) [
  | rejected reason ↦ none
  | parsed t ↦ typed_error spec t (setting_value field settings)
]

abbrev pub no_setting : List (String × String) → String → Option String
no_setting schema f =
    if has_key f schema || is_inherited f
    then none
    else some (
        template (
          "is not a setting of this section (accepted: "
          ∷ or_word (join ", " (keys schema))
          ∷ ")"
          ∷ []))

-- `e.path ?? e.at`, and the line of an error.
unfoldable pub error_line : (ℕ → String) → LayoutError → String
error_line show e =
    let where_text : String = elim e.path [
      | some path ↦ path
      | none ↦ elim e.at [ none ↦ "-1" | some at ↦ show at ]
    ] in
    let field_text : String = elim e.field [
      | none ↦ ""
      | some field ↦ if str_eq field "" then "" else template ("." ∷ field ∷ [])
    ] in
    template ("  [" ∷ where_text ∷ "] " ∷ e.type ∷ field_text ∷ " " ∷ e.message ∷ [])

unfoldable pub format_layout_errors : (ℕ → String) → List LayoutError → String
format_layout_errors show errors = join "\n" (map (error_line show) errors)
