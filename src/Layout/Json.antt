-- ===== src/Layout/Json.antt =====
-- packages/ketjs/src/kernel/layout.ts: JSON values and `canonical`. A number is the text that
-- JSON.stringify gives for it, and a method a function, which is in
-- no JSON but is inherited by every object; `quote` is JSON.stringify of a text, `text_le` the order of texts.
use ketjs.Common.{
  Option, some, none, ◌||◌, str_eq, includes, lookup, String, Bool, true, false, List, [], ◌∷◌, map,
  if◌then◌else◌, sort_by, template, join,
}

mutual
  pub data Json : Type 0 where
    null : Json
    boolean : Bool → Json
    number : String → Json
    text : String → Json
    array : Items → Json
    object : Fields → Json
    method : Json

  pub data Items : Type 0 where
    no_items : Items
    item : Json → Items → Items

  pub data Fields : Type 0 where
    no_fields : Fields
    field : String → Json → Fields → Fields

-- `typeof`
unfoldable pub type_name : Json → String
type_name null = "object"
type_name (boolean b) = "boolean"
type_name (number n) = "number"
type_name (text s) = "string"
type_name (array xs) = "object"
type_name (object fs) = "object"
type_name method = "function"

abbrev pub is_null : Json → Bool
is_null null = true
is_null _ = false

-- The functions that every object inherits, and `__proto__`, which is an object.
abbrev pub method_names : List String
method_names =
    "constructor" ∷ "toString" ∷ "valueOf" ∷ "toLocaleString" ∷ "hasOwnProperty" ∷ "isPrototypeOf"
    ∷ "propertyIsEnumerable" ∷ "__defineGetter__" ∷ "__defineSetter__" ∷ "__lookupGetter__"
    ∷ "__lookupSetter__" ∷ []

unfoldable pub is_inherited : String → Bool
is_inherited name = str_eq name "__proto__" || includes method_names name

unfoldable pub inherited_value : String → Option Json
inherited_value name =
    if str_eq name "__proto__"
    then some (object no_fields)
    else if includes method_names name
    then some method
    else none

abbrev pub own_value : Option Json → Option Json → Option Json
own_value (some value) inherited = some value
own_value none inherited = inherited

-- `settings[name]`
unfoldable pub setting_value : String → List (String × Json) → Option Json
setting_value name settings = own_value (lookup name settings) (inherited_value name)

module _ (quote : String → String) (text_le : String → String → Bool) where
  -- The entries of an object in the order of their keys.
  abbrev pub object_text : List (String × String) → String
  object_text entries = template (
      "{"
      ∷ join "," (
          map (λ (e : String × String). template (quote e.0 ∷ ":" ∷ e.1 ∷ []))
            (sort_by (λ (a b : String × String). text_le a.0 b.0) entries))
      ∷ "}"
      ∷ [])

  unfoldable mutual
    pub canonical : Json → String
    canonical null = "null"
    canonical (boolean b) = if b then "true" else "false"
    canonical (number n) = n
    canonical (text s) = quote s
    canonical (array xs) = template ("[" ∷ join "," (canonical_items xs) ∷ "]" ∷ [])
    canonical (object fs) = object_text (canonical_fields fs)
    canonical method = "null"

    pub canonical_items : Items → List String
    canonical_items no_items = []
    canonical_items (item x xs) = canonical x ∷ canonical_items xs

    pub canonical_fields : Fields → List (String × String)
    canonical_fields no_fields = []
    canonical_fields (field k x fs) = (k, canonical x) ∷ canonical_fields fs

  -- `canonical` of settings, which are a record.
  unfoldable pub canonical_settings : List (String × Json) → String
  canonical_settings settings =
      object_text (map (λ (e : String × Json). (e.0, canonical e.1)) settings)
