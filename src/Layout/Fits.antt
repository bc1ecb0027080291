-- ===== src/Layout/Fits.antt =====
-- packages/ketjs/src/kernel/layout.ts: the layouts that a page may have.
use ketjs.Types.Dates.{is_date_text}
use ketjs.Manifest.{FieldBase, int, float, decimal, bool, json, date}
use ketjs.Common.{
  ◌||◌, ℕ, suc, ◌≤◌, ◌<◌, String, true, ◌≡◌, Option, none, some, List, if◌then◌else◌, has_key, keys,
  includes, All,
}
use ketjs.Types.{ParsedType, parsed, parse_type}
use ketjs.Layout.Json.{
  null, boolean, number, array, object, is_inherited, setting_value, Json, is_null,
}
use ketjs.Layout.Tree.{
  Placement, Placements, Slots, malformed, placed, no_placements, also, no_slots, slot, length_of,
}
use ketjs.Layout.Settings.{find_section, find_slot, SlotDef, SectionDef, max_layout_depth}

abbrev pub IsText : Json → Type 0
IsText (Json.text s) = Unit
IsText _ = ⊥

abbrev pub IsNumber : Json → Type 0
IsNumber (number n) = Unit
IsNumber _ = ⊥

abbrev pub IsBoolean : Json → Type 0
IsBoolean (boolean b) = Unit
IsBoolean _ = ⊥

abbrev pub IsObject : Json → Type 0
IsObject null = Unit
IsObject (array xs) = Unit
IsObject (object fs) = Unit
IsObject _ = ⊥

abbrev pub IsDate : Json → Type 0
IsDate (Json.text s) = is_date_text s ≡ true
IsDate _ = ⊥

-- The JSON values of a field type. A decimal may be any.
abbrev pub HasType : FieldBase → Json → Type 0
HasType int value = IsNumber value
HasType float value = IsNumber value
HasType bool value = IsBoolean value
HasType json value = IsObject value
HasType decimal value = Unit
HasType date value = IsDate value
HasType _ value = IsText value

-- A field of a schema is met: a required value is there, and a value has the type.
abbrev pub MeetsType : ParsedType → Option Json → Type 0
MeetsType t none = t.optional ≡ true
MeetsType t (some value) = if is_null value then t.optional ≡ true else HasType t.base value

abbrev pub MeetsField : List (String × Json) → String × String → Type 0
MeetsField settings (field, spec) =
    (t : ParsedType) → parse_type spec ≡ parsed t → MeetsType t (setting_value field settings)

abbrev pub Accepts : Option (List String) → Placements → Type 0
Accepts none ps = Unit
Accepts (some allowed) no_placements = Unit
Accepts (some allowed) (also malformed ps) = Accepts (some allowed) ps
Accepts (some allowed) (also (placed h slots) ps) =
    ((type : String) → h.type ≡ some type → includes allowed type ≡ true)
    × Accepts (some allowed) ps

abbrev pub HasRoom : Option ℕ → ℕ → Type 0
HasRoom none k = Unit
HasRoom (some n) k = k ≤ n

module _ (sections : List (String × SectionDef)) where
  unfoldable mutual
    -- Every placement of a list at a depth is of a known section, its settings meet the schema
    -- and are in it, and its slots are declared, have room, accept what they hold, and hold nothing
    -- at the deepest level.
    pub FitsAll : ℕ → Placements → Type 0
    FitsAll depth no_placements = Unit
    FitsAll depth (also p ps) = Fits depth p × FitsAll depth ps

    pub Fits : ℕ → Placement → Type 0
    Fits depth malformed = ⊥
    Fits depth (placed h slots) =
        (type : String) × (section : SectionDef) × (h.type ≡ some type)
        × (find_section type sections ≡ some section)
        × All (MeetsField h.settings) section.settings
        × All (λ field. (has_key field section.settings || is_inherited field) ≡ true)
            (keys h.settings)
        × FitsSlots section.slots depth slots

    pub FitsSlots : List (String × SlotDef) → ℕ → Slots → Type 0
    FitsSlots declared depth no_slots = Unit
    FitsSlots declared depth (slot name children slots) =
        ((rule : SlotDef) × (find_slot name declared ≡ some rule)
          × (0 < length_of children → depth < max_layout_depth)
          × HasRoom rule.max (length_of children)
          × Accepts rule.accepts children
          × FitsAll (suc depth) children)
        × FitsSlots declared depth slots
