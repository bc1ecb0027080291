-- ===== src/Layout/Validate.antt =====
-- packages/ketjs/src/kernel/layout.ts: `validateLayout`, with the sections of the manifest.
use ketjs.Common.{
  ℕ, suc, String, Bool, ◌&&◌, Option, none, some, List, [], ◌∷◌, ◌++◌, str_eq, ltb, leb,
  if◌then◌else◌, is_empty, keys, includes, flat_map, template, join,
}
use ketjs.Layout.Json.{Json}
use ketjs.Layout.Tree.{
  Placement, Placements, Slots, malformed, placed, no_placements, also, no_slots, slot, length_of,
  path_at, slot_path, count_placements,
}
use ketjs.Layout.Settings.{
  find_section, find_slot, SectionDef, SlotDef, LayoutError, max_layout_depth, max_layout_nodes,
  setting_error, no_setting, or_word,
}

module _ (show : ℕ → String) (sections : List (String × SectionDef)) where
  abbrev nested_path : String → String → Option String
  nested_path path here = if str_eq path "" then none else some here

  abbrev pub field_error : ℕ → String → Option String → String → Option String → List LayoutError
  field_error at type path field none = []
  field_error at type path field (some message) =
      record { at = some at; type = type; field = some field; path = path; message = message } ∷ []

  -- The two loops over the fields of the schema and of the settings.
  unfoldable pub settings_errors :
      ℕ → String → Option String → List (String × String) → List (String × Json) → List LayoutError
  settings_errors at type path schema settings =
      flat_map (λ (f : String × String). field_error at type path f.0 (setting_error settings f))
        schema
      ++ flat_map (λ (f : String). field_error at type path f (no_setting schema f)) (keys settings)

  abbrev type_of_child : Placement → Option String
  type_of_child malformed = none
  type_of_child (placed h slots) = h.type

  -- The children of a slot whose type it does not accept.
  unfoldable pub unaccepted : String → String → List String → ℕ → Placements → List LayoutError
  unaccepted name path allowed at no_placements = []
  unaccepted name path allowed at (also p ps) =
      elim (type_of_child p) [
        | none ↦ []
        | some type ↦
            if includes allowed type
            then []
            else record {
              at = some at;
              type = type;
              field = none;
              path = some (path_at show path at);
              message = template (
                  "is not accepted by slot \""
                  ∷ name
                  ∷ "\" (accepted: "
                  ∷ join ", " allowed
                  ∷ ")"
                  ∷ []);
            }
              ∷ []
      ]
      ++ unaccepted name path allowed (suc at) ps

  unfoldable pub slot_error : ℕ → String → String → String → String → List LayoutError
  slot_error at type name path message =
      record { at = some at; type = type; field = some name; path = some path; message = message }
      ∷ []

  -- `rule.max`
  unfoldable pub max_errors :
      ℕ → String → String → String → Option ℕ → Placements → List LayoutError
  max_errors at type name path none children = []
  max_errors at type name path (some n) children =
      if ltb n (length_of children)
      then slot_error at type name path (
          template (
            "holds " ∷ show (length_of children) ∷ " sections, and this slot takes " ∷ show n ∷ []))
      else []

  -- `rule.accepts`
  unfoldable pub accept_errors :
      String → String → Option (List String) → Placements → List LayoutError
  accept_errors name path none children = []
  accept_errors name path (some allowed) children = unaccepted name path allowed 0 children

  -- The checks of a slot that is declared and may hold what it holds.
  unfoldable pub rule_errors :
      ℕ → String → String → String → SlotDef → Placements → List LayoutError
  rule_errors at type name path rule children =
      max_errors at type name path rule.max children
      ++ accept_errors name path rule.accepts children

  -- A placement of a type, with its section and the errors of its slots.
  unfoldable pub section_errors :
      ℕ
      → String
      → Option String
      → List (String × Json)
      → (List (String × SlotDef) → List LayoutError)
      → Option SectionDef
      → List LayoutError
  section_errors at type path settings below none =
      record {
        at = some at;
        type = type;
        field = none;
        path = path;
        message = template (
            "no composed module provides this section (available: "
            ∷ or_word (join ", " (keys sections))
            ∷ ")"
            ∷ []);
      }
      ∷ []
  section_errors at type path settings below (some section) =
      settings_errors at type path section.settings settings ++ below section.slots

  abbrev pub untyped_error : ℕ → Option String → List LayoutError
  untyped_error at path =
      record {
        at = some at;
        type = "(unknown)";
        field = none;
        path = path;
        message = "each placement needs a \"type\"";
      }
      ∷ []

  -- A placement, with the errors that its slots have under a type.
  unfoldable pub head_errors :
      ℕ
      → Option String
      → List (String × Json)
      → (String → List (String × SlotDef) → List LayoutError)
      → Option String
      → List LayoutError
  head_errors at path settings below none = untyped_error at path
  head_errors at path settings below (some type) =
      section_errors at type path settings (below type) (find_section type sections)

  -- A slot, with its rule and the errors of its children.
  unfoldable pub slot_errors :
      List (String × SlotDef)
      → ℕ
      → String
      → String
      → ℕ
      → String
      → Placements
      → List LayoutError
      → Option SlotDef
      → List LayoutError
  slot_errors declared at type path depth name children below none = slot_error at type name path (
      template (
        "is not a slot of this section (accepted: "
        ∷ or_word (join ", " (keys declared))
        ∷ ")"
        ∷ []))
  slot_errors declared at type path depth name children below (some rule) =
      if leb max_layout_depth depth && ltb 0 (length_of children)
      then slot_error at type name path
          (template ("nests deeper than " ∷ show max_layout_depth ∷ " levels" ∷ []))
      else rule_errors at type name path rule children ++ below

  unfoldable mutual
    -- `validateInto`, from a position on.
    pub validate_into : String → ℕ → ℕ → Placements → List LayoutError
    validate_into path depth at no_placements = []
    validate_into path depth at (also p ps) =
        validate_one path depth at p ++ validate_into path depth (suc at) ps

    pub validate_one : String → ℕ → ℕ → Placement → List LayoutError
    validate_one path depth at malformed =
        untyped_error at (nested_path path (path_at show path at))
    validate_one path depth at (placed h slots) =
        head_errors at (nested_path path (path_at show path at)) h.settings
          (λ type declared. validate_slots declared at type (path_at show path at) depth slots)
          h.type

    -- `validateSlots`
    pub validate_slots :
        List (String × SlotDef) → ℕ → String → String → ℕ → Slots → List LayoutError
    validate_slots declared at type here depth no_slots = []
    validate_slots declared at type here depth (slot name children slots) =
        slot_errors declared at type (slot_path show here name) depth name children
          (validate_into (slot_path show here name) (suc depth) 0 children)
          (find_slot name declared)
        ++ validate_slots declared at type here depth slots

  -- A layout that is an array.
  unfoldable pub validate_layout : Placements → Bool × List LayoutError
  validate_layout layout =
      let nodes = count_placements show layout in
      let errors =
        (if ltb max_layout_nodes nodes
          then record {
            at = none;
            type = "(layout)";
            field = none;
            path = none;
            message = template (
                "holds "
                ∷ show nodes
                ∷ " sections, and a page may hold "
                ∷ show max_layout_nodes
                ∷ []);
          }
            ∷ []
          else [])
        ++ validate_into "" 1 0 layout in
      (is_empty errors, errors)
