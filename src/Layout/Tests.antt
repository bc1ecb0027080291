-- ===== src/Layout/Tests.antt =====
-- packages/ketjs/src/kernel/layout.ts: a page of two sections, checked, identified and compared.
use Prim.Native.String.{slice}
use ketjs.Common.{
  All, ℕ, zero, suc, ◌≤◌, String, Bool, true, false, ◌≡◌, refl, none, some, List, [], ◌∷◌, template,
  join,
}
use ketjs.Types.{parse_type, parse_split, split_mark, after_prefix, scalar_of}
use ketjs.Layout.Json.{setting_value, inherited_value, is_inherited, text, number, type_name}
use ketjs.Layout.Tree.{
  Placements, Placement, placed, also, no_placements, slot, no_slots, count_placements,
  walk_placements, walk_below, walk_slots, path_at, slot_path,
}
use ketjs.Layout.Settings.{
  SectionDef, max_layout_depth, max_layout_nodes, js_of, value_error, setting_error, error_line,
  find_section, find_slot, format_layout_errors,
}
use ketjs.Layout.Validate.{
  settings_errors, unaccepted, slot_error, max_errors, accept_errors, rule_errors, section_errors,
  head_errors, slot_errors, validate_into, validate_one, validate_slots, validate_layout,
}
use ketjs.Layout.Fits.{FitsAll}
use ketjs.Layout.Valid.{validate_layout-FitsAll}
use ketjs.Layout.Depth.{levels, validate_layout_bounds}
use ketjs.Layout.Ids.{IsValidId, AreDistinct, ids_of, placement_id_errors-AreDistinct}
use ketjs.Layout.Identity.{
  placement_id_errors, id_errors, visit_id, check_id, id_error, placement_id, id_of, is_id_text,
  is_id_tail, with_placement_ids,
}
use ketjs.Layout.Identified.{
  AllIdentified, KeepsAll, with_placement_ids-AllIdentified_Keeps, with_placement_ids_idempotent,
}

abbrev digits : ℕ → String
digits zero = "0"
digits (suc zero) = "1"
digits (suc (suc n)) = "2"

abbrev in_order : String → String → Bool
in_order a b = true

abbrev plain : String → String
plain s = s

abbrev hero : SectionDef
hero = record {
  settings = ("title", "text") ∷ ("height", "int?") ∷ [];
  slots = ("body", record { accepts = some ("hero" ∷ []); max = some 1 }) ∷ [];
}

abbrev sections : List (String × SectionDef)
sections = ("hero", hero) ∷ []

abbrev inner : Placement
inner =
    placed (record { type = some "hero"; settings = ("title", text "In") ∷ []; id = none }) no_slots

abbrev outer : Placement
outer =
    placed
      (record {
        type = some "hero";
        settings = ("title", text "Out") ∷ ("height", number "3") ∷ [];
        id = some (text "outer-section");
      })
      (slot "body" (also inner no_placements) no_slots)

abbrev page : Placements
page = also outer no_placements

abbrev two_inside : Placements
two_inside =
    also
      (placed (record { type = some "hero"; settings = ("title", text "Out") ∷ []; id = none })
        (slot "body" (also inner (also inner no_placements)) no_slots))
      no_placements

abbrev untitled : Placements
untitled =
    also
      (placed (record { type = some "hero"; settings = ("height", text "x") ∷ []; id = none })
        no_slots)
      no_placements

page_right : (validate_layout digits sections page).0 ≡ true
unfolding validate_layout validate_into validate_one validate_slots head_errors section_errors
    settings_errors setting_error value_error js_of find_section find_slot setting_value
    inherited_value is_inherited parse_type parse_split split_mark after_prefix scalar_of
    slot_errors rule_errors max_errors accept_errors unaccepted path_at slot_path template join
    count_placements walk_placements walk_below walk_slots type_name
page_right = refl

-- Every object has a constructor, which passes as a section.
abbrev inherited_section : Placements
inherited_section =
    also (placed (record { type = some "constructor"; settings = []; id = none }) no_slots)
      no_placements

inherited_passes : (validate_layout digits sections inherited_section).0 ≡ true
unfolding validate_layout validate_into validate_one validate_slots head_errors section_errors
    settings_errors setting_error value_error js_of find_section find_slot setting_value
    inherited_value is_inherited parse_type parse_split split_mark after_prefix scalar_of
    slot_errors rule_errors max_errors accept_errors unaccepted path_at slot_path template join
    count_placements walk_placements walk_below walk_slots type_name
inherited_passes = refl

too_many : (validate_layout digits sections two_inside).0 ≡ false
unfolding validate_layout validate_into validate_one validate_slots head_errors section_errors
    settings_errors setting_error value_error js_of find_section find_slot setting_value
    inherited_value is_inherited parse_type parse_split split_mark after_prefix scalar_of
    slot_errors rule_errors max_errors accept_errors unaccepted slot_error path_at slot_path
    template join count_placements walk_placements walk_below walk_slots type_name
too_many = refl

two_errors :
    format_layout_errors digits (validate_layout digits sections untitled).1
    ≡ "  [0] hero.title is required (text)\n  [0] hero.height expects int, got string"
unfolding validate_layout validate_into validate_one validate_slots head_errors section_errors
    settings_errors setting_error value_error js_of find_section find_slot setting_value
    inherited_value is_inherited parse_type parse_split split_mark after_prefix scalar_of
    slot_errors rule_errors max_errors accept_errors unaccepted slot_error path_at slot_path
    template join count_placements walk_placements walk_below walk_slots format_layout_errors
    error_line type_name
two_errors = refl

validate_layout-FitsAll_example :
    (count_placements digits page ≤ max_layout_nodes) × FitsAll sections 1 page
validate_layout-FitsAll_example = validate_layout-FitsAll digits sections page page_right

validate_layout_bounds_example :
    (levels page ≤ max_layout_depth) × (count_placements digits page ≤ max_layout_nodes)
validate_layout_bounds_example = validate_layout_bounds sections digits page page_right

-- A digest of a text.
abbrev digest : String → String
digest s = "0123456789abcdef0123"

digest-IsId : (s : String) → is_id_text (slice (digest s) 0 16) ≡ true
unfolding is_id_text is_id_tail
digest-IsId s = refl

with_placement_ids_example :
    AllIdentified (with_placement_ids plain in_order digits digest page []).0
    × KeepsAll page (with_placement_ids plain in_order digits digest page []).0
with_placement_ids_example =
    with_placement_ids-AllIdentified_Keeps plain in_order digits digest digest-IsId page []

with_placement_ids_idempotent_example :
    with_placement_ids plain in_order digits digest
      (with_placement_ids plain in_order digits digest page []).0
      (("x", 1) ∷ [])
    ≡ ((with_placement_ids plain in_order digits digest page []).0, ("x", 1) ∷ [])
with_placement_ids_idempotent_example =
    with_placement_ids_idempotent plain in_order digits digest digest-IsId page [] (("x", 1) ∷ [])

no_id_errors : placement_id_errors digits page ≡ []
unfolding placement_id_errors id_errors visit_id check_id id_error placement_id is_id_text
    is_id_tail walk_placements walk_below walk_slots path_at slot_path template
no_id_errors = refl

placement_id_errors-AreDistinct_example :
    All (λ v. IsValidId (id_of v.placement)) (walk_placements digits "" 0 page)
    × AreDistinct (ids_of (walk_placements digits "" 0 page))
placement_id_errors-AreDistinct_example = placement_id_errors-AreDistinct digits page no_id_errors
