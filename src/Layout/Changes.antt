-- ===== src/Layout/Changes.antt =====
-- packages/ketjs/src/kernel/layout.ts: `diffPlacements`.
use ketjs.Common.{
  ℕ, String, Bool, true, false, not, Option, none, some, List, [], ◌∷◌, ◌++◌, str_eq, if◌then◌else◌,
  lookup, insert, has_key, keys, flat_map, filter, sort_by,
}
use ketjs.Layout.Json.{setting_value, Json, canonical}
use ketjs.Layout.Tree.{Visit, Placement, Placements, malformed, placed, walk_placements}
use ketjs.Layout.Identity.{placement_id, id_of}

pub data Change : Type 0 where
  added : Change
  removed : Change
  moved : String → Change
  changed : List String → Change
  retyped : Option String → Change

pub record PlacementChange : Type 0 where
  pub id : String
  pub type : Option String
  pub change : Change
  pub at : ℕ
  pub path : String

abbrev pub type_at : Placement → Option String
type_at malformed = none
type_at (placed h slots) = h.type

abbrev pub settings_at : Placement → List (String × Json)
settings_at malformed = []
settings_at (placed h slots) = h.settings

-- `!==` of two types
abbrev pub same_type : Option String → Option String → Bool
same_type none none = true
same_type (some a) (some b) = str_eq a b
same_type _ _ = false

-- `map.set` of a placement that has an id.
abbrev pub index_visit : Visit → Option String → List (String × Visit) → List (String × Visit)
index_visit v none entries = entries
index_visit v (some id) entries = insert id v entries

unfoldable pub index_from : List (String × Visit) → List Visit → List (String × Visit)
index_from entries [] = entries
index_from entries (v ∷ vs) =
    index_from (index_visit v (placement_id (id_of v.placement)) entries) vs

-- The members of a Set of texts, in the order in which they were added.
unfoldable pub distinct : List String → List String
distinct [] = []
distinct (x ∷ xs) = x ∷ filter (λ y. not (str_eq x y)) (distinct xs)

unfoldable pub change_of : String → Visit → Change → PlacementChange
change_of id v change = record {
  id = id;
  type = type_at v.placement;
  change = change;
  at = v.at;
  path = v.path;
}

unfoldable pub index : (ℕ → String) → Placements → List (String × Visit)
index show layout = index_from [] (walk_placements show "" 0 layout)

unfoldable pub removals : List (String × Visit) → List (String × Visit) → List PlacementChange
removals from to =
    flat_map (λ (e : String × Visit). if has_key e.0 to then [] else change_of e.0 e.1 removed ∷ [])
      from

module _ (quote : String → String) (text_le : String → String → Bool) where
  -- `canonical` of a setting, undefined if it is not there.
  unfoldable pub setting_text : String → List (String × Json) → String
  setting_text name settings = elim (setting_value name settings) [
    | none ↦ "null"
    | some value ↦ canonical quote text_le value
  ]

  unfoldable pub changed_settings : List (String × Json) → List (String × Json) → List String
  changed_settings a b = sort_by text_le (
      filter (λ name. not (str_eq (setting_text name a) (setting_text name b)))
        (distinct (keys a ++ keys b)))

  abbrev pub settings_change : String → Visit → List String → List PlacementChange
  settings_change id v [] = []
  settings_change id v (field ∷ fields) = change_of id v (changed (field ∷ fields)) ∷ []

  abbrev pub path_change : String → Visit → Visit → List PlacementChange
  path_change id was v = if str_eq was.path v.path then [] else change_of id v (moved was.path) ∷ []

  -- One round of the loop over the later layout, with what the earlier one has for the id.
  unfoldable pub entry_changes : String → Visit → Option Visit → List PlacementChange
  entry_changes id v none = change_of id v added ∷ []
  entry_changes id v (some was) =
      if same_type (type_at was.placement) (type_at v.placement)
      then settings_change id v
          (changed_settings (settings_at was.placement) (settings_at v.placement))
        ++ path_change id was v
      else change_of id v (retyped (type_at was.placement)) ∷ []

  -- The order of the paths, then of the ids.
  unfoldable pub change_le : PlacementChange → PlacementChange → Bool
  change_le a b = if str_eq a.path b.path then text_le a.id b.id else text_le a.path b.path

  unfoldable pub diff_placements : (ℕ → String) → Placements → Placements → List PlacementChange
  diff_placements show before after =
      let from = index show before in
      let to = index show after in
      sort_by change_le (
        removals from to
        ++ flat_map (λ (e : String × Visit). entry_changes e.0 e.1 (lookup e.0 from)) to)
