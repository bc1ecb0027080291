-- ===== src/Layout/Tree.antt =====
-- packages/ketjs/src/kernel/layout.ts: placements, and the walk over a layout. What is not an
-- object is `malformed`; slots that are not an object, and children that are not an array, are
-- empty. `show` prints a position.
use ketjs.Common.{
  ℕ, suc, String, Option, List, [], ◌∷◌, ◌++◌, str_eq, if◌then◌else◌, length, template,
}
use ketjs.Layout.Json.{Json}

-- A type that is not a text is absent, and so is an id that is undefined.
pub record Head : Type 0 where
  pub type : Option String
  pub settings : List (String × Json)
  pub id : Option Json

mutual
  pub data Placement : Type 0 where
    malformed : Placement
    placed : Head → Slots → Placement

  pub data Placements : Type 0 where
    no_placements : Placements
    also : Placement → Placements → Placements

  pub data Slots : Type 0 where
    no_slots : Slots
    slot : String → Placements → Slots → Slots

pub record Visit : Type 0 where
  pub placement : Placement
  pub at : ℕ
  pub path : String

abbrev pub length_of : Placements → ℕ
length_of no_placements = 0
length_of (also p ps) = suc (length_of ps)

module _ (show : ℕ → String) where
  -- `path ? `${path}.${at}` : String(at)`
  unfoldable pub path_at : String → ℕ → String
  path_at path at = if str_eq path "" then show at else template (path ∷ "." ∷ show at ∷ [])

  unfoldable pub slot_path : String → String → String
  slot_path here name = template (here ∷ "." ∷ name ∷ [])

  unfoldable mutual
    pub walk_placements : String → ℕ → Placements → List Visit
    walk_placements path at no_placements = []
    walk_placements path at (also p ps) =
        record { placement = p; at = at; path = path_at path at }
        ∷ (walk_below (path_at path at) p ++ walk_placements path (suc at) ps)

    pub walk_below : String → Placement → List Visit
    walk_below here malformed = []
    walk_below here (placed h slots) = walk_slots here slots

    pub walk_slots : String → Slots → List Visit
    walk_slots here no_slots = []
    walk_slots here (slot name children slots) =
        walk_placements (slot_path here name) 0 children ++ walk_slots here slots

  unfoldable pub count_placements : Placements → ℕ
  count_placements layout = length (walk_placements "" 0 layout)
