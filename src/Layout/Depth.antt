-- ===== src/Layout/Depth.antt =====
-- packages/ketjs/src/kernel/layout.ts: how deep a layout that fits can be.
use Prim.Native.Nat.{max}
use ketjs.Common.{ℕ, suc, ◌+◌, ◌≤◌, String, true, ◌≡◌, List, arith}
use ketjs.Layout.Tree.{
  Placement, Placements, Slots, malformed, placed, no_placements, also, no_slots, slot,
  count_placements,
}
use ketjs.Layout.Settings.{SlotDef, SectionDef, max_layout_depth, max_layout_nodes}
use ketjs.Layout.Validate.{validate_layout}
use ketjs.Layout.Fits.{Fits, FitsAll, FitsSlots}
use ketjs.Layout.Valid.{validate_layout-FitsAll}

-- The levels of a list of placements: none if it is empty.
unfoldable mutual
  pub levels : Placements → ℕ
  levels no_placements = 0
  levels (also p ps) = max (suc (levels_below p)) (levels ps)

  pub levels_below : Placement → ℕ
  levels_below malformed = 0
  levels_below (placed h slots) = levels_slots slots

  pub levels_slots : Slots → ℕ
  levels_slots no_slots = 0
  levels_slots (slot name children slots) = max (levels children) (levels_slots slots)

module _ (sections : List (String × SectionDef)) where
  mutual
    unfolding levels levels_below levels_slots Fits FitsAll FitsSlots

    all-levels :
        (depth : ℕ) (ps : Placements)
        → depth ≤ max_layout_depth
        → FitsAll sections depth ps
        → levels ps + depth ≤ max_layout_depth + 1
    all-levels depth no_placements h f = omega arith
    all-levels depth (also p ps) h f =
        omega (arith, one-levels depth p h f.0, all-levels depth ps h f.1)

    one-levels :
        (depth : ℕ) (p : Placement)
        → depth ≤ max_layout_depth
        → Fits sections depth p
        → levels_below p + depth ≤ max_layout_depth
    one-levels depth malformed h f = absurd f
    one-levels depth (placed head slots) h (type, section, t, e, met, known, f) =
        slots-levels section.slots depth slots h f

    slots-levels :
        (declared : List (String × SlotDef)) (depth : ℕ) (slots : Slots)
        → depth ≤ max_layout_depth
        → FitsSlots sections declared depth slots
        → levels_slots slots + depth ≤ max_layout_depth
    slots-levels declared depth no_slots h f = omega arith
    slots-levels declared depth (slot name no_placements slots) h f =
        omega (arith, slots-levels declared depth slots h f.1)
    slots-levels declared depth (slot name (also p ps) slots) h ((rule, a, deep, room, acc, f), g) =
        omega (
          arith,
          deep (omega arith),
          all-levels (suc depth) (also p ps) (deep (omega arith)) f,
          slots-levels declared depth slots h g,
        )

  -- A layout that is found to be right has at most six levels and a hundred placements.
  pub validate_layout_bounds :
      (show : ℕ → String) (layout : Placements)
      → (validate_layout show sections layout).0 ≡ true
      → (levels layout ≤ max_layout_depth) × (count_placements show layout ≤ max_layout_nodes)
  validate_layout_bounds show layout h =
      let (few, fits) = validate_layout-FitsAll show sections layout h in
      (omega (arith, all-levels 1 layout (omega arith) fits), few)
