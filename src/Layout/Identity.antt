-- ===== src/Layout/Identity.antt =====
-- packages/ketjs/src/kernel/layout.ts: the ids of placements, `isPlacementId`, `withPlacementIds`
-- and `placementIdErrors`. A digest is a parameter. A value that is not an object is not of the
-- type that withPlacementIds takes; it is left as it is.
use Prim.Native.Char.{code}
use Prim.Native.String.{len, slice}
use ketjs.Common.{
  ℕ, suc, String, Bool, true, false, ◌&&◌, ◌||◌, Option, none, some, List, [], ◌∷◌, ◌++◌, leb, ◌==◌,
  if◌then◌else◌, lookup, insert, includes, template, join,
}
use ketjs.Types.{is_lower, is_upper, is_digit}
use ketjs.Layout.Json.{Json, text, canonical_settings}
use ketjs.Layout.Tree.{
  Head, Visit, Placement, Placements, Slots, malformed, placed, no_placements, also, no_slots, slot,
  walk_placements,
}
use ketjs.Layout.Settings.{LayoutError}

unfoldable pub is_id_tail : String → Bool
is_id_tail String.[] = true
is_id_tail (String.◌∷◌ c s) =
    ((is_upper (code c) || is_lower (code c))
      || (is_digit (code c) || (code c == b'_' || code c == b'-')))
    && is_id_tail s

unfoldable pub is_id_text : String → Bool
is_id_text s = (leb 8 (len s) && leb (len s) 64) && is_id_tail s

-- `isPlacementId`, with the text that it finds.
unfoldable pub placement_id : Option Json → Option String
placement_id (some (text s)) = if is_id_text s then some s else none
placement_id _ = none

-- The Map of how often a fingerprint has been seen.
abbrev pub Seen : Type 0
Seen = List (String × ℕ)

abbrev pub or_zero : Option ℕ → ℕ
or_zero none = 0
or_zero (some n) = n

-- In a template literal.
abbrev type_text : Option String → String
type_text none = "undefined"
type_text (some type) = type

abbrev json_text : Option Json → String
json_text (some (text s)) = s
json_text _ = "undefined"

abbrev id_text : Placement → String
id_text malformed = "undefined"
id_text (placed h slots) = json_text h.id

abbrev pub ids_in : String → Placements → List String
ids_in name no_placements = []
ids_in name (also p ps) = template (name ∷ ":" ∷ id_text p ∷ []) ∷ ids_in name ps

abbrev pub child_ids : Slots → List String
child_ids no_slots = []
child_ids (slot name children slots) = ids_in name children ++ child_ids slots

module _ (quote : String → String) (text_le : String → String → Bool) (show : ℕ → String)
    (digest : String → String) where
  unfoldable pub fingerprint : Head → Slots → String
  fingerprint h slots = template (
      type_text h.type
      ∷ " "
      ∷ canonical_settings quote text_le h.settings
      ∷ " "
      ∷ join "," (child_ids slots)
      ∷ [])

  unfoldable pub derived_id : String → ℕ → String
  derived_id print ordinal = slice (digest (template (print ∷ " " ∷ show ordinal ∷ []))) 0 16

  -- A placement whose children have ids, with the id that it has, if it has one.
  unfoldable pub identify : Option String → Head → Slots → Seen → Placement × Seen
  identify (some id) h slots seen = (placed h slots, seen)
  identify none h slots seen =
      let print = fingerprint h slots in
      let ordinal = or_zero (lookup print seen) in
      (
        placed
            (record {
              type = h.type;
              settings = h.settings;
              id = some (text (derived_id print ordinal));
            })
            slots,
        insert print (suc ordinal) seen,
      )

  unfoldable mutual
    pub with_placement_ids : Placements → Seen → Placements × Seen
    with_placement_ids no_placements seen = (no_placements, seen)
    with_placement_ids (also p ps) seen =
        let one = with_placement_id p seen in
        let rest = with_placement_ids ps one.1 in (also one.0 rest.0, rest.1)

    pub with_placement_id : Placement → Seen → Placement × Seen
    with_placement_id malformed seen = (malformed, seen)
    with_placement_id (placed h slots) seen =
        let below = with_slot_ids slots seen in identify (placement_id h.id) h below.0 below.1

    pub with_slot_ids : Slots → Seen → Slots × Seen
    with_slot_ids no_slots seen = (no_slots, seen)
    with_slot_ids (slot name children slots) seen =
        let below = with_placement_ids children seen in
        let rest = with_slot_ids slots below.1 in (slot name below.0 rest.0, rest.1)

abbrev pub id_of : Placement → Option Json
id_of malformed = none
id_of (placed h slots) = h.id

abbrev type_or_unknown : Placement → String
type_or_unknown malformed = "(unknown)"
type_or_unknown (placed h slots) = elim h.type [ none ↦ "(unknown)" | some type ↦ type ]

abbrev has_dot : String → Bool
has_dot String.[] = false
has_dot (String.◌∷◌ c s) = if code c == b'.' then true else has_dot s

unfoldable pub id_error : Visit → String → List LayoutError
id_error v message =
    record {
      at = some v.at;
      type = type_or_unknown v.placement;
      field = some "id";
      path = if has_dot v.path then some v.path else none;
      message = message;
    }
    ∷ []

-- An id that is there, by the text that isPlacementId finds in it.
unfoldable pub check_id : Visit → List String → Option String → List LayoutError × List String
check_id v seen none = (id_error v "is not a placement id", seen)
check_id v seen (some id) = (
  if includes seen id then id_error v "is already used by another placement in this layout" else [],
  id ∷ seen,
)

-- One round of the loop over the placements: the errors, and the ids that are then seen.
unfoldable pub visit_id : Visit → List String → Option Json → List LayoutError × List String
visit_id v seen none = ([], seen)
visit_id v seen (some json) = check_id v seen (placement_id (some json))

unfoldable pub id_errors : List String → List Visit → List LayoutError
id_errors seen [] = []
id_errors seen (v ∷ vs) =
    let one = visit_id v seen (id_of v.placement) in one.0 ++ id_errors one.1 vs

unfoldable pub placement_id_errors : (ℕ → String) → Placements → List LayoutError
placement_id_errors show layout = id_errors [] (walk_placements show "" 0 layout)
