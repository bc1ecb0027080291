-- ===== src/Menu/Groups.antt =====
-- packages/ketjs/src/kernel/menu.ts: `regrouped`, the menu as the deployment arranges it.
use ketjs.Common.{
  ℕ, suc, ◌+◌, ◌*◌, String, Bool, true, false, Option, none, some, List, [], ◌∷◌, str_eq,
  if◌then◌else◌, includes, lookup, insert,
}
use ketjs.Manifest.{MenuDef}

pub record Group : Type 0 where
  pub id : String
  pub label : String
  pub icon : Option String
  pub items : List String

-- What the map `claimed` holds for an entry: its group, and the two positions.
pub record Claim : Type 0 where
  pub id : String
  pub label : String
  pub icon : Option String
  pub order : ℕ
  pub place : ℕ

abbrev pub is_text : Option String → Bool
is_text none = false
is_text (some s) = if str_eq s "" then false else true

unfoldable pub claim_items :
    Group → ℕ → ℕ → List String → List (String × Claim) → List (String × Claim)
claim_items group index place [] claims = claims
claim_items group index place (item ∷ items) claims = claim_items group index (suc place) items (
    insert item
      (record {
        id = group.id;
        label = group.label;
        icon = group.icon;
        order = index;
        place = place;
      })
      claims)

unfoldable pub claim_groups : ℕ → List Group → List (String × Claim) → List (String × Claim)
claim_groups index [] claims = claims
claim_groups index (group ∷ groups) claims =
    claim_groups (suc index) groups (claim_items group index 0 group.items claims)

-- The heading above the entry's parent, or the parent, or nothing for an entry at the root.
unfoldable pub group_parent : List (String × MenuDef) → MenuDef → Option String
group_parent entries menu = elim menu.parent [
  | none ↦ none
  | some parent ↦
      if is_text (some parent)
      then elim (lookup parent entries) [
        | none ↦ some parent
        | some above ↦ elim above.parent [ none ↦ some parent | some top ↦ some top ]
      ]
      else none
]

unfoldable pub group_heading : List (String × MenuDef) → MenuDef → Claim → MenuDef
group_heading entries menu c = record {
  label = c.label;
  by = menu.by;
  parent = group_parent entries menu;
  path = none;
  needs = none;
  for_work = [];
  icon = if is_text c.icon then c.icon else none;
  sequence = some ((c.order + 1) * 10);
}

-- The loop over the entries, after the groups that it has seen.
unfoldable pub regroup :
    List (String × MenuDef)
    → List (String × Claim)
    → List String
    → List (String × MenuDef)
    → List (String × MenuDef)
regroup entries claims seen [] = []
regroup entries claims seen ((id, menu) ∷ rest) = elim (lookup id claims) [
  | none ↦ (id, menu) ∷ regroup entries claims seen rest
  | some c ↦
      let moved = record menu { parent = some c.id; sequence = some c.place } in
      let known = (id, moved) ∷ regroup entries claims seen rest in
      let first = (id, moved) ∷ regroup entries claims (c.id ∷ seen) rest in
      if includes seen c.id then known else (c.id, group_heading entries menu c) ∷ first
]

unfoldable pub regrouped : List (String × MenuDef) → List Group → List (String × MenuDef)
regrouped entries [] = entries
regrouped entries (group ∷ groups) = regroup entries (claim_groups 0 (group ∷ groups) []) [] entries
