-- ===== src/Menu/Build.antt =====
-- packages/ketjs/src/kernel/menu.ts: `buildMenu`. The translation, the order of `localeCompare`,
-- the folding
-- of a text to lower case, `trim` and the search of one text in another are parameters.
use Prim.Native.Nat.{◌-◌}
use Prim.Native.String.{len, slice}
use ketjs.Common.{
  ℕ, zero, suc, String, Bool, true, false, ◌&&◌, ◌||◌, not, Option, none, some, List, [], ◌∷◌,
  str_eq, ltb, leb, ◌==◌, if◌then◌else◌, is_empty, filter, any, includes, has_key, sort_by,
  flat_map, template, starts_with, ends_with,
}
use ketjs.Manifest.{Manifest, MenuDef}
use ketjs.Diff.Item.{option_eq}
use ketjs.Menu.Groups.{Group, is_text, regrouped}

-- A `MenuNode` but for its children.
pub record MenuNode : Type 0 where
  pub id : String
  pub label : String
  pub path : Option String
  pub icon : Option String
  pub active : Bool
  pub secondary : Bool

-- `MenuNode[]`: a node with its children, and the nodes after it.
pub data Nodes : Type 0 where
  no_nodes : Nodes
  node : MenuNode → Nodes → Nodes → Nodes

pub record MenuOptions : Type 0 where
  pub allow : Option (List String)
  pub translate : Option (String → String)
  pub active : Option String
  pub q : Option String
  pub intent : Bool
  pub groups : List Group
  pub demote : List String

abbrev pub is_leaf : Nodes → Bool
is_leaf no_nodes = true
is_leaf (node n below rest) = false

abbrev pub any_active : Nodes → Bool
any_active no_nodes = false
any_active (node n below rest) = n.active || any_active rest

abbrev pub all_secondary : Nodes → Bool
all_secondary no_nodes = true
all_secondary (node n below rest) = n.secondary && all_secondary rest

unfoldable pub any_primary : Nodes → Bool
any_primary no_nodes = false
any_primary (node n below rest) = (not n.secondary || any_primary below) || any_primary rest

-- `!o.allow || o.allow.includes(key)`
abbrev pub may_call : Option (List String) → String → Bool
may_call none key = true
may_call (some keys) key = includes keys key

unfoldable pub permitted : Manifest → MenuOptions → MenuDef → Bool
permitted manifest o menu = elim menu.needs [
  | none ↦ true
  | some key ↦ str_eq key "" || (has_key key manifest.functions && may_call o.allow key)
]

unfoldable pub intended : MenuOptions → Bool → String → MenuDef → Bool
intended o apply_intent id menu =
    not apply_intent
    || (not (includes o.demote id)
        && (is_empty menu.for_work || any (may_call o.allow) menu.for_work))

unfoldable pub label_of : MenuOptions → MenuDef → String
label_of o menu = elim o.translate [
  | none ↦ menu.label
  | some translate ↦
      let key = template (menu.by ∷ "." ∷ menu.label ∷ []) in
      let out = translate key in
      if not (str_eq out "") && not (str_eq out key) then out else translate menu.label
]

abbrev pub sequence_of : MenuDef → ℕ
sequence_of menu = elim menu.sequence [ none ↦ 100 | some n ↦ n ]

-- `path.replace(/\/$/, '') + '/'`
unfoldable pub as_folder : String → String
as_folder path =
    template ((if ends_with path "/" then slice path 0 (len path - 1) else path) ∷ "/" ∷ [])

abbrev pub head_of : List String → Option String
head_of [] = none
head_of (x ∷ xs) = some x

-- The longest path of an entry that is the active one or above it.
unfoldable pub active_path : Option String → List (String × MenuDef) → Option String
active_path none entries = none
active_path (some active) entries =
    if str_eq active ""
    then none
    else head_of (
        sort_by (λ a b. leb (len b) (len a))
          (filter
            (λ path.
              not (str_eq path "") && (str_eq active path || starts_with active (as_folder path)))
            (flat_map
              (λ (e : String × MenuDef). elim e.1.path [ none ↦ [] | some path ↦ path ∷ [] ])
              entries)))

module _ (locale_le : String → String → Bool) (contains : String → String → Bool)
    (fold trim : String → String) (manifest : Manifest) (o : MenuOptions) where
  unfoldable pub menu_le : String × MenuDef → String × MenuDef → Bool
  menu_le a b =
      ltb (sequence_of a.1) (sequence_of b.1)
      || (sequence_of a.1 == sequence_of b.1 && locale_le (label_of o a.1) (label_of o b.1))

  unfoldable pub needle : String
  needle = elim o.q [ none ↦ "" | some q ↦ fold (trim q) ]

  unfoldable pub matches : String → Bool
  matches text = str_eq needle "" || contains (fold text) needle

  unfoldable pub node_of : Bool → Option String → String → MenuDef → Nodes → MenuNode
  node_of apply_intent active id menu below = record {
    id = id;
    label = label_of o menu;
    path = menu.path;
    icon = menu.icon;
    active =
        elim menu.path [ none ↦ false | some path ↦ option_eq (some path) active ]
        || any_active below;
    secondary =
        if is_leaf below then not (intended o apply_intent id menu) else all_secondary below;
  }

  -- The loop of `build` over the entries of one parent, with the call below an entry.
  unfoldable pub nodes_of :
      Bool → Option String → (String → Nodes) → List (String × MenuDef) → Nodes
  nodes_of apply_intent active build [] = no_nodes
  nodes_of apply_intent active build ((id, menu) ∷ entries) =
      let rest = nodes_of apply_intent active build entries in
      let below = build id in
      if not (permitted manifest o menu)
      then rest
      else if not (is_text menu.path) && is_leaf below
      then rest
      else if is_leaf below && not (matches (label_of o menu))
      then rest
      else node (node_of apply_intent active id menu below) below rest

  -- The number of levels that are left stands for the depth: none at a depth of 9.
  unfoldable pub build : List (String × MenuDef) → Bool → Option String → ℕ → Option String → Nodes
  build entries apply_intent active zero parent = no_nodes
  build entries apply_intent active (suc levels) parent =
      nodes_of apply_intent active (λ id. build entries apply_intent active levels (some id))
        (sort_by menu_le (filter (λ (e : String × MenuDef). option_eq e.1.parent parent) entries))

  unfoldable pub build_menu : Nodes
  build_menu =
      let entries = regrouped manifest.menus o.groups in
      let active = active_path o.active entries in
      let tree = build entries o.intent active 9 none in
      if not o.intent || any_primary tree then tree else build entries false active 9 none

-- `activeMenuRoot`
unfoldable pub active_menu_root : Nodes → Option (MenuNode × Nodes)
active_menu_root no_nodes = none
active_menu_root (node n below rest) = if n.active then some (n, below) else active_menu_root rest
