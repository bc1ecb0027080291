-- ===== src/Menu/Offered.antt =====
-- packages/ketjs/src/kernel/menu.ts: what the tree of `buildMenu` shows.
use ketjs.Common.{String, Bool, true, ◌||◌, not, ◌≡◌, List, In}
use ketjs.Manifest.{Manifest, MenuDef}
use ketjs.Menu.Groups.{is_text}
use ketjs.Menu.Build.{
  MenuNode, MenuOptions, Nodes, no_nodes, node, is_leaf, permitted, label_of, matches,
}

module _ (locale_le : String → String → Bool) (contains : String → String → Bool)
    (fold trim : String → String) (manifest : Manifest) (o : MenuOptions) where
  -- A node stands for an entry that the viewer may call, is a link or has something under it, and
  -- has something under it or matches the search.
  abbrev pub Shown : List (String × MenuDef) → MenuNode → Nodes → Type 0
  Shown entries n below =
      ((menu : MenuDef) × In (n.id, menu) entries
        × (permitted manifest o menu ≡ true)
        × (n.label ≡ label_of o menu)
        × (n.path ≡ menu.path))
      × ((is_text n.path || not (is_leaf below)) ≡ true)
      × ((not (is_leaf below) || matches locale_le contains fold trim manifest o n.label) ≡ true)

  abbrev pub Offered : List (String × MenuDef) → Nodes → Type 0
  Offered entries no_nodes = Unit
  Offered entries (node n below rest) =
      Shown entries n below × Offered entries below × Offered entries rest
