-- ===== src/Menu/Primary.antt =====
-- packages/ketjs/src/kernel/menu.ts: nobody gets an empty main list.
use ketjs.Common.{
  ℕ, zero, suc, String, Bool, true, false, ◌&&◌, ◌||◌, not, ◌≡◌, refl, ◌⊎◌, inl, inr, Option, none,
  some, List, [], ◌∷◌, Bool-cases,
}
use ketjs.Manifest.{Manifest, MenuDef}
use ketjs.Menu.Groups.{is_text, regrouped}
use ketjs.Menu.Build.{
  MenuOptions, Nodes, no_nodes, node, is_leaf, any_primary, all_secondary, permitted, intended,
  label_of, active_path, matches, node_of, nodes_of, build, build_menu,
}

-- No node of the list, at its top level, is secondary.
abbrev pub IsPrimary : Nodes → Type 0
IsPrimary no_nodes = Unit
IsPrimary (node n below rest) = (n.secondary ≡ false) × IsPrimary rest

all_secondary_of :
    (below : Nodes) → IsPrimary below → is_leaf below ≡ false → all_secondary below ≡ false
all_secondary_of no_nodes p h = cc
all_secondary_of (node n below rest) p h = rw (p.0) refl

any_primary_of : (t : Nodes) → IsPrimary t → (t ≡ no_nodes) ⊎ (any_primary t ≡ true)
unfolding any_primary
any_primary_of no_nodes p = inl refl
any_primary_of (node n below rest) p = inr (rw (p.0) refl)

module _ (locale_le : String → String → Bool) (contains : String → String → Bool)
    (fold trim : String → String) (manifest : Manifest) (o : MenuOptions) where
  secondary-node_of :
      (active : Option String) (id : String) (menu : MenuDef) (below : Nodes)
      → IsPrimary below
      → (node_of locale_le contains fold trim manifest o false active id menu below).secondary
        ≡ false
  unfolding node_of intended
  secondary-node_of active id menu below p = elim (Bool-cases (is_leaf below)) [
    | inl e ↦ rw (node_of, e) refl
    | inr e ↦ rw (node_of, e) (all_secondary_of below p e)
  ]

  nodes_of-IsPrimary :
      (active : Option String) (below : String → Nodes)
      → ((id : String) → IsPrimary (below id))
      → (entries : List (String × MenuDef))
      → IsPrimary (nodes_of locale_le contains fold trim manifest o false active below entries)
  unfolding nodes_of
  nodes_of-IsPrimary active below f [] = tt
  nodes_of-IsPrimary active below f ((id, menu) ∷ entries) =
      let rest = nodes_of-IsPrimary active below f entries in
      elim (Bool-cases (permitted manifest o menu)) [
        | inr p ↦ rw (p, nodes_of) rest
        | inl p ↦ elim (Bool-cases (not (is_text menu.path) && is_leaf (below id))) [
          | inl e ↦ rw (p, e, nodes_of) rest
          | inr e ↦
              elim (Bool-cases (
                is_leaf (below id)
                && not (matches locale_le contains fold trim manifest o (label_of o menu)))) [
                  | inl s ↦ rw (p, e, s, nodes_of) rest
                  | inr s ↦
                      rw (p, e, s, nodes_of)
                        (secondary-node_of active id menu (below id) (f id), rest)
                ]
        ]
      ]

  build-IsPrimary :
      (entries : List (String × MenuDef)) (active : Option String) (levels : ℕ)
      (parent : Option String)
      → IsPrimary (build locale_le contains fold trim manifest o entries false active levels parent)
  unfolding build
  build-IsPrimary entries active zero parent = tt
  build-IsPrimary entries active (suc levels) parent =
      nodes_of-IsPrimary active _ (λ id. build-IsPrimary entries active levels (some id)) _

  kept_primary :
      (entries : List (String × MenuDef)) (active : Option String) (intent : Bool)
      → let tree = build locale_le contains fold trim manifest o entries intent active 9 none in
        (not intent || any_primary tree) ≡ true → (tree ≡ no_nodes) ⊎ (any_primary tree ≡ true)
  kept_primary entries active true h = inr h
  kept_primary entries active false h = any_primary_of _ (build-IsPrimary entries active 9 none)

  -- Whatever the options, the menu is empty or has a node, at some depth, that is not secondary:
  -- the marks never take everything out of the viewer's main list.
  pub build_menu_primary :
      (build_menu locale_le contains fold trim manifest o ≡ no_nodes)
      ⊎ (any_primary (build_menu locale_le contains fold trim manifest o) ≡ true)
  unfolding build_menu
  build_menu_primary =
      let entries = regrouped manifest.menus o.groups in
      let active = active_path o.active entries in
      elim (Bool-cases (
        not o.intent
        || any_primary
            (build locale_le contains fold trim manifest o entries o.intent active 9 none))) [
              | inl e ↦ rw (build_menu, e) (kept_primary entries active o.intent e)
              | inr e ↦
                  rw (build_menu, e) (any_primary_of _ (build-IsPrimary entries active 9 none))
            ]
