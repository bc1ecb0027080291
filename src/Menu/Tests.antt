-- ===== src/Menu/Tests.antt =====
-- packages/ketjs/src/kernel/menu.ts: a heading, an entry that the viewer may not call, and one that
-- is regrouped.
use ketjs.Common.{
  String, Bool, true, false, ◌≡◌, refl, ◌⊎◌, none, some, [], ◌∷◌, starts_with, ends_with, template,
}
use ketjs.Manifest.{Manifest, MenuDef}
use ketjs.Menu.Groups.{
  Group, regrouped, regroup, claim_groups, claim_items, group_parent, group_heading,
}
use ketjs.Menu.Build.{
  MenuOptions, no_nodes, any_primary, build_menu, permitted, active_path, as_folder,
}
use ketjs.Menu.Offered.{Offered}
use ketjs.Menu.Primary.{build_menu_primary}

abbrev any_order : String → String → Bool
any_order a b = true

abbrev contains_any : String → String → Bool
contains_any a b = true

abbrev unchanged : String → String
unchanged s = s

abbrev heading : MenuDef
heading = record {
  label = "Sales";
  by = "sales";
  parent = none;
  path = none;
  needs = none;
  for_work = [];
  icon = none;
  sequence = none;
}

abbrev orders : MenuDef
orders = record heading {
  label = "Orders";
  parent = some "sales";
  path = some "/orders";
  for_work = "sales.place" ∷ [];
}

abbrev secret : MenuDef
secret = record orders { label = "Secret"; needs = some "sales.hidden" }

abbrev shop : Manifest
shop = record {
  modules = [];
  models = [];
  menus = ("sales", heading) ∷ ("orders", orders) ∷ ("secret", secret) ∷ [];
  joints = [];
  fills = [];
  functions = [];
  permissions = record { risks = []; bundles = []; role_templates = [] };
  jobs = [];
  views = [];
  reports = [];
  required_regions = [];
  provided_regions = [];
  patches = [];
}

abbrev day : Group
day = record { id = "day"; label = "Today"; icon = none; items = "orders" ∷ [] }

abbrev options : MenuOptions
options = record {
  allow = some [];
  translate = none;
  active = some "/orders/7";
  q = none;
  intent = true;
  groups = day ∷ [];
  demote = [];
}

moved :
    regrouped shop.menus options.groups
    ≡ ("sales", heading)
      ∷ ("day", record heading { label = "Today"; parent = some "sales"; sequence = some 10 })
      ∷ ("orders", record orders { parent = some "day"; sequence = some 0 })
      ∷ ("secret", secret)
      ∷ []
unfolding regrouped regroup claim_groups claim_items group_parent group_heading
moved = refl

hidden : permitted shop options secret ≡ false
unfolding permitted
hidden = refl

branch : active_path (some "/orders/7") shop.menus ≡ some "/orders"
unfolding active_path as_folder starts_with ends_with template
branch = refl

build_menu_primary_example :
    (build_menu any_order contains_any unchanged unchanged shop options ≡ no_nodes)
    ⊎ (any_primary (build_menu any_order contains_any unchanged unchanged shop options) ≡ true)
build_menu_primary_example =
    build_menu_primary any_order contains_any unchanged unchanged shop options
