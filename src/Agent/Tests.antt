-- ===== src/Agent/Tests.antt =====
-- packages/ketjs/src/agent/permissions.ts: the reach of one function and an unknown key.
use ketjs.Common.{String, Bool, true, false, ◌≡◌, refl, none, some, [], ◌∷◌}
use ketjs.Manifest.{Manifest, Function, http}
use ketjs.Agent.Keyed.{flagged}
use ketjs.Agent.Reach.{split_effect, reach_of}
use ketjs.Agent.Inventory.{
  functions_of, permission_inventory, inventory_functions, inventory_function, sorted_record,
}
use ketjs.Agent.Union.{reach_of_lem}

abbrev any_order : String → String → Bool
any_order a b = true

abbrev place_order : Function
place_order = record {
  by = "sales";
  exposure = http;
  anonymous = false;
  provision = false;
  effects = "read:sales.Order" ∷ "write:sales.Line" ∷ "enqueue:sales.Mail" ∷ [];
  cross_company = false;
  idempotent = true;
  transactional = false;
  dry_run = false;
  agent = false;
  input = [];
  output = [];
  returns = none;
}

abbrev shop : Manifest
shop = record {
  modules = ("sales", record { version = "1.0.0"; kind = "app" }) ∷ [];
  models = [];
  menus = [];
  joints = [];
  fills = [];
  functions = ("sales.place", place_order) ∷ [];
  permissions = record { risks = []; bundles = []; role_templates = [] };
  jobs = [];
  views = [];
  reports = [];
  required_regions = [];
  provided_regions = [];
  patches = [];
}

split : split_effect "read:sales.Order" ≡ ("read", "sales.Order")
unfolding split_effect
split = refl

owned : functions_of any_order any_order shop "sales" ≡ some ("sales.place" ∷ [])
unfolding functions_of
owned = refl

unowned : functions_of any_order any_order shop "stock" ≡ none
unfolding functions_of
unowned = refl

counted : (permission_inventory any_order any_order shop).totals.grantable ≡ 1
unfolding permission_inventory inventory_functions inventory_function sorted_record
counted = refl

reach_of_example :
    (flagged
        (λ slot. slot.read)
        "sales.Order"
        (reach_of any_order any_order shop ("sales.place" ∷ "sales.gone" ∷ [])).models
      ≡ true)
    × (flagged
          (λ slot. slot.write)
          "sales.Order"
          (reach_of any_order any_order shop ("sales.place" ∷ "sales.gone" ∷ [])).models
        ≡ false)
unfolding split_effect
reach_of_example =
    reach_of_lem any_order any_order shop "sales.Order" ("sales.place" ∷ "sales.gone" ∷ [])
