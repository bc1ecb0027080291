-- ===== src/Diff/Tests.antt =====
-- packages/ketjs/src/kernel/diff.ts: diffs of small manifests.
use ketjs.Common.{
  String, true, false, ◌≡◌, refl, none, List, [], ◌∷◌, map, starts_with, ends_with, All,
}
use ketjs.Manifest.{Manifest, Model, Field, Function, text, int, shared, http}
use ketjs.Diff.Item.{DiffItem}
use ketjs.Diff.Models.{
  model_items, scope_items, append_items, field_items, field_changed, joint_items,
}
use ketjs.Diff.Functions.{
  function_items, input_removed, input_added, returns_items, contract_items, access_items,
  gained_effects, risk_items, added_items,
}
use ketjs.Diff.Surface.{all_items, diff_manifests}
use ketjs.Diff.Compatible.{Compatible, NotBreaking, diff_manifests-Compatible}

abbrev field : Field
field = record {
  base = text;
  target = none;
  optional = false;
  by = "sales";
  sensitive = false;
  personal = false;
}

abbrev order_model : Field → Model
order_model f = record {
  owner = "sales";
  scope = shared;
  append = false;
  fields = ("note", f) ∷ [];
}

abbrev function : List String → Function
function effects = record {
  by = "sales";
  exposure = http;
  anonymous = false;
  provision = false;
  effects = effects;
  cross_company = false;
  idempotent = true;
  transactional = false;
  dry_run = false;
  agent = false;
  input = ("id", "id") ∷ [];
  output = [];
  returns = none;
}

abbrev manifest : Field → List String → Manifest
manifest f effects = record {
  modules = [];
  models = ("sales.Order", order_model f) ∷ [];
  menus = [];
  joints = "sales.row" ∷ [];
  fills = [];
  functions = ("sales.place", function effects) ∷ [];
  permissions = record { risks = []; bundles = []; role_templates = [] };
  jobs = [];
  views = [];
  reports = [];
  required_regions = [];
  provided_regions = [];
  patches = [];
}

abbrev before : Manifest
before = manifest field ("read:sales.Order" ∷ [])

abbrev after : Manifest
after = manifest field ("read:sales.Order" ∷ "write:sales.Order" ∷ [])

-- A write that a function gains is reported, and breaks nothing.
widened : map (λ (i : DiffItem). i.code) (diff_manifests before after) ≡ "EFFECTS_WIDENED" ∷ []
unfolding diff_manifests all_items model_items scope_items append_items field_items field_changed
    joint_items function_items input_removed input_added returns_items contract_items access_items
    gained_effects risk_items added_items starts_with ends_with
widened = refl

retyped :
    map
      (λ (i : DiffItem). i.code)
      (diff_manifests before (manifest (record field { base = int }) ("read:sales.Order" ∷ [])))
    ≡ "FIELD_TYPE_CHANGED" ∷ []
unfolding diff_manifests all_items model_items scope_items append_items field_items field_changed
    joint_items function_items input_removed input_added returns_items contract_items access_items
    gained_effects risk_items added_items starts_with ends_with
retyped = refl

nothing_breaks : All NotBreaking (diff_manifests before after)
unfolding diff_manifests all_items model_items scope_items append_items field_items field_changed
    joint_items function_items input_removed input_added returns_items contract_items access_items
    gained_effects risk_items added_items starts_with ends_with
nothing_breaks = (refl, tt)

diff_manifests-Compatible_example : Compatible before after
diff_manifests-Compatible_example = diff_manifests-Compatible before after nothing_breaks
