-- ===== src/Classification/Tests.antt =====
-- packages/ketjs/src/kernel/classification.ts: one personal field, and a model with none.
use ketjs.Common.{pad_end, String, Bool, true, false, ◌≡◌, refl, none, [], ◌∷◌, In, here, template}
use ketjs.Manifest.{Manifest, Model, Field, text, shared}
use ketjs.Types.{type_of, append_text}
use ketjs.Classification.{
  classified_field, model_fields, sorted_models, classification_inventory, row,
}
use ketjs.Classification.Listed.{classification_inventory_complete}

abbrev any_order : String → String → Bool
any_order a b = true

abbrev phone : Field
phone = record {
  base = text;
  target = none;
  optional = true;
  by = "crm";
  sensitive = false;
  personal = true;
}

abbrev person : Model
person = record { owner = "crm"; scope = shared; append = false; fields = ("phone", phone) ∷ [] }

abbrev note : Model
note = record person { fields = ("body", record phone { personal = false }) ∷ [] }

abbrev crm : Manifest
crm = record {
  modules = [];
  models = ("crm.Person", person) ∷ ("crm.Note", note) ∷ [];
  menus = [];
  joints = [];
  fills = [];
  functions = [];
  permissions = record { risks = []; bundles = []; role_templates = [] };
  jobs = [];
  views = [];
  reports = [];
  required_regions = [];
  provided_regions = [];
  patches = [];
}

unclassified : (classification_inventory any_order crm).unclassified ≡ "crm.Note" ∷ []
unfolding classification_inventory model_fields sorted_models
unclassified = refl

printed :
    row 24 (classified_field "crm.Person" ("phone", phone))
    ≡ "  crm.Person.phone          text?              by crm"
unfolding row pad_end template type_of append_text
printed = refl

classification_inventory_example :
    (true ≡ true
      → In
          (classified_field "crm.Person" ("phone", phone))
          (classification_inventory any_order crm).personal)
    × (false ≡ true
        → In
            (classified_field "crm.Person" ("phone", phone))
            (classification_inventory any_order crm).sensitive)
classification_inventory_example =
    classification_inventory_complete any_order crm "crm.Person" person "phone" phone (here refl)
      (here refl)
