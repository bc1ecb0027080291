-- ===== src/Classification.antt =====
-- What a deployment's data is, packages/ketjs/src/kernel/classification.ts. `locale_le` is the order
-- of localeCompare and `show` prints a count. Listed proves what the inventory lists.
pub mod Listed
mod Tests
use Prim.Native.String.{len}
use ketjs.Common.{
  pad_end, ℕ, zero, suc, ◌+◌, ◌-◌, String, Bool, true, false, ◌&&◌, ◌||◌, not, List, [], ◌∷◌, ◌++◌,
  map, ltb, if◌then◌else◌, filter, flat_map, is_empty, length, sort_by, template, join,
}
use ketjs.Manifest.{Manifest, Model, Field}
use ketjs.Types.{type_of}

pub record ClassifiedField : Type 0 where
  pub model : String
  pub field : String
  pub by : String
  pub type : String
  pub personal : Bool
  pub sensitive : Bool

pub record Counts : Type 0 where
  pub models : ℕ
  pub fields : ℕ
  pub personal : ℕ
  pub sensitive : ℕ
  pub unclassified : ℕ

pub record ClassificationInventory : Type 0 where
  pub personal : List ClassifiedField
  pub sensitive : List ClassifiedField
  pub unclassified : List String
  pub counts : Counts

abbrev pub is_classified : Field → Bool
is_classified spec = spec.personal || spec.sensitive

abbrev pub classified_field : String → String × Field → ClassifiedField
classified_field model (field, spec) = record {
  model = model;
  field = field;
  by = spec.by;
  type = type_of (record { base = spec.base; target = spec.target; optional = spec.optional });
  personal = spec.personal;
  sensitive = spec.sensitive;
}

module _ (locale_le : String → String → Bool) where
  -- The inner loop: the fields of one model that carry a flag.
  unfoldable pub model_fields : String × Model → List ClassifiedField
  model_fields (model, def) = map (classified_field model) (
      filter (λ (f : String × Field). is_classified f.1)
        (sort_by (λ (a b : String × Field). locale_le a.0 b.0) def.fields))

  unfoldable pub sorted_models : Manifest → List (String × Model)
  sorted_models manifest = sort_by (λ (a b : String × Model). locale_le a.0 b.0) manifest.models

  abbrev total_fields : List (String × Model) → ℕ
  total_fields [] = 0
  total_fields ((model, def) ∷ models) = length def.fields + total_fields models

  unfoldable pub classification_inventory : Manifest → ClassificationInventory
  classification_inventory manifest =
      let models = sorted_models manifest in
      let entries = flat_map model_fields models in
      let personal = filter (λ (f : ClassifiedField). f.personal) entries in
      let sensitive = filter (λ (f : ClassifiedField). f.sensitive) entries in
      let unclassified =
        map (λ (m : String × Model). m.0)
          (filter (λ (m : String × Model). is_empty (model_fields m)) models) in
      record {
        personal = personal;
        sensitive = sensitive;
        unclassified = unclassified;
        counts = record {
          models = length manifest.models;
          fields = total_fields models;
          personal = length personal;
          sensitive = length sensitive;
          unclassified = length unclassified;
        };
      }

abbrev field_path : ClassifiedField → String
field_path f = template (f.model ∷ "." ∷ f.field ∷ [])

unfoldable pub row : ℕ → ClassifiedField → String
row width f =
    template ("  " ∷ pad_end (field_path f) width ∷ "  " ∷ pad_end f.type 18 ∷ " by " ∷ f.by ∷ [])

abbrev widest : List ClassifiedField → ℕ
widest [] = 24
widest (f ∷ fs) = let n = widest fs in if ltb n (len (field_path f)) then len (field_path f) else n

abbrev or_none : List String → List String
or_none [] = "  none" ∷ []
or_none (s ∷ ss) = s ∷ ss

unfoldable pub format_classification : (ℕ → String) → ClassificationInventory → String
format_classification show i =
    let width = widest (i.personal ++ i.sensitive) in
    join "\n" (
      template ("personal data (" ∷ show i.counts.personal ∷ " field(s))" ∷ [])
      ∷ (or_none (map (row width) i.personal)
          ++ ""
            ∷ template (
                "sensitive ("
                ∷ show i.counts.sensitive
                ∷ " field(s)) — never leaves the system"
                ∷ [])
            ∷ (or_none (map (row width) i.sensitive)
                ++ ""
                  ∷ template (
                      show i.counts.unclassified
                      ∷ " of "
                      ∷ show i.counts.models
                      ∷ " model(s) classify no field at all"
                      ∷ [])
                  ∷ map (λ (m : String). template ("  " ∷ m ∷ [])) i.unclassified)))
