-- ===== src/Classification/Listed.antt =====
-- packages/ketjs/src/kernel/classification.ts: what the inventory lists.
use ketjs.Common.{
  All, All-of_In, All-filter_test, All-of_map, All-sort_by, All-map, String, Bool, true, false, ◌≡◌,
  refl, List, [], ◌∷◌, inl, inr, Bool-cases, flat_map, is_empty, In, here, there, In-sort_by,
  In-filter, In-map, In-append_left, In-append_right, arith,
}
use ketjs.Manifest.{Manifest, Model, Field}
use ketjs.Classification.{
  classified_field, is_classified, model_fields, sorted_models, classification_inventory,
}

In-flat_map {ℓ κ} :
    {A : Type ℓ} {B : Type κ} (f : A → List B) {x : A} {y : B} {xs : List A}
    → In x xs
    → In y (f x)
    → In y (flat_map f xs)
In-flat_map f {x} {y} (here {xs = xs} e) m = rw (← e) (In-append_left (flat_map f xs) m)
In-flat_map f (there {y = z} m) k = In-append_right (f z) (In-flat_map f m k)

In-empty {ℓ} : {A : Type ℓ} {x : A} (xs : List A) → In x xs → is_empty xs ≡ false
In-empty [] h = elim h [ ]
In-empty (x ∷ xs) h = refl

module _ (locale_le : String → String → Bool) (manifest : Manifest) where
  In-model_fields :
      (model : String) (def : Model) (field : String) (spec : Field)
      → In (field, spec) def.fields
      → is_classified spec ≡ true
      → In (classified_field model (field, spec)) (model_fields locale_le (model, def))
  unfolding model_fields
  In-model_fields model def field spec m h =
      In-map (classified_field model) (In-filter (λ f. is_classified f.1) (In-sort_by _ m) h)

  -- The fields of a model without an entry carry no flag.
  empty-unflagged :
      (model : String) (def : Model)
      → is_empty (model_fields locale_le (model, def)) ≡ true
      → All (λ (f : String × Field). is_classified f.1 ≡ false) def.fields
  empty-unflagged model def e =
      All-of_In (λ (f : String × Field). is_classified f.1 ≡ false) def.fields
        (λ f m. elim (Bool-cases (is_classified f.1)) [
          | inr c ↦ c
          | inl c ↦ absurd (absurd_flag (In-empty _ (In-model_fields model def f.0 f.1 m c)))
        ])
    where
      absurd_flag : is_empty (model_fields locale_le (model, def)) ≡ false → ⊥
      absurd_flag h = cc

  In-entries :
      (model : String) (def : Model) (field : String) (spec : Field)
      → In (model, def) manifest.models
      → In (field, spec) def.fields
      → is_classified spec ≡ true
      → In
          (classified_field model (field, spec))
          (flat_map (model_fields locale_le) (sorted_models locale_le manifest))
  unfolding sorted_models
  In-entries model def field spec m k h =
      In-flat_map (model_fields locale_le) (In-sort_by _ m)
        (In-model_fields model def field spec k h)

  -- Every field of the manifest that is marked personal is in the list of personal fields, with its
  -- module and type, and every one that is marked sensitive is in the list of sensitive fields.
  pub classification_inventory_complete :
      (model : String) (def : Model) (field : String) (spec : Field)
      → In (model, def) manifest.models
      → In (field, spec) def.fields
      → let inventory = classification_inventory locale_le manifest in
        (spec.personal ≡ true → In (classified_field model (field, spec)) inventory.personal)
        × (spec.sensitive ≡ true → In (classified_field model (field, spec)) inventory.sensitive)
  unfolding classification_inventory
  classification_inventory_complete model def field spec m k = (
    λ h. In-filter (λ f. f.personal) (In-entries model def field spec m k (ground (arith, h))) h,
    λ h. In-filter (λ f. f.sensitive) (In-entries model def field spec m k (ground (arith, h))) h,
  )

  -- A model that the inventory lists as unclassified is a model of the manifest with no field
  -- marked personal or sensitive.
  pub unclassified_sound :
      All
        (λ model.
          (def : Model) × In (model, def) manifest.models
          × All (λ (f : String × Field). is_classified f.1 ≡ false) def.fields)
        (classification_inventory locale_le manifest).unclassified
  unfolding classification_inventory sorted_models
  unclassified_sound =
      All-of_map
        (λ model.
          (def : Model) × In (model, def) manifest.models
          × All (λ (f : String × Field). is_classified f.1 ≡ false) def.fields)
        (λ (m : String × Model). m.0) _
        (All-map _ _ (λ m (k, e). (m.1, k, empty-unflagged m.0 m.1 e)) _
          (All-filter_test (λ (m : String × Model). In m manifest.models) _ _
            (All-sort_by _ (λ m. In m manifest.models) manifest.models
              (All-of_In (λ m. In m manifest.models) manifest.models (λ x m. m)))))
