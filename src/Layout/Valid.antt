-- ===== src/Layout/Valid.antt =====
-- packages/ketjs/src/kernel/layout.ts: a layout without errors fits the sections of the manifest.
use ketjs.Common.{
  ◌||◌, ℕ, suc, ◌≤◌, ◌<◌, String, true, ◌&&◌, ◌≡◌, refl, inl, inr, Option, none, some, List, [],
  ◌∷◌, ltb, leb, Bool-cases, is_empty, has_key, keys, includes, All, All-map, append-eq-nil,
  flat_map-eq-nil, arith,
}
use ketjs.Layout.Json.{is_inherited, Json}
use ketjs.Layout.Tree.{
  Placement, Placements, Slots, malformed, placed, no_placements, also, no_slots, slot, length_of,
  path_at, slot_path, count_placements,
}
use ketjs.Layout.Settings.{
  find_section, find_slot, SlotDef, SectionDef, LayoutError, max_layout_depth, max_layout_nodes,
  setting_error, no_setting,
}
use ketjs.Layout.Validate.{
  settings_errors, field_error, unaccepted, slot_error, max_errors, accept_errors, rule_errors,
  section_errors, head_errors, slot_errors, validate_into, validate_one, validate_slots,
  validate_layout,
}
use ketjs.Layout.Fits.{MeetsField, Accepts, HasRoom, Fits, FitsAll, FitsSlots}
use ketjs.Layout.Typed.{setting_error-MeetsField}

module _ (show : ℕ → String) (sections : List (String × SectionDef)) where
  no_field_error :
      (at : ℕ) (type field : String) (path : Option String) (e : Option String)
      → field_error show sections at type path field e ≡ []
      → e ≡ none
  no_field_error at type field path none h = refl
  no_field_error at type field path (some message) h = cc

  unaccepted-Accepts :
      (name path : String) (allowed : List String) (at : ℕ) (ps : Placements)
      → unaccepted show sections name path allowed at ps ≡ []
      → Accepts (some allowed) ps
  unfolding unaccepted
  unaccepted-Accepts name path allowed at no_placements h = tt
  unaccepted-Accepts name path allowed at (also malformed ps) h =
      unaccepted-Accepts name path allowed (suc at) ps h
  unaccepted-Accepts name path allowed at (also (placed head slots) ps) h =
      let (e, k) = append-eq-nil _ (unaccepted show sections name path allowed (suc at) ps) h in
      (
        λ type t. elim (Bool-cases (includes allowed type)) [
          | inl c ↦ c
          | inr c ↦ cc (rw (t, c) at e)
        ],
        unaccepted-Accepts name path allowed (suc at) ps k,
      )

  max-HasRoom :
      (at : ℕ) (type name path : String) (m : Option ℕ) (ps : Placements)
      → max_errors show sections at type name path m ps ≡ []
      → HasRoom m (length_of ps)
  unfolding max_errors slot_error
  max-HasRoom at type name path none ps h = tt
  max-HasRoom at type name path (some n) ps h = ground (arith, h)

  accept-Accepts :
      (name path : String) (a : Option (List String)) (ps : Placements)
      → accept_errors show sections name path a ps ≡ []
      → Accepts a ps
  unfolding accept_errors
  accept-Accepts name path none ps h = tt
  accept-Accepts name path (some allowed) ps h = unaccepted-Accepts name path allowed 0 ps h

  settings-fit :
      (at : ℕ) (type : String) (path : Option String) (schema : List (String × String))
      (settings : List (String × Json))
      → settings_errors show sections at type path schema settings ≡ []
      → All (MeetsField settings) schema
        × All (λ field. (has_key field schema || is_inherited field) ≡ true) (keys settings)
  unfolding settings_errors
  settings-fit at type path schema settings h =
      let (e, k) = append-eq-nil _ _ h in
      (
        All-map _ (MeetsField settings)
            (λ f m.
              setting_error-MeetsField settings f
                (no_field_error at type f.0 path (setting_error settings f) m))
            schema (flat_map-eq-nil _ schema e),
        All-map _ (λ field. (has_key field schema || is_inherited field) ≡ true)
            (λ f m. known f (no_field_error at type f path _ m)) (keys settings)
            (flat_map-eq-nil _ (keys settings) k),
      )
    where
      known :
          (f : String) → no_setting schema f ≡ none → (has_key f schema || is_inherited f) ≡ true
      known f h = ground (arith, h)

  section-fits :
      (at : ℕ) (type : String) (path : Option String) (settings : List (String × Json))
      (below : List (String × SlotDef) → List LayoutError) (o : Option SectionDef)
      → section_errors show sections at type path settings below o ≡ []
      → (section : SectionDef) × (o ≡ some section)
        × (settings_errors show sections at type path section.settings settings ≡ [])
        × (below section.slots ≡ [])
  unfolding section_errors
  section-fits at type path settings below none h = cc
  section-fits at type path settings below (some section) h =
      let (a, b) = append-eq-nil _ _ h in (section, refl, a, b)

  head-fits :
      (at : ℕ) (path : Option String) (settings : List (String × Json))
      (below : String → List (String × SlotDef) → List LayoutError) (o : Option String)
      → head_errors show sections at path settings below o ≡ []
      → (type : String) × (o ≡ some type)
        × (section_errors show sections at type path settings
              (below type)
              (find_section type sections)
            ≡ [])
  unfolding head_errors
  head-fits at path settings below none h = cc
  head-fits at path settings below (some type) h = (type, refl, h)

  slot-fits :
      (declared : List (String × SlotDef)) (at : ℕ) (type path : String) (depth : ℕ) (name : String)
      (children : Placements) (below : List LayoutError) (o : Option SlotDef)
      → slot_errors show sections declared at type path depth name children below o ≡ []
      → (rule : SlotDef) × (o ≡ some rule)
        × (0 < length_of children → depth < max_layout_depth)
        × (rule_errors show sections at type name path rule children ≡ [])
        × (below ≡ [])
  unfolding slot_errors slot_error
  slot-fits declared at type path depth name children below none h = cc
  slot-fits declared at type path depth name children below (some rule) h =
      elim (Bool-cases (leb max_layout_depth depth && ltb 0 (length_of children))) [
        | inl b ↦ absurd (cc (rw b at h))
        | inr b ↦
            let (r, k) = append-eq-nil _ below (rw b at h) in
            (rule, refl, λ some_child. ground (arith, b, some_child), r, k)
      ]

  mutual
    unfolding validate_into validate_one validate_slots Fits FitsAll FitsSlots rule_errors

    into-FitsAll :
        (path : String) (depth at : ℕ) (ps : Placements)
        → validate_into show sections path depth at ps ≡ []
        → FitsAll sections depth ps
    into-FitsAll path depth at no_placements h = tt
    into-FitsAll path depth at (also p ps) h =
        let (e, k) = append-eq-nil _ (validate_into show sections path depth (suc at) ps) h in
        (one-Fits path depth at p e, into-FitsAll path depth (suc at) ps k)

    one-Fits :
        (path : String) (depth at : ℕ) (p : Placement)
        → validate_one show sections path depth at p ≡ []
        → Fits sections depth p
    one-Fits path depth at malformed h = cc
    one-Fits path depth at (placed head slots) h =
        let (type, t, k) = head-fits at _ head.settings _ head.type h in
        let (section, e, a, b) =
          section-fits at type _ head.settings _ (find_section type sections) k in
        let (met, known) = settings-fit at type _ section.settings head.settings a in
        (
          type,
          section,
          t,
          e,
          met,
          known,
          slots-FitsSlots section.slots at type (path_at show path at) depth slots b,
        )

    slots-FitsSlots :
        (declared : List (String × SlotDef)) (at : ℕ) (type here : String) (depth : ℕ)
        (slots : Slots)
        → validate_slots show sections declared at type here depth slots ≡ []
        → FitsSlots sections declared depth slots
    slots-FitsSlots declared at type here depth no_slots h = tt
    slots-FitsSlots declared at type here depth (slot name children slots) h =
        let path = slot_path show here name in
        let (e, k) =
          append-eq-nil _ (validate_slots show sections declared at type here depth slots) h in
        let (rule, a, deep, r, below) =
          slot-fits declared at type path depth name children _ (find_slot name declared) e in
        let (room, accepted) =
          append-eq-nil _ (accept_errors show sections name path rule.accepts children) r in
        (
          (
            rule,
            a,
            deep,
            max-HasRoom at type name path rule.max children room,
            accept-Accepts name path rule.accepts children accepted,
            into-FitsAll path (suc depth) 0 children below,
          ),
          slots-FitsSlots declared at type here depth slots k,
        )

  -- A layout that is found to be right holds at most a hundred placements, at any depth, and fits
  -- the sections: every placement is of a known section, its required settings are there, the
  -- settings of the schema have the JSON values of their types (a decimal may be any value) and no
  -- others are there, its slots are declared, hold no more than they take, only what they accept,
  -- and nothing at the sixth level. A name that every object inherits counts as a known section
  -- without settings and slots, as a setting of every section, and as a slot without a rule.
  pub validate_layout-FitsAll :
      (layout : Placements)
      → (validate_layout show sections layout).0 ≡ true
      → (count_placements show layout ≤ max_layout_nodes) × FitsAll sections 1 layout
  unfolding validate_layout
  validate_layout-FitsAll layout h =
      let (few, right) =
        append-eq-nil _ (validate_into show sections "" 1 0 layout)
          (no_errors (validate_layout show sections layout).1 h) in
      (ground (arith, few), into-FitsAll "" 1 0 layout right)
    where
      no_errors : (xs : List LayoutError) → is_empty xs ≡ true → xs ≡ []
      no_errors [] h = refl
      no_errors (x ∷ xs) h = cc
