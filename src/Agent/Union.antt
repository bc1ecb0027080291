-- ===== src/Agent/Union.antt =====
-- packages/ketjs/src/agent/permissions.ts: the reach of a set of functions is the union of their
-- declared effects.
use ketjs.Common.{
  String, Bool, true, false, ◌&&◌, ◌||◌, not, ◌≡◌, refl, ◌∙◌, inl, inr, none, some, List, [], ◌∷◌,
  str_eq, eq_iff, if◌then◌else◌, Bool-cases, Option-cases, or_false, any, lookup, lookup-insert,
  insert,
}
use ketjs.Manifest.{Manifest}
use ketjs.Agent.Keyed.{flagged, values, any-sort_by, flagged-lookup, add_functions-IsKeyed}
use ketjs.Agent.Reach.{
  ModelReach, reach_of, split_effect, has_verb, slot_of, touched, add_effect, add_effects,
  add_function, add_functions,
}

-- Whether a map of models lets a model be read, and written.
abbrev pub can_read : String → List (String × ModelReach) → Bool
can_read m models = elim (lookup m models) [ none ↦ false | some slot ↦ slot.read ]

abbrev pub can_write : String → List (String × ModelReach) → Bool
can_write m models = elim (lookup m models) [ none ↦ false | some slot ↦ slot.write ]

-- Whether an effect declares a read of the model, and a write: any verb but read and enqueue.
abbrev pub declares_read : String → String → Bool
declares_read m e = not (has_verb "enqueue" e) && (has_verb "read" e && str_eq (split_effect e).1 m)

abbrev pub declares_write : String → String → Bool
declares_write m e =
    not (has_verb "enqueue" e) && (not (has_verb "read" e) && str_eq (split_effect e).1 m)

-- The effects that a key grants; an unknown key grants none.
abbrev pub effects_of : Manifest → String → List String
effects_of manifest key = elim (lookup key manifest.functions) [ none ↦ [] | some fn ↦ fn.effects ]

or_assoc : (a b c : Bool) → ((a || b) || c) ≡ (a || (b || c))
or_assoc true b c = refl
or_assoc false b c = refl

can_read-insert :
    (k m : String) (slot : ModelReach) (models : List (String × ModelReach))
    → can_read m (insert k slot models) ≡ (if str_eq k m then slot.read else can_read m models)
can_read-insert k m slot models =
    rw (can_read, lookup-insert k m slot models)
      (elim (Bool-cases (str_eq k m)) [ inl t ↦ rw (t) | inr f ↦ rw (f) ])

can_write-insert :
    (k m : String) (slot : ModelReach) (models : List (String × ModelReach))
    → can_write m (insert k slot models) ≡ (if str_eq k m then slot.write else can_write m models)
can_write-insert k m slot models =
    rw (can_write, lookup-insert k m slot models)
      (elim (Bool-cases (str_eq k m)) [ inl t ↦ rw (t) | inr f ↦ rw (f) ])

and_true : (a : Bool) → (a && true) ≡ a
and_true true = refl
and_true false = refl

and_false : (a : Bool) → (a && false) ≡ false
and_false true = refl
and_false false = refl

-- A fact about names that is set at one name holds at another as before, or if they are equal.
set_at :
    (k m : String) (was : String → Bool) (here : Bool)
    → (if str_eq k m then was k || here else was m) ≡ (was m || (here && str_eq k m))
set_at k m was here = elim (Bool-cases (str_eq k m)) [
  | inl same ↦ rw (same, (eq_iff k m).0 same, and_true here)
  | inr other ↦ rw (other, and_false here) (or_false (was m))
]

module _ (text_le locale_le : String → String → Bool) (manifest : Manifest) (m : String) where
  read-slot_of :
      (k : String) (models : List (String × ModelReach))
      → (slot_of text_le locale_le manifest k models).read ≡ can_read k models
  unfolding slot_of
  read-slot_of k models = elim (Option-cases (lookup k models)) [
    | inl n ↦ rw (can_read, slot_of, n)
    | inr (slot, s) ↦ rw (can_read, slot_of, s)
  ]

  write-slot_of :
      (k : String) (models : List (String × ModelReach))
      → (slot_of text_le locale_le manifest k models).write ≡ can_write k models
  unfolding slot_of
  write-slot_of k models = elim (Option-cases (lookup k models)) [
    | inl n ↦ rw (can_write, slot_of, n)
    | inr (slot, s) ↦ rw (can_write, slot_of, s)
  ]

  can_read-add_effect :
      (key e : String) (models : List (String × ModelReach))
      → can_read m (add_effect text_le locale_le manifest key e models)
        ≡ (can_read m models || declares_read m e)
  unfolding add_effect touched
  can_read-add_effect key e models =
      let k = (split_effect e).1 in
      let slot = slot_of text_le locale_le manifest k models in
      elim (Bool-cases (has_verb "enqueue" e)) [
        | inl t ↦ rw (add_effect, t) (or_false (can_read m models))
        | inr f ↦
            rw
              (
                add_effect,
                f,
                can_read-insert k m (touched text_le locale_le manifest key e slot) models,
                read-slot_of k models,
              )
              (set_at k m (λ n. can_read n models) (has_verb "read" e))
      ]

  can_read-add_effects :
      (key : String) (es : List String) (models : List (String × ModelReach))
      → can_read m (add_effects text_le locale_le manifest key es models)
        ≡ (can_read m models || any (declares_read m) es)
  unfolding add_effects
  can_read-add_effects key [] models = or_false (can_read m models)
  can_read-add_effects key (e ∷ es) models =
      rw
        (
          can_read-add_effects key es (add_effect text_le locale_le manifest key e models),
          can_read-add_effect key e models,
        )
        (or_assoc (can_read m models) (declares_read m e) (any (declares_read m) es))

  can_read-add_function :
      (key : String) (models : List (String × ModelReach))
      → can_read m (add_function text_le locale_le manifest key models)
        ≡ (can_read m models || any (declares_read m) (effects_of manifest key))
  unfolding add_function
  can_read-add_function key models = elim (Option-cases (lookup key manifest.functions)) [
    | inl n ↦ rw (add_function, effects_of, n) (or_false (can_read m models))
    | inr (fn, s) ↦ rw (add_function, effects_of, s) (can_read-add_effects key fn.effects models)
  ]

  can_read-add_functions :
      (ks : List String) (models : List (String × ModelReach))
      → can_read m (add_functions text_le locale_le manifest ks models)
        ≡ (can_read m models || any (λ key. any (declares_read m) (effects_of manifest key)) ks)
  unfolding add_functions
  can_read-add_functions [] models = or_false (can_read m models)
  can_read-add_functions (key ∷ ks) models =
      rw
        (
          can_read-add_functions ks (add_function text_le locale_le manifest key models),
          can_read-add_function key models,
        )
        (or_assoc (can_read m models) (any (declares_read m) (effects_of manifest key))
          (any (λ k. any (declares_read m) (effects_of manifest k)) ks))

  can_write-add_effect :
      (key e : String) (models : List (String × ModelReach))
      → can_write m (add_effect text_le locale_le manifest key e models)
        ≡ (can_write m models || declares_write m e)
  unfolding add_effect touched
  can_write-add_effect key e models =
      let k = (split_effect e).1 in
      let slot = slot_of text_le locale_le manifest k models in
      elim (Bool-cases (has_verb "enqueue" e)) [
        | inl t ↦ rw (add_effect, t) (or_false (can_write m models))
        | inr f ↦
            rw
              (
                add_effect,
                f,
                can_write-insert k m (touched text_le locale_le manifest key e slot) models,
                write-slot_of k models,
              )
              (set_at k m (λ n. can_write n models) (not (has_verb "read" e)))
      ]

  can_write-add_effects :
      (key : String) (es : List String) (models : List (String × ModelReach))
      → can_write m (add_effects text_le locale_le manifest key es models)
        ≡ (can_write m models || any (declares_write m) es)
  unfolding add_effects
  can_write-add_effects key [] models = or_false (can_write m models)
  can_write-add_effects key (e ∷ es) models =
      rw
        (
          can_write-add_effects key es (add_effect text_le locale_le manifest key e models),
          can_write-add_effect key e models,
        )
        (or_assoc (can_write m models) (declares_write m e) (any (declares_write m) es))

  can_write-add_function :
      (key : String) (models : List (String × ModelReach))
      → can_write m (add_function text_le locale_le manifest key models)
        ≡ (can_write m models || any (declares_write m) (effects_of manifest key))
  unfolding add_function
  can_write-add_function key models = elim (Option-cases (lookup key manifest.functions)) [
    | inl n ↦ rw (add_function, effects_of, n) (or_false (can_write m models))
    | inr (fn, s) ↦ rw (add_function, effects_of, s) (can_write-add_effects key fn.effects models)
  ]

  can_write-add_functions :
      (ks : List String) (models : List (String × ModelReach))
      → can_write m (add_functions text_le locale_le manifest ks models)
        ≡ (can_write m models || any (λ key. any (declares_write m) (effects_of manifest key)) ks)
  unfolding add_functions
  can_write-add_functions [] models = or_false (can_write m models)
  can_write-add_functions (key ∷ ks) models =
      rw
        (
          can_write-add_functions ks (add_function text_le locale_le manifest key models),
          can_write-add_function key models,
        )
        (or_assoc (can_write m models) (any (declares_write m) (effects_of manifest key))
          (any (λ k. any (declares_write m) (effects_of manifest k)) ks))

  -- The reach of a set of functions is the union of their declared effects: it says that the model
  -- can be read exactly if some granted function declares a read of it, and that it can be written
  -- exactly if one declares another verb on it than read and enqueue. A key that the manifest does
  -- not have adds nothing.
  pub reach_of_lem :
      (functions : List String)
      → let slots = (reach_of text_le locale_le manifest functions).models in
        (flagged (λ slot. slot.read) m slots
          ≡ any (λ key. any (declares_read m) (effects_of manifest key)) functions)
        × (flagged (λ slot. slot.write) m slots
            ≡ any (λ key. any (declares_write m) (effects_of manifest key)) functions)
  unfolding reach_of
  reach_of_lem functions =
      let models = add_functions text_le locale_le manifest functions [] in
      let keyed = add_functions-IsKeyed text_le locale_le manifest functions [] tt in
      (
        any-sort_by (λ a b. locale_le a.model b.model)
              (λ (s : ModelReach). str_eq s.model m && s.read) (values models)
            ∙ flagged-lookup (λ s. s.read) m models keyed
            ∙ can_read-add_functions functions [],
        any-sort_by (λ a b. locale_le a.model b.model)
              (λ (s : ModelReach). str_eq s.model m && s.write) (values models)
            ∙ flagged-lookup (λ s. s.write) m models keyed
            ∙ can_write-add_functions functions [],
      )
