-- ===== src/Agent/Keyed.antt =====
-- packages/ketjs/src/agent/permissions.ts: the map of models has one slot for a model, under its
-- name, so that the list of its values can be read as the map.
use ketjs.Common.{
  String, Bool, true, false, ◌&&◌, ◌||◌, ◌≡◌, refl, sym, inl, inr, none, some, List, [], ◌∷◌, map,
  str_eq, str_eq_sym, has_key-insert, eq_iff, Bool-cases, Option-cases, or_false, any, lookup,
  has_key, insert, place, sort_by,
}
use ketjs.Manifest.{Manifest}
use ketjs.Agent.Reach.{
  ModelReach, split_effect, has_verb, slot_of, touched, add_effect, add_effects, add_function,
  add_functions,
}

or_swap : (a b c : Bool) → (a || (b || c)) ≡ (b || (a || c))
or_swap true true c = refl
or_swap true false c = refl
or_swap false true c = refl
or_swap false false c = refl

module _ {ℓ} {A : Type ℓ} (le : A → A → Bool) (p : A → Bool) where
  any-place : (x : A) (ys : List A) → any p (place le x ys) ≡ (p x || any p ys)
  any-place x [] = refl
  any-place x (y ∷ ys) = elim (Bool-cases (le x y)) [
    | inl e ↦ rw (e) refl
    | inr e ↦ rw (e, any-place x ys) (or_swap (p y) (p x) (any p ys))
  ]

  -- Sorting does not change what a list holds.
  pub any-sort_by : (xs : List A) → any p (sort_by le xs) ≡ any p xs
  any-sort_by [] = refl
  any-sort_by (x ∷ xs) = rw (any-place x (sort_by le xs), any-sort_by xs) refl

-- Every slot stands under its own name, and no name twice.
abbrev pub IsKeyed : List (String × ModelReach) → Type 0
IsKeyed [] = Unit
IsKeyed ((name, slot) ∷ models) =
    (slot.model ≡ name) × (has_key name models ≡ false) × IsKeyed models

insert-IsKeyed :
    (k : String) (slot : ModelReach) (models : List (String × ModelReach))
    → slot.model ≡ k
    → IsKeyed models
    → IsKeyed (insert k slot models)
insert-IsKeyed k slot [] e h = (e, refl, tt)
insert-IsKeyed k slot ((n, s) ∷ models) e h = elim (Bool-cases (str_eq n k)) [
  | inl c ↦ rw c (e, rw (sym ((eq_iff n k).0 c)) h.1, h.2)
  | inr c ↦ rw c (
    h.0,
    has_key-insert n k slot models (rw (str_eq_sym k n) c) h.1,
    insert-IsKeyed k slot models e h.2,
  )
]

lookup-model :
    (k : String) (models : List (String × ModelReach)) (slot : ModelReach)
    → IsKeyed models
    → lookup k models ≡ some slot
    → slot.model ≡ k
lookup-model k [] slot h e = cc
lookup-model k ((n, s) ∷ models) slot h e = elim (Bool-cases (str_eq n k)) [
  | inl c ↦ cc (h.0, (eq_iff n k).0 c, rw c at e)
  | inr c ↦ lookup-model k models slot h.2 (rw c at e)
]

module _ (text_le locale_le : String → String → Bool) (manifest : Manifest) where
  model-slot_of :
      (k : String) (models : List (String × ModelReach))
      → IsKeyed models
      → (slot_of text_le locale_le manifest k models).model ≡ k
  unfolding slot_of
  model-slot_of k models h = elim (Option-cases (lookup k models)) [
    | inl n ↦ rw (slot_of, n) refl
    | inr (slot, e) ↦ rw (slot_of, e) (lookup-model k models slot h e)
  ]

  add_effect-IsKeyed :
      (key e : String) (models : List (String × ModelReach))
      → IsKeyed models
      → IsKeyed (add_effect text_le locale_le manifest key e models)
  unfolding add_effect touched
  add_effect-IsKeyed key e models h =
      let k = (split_effect e).1 in
      let slot = slot_of text_le locale_le manifest k models in
      elim (Bool-cases (has_verb "enqueue" e)) [
        | inl t ↦ rw (add_effect, t) h
        | inr f ↦
            rw (add_effect, f)
              (insert-IsKeyed k (touched text_le locale_le manifest key e slot) models
                (model-slot_of k models h) h)
      ]

  add_effects-IsKeyed :
      (key : String) (es : List String) (models : List (String × ModelReach))
      → IsKeyed models
      → IsKeyed (add_effects text_le locale_le manifest key es models)
  unfolding add_effects
  add_effects-IsKeyed key [] models h = h
  add_effects-IsKeyed key (e ∷ es) models h =
      add_effects-IsKeyed key es (add_effect text_le locale_le manifest key e models)
        (add_effect-IsKeyed key e models h)

  add_function-IsKeyed :
      (key : String) (models : List (String × ModelReach))
      → IsKeyed models
      → IsKeyed (add_function text_le locale_le manifest key models)
  unfolding add_function
  add_function-IsKeyed key models h = elim (Option-cases (lookup key manifest.functions)) [
    | inl n ↦ rw (add_function, n) h
    | inr (fn, s) ↦ rw (add_function, s) (add_effects-IsKeyed key fn.effects models h)
  ]

  pub add_functions-IsKeyed :
      (ks : List String) (models : List (String × ModelReach))
      → IsKeyed models
      → IsKeyed (add_functions text_le locale_le manifest ks models)
  unfolding add_functions
  add_functions-IsKeyed [] models h = h
  add_functions-IsKeyed (key ∷ ks) models h =
      add_functions-IsKeyed ks (add_function text_le locale_le manifest key models)
        (add_function-IsKeyed key models h)

-- Whether a slot of the list is the model's and has the flag.
abbrev pub flagged : (ModelReach → Bool) → String → List ModelReach → Bool
flagged flag m slots = any (λ slot. str_eq slot.model m && flag slot) slots

abbrev pub values : List (String × ModelReach) → List ModelReach
values models = map (λ (e : String × ModelReach). e.1) models

flagged-absent :
    (flag : ModelReach → Bool) (m : String) (models : List (String × ModelReach))
    → IsKeyed models
    → has_key m models ≡ false
    → flagged flag m (values models) ≡ false
flagged-absent flag m [] h a = refl
flagged-absent flag m ((n, s) ∷ models) h a = elim (Bool-cases (str_eq n m)) [
  | inl c ↦ absurd (cc (rw c at a))
  | inr c ↦ rw (h.0, c) (flagged-absent flag m models h.2 (rw c at a))
]

pub flagged-lookup :
    (flag : ModelReach → Bool) (m : String) (models : List (String × ModelReach))
    → IsKeyed models
    → flagged flag m (values models)
      ≡ elim (lookup m models) [ none ↦ false | some slot ↦ flag slot ]
flagged-lookup flag m [] h = refl
flagged-lookup flag m ((n, s) ∷ models) h = elim (Bool-cases (str_eq n m)) [
  | inl c ↦
      rw (h.0, c, flagged-absent flag m models h.2 (rw (sym ((eq_iff n m).0 c)) h.1))
        (sym (or_false (flag (record s { model = n }))))
  | inr c ↦ rw (h.0, c) (flagged-lookup flag m models h.2)
]
