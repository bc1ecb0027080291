-- ===== src/Types/RoundTrip.antt =====
-- packages/ketjs/src/kernel/types.ts and classification.ts: a printed field type is read back.
use Prim.Native.Char.{code}
use ketjs.Common.{
  String, Bool, true, false, ◌≡◌, refl, ap, ◌∙◌, inl, inr, Option, none, some, ◌==◌, Bool-cases,
  arith,
}
use ketjs.Manifest.{FieldBase, id, text, int, float, decimal, bool, json, date, datetime, ref}
use ketjs.Diff.Item.{base_text}
use ketjs.Types.{
  ParsedType, parsed, parse_type, parse_split, type_of, append_text, split_mark, after_prefix,
  is_target, is_target_tail, is_model, is_model_tail, scalar_of,
}

-- No character of the text is a question mark.
abbrev Unmarked : String → Type 0
Unmarked String.[] = Unit
Unmarked (String.◌∷◌ c s) = ((code c == b'?') ≡ false) × Unmarked s

split_mark-Unmarked : (s : String) → Unmarked s → split_mark s ≡ (s, false)
unfolding split_mark
split_mark-Unmarked String.[] h = refl
split_mark-Unmarked (String.◌∷◌ c String.[]) h = rw (h.0) refl
split_mark-Unmarked (String.◌∷◌ c (String.◌∷◌ d s)) h =
    rw (split_mark-Unmarked (String.◌∷◌ d s) h.1) refl

split_mark-append : (s : String) → split_mark (append_text s "?") ≡ (s, true)
unfolding split_mark append_text
split_mark-append String.[] = refl
split_mark-append (String.◌∷◌ c String.[]) = refl
split_mark-append (String.◌∷◌ c (String.◌∷◌ d s)) = rw (split_mark-append (String.◌∷◌ d s)) refl

append-empty : (s : String) → append_text s "" ≡ s
unfolding append_text
append-empty String.[] = refl
append-empty (String.◌∷◌ c s) = ap (String.◌∷◌ c) (append-empty s)

model_tail-Unmarked : (s : String) → is_model_tail s ≡ true → Unmarked s
unfolding is_model_tail
model_tail-Unmarked String.[] h = tt
model_tail-Unmarked (String.◌∷◌ c s) h =
    (ground (arith, h), model_tail-Unmarked s (ground (arith, h)))

model-Unmarked : (s : String) → is_model s ≡ true → Unmarked s
unfolding is_model
model-Unmarked String.[] h = tt
model-Unmarked (String.◌∷◌ c s) h = (ground (arith, h), model_tail-Unmarked s (ground (arith, h)))

target_tail-Unmarked : (s : String) → is_target_tail s ≡ true → Unmarked s
unfolding is_target_tail
target_tail-Unmarked String.[] h = tt
target_tail-Unmarked (String.◌∷◌ c s) h = elim (Bool-cases (code c == b'.')) [
  | inl d ↦ (ground (arith, d), model-Unmarked s (rw d at h))
  | inr d ↦ let k = rw d at h in (ground (arith, k), target_tail-Unmarked s (ground (arith, k)))
]

target-Unmarked : (s : String) → is_target s ≡ true → Unmarked s
unfolding is_target
target-Unmarked String.[] h = tt
target-Unmarked (String.◌∷◌ c s) h = (ground (arith, h), target_tail-Unmarked s (ground (arith, h)))

-- The types that a field can have: a scalar, or a reference to a well-named model.
pub data IsType : FieldBase → Option String → Type 0 where
  scalar : {b : FieldBase} → scalar_of (base_text b) ≡ some b → IsType b none
  reference : {t : String} → is_target t ≡ true → IsType ref (some t)

ref_split :
    (spec t : String) (optional : Bool)
    → is_target t ≡ true
    → parse_split spec (append_text "ref:" t, optional)
      ≡ parsed (record { base = ref; target = some t; optional = optional })
unfolding parse_split append_text after_prefix
ref_split spec t optional h = rw h refl

ref_type :
    (t : String) (optional : Bool)
    → is_target t ≡ true
    → parse_type (type_of (record { base = ref; target = some t; optional = optional }))
      ≡ parsed (record { base = ref; target = some t; optional = optional })
unfolding parse_type type_of
ref_type t true h =
    ap (parse_split _) (split_mark-append (append_text "ref:" t)) ∙ ref_split _ t true h
ref_type t false h =
    ap (parse_split _) (
      rw (append-empty (append_text "ref:" t))
        (split_mark-Unmarked (append_text "ref:" t) (prefixed t h)))
    ∙ ref_split _ t false h
  where
    prefixed : (t : String) → is_target t ≡ true → Unmarked (append_text "ref:" t)
    prefixed t h = unfold append_text in (refl, (refl, (refl, (refl, target-Unmarked t h))))

scalar_type :
    (b : FieldBase) (optional : Bool)
    → scalar_of (base_text b) ≡ some b
    → parse_type (type_of (record { base = b; target = none; optional = optional }))
      ≡ parsed (record { base = b; target = none; optional = optional })
unfolding parse_type parse_split type_of append_text after_prefix split_mark scalar_of
scalar_type id true h = refl
scalar_type id false h = refl
scalar_type text true h = refl
scalar_type text false h = refl
scalar_type int true h = refl
scalar_type int false h = refl
scalar_type float true h = refl
scalar_type float false h = refl
scalar_type decimal true h = refl
scalar_type decimal false h = refl
scalar_type bool true h = refl
scalar_type bool false h = refl
scalar_type json true h = refl
scalar_type json false h = refl
scalar_type date true h = refl
scalar_type date false h = refl
scalar_type datetime true h = refl
scalar_type datetime false h = refl
scalar_type ref optional h = cc

printed :
    (b : FieldBase) (target : Option String) (optional : Bool)
    → IsType b target
    → parse_type (type_of (record { base = b; target = target; optional = optional }))
      ≡ parsed (record { base = b; target = target; optional = optional })
printed b target optional (scalar h) = scalar_type b optional h
printed b target optional (reference {t} h) = ref_type t optional h

-- Printing a field's type and reading it back gives the type, for a scalar and for a reference to a
-- well-named model, optional or not.
pub parse_type-type_of :
    (t : ParsedType) → IsType t.base t.target → parse_type (type_of t) ≡ parsed t
parse_type-type_of t h = printed t.base t.target t.optional h
