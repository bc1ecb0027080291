-- ===== src/Common/Maps.antt =====
-- A `Map` or a record with string keys, in insertion order.
use Prim.Native.String.{String}
use mathlib.Core.Path.{◌≡◌, refl, sym, ap}
use mathlib.Core.Bool.{Bool, true, false}
use mathlib.Core.Option.{Option, none, some}
use mathlib.Core.List.{List, [], ◌∷◌}
use Prim.Native.Nat.{suc, ◌≤◌}
use native.Mathlib.Omega.{arith}
use text.Mathlib.TextEquality.{eq_iff}
use text.Mathlib.TextPositions.{eq_refl}
use ketjs.Common.Tests.{str_eq, if◌then◌else◌, Bool-cases, kept}
use ketjs.Common.Lists.{filter, length, All, In, here, there}
use mathlib.Core.Logic.{inl, inr}

pub str_eq_sym : (a b : String) → str_eq a b ≡ str_eq b a
str_eq_sym a b = ground (arith, eq_iff a b, eq_iff b a)

module _ {ℓ} {V : Type ℓ} where
  -- `Map.get`, or `record[key]`.
  abbrev pub lookup : String → List (String × V) → Option V
  lookup key [] = none
  lookup key ((name, value) ∷ entries) = if str_eq name key then some value else lookup key entries

  -- `Map.has`, or `key in record`.
  abbrev pub has_key : String → List (String × V) → Bool
  has_key key [] = false
  has_key key ((name, _) ∷ entries) = if str_eq name key then true else has_key key entries

  -- `Map.set`: in place if the key is there, else at the end.
  abbrev pub insert : String → V → List (String × V) → List (String × V)
  insert key new [] = (key, new) ∷ []
  insert key new ((name, value) ∷ entries) =
      if str_eq name key then (key, new) ∷ entries else (name, value) ∷ insert key new entries

  abbrev pub keys : List (String × V) → List String
  keys [] = []
  keys ((name, _) ∷ entries) = name ∷ keys entries

  pub lookup-insert :
      (key other : String) (new : V) (entries : List (String × V))
      → lookup other (insert key new entries)
        ≡ (if str_eq key other then some new else lookup other entries)
  lookup-insert key other new [] = refl
  lookup-insert key other new ((name, value) ∷ entries) = ground (
    arith,
    eq_iff name key,
    eq_iff name other,
    eq_iff key other,
    lookup-insert key other new entries,
  )

  -- No key twice.
  abbrev pub IsMap : List (String × V) → Type 0
  IsMap [] = Unit
  IsMap ((name, _) ∷ entries) = (has_key name entries ≡ false) × IsMap entries

  pub has_key-insert :
      (name key : String) (new : V) (entries : List (String × V))
      → str_eq key name ≡ false
      → has_key name entries ≡ false
      → has_key name (insert key new entries) ≡ false
  has_key-insert name key new [] d h = rw (d) refl
  has_key-insert name key new ((other, value) ∷ entries) d h = ground (
    arith,
    eq_iff other name,
    eq_iff other key,
    eq_iff key name,
    has_key-insert name key new entries d,
  )

  pub insert-IsMap :
      (key : String) (new : V) (entries : List (String × V))
      → IsMap entries
      → IsMap (insert key new entries)
  insert-IsMap key new [] h = (refl, tt)
  insert-IsMap key new ((name, value) ∷ entries) h = elim (Bool-cases (str_eq name key)) [
    | inl c ↦ rw c (rw (sym ((eq_iff name key).0 c)) h.0, h.1)
    | inr c ↦ rw c (
      has_key-insert name key new entries (rw (str_eq_sym key name) c) h.0,
      insert-IsMap key new entries h.1,
    )
  ]

  pub has_key-filter :
      (key : String) (p : String × V → Bool) (entries : List (String × V))
      → has_key key entries ≡ false
      → has_key key (filter p entries) ≡ false
  has_key-filter key p [] h = refl
  has_key-filter key p ((name, value) ∷ entries) h = ground (arith, has_key-filter key p entries)

  pub filter-IsMap :
      (p : String × V → Bool) (entries : List (String × V))
      → IsMap entries
      → IsMap (filter p entries)
  filter-IsMap p [] h = tt
  filter-IsMap p ((name, value) ∷ entries) h = elim (Bool-cases (p (name, value))) [
    | inl c ↦ rw c (has_key-filter name p entries h.0, filter-IsMap p entries h.1)
    | inr c ↦ rw c (filter-IsMap p entries h.1)
  ]

  pub has_key-lookup :
      (key : String) (entries : List (String × V))
      → has_key key entries ≡ false
      → lookup key entries ≡ none
  has_key-lookup key [] h = refl
  has_key-lookup key ((name, value) ∷ entries) h = ground (arith, has_key-lookup key entries)

  pub lookup-absent :
      (key : String) (entries : List (String × V))
      → lookup key entries ≡ none
      → has_key key entries ≡ false
  lookup-absent key [] h = refl
  lookup-absent key ((name, value) ∷ entries) h = ground (arith, h, lookup-absent key entries)

  -- What a filter of the entries leaves under a key.
  pub lookup-filter :
      (key : String) (p : String × V → Bool) (entries : List (String × V))
      → IsMap entries
      → lookup key (filter p entries) ≡ kept (λ v. p (key, v)) (lookup key entries)
  lookup-filter key p [] h = refl
  lookup-filter key p ((name, value) ∷ entries) h = elim (Bool-cases (str_eq name key)) [
    | inl c ↦ elim (Bool-cases (p (name, value))) [
      | inl d ↦ rw (d, c, ← (eq_iff name key).0 c, d) refl
      | inr d ↦
          rw (d, c, ← (eq_iff name key).0 c, d)
            (has_key-lookup name (filter p entries) (has_key-filter name p entries h.0))
    ]
    | inr c ↦ elim (Bool-cases (p (name, value))) [
      | inl d ↦ rw (d, c) (lookup-filter key p entries h.1)
      | inr d ↦ rw (d, c) (lookup-filter key p entries h.1)
    ]
  ]

  pub lookup-In :
      (key : String) (v : V) (entries : List (String × V))
      → lookup key entries ≡ some v
      → In (key, v) entries
  lookup-In key v [] h = cc
  lookup-In key v ((name, value) ∷ entries) h = elim (Bool-cases (str_eq name key)) [
    | inl c ↦ here (cc (rw c at h, (eq_iff name key).0 c))
    | inr c ↦ there (lookup-In key v entries (rw c at h))
  ]

  pub In-has_key :
      (key : String) (v : V) (entries : List (String × V))
      → In (key, v) entries
      → has_key key entries ≡ true
  In-has_key key v [] m = elim m [ ]
  In-has_key key v ((name, value) ∷ entries) (here e) =
      rw (← ap (λ (p : String × V). p.0) e, eq_refl key) refl
  In-has_key key v ((name, value) ∷ entries) (there m) = ground (arith, In-has_key key v entries m)

  pub In-lookup :
      (key : String) (v : V) (entries : List (String × V))
      → IsMap entries
      → In (key, v) entries
      → lookup key entries ≡ some v
  In-lookup key v [] h m = elim m [ ]
  In-lookup key v ((name, value) ∷ entries) h (here e) =
      rw (← ap (λ (p : String × V). p.0) e, eq_refl key, ← ap (λ (p : String × V). p.1) e) refl
  In-lookup key v ((name, value) ∷ entries) h (there m) = elim (Bool-cases (str_eq name key)) [
    | inl c ↦ cc (In-has_key key v entries m, h.0, (eq_iff name key).0 c)
    | inr c ↦ rw c (In-lookup key v entries h.1 m)
  ]

  pub length-insert_present :
      (key : String) (v : V) (entries : List (String × V))
      → has_key key entries ≡ true
      → length (insert key v entries) ≡ length entries
  length-insert_present key v [] h = cc
  length-insert_present key v ((name, value) ∷ entries) h = elim (Bool-cases (str_eq name key)) [
    | inl c ↦ rw c refl
    | inr c ↦ rw c (ap suc (length-insert_present key v entries (rw c at h)))
  ]

  pub length-insert_absent :
      (key : String) (v : V) (entries : List (String × V))
      → has_key key entries ≡ false
      → length (insert key v entries) ≡ suc (length entries)
  length-insert_absent key v [] h = refl
  length-insert_absent key v ((name, value) ∷ entries) h = elim (Bool-cases (str_eq name key)) [
    | inl c ↦ cc (rw c at h)
    | inr c ↦ rw c (ap suc (length-insert_absent key v entries (rw c at h)))
  ]

  pub length-filter :
      (t : String × V → Bool) (entries : List (String × V))
      → length (filter t entries) ≤ length entries
  length-filter t [] = omega arith
  length-filter t (x ∷ entries) = ground (arith, length-filter t entries)

  pub All-insert {κ} :
      (P : String × V → Type κ) (key : String) (v : V) (entries : List (String × V))
      → P (key, v)
      → All P entries
      → All P (insert key v entries)
  All-insert P key v [] p h = (p, tt)
  All-insert P key v ((name, value) ∷ entries) p h = elim (Bool-cases (str_eq name key)) [
    | inl c ↦ rw c (p, h.1)
    | inr c ↦ rw c (h.0, All-insert P key v entries p h.1)
  ]
