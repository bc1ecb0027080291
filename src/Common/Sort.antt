-- ===== src/Common/Sort.antt =====
-- `Array.prototype.sort` and `ORDER BY`: a stable insertion sort by a comparison.
use mathlib.Core.Path.{◌≡◌, refl}
use mathlib.Core.Logic.{◌⊎◌, inl, inr}
use mathlib.Core.Bool.{Bool, true, false}
use mathlib.Core.List.{List, [], ◌∷◌}
use Prim.Native.Nat.{ℕ, zero, suc}
use ketjs.Common.Tests.{if◌then◌else◌, Bool-cases}
use ketjs.Common.Lists.{All, In, All-In, here, there, take}

module _ {ℓ} {A : Type ℓ} (le : A → A → Bool) where
  abbrev pub place : A → List A → List A
  place x [] = x ∷ []
  place x (y ∷ ys) = if le x y then x ∷ y ∷ ys else y ∷ place x ys

  abbrev pub sort_by : List A → List A
  sort_by [] = []
  sort_by (x ∷ xs) = place x (sort_by xs)

  -- Every element comes before all that follow it.
  abbrev pub IsSorted : List A → Type ℓ
  IsSorted [] = Unit
  IsSorted (x ∷ xs) = All (λ y. le x y ≡ true) xs × IsSorted xs

module _ {ℓ κ} {A : Type ℓ} (le : A → A → Bool) (P : A → Type κ) where
  pub All-place : (x : A) (ys : List A) → P x → All P ys → All P (place le x ys)
  All-place x [] p h = (p, tt)
  All-place x (y ∷ ys) p h = elim (Bool-cases (le x y)) [
    | inl e ↦ rw e (p, h)
    | inr e ↦ rw e (h.0, All-place x ys p h.1)
  ]

  pub All-sort_by : (xs : List A) → All P xs → All P (sort_by le xs)
  All-sort_by [] h = tt
  All-sort_by (x ∷ xs) h = All-place x (sort_by le xs) h.0 (All-sort_by xs h.1)

  pub All-take : (n : ℕ) (xs : List A) → All P xs → All P (take n xs)
  All-take zero xs h = tt
  All-take (suc n) [] h = tt
  All-take (suc n) (x ∷ xs) h = (h.0, All-take n xs h.1)

module _ {ℓ} {A : Type ℓ} (le : A → A → Bool) where
  pub In-place_head : (x : A) (ys : List A) → In x (place le x ys)
  In-place_head x [] = here refl
  In-place_head x (y ∷ ys) = elim (Bool-cases (le x y)) [
    | inl e ↦ rw e (here refl)
    | inr e ↦ rw e (there (In-place_head x ys))
  ]

  pub In-place_tail : (x : A) {z : A} {ys : List A} → In z ys → In z (place le x ys)
  In-place_tail x (here {y} {xs} e) = elim (Bool-cases (le x y)) [
    | inl c ↦ rw c (there (here e))
    | inr c ↦ rw c (here e)
  ]
  In-place_tail x (there {y} {xs} m) = elim (Bool-cases (le x y)) [
    | inl c ↦ rw c (there (there m))
    | inr c ↦ rw c (there (In-place_tail x m))
  ]

  pub In-sort_by : {z : A} {xs : List A} → In z xs → In z (sort_by le xs)
  In-sort_by (here {y} {xs} e) = rw e (In-place_head y (sort_by le xs))
  In-sort_by (there {y} {xs} m) = In-place_tail y (In-sort_by m)

  -- A comparison that decides between any two, and is transitive.
  pub record IsOrder : Type ℓ where
    pub total : (x y : A) → le x y ≡ false → le y x ≡ true
    pub trans : (x y z : A) → le x y ≡ true → le y z ≡ true → le x z ≡ true

  module _ (o : IsOrder) where
    All-le_trans :
        (x y : A) (zs : List A)
        → le x y ≡ true
        → All (λ z. le y z ≡ true) zs
        → All (λ z. le x z ≡ true) zs
    All-le_trans x y [] h k = tt
    All-le_trans x y (z ∷ zs) h k = (o.trans x y z h k.0, All-le_trans x y zs h k.1)

    place-IsSorted : (x : A) (ys : List A) → IsSorted le ys → IsSorted le (place le x ys)
    place-IsSorted x [] h = (tt, tt)
    place-IsSorted x (y ∷ ys) h = elim (Bool-cases (le x y)) [
      | inl e ↦ rw e ((e, All-le_trans x y ys e h.0), h)
      | inr e ↦
          rw e (All-place le (λ z. le y z ≡ true) x ys (o.total x y e) h.0, place-IsSorted x ys h.1)
    ]

    pub sort_by-IsSorted : (xs : List A) → IsSorted le (sort_by le xs)
    sort_by-IsSorted [] = tt
    sort_by-IsSorted (x ∷ xs) = place-IsSorted x (sort_by le xs) (sort_by-IsSorted xs)

  none_taken : {x : A} → In x [] → ⊥
  none_taken h = elim h [ ]

  -- What `take` keeps of a sorted list comes before what it leaves.
  pub take_before :
      (n : ℕ) (xs : List A) {x y : A}
      → IsSorted le xs
      → In x (take n xs)
      → In y xs
      → In y (take n xs) ⊎ (le x y ≡ true)
  take_before zero xs s h m = absurd (none_taken h)
  take_before (suc n) [] s h m = inl m
  take_before (suc n) (z ∷ xs) s h (here e) = inl (here e)
  take_before (suc n) (z ∷ xs) s (here e) (there m) = inr (rw e (All-In (λ y. le z y ≡ true) m s.0))
  take_before (suc n) (z ∷ xs) s (there h) (there m) = elim (take_before n xs s.1 h m) [
    | inl k ↦ inl (there k)
    | inr k ↦ inr k
  ]

module _ {ℓ} {A : Type ℓ} (le : A → A → Bool) where
  place-nonempty : (x : A) (ys : List A) → ¬ (place le x ys ≡ [])
  place-nonempty x [] h = cc
  place-nonempty x (y ∷ ys) h = elim (Bool-cases (le x y)) [
    | inl c ↦ cc (rw c at h)
    | inr c ↦ cc (rw c at h)
  ]

  pub sort_by-eq-nil : (xs : List A) → sort_by le xs ≡ [] → xs ≡ []
  sort_by-eq-nil [] h = refl
  sort_by-eq-nil (x ∷ xs) h = absurd (place-nonempty x (sort_by le xs) h)
