-- ===== src/Common/Lists.antt =====
-- Arrays as lists: lengths, tests, membership, and predicates by recursion.
use Prim.Native.Nat.{ℕ, zero, suc, ◌+◌, ◌≤◌}
use Prim.Native.String.{String}
use mathlib.Core.Path.{◌≡◌, refl, sym, ap}
use mathlib.Core.Logic.{◌⊎◌, inl, inr}
use mathlib.Core.Bool.{Bool, true, false, ◌&&◌, ◌||◌}
use mathlib.Core.List.{List, [], ◌∷◌, ◌++◌, map}
use native.Mathlib.Omega.{arith}
use text.Mathlib.TextEquality.{eq_iff}
use ketjs.Common.Tests.{str_eq, if◌then◌else◌, Bool-cases}

module _ {ℓ} {A : Type ℓ} where
  abbrev pub length : List A → ℕ
  length [] = 0
  length (x ∷ xs) = suc (length xs)

  abbrev pub is_empty : List A → Bool
  is_empty [] = true
  is_empty (x ∷ xs) = false

  -- `Array.prototype.filter`, `some` and `every`.
  abbrev pub filter : (A → Bool) → List A → List A
  filter p [] = []
  filter p (x ∷ xs) = if p x then x ∷ filter p xs else filter p xs

  abbrev pub any : (A → Bool) → List A → Bool
  any p [] = false
  any p (x ∷ xs) = p x || any p xs

  abbrev pub all : (A → Bool) → List A → Bool
  all p [] = true
  all p (x ∷ xs) = p x && all p xs

  -- `slice(0, n)`
  abbrev pub take : ℕ → List A → List A
  take zero xs = []
  take (suc n) [] = []
  take (suc n) (x ∷ xs) = x ∷ take n xs

  abbrev pub drop : ℕ → List A → List A
  drop zero xs = xs
  drop (suc n) [] = []
  drop (suc n) (x ∷ xs) = drop n xs

  pub length-append : (xs ys : List A) → length (xs ++ ys) ≡ length xs + length ys
  length-append [] ys = omega arith
  length-append (x ∷ xs) ys = omega (arith, length-append xs ys)

  pub length-take : (n : ℕ) (xs : List A) → length (take n xs) ≤ n
  length-take zero xs = omega arith
  length-take (suc n) [] = omega arith
  length-take (suc n) (x ∷ xs) = omega (arith, length-take n xs)

-- The concatenation of what a loop pushes for each element.
abbrev pub flat_map {ℓ κ} : {A : Type ℓ} {B : Type κ} → (A → List B) → List A → List B
flat_map f [] = []
flat_map f (x ∷ xs) = f x ++ flat_map f xs

-- `Array.prototype.includes` on strings.
abbrev pub includes : List String → String → Bool
includes xs x = any (λ y. str_eq y x) xs

-- Membership of a value of any type, as a position in the list.
pub data In {ℓ} {A : Type ℓ} (x : A) : List A → Type ℓ where
  here : {y : A} {xs : List A} → x ≡ y → In x (y ∷ xs)
  there : {y : A} {xs : List A} → In x xs → In x (y ∷ xs)

module _ {ℓ κ} {A : Type ℓ} (P : A → Type κ) where
  abbrev pub All : List A → Type κ
  All [] = Unit
  All (x ∷ xs) = P x × All xs

  pub All-append : (xs ys : List A) → All xs → All ys → All (xs ++ ys)
  All-append [] ys h k = k
  All-append (x ∷ xs) ys (p, h) k = (p, All-append xs ys h k)

  pub All-filter : (t : A → Bool) (xs : List A) → All xs → All (filter t xs)
  All-filter t [] h = tt
  All-filter t (x ∷ xs) (p, h) = elim (Bool-cases (t x)) [
    | inl e ↦ rw e (p, All-filter t xs h)
    | inr e ↦ rw e (All-filter t xs h)
  ]

  pub All-of_In : (xs : List A) → ((x : A) → In x xs → P x) → All xs
  All-of_In [] f = tt
  All-of_In (x ∷ xs) f = (f x (here refl), All-of_In xs (λ y m. f y (there m)))

-- A list on which a test never holds.
pub Any-false {ℓ} :
    {A : Type ℓ} (p : A → Bool) (xs : List A) → any p xs ≡ false → All (λ x. p x ≡ false) xs
Any-false p [] h = tt
Any-false p (x ∷ xs) h = elim (Bool-cases (p x)) [
  | inl e ↦ absurd (cc (rw e at h))
  | inr e ↦ (e, Any-false p xs (rw e at h))
]

module _ {ℓ κ} {A : Type ℓ} (P : A → Type κ) where
  pub All-append_split : (xs ys : List A) → All P (xs ++ ys) → All P xs × All P ys
  All-append_split [] ys h = (tt, h)
  All-append_split (x ∷ xs) ys h = let (k, l) = All-append_split xs ys h.1 in ((h.0, k), l)

  pub All-flat_map {μ} :
      {B : Type μ} (f : B → List A) (xs : List B)
      → All P (flat_map f xs)
      → All (λ x. All P (f x)) xs
  All-flat_map f [] h = tt
  All-flat_map f (x ∷ xs) h =
      let (k, l) = All-append_split (f x) (flat_map f xs) h in (k, All-flat_map f xs l)

module _ {ℓ κ μ} {A : Type ℓ} (P : A → Type κ) (Q : A → Type μ) where
  pub All-map : ((x : A) → P x → Q x) → (xs : List A) → All P xs → All Q xs
  All-map f [] h = tt
  All-map f (x ∷ xs) (p, h) = (f x p, All-map f xs h)

-- What a filter keeps is in the list and passes the test.
pub All-filter-In {ℓ} :
    {A : Type ℓ} (p : A → Bool) (whole xs : List A)
    → ((x : A) → In x xs → In x whole)
    → All (λ x. In x whole × (p x ≡ true)) (filter p xs)
All-filter-In p whole [] f = tt
All-filter-In p whole (x ∷ xs) f = elim (Bool-cases (p x)) [
  | inl e ↦ rw e ((f x (here refl), e), All-filter-In p whole xs (λ y m. f y (there m)))
  | inr e ↦ rw e (All-filter-In p whole xs (λ y m. f y (there m)))
]

module _ {ℓ} {A : Type ℓ} {x : A} where
  pub In-append_left : {xs : List A} (ys : List A) → In x xs → In x (xs ++ ys)
  In-append_left ys (here e) = here e
  In-append_left ys (there m) = there (In-append_left ys m)

  pub In-append_right : (xs : List A) {ys : List A} → In x ys → In x (xs ++ ys)
  In-append_right [] m = m
  In-append_right (y ∷ xs) m = there (In-append_right xs m)

  pub In-append : (xs : List A) {ys : List A} → In x (xs ++ ys) → In x xs ⊎ In x ys
  In-append [] m = inr m
  In-append (y ∷ xs) (here e) = inl (here e)
  In-append (y ∷ xs) (there m) = elim (In-append xs m) [ inl l ↦ inl (there l) | inr r ↦ inr r ]

  pub All-In {κ} : (P : A → Type κ) {xs : List A} → In x xs → All P xs → P x
  All-In P (here e) h = rw e h.0
  All-In P (there m) h = All-In P m h.1

  pub In-filter : (t : A → Bool) {xs : List A} → In x xs → t x ≡ true → In x (filter t xs)
  In-filter t (here {y} e) h = rw (rw e at h) (here e)
  In-filter t (there {y} m) h = elim (Bool-cases (t y)) [
    | inl c ↦ rw c (there (In-filter t m h))
    | inr c ↦ rw c (In-filter t m h)
  ]

-- What two filters keep passes both tests.
pub All-filters {ℓ} :
    {A : Type ℓ} (p q : A → Bool) (rows : List A)
    → All (λ e. (p e ≡ true) × (q e ≡ true)) (filter q (filter p rows))
All-filters p q [] = tt
All-filters p q (e ∷ rows) = elim (Bool-cases (p e)) [
  | inr c ↦ rw c (All-filters p q rows)
  | inl c ↦ elim (Bool-cases (q e)) [
    | inl d ↦ rw (c, d) ((c, d), All-filters p q rows)
    | inr d ↦ rw (c, d) (All-filters p q rows)
  ]
]

pub In-map {ℓ κ} :
    {A : Type ℓ} {B : Type κ} (f : A → B) {x : A} {xs : List A} → In x xs → In (f x) (map f xs)
In-map f (here e) = here (ap f e)
In-map f (there m) = there (In-map f m)

pub includes-In : (xs : List String) (x : String) → includes xs x ≡ true → In x xs
includes-In [] x h = cc
includes-In (y ∷ xs) x h = elim (Bool-cases (str_eq y x)) [
  | inl e ↦ here (sym ((eq_iff y x).0 e))
  | inr e ↦ there (includes-In xs x (rw e at h))
]

pub In-includes : (x : String) {xs : List String} → In x xs → includes xs x ≡ true
In-includes x (here {y} e) = rw ((eq_iff y x).1 (sym e)) refl
In-includes x (there {y} {xs} m) = ground (arith, In-includes x m)

pub All-of_map {ℓ κ μ} :
    {A : Type ℓ} {B : Type κ} (P : B → Type μ) (f : A → B) (xs : List A)
    → All (λ x. P (f x)) xs
    → All P (map f xs)
All-of_map P f [] h = tt
All-of_map P f (x ∷ xs) h = (h.0, All-of_map P f xs h.1)

pub All-filter_test {ℓ κ} :
    {A : Type ℓ} (P : A → Type κ) (p : A → Bool) (xs : List A)
    → All P xs
    → All (λ x. P x × (p x ≡ true)) (filter p xs)
All-filter_test P p [] h = tt
All-filter_test P p (x ∷ xs) h = elim (Bool-cases (p x)) [
  | inl e ↦ rw e ((h.0, e), All-filter_test P p xs h.1)
  | inr e ↦ rw e (All-filter_test P p xs h.1)
]

-- What an empty concatenation is made of.
pub append-eq-nil {ℓ} : {A : Type ℓ} (xs ys : List A) → xs ++ ys ≡ [] → (xs ≡ []) × (ys ≡ [])
append-eq-nil [] ys h = (refl, h)
append-eq-nil (x ∷ xs) ys h = cc

pub flat_map-eq-nil {ℓ κ} :
    {A : Type ℓ} {B : Type κ} (f : A → List B) (xs : List A)
    → flat_map f xs ≡ []
    → All (λ x. f x ≡ []) xs
flat_map-eq-nil f [] h = tt
flat_map-eq-nil f (x ∷ xs) h =
    let (e, k) = append-eq-nil (f x) (flat_map f xs) h in (e, flat_map-eq-nil f xs k)

pub filter-eq-nil {ℓ} :
    {A : Type ℓ} (t : A → Bool) (xs : List A) → filter t xs ≡ [] → All (λ x. t x ≡ false) xs
filter-eq-nil t [] h = tt
filter-eq-nil t (x ∷ xs) h = elim (Bool-cases (t x)) [
  | inl c ↦ cc (rw c at h)
  | inr c ↦ (c, filter-eq-nil t xs (rw c at h))
]

pub filter-nil {ℓ} :
    {A : Type ℓ} (t : A → Bool) (xs : List A) → ((x : A) → t x ≡ false) → filter t xs ≡ []
filter-nil t [] h = refl
filter-nil t (x ∷ xs) h = rw (h x) (filter-nil t xs h)

pub flat_map-nil {ℓ κ} :
    {A : Type ℓ} {B : Type κ} (f : A → List B) (xs : List A)
    → ((x : A) → In x xs → f x ≡ [])
    → flat_map f xs ≡ []
flat_map-nil f [] h = refl
flat_map-nil f (x ∷ xs) h = rw (h x (here refl)) (flat_map-nil f xs (λ y m. h y (there m)))
