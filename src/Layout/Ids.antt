-- ===== src/Layout/Ids.antt =====
-- packages/ketjs/src/kernel/layout.ts: what `placementIdErrors` finds nothing wrong with.
use ketjs.Common.{
  ℕ, String, false, ◌≡◌, refl, inl, inr, Option, none, some, List, [], ◌∷◌, str_eq_sym, includes,
  All, append-eq-nil, Bool-cases, arith,
}
use ketjs.Layout.Json.{Json}
use ketjs.Layout.Tree.{Visit, Placements, walk_placements}
use ketjs.Layout.Identity.{
  placement_id, id_of, id_error, check_id, visit_id, id_errors, placement_id_errors,
}
use ketjs.Layout.Identified.{HasId}

abbrev add : Option String → List String → List String
add none ids = ids
add (some id) ids = id ∷ ids

-- The ids of the placements of a walk.
abbrev pub ids_of : List Visit → List String
ids_of [] = []
ids_of (v ∷ vs) = add (placement_id (id_of v.placement)) (ids_of vs)

abbrev pub AreDistinct : List String → Type 0
AreDistinct [] = Unit
AreDistinct (x ∷ xs) = (includes xs x ≡ false) × AreDistinct xs

-- An id that is there is one.
abbrev pub IsValidId : Option Json → Type 0
IsValidId none = Unit
IsValidId (some json) = HasId (some json)

abbrev Unseen : List String → List String → Type 0
Unseen seen ids = All (λ id. includes seen id ≡ false) ids

includes-Unseen :
    (x : String) (seen ids : List String) → Unseen (x ∷ seen) ids → includes ids x ≡ false
includes-Unseen x seen [] h = refl
includes-Unseen x seen (y ∷ ids) h =
    ground (arith, h.0, str_eq_sym x y, includes-Unseen x seen ids h.1)

Unseen-tail : (x : String) (seen ids : List String) → Unseen (x ∷ seen) ids → Unseen seen ids
Unseen-tail x seen [] h = tt
Unseen-tail x seen (y ∷ ids) h = (ground (arith, h.0), Unseen-tail x seen ids h.1)

abbrev Found : List String → List Visit → Type 0
Found seen vs =
    All (λ v. IsValidId (id_of v.placement)) vs × Unseen seen (ids_of vs) × AreDistinct (ids_of vs)

check-Found :
    (v : Visit) (seen : List String) (vs : List Visit) (json : Json) (o : Option String)
    → id_of v.placement ≡ some json
    → placement_id (some json) ≡ o
    → (check_id v seen o).0 ≡ []
    → Found (check_id v seen o).1 vs
    → Found seen (v ∷ vs)
unfolding check_id id_error
check-Found v seen vs json none e n h f = cc
check-Found v seen vs json (some id) e n h f =
    rw (e, n)
      (
        ((id, refl), f.0),
        (fresh, Unseen-tail id seen (ids_of vs) f.1),
        (includes-Unseen id seen (ids_of vs) f.1, f.2),
      )
  where
    fresh : includes seen id ≡ false
    fresh = elim (Bool-cases (includes seen id)) [ inl c ↦ cc (rw c at h) | inr c ↦ c ]

visit-Found :
    (v : Visit) (seen : List String) (vs : List Visit) (o : Option Json)
    → id_of v.placement ≡ o
    → (visit_id v seen o).0 ≡ []
    → Found (visit_id v seen o).1 vs
    → Found seen (v ∷ vs)
unfolding visit_id placement_id
visit-Found v seen vs none e h f = rw e ((tt, f.0), f.1, f.2)
visit-Found v seen vs (some json) e h f = check-Found v seen vs json _ e refl h f

errors-Found : (seen : List String) (vs : List Visit) → id_errors seen vs ≡ [] → Found seen vs
unfolding id_errors
errors-Found seen [] h = (tt, tt, tt)
errors-Found seen (v ∷ vs) h =
    let (e, k) = append-eq-nil (visit_id v seen (id_of v.placement)).0 _ h in
    visit-Found v seen vs (id_of v.placement) refl e
      (errors-Found (visit_id v seen (id_of v.placement)).1 vs k)

-- In a layout without id errors every id that is there is a placement id, and no two placements, at
-- any depth, have the same.
pub placement_id_errors-AreDistinct :
    (show : ℕ → String) (layout : Placements)
    → placement_id_errors show layout ≡ []
    → All (λ v. IsValidId (id_of v.placement)) (walk_placements show "" 0 layout)
      × AreDistinct (ids_of (walk_placements show "" 0 layout))
unfolding placement_id_errors
placement_id_errors-AreDistinct show layout h =
    let f = errors-Found [] (walk_placements show "" 0 layout) h in (f.0, f.2)
