-- ===== src/Layout/Identified.antt =====
-- packages/ketjs/src/kernel/layout.ts: what `withPlacementIds` gives.
use Prim.Native.String.{slice}
use ketjs.Common.{ℕ, String, Bool, true, ◌≡◌, refl, Option, none, some, [], ◌∷◌, template}
use ketjs.Layout.Json.{Json, text}
use ketjs.Layout.Tree.{
  Head, Placement, Placements, Slots, malformed, placed, no_placements, also, no_slots, slot,
}
use ketjs.Layout.Identity.{
  Seen, is_id_text, placement_id, derived_id, identify, with_placement_ids, with_placement_id,
  with_slot_ids,
}

abbrev pub HasId : Option Json → Type 0
HasId o = (id : String) × (placement_id o ≡ some id)

-- An id that is one is kept.
abbrev pub KeepsId : Option Json → Option Json → Type 0
KeepsId before after = (id : String) → placement_id before ≡ some id → placement_id after ≡ some id

unfoldable mutual
  -- Every placement of an object has an id, at any depth.
  pub AllIdentified : Placements → Type 0
  AllIdentified no_placements = Unit
  AllIdentified (also p ps) = IsIdentified p × AllIdentified ps

  pub IsIdentified : Placement → Type 0
  IsIdentified malformed = Unit
  IsIdentified (placed h slots) = HasId h.id × SlotsIdentified slots

  pub SlotsIdentified : Slots → Type 0
  SlotsIdentified no_slots = Unit
  SlotsIdentified (slot name children slots) = AllIdentified children × SlotsIdentified slots

unfoldable mutual
  -- The same tree, but for ids that the first did not have.
  pub KeepsAll : Placements → Placements → Type 0
  KeepsAll no_placements no_placements = Unit
  KeepsAll (also p ps) (also q qs) = Keeps p q × KeepsAll ps qs
  KeepsAll _ _ = ⊥

  pub Keeps : Placement → Placement → Type 0
  Keeps malformed malformed = Unit
  Keeps (placed h slots) (placed g rooms) =
      (h.type ≡ g.type) × (h.settings ≡ g.settings) × KeepsId h.id g.id × KeepsSlots slots rooms
  Keeps _ _ = ⊥

  pub KeepsSlots : Slots → Slots → Type 0
  KeepsSlots no_slots no_slots = Unit
  KeepsSlots (slot name ps slots) (slot other qs rooms) =
      (name ≡ other) × KeepsAll ps qs × KeepsSlots slots rooms
  KeepsSlots _ _ = ⊥

module _ (quote : String → String) (text_le : String → String → Bool) (show : ℕ → String)
    (digest : String → String) where
  identify-Keeps :
      (h : Head) (slots below : Slots) (seen : Seen) (o : Option String)
      → placement_id h.id ≡ o
      → KeepsSlots slots below
      → Keeps (placed h slots) (identify quote text_le show digest o h below seen).0
  unfolding identify Keeps
  identify-Keeps h slots below seen none e k = (refl, refl, (λ id f. cc), k)
  identify-Keeps h slots below seen (some id) e k = (refl, refl, (λ other f. f), k)

  mutual
    unfolding with_placement_ids with_placement_id with_slot_ids identify KeepsAll Keeps KeepsSlots

    with_placement_ids-KeepsAll :
        (ps : Placements) (seen : Seen)
        → KeepsAll ps (with_placement_ids quote text_le show digest ps seen).0
    with_placement_ids-KeepsAll no_placements seen = tt
    with_placement_ids-KeepsAll (also p ps) seen =
        (with_placement_id-Keeps p seen, with_placement_ids-KeepsAll ps _)

    with_placement_id-Keeps :
        (p : Placement) (seen : Seen)
        → Keeps p (with_placement_id quote text_le show digest p seen).0
    with_placement_id-Keeps malformed seen = tt
    with_placement_id-Keeps (placed h slots) seen =
        identify-Keeps h slots _ _ (placement_id h.id) refl (with_slot_ids-KeepsSlots slots seen)

    with_slot_ids-KeepsSlots :
        (slots : Slots) (seen : Seen)
        → KeepsSlots slots (with_slot_ids quote text_le show digest slots seen).0
    with_slot_ids-KeepsSlots no_slots seen = tt
    with_slot_ids-KeepsSlots (slot name children slots) seen =
        (refl, with_placement_ids-KeepsAll children seen, with_slot_ids-KeepsSlots slots _)

  module _ (digest-IsId : (s : String) → is_id_text (slice (digest s) 0 16) ≡ true) where
    derived-HasId :
        (print : String) (n : ℕ)
        → HasId (some (text (derived_id quote text_le show digest print n)))
    unfolding placement_id derived_id
    derived-HasId print n = (
      derived_id quote text_le show digest print n,
      rw (digest-IsId (template (print ∷ " " ∷ show n ∷ []))) refl,
    )

    identify-IsIdentified :
        (h : Head) (below : Slots) (seen : Seen) (o : Option String)
        → placement_id h.id ≡ o
        → SlotsIdentified below
        → IsIdentified (identify quote text_le show digest o h below seen).0
    unfolding identify IsIdentified
    identify-IsIdentified h below seen none e k = (derived-HasId _ _, k)
    identify-IsIdentified h below seen (some id) e k = ((id, e), k)

    mutual
      unfolding with_placement_ids with_placement_id with_slot_ids identify AllIdentified
          IsIdentified SlotsIdentified

      with_placement_ids-AllIdentified :
          (ps : Placements) (seen : Seen)
          → AllIdentified (with_placement_ids quote text_le show digest ps seen).0
      with_placement_ids-AllIdentified no_placements seen = tt
      with_placement_ids-AllIdentified (also p ps) seen =
          (with_placement_id-IsIdentified p seen, with_placement_ids-AllIdentified ps _)

      with_placement_id-IsIdentified :
          (p : Placement) (seen : Seen)
          → IsIdentified (with_placement_id quote text_le show digest p seen).0
      with_placement_id-IsIdentified malformed seen = tt
      with_placement_id-IsIdentified (placed h slots) seen =
          identify-IsIdentified h _ _ (placement_id h.id) refl
            (with_slot_ids-SlotsIdentified slots seen)

      with_slot_ids-SlotsIdentified :
          (slots : Slots) (seen : Seen)
          → SlotsIdentified (with_slot_ids quote text_le show digest slots seen).0
      with_slot_ids-SlotsIdentified no_slots seen = tt
      with_slot_ids-SlotsIdentified (slot name children slots) seen =
          (with_placement_ids-AllIdentified children seen, with_slot_ids-SlotsIdentified slots _)

    -- Every placement of the result has an id; nothing else of the layout changes, and an id that
    -- was there is kept, when sixteen characters of a digest make an id.
    pub with_placement_ids-AllIdentified_Keeps :
        (layout : Placements) (seen : Seen)
        → AllIdentified (with_placement_ids quote text_le show digest layout seen).0
          × KeepsAll layout (with_placement_ids quote text_le show digest layout seen).0
    with_placement_ids-AllIdentified_Keeps layout seen =
        (with_placement_ids-AllIdentified layout seen, with_placement_ids-KeepsAll layout seen)

  mutual
    unfolding with_placement_ids with_placement_id with_slot_ids identify AllIdentified IsIdentified
        SlotsIdentified

    identified_unchanged :
        (ps : Placements) (seen : Seen)
        → AllIdentified ps
        → with_placement_ids quote text_le show digest ps seen ≡ (ps, seen)
    identified_unchanged no_placements seen h = refl
    identified_unchanged (also p ps) seen h =
        rw (placement_unchanged p seen h.0, identified_unchanged ps seen h.1) refl

    placement_unchanged :
        (p : Placement) (seen : Seen)
        → IsIdentified p
        → with_placement_id quote text_le show digest p seen ≡ (p, seen)
    placement_unchanged malformed seen h = refl
    placement_unchanged (placed h slots) seen ((id, e), k) =
        rw (slots_unchanged slots seen k, e) refl

    slots_unchanged :
        (slots : Slots) (seen : Seen)
        → SlotsIdentified slots
        → with_slot_ids quote text_le show digest slots seen ≡ (slots, seen)
    slots_unchanged no_slots seen h = refl
    slots_unchanged (slot name children slots) seen h =
        rw (identified_unchanged children seen h.0, slots_unchanged slots seen h.1) refl

  -- What it has identified it leaves as it is, whatever it has seen by then, when sixteen
  -- characters of a digest make an id.
  pub with_placement_ids_idempotent :
      ((s : String) → is_id_text (slice (digest s) 0 16) ≡ true)
      → (layout : Placements) (seen later : Seen)
      → with_placement_ids quote text_le show digest
          (with_placement_ids quote text_le show digest layout seen).0
          later
        ≡ ((with_placement_ids quote text_le show digest layout seen).0, later)
  with_placement_ids_idempotent ids layout seen later =
      identified_unchanged _ later (with_placement_ids-AllIdentified ids layout seen)
