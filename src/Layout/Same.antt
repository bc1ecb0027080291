-- ===== src/Layout/Same.antt =====
-- packages/ketjs/src/kernel/layout.ts: what it means that two layouts have no difference.
use ketjs.Common.{String, Bool, ◌≡◌, Option, none, some, List}
use ketjs.Layout.Json.{Json}
use ketjs.Layout.Tree.{Visit}
use ketjs.Layout.Changes.{type_at, settings_at, setting_text}

module _ (quote : String → String) (text_le : String → String → Bool) where
  -- The same settings, as JSON says them.
  unfoldable pub SameSettings : List (String × Json) → List (String × Json) → Type 0
  SameSettings a b =
      (name : String) → setting_text quote text_le name a ≡ setting_text quote text_le name b

  -- The same section with the same settings at the same position, or nothing in both.
  abbrev pub SameAt : Option Visit → Option Visit → Type 0
  SameAt none none = Unit
  SameAt (some v) (some w) =
      (type_at v.placement ≡ type_at w.placement)
      × SameSettings (settings_at v.placement) (settings_at w.placement)
      × (v.path ≡ w.path)
  SameAt _ _ = ⊥
