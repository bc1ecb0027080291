-- ===== src/Session/Views.antt =====
-- packages/ketjs/src/server/sessionstore.ts: what is alive of a record at an instant.
use ketjs.Common.{ℕ, ◌≤◌, Bool, true, ◌≡◌, refl, Option, none, some, kept, arith}
use ketjs.Session.Record.{SessionRecord, alive, live}

-- Dropping what is dead at an instant leaves what lives from then on.
pub live-kept :
    (p : SessionRecord → Bool) (now at : ℕ) (o : Option SessionRecord)
    → ((r : SessionRecord) → alive r now ≡ true → p r ≡ true)
    → now ≤ at
    → live at (kept p o) ≡ live at o
live-kept p now at none h le = refl
live-kept p now at (some r) h le = ground (arith, h r)

pub live-kept_comm :
    (p : SessionRecord → Bool) (at : ℕ) (o : Option SessionRecord)
    → live at (kept p o) ≡ kept p (live at o)
live-kept_comm p at none = refl
live-kept_comm p at (some r) = ground arith

pub alive_of :
    (at : ℕ) (o : Option SessionRecord) (r : SessionRecord)
    → live at o ≡ some r
    → (o ≡ some r) × (alive r at ≡ true)
alive_of at none r h = cc
alive_of at (some q) r h = ground (arith, h)
