-- ===== src/Session/Record.antt =====
-- packages/ketjs/src/server/sessionstore.ts: what a session carries. An absent and a null value are
-- one; the JSON text of a list of ids in a row is the list.
use ketjs.Common.{
  ℕ, ◌+◌, String, Bool, true, false, ◌&&◌, Option, none, some, List, [], ◌∷◌, str_eq, ltb, ◌==◌,
  if◌then◌else◌,
}
use ketjs.Diff.Item.{option_eq}

pub record SessionRecord : Type 0 where
  pub id : String
  pub tenant : Option String
  pub user_id : String
  pub companies : List String
  pub company : Option String
  pub branch : Option String
  pub branches : Option (List String)
  pub security_version : ℕ
  pub revision : ℕ
  pub created_at : ℕ
  pub expires_at : ℕ

pub record SessionContext : Type 0 where
  pub companies : List String
  pub company : Option String
  pub branches : Option (List String)
  pub branch : Option String
  pub security_version : ℕ

-- `sameIds` on two lists, and on two that may be null.
abbrev pub same_list : List String → List String → Bool
same_list [] [] = true
same_list (x ∷ xs) (y ∷ ys) = str_eq x y && same_list xs ys
same_list _ _ = false

abbrev pub same_ids : Option (List String) → Option (List String) → Bool
same_ids none none = true
same_ids (some a) (some b) = same_list a b
same_ids _ _ = false

unfoldable pub same_session_context : SessionContext → SessionContext → Bool
same_session_context a b =
    option_eq a.company b.company
    && (option_eq a.branch b.branch
        && (a.security_version == b.security_version
            && (same_list a.companies b.companies && same_ids a.branches b.branches)))

abbrev pub alive : SessionRecord → ℕ → Bool
alive r now = ltb now r.expires_at

-- `{ ...r, ...context, revision: r.revision + 1 }`
abbrev pub in_context : SessionContext → SessionRecord → SessionRecord
in_context c r = record r {
  companies = c.companies;
  company = c.company;
  branch = c.branch;
  branches = c.branches;
  security_version = c.security_version;
  revision = r.revision + 1;
}

-- The newest first, with the rows of one instant in the order of the store.
abbrev pub newer : SessionRecord → SessionRecord → Bool
newer a b = elim (ltb a.created_at b.created_at) [ true ↦ false | false ↦ true ]

-- A session that still lives at an instant.
abbrev pub live : ℕ → Option SessionRecord → Option SessionRecord
live at none = none
live at (some r) = if alive r at then some r else none
