-- ===== src/Diff/Item.antt =====
-- packages/ketjs/src/kernel/diff.ts: the items of a diff, and comparisons of manifest values.
use ketjs.Common.{ℕ, String, Bool, true, false, Option, none, some, List, [], ◌∷◌, str_eq}
use ketjs.Manifest.{
  FieldBase, id, text, int, float, decimal, bool, json, date, datetime, ref, ModelScope, shared,
  company, company_branch, Exposure, http, internal,
}

pub data Severity : Type 0 where
  breaking risky safe : Severity

pub record DiffItem : Type 0 where
  pub severity : Severity
  pub code : String
  pub message : String
  pub hint : Option String

-- `push`, as a list of one item, so that the pushes of a loop are concatenated.
abbrev pub push : Severity → String → String → Option String → List DiffItem
push severity code message hint =
    record { severity = severity; code = code; message = message; hint = hint } ∷ []

-- The order of the final sort.
abbrev pub rank : Severity → ℕ
rank breaking = 0
rank risky = 1
rank safe = 2

-- The strings that the program itself compares.
abbrev pub base_text : FieldBase → String
base_text id = "id"
base_text text = "text"
base_text int = "int"
base_text float = "float"
base_text decimal = "decimal"
base_text bool = "bool"
base_text json = "json"
base_text date = "date"
base_text datetime = "datetime"
base_text ref = "ref"

abbrev pub scope_text : ModelScope → String
scope_text shared = "shared"
scope_text company = "company"
scope_text company_branch = "company+branch"

abbrev pub is_http : Exposure → Bool
is_http http = true
is_http internal = false

-- `===` on optional strings and on booleans.
abbrev pub option_eq : Option String → Option String → Bool
option_eq none none = true
option_eq (some a) (some b) = str_eq a b
option_eq _ _ = false

abbrev pub bool_eq : Bool → Bool → Bool
bool_eq true b = b
bool_eq false true = false
bool_eq false false = true
