-- ===== src/Diff/Functions.antt =====
-- packages/ketjs/src/kernel/diff.ts: server functions, and the grants that widen.
use ketjs.Common.{
  String, ◌&&◌, ◌||◌, not, none, some, List, [], ◌∷◌, ◌++◌, flat_map, str_eq, if◌then◌else◌,
  is_empty, filter, includes, lookup, has_key, template, join, starts_with, ends_with,
}
use ketjs.Manifest.{Manifest, Function}
use ketjs.Diff.Item.{DiffItem, breaking, risky, push, option_eq, bool_eq, is_http}

unfoldable pub quoted : String → String → String
quoted key rest = template ("\"" ∷ key ∷ "\"" ∷ rest ∷ [])

-- An input that callers send and that is no longer there.
unfoldable pub input_removed : String → Function → String × String → List DiffItem
input_removed fkey afn (arg, t) =
    if has_key arg afn.input
    then []
    else push breaking "INPUT_REMOVED"
        (quoted fkey (template (" no longer accepts input \"" ∷ arg ∷ "\"" ∷ []))) none

-- A new input that is not optional.
unfoldable pub input_added : String → Function → String × String → List DiffItem
input_added fkey bfn (arg, t) =
    if not (has_key arg bfn.input) && not (ends_with t "?")
    then push breaking "INPUT_ADDED_REQUIRED"
        (quoted fkey (template (" gained required input \"" ∷ arg ∷ "\"" ∷ [])))
        (some (template ("make it optional (\"" ∷ t ∷ "?\") to stay compatible" ∷ [])))
    else []

unfoldable pub returns_items : String → Function → Function → List DiffItem
returns_items fkey bfn afn = elim (bfn.returns) [
  | none ↦ []
  | some r ↦
      if option_eq afn.returns (some r)
      then []
      else push breaking "RETURNS_CHANGED"
          (quoted fkey (
            template (
              " returned "
              ∷ r
              ∷ " and now "
              ∷ (elim (afn.returns) [
                | none ↦ "does not declare it"
                | some s ↦ template ("returns " ∷ s ∷ [])
              ])
              ∷ [])))
          (some
            "clients and HTTP contracts read one row, a nullable row, a list or nothing from it")
]

unfoldable pub contract_items : String → Function → Function → List DiffItem
contract_items fkey bfn afn =
    (if bfn.idempotent && not afn.idempotent
      then push risky "IDEMPOTENCY_LOST" (quoted fkey " is no longer idempotent")
          (some "agent retries may double-apply it")
      else [])
    ++ ((if bool_eq bfn.transactional afn.transactional
          then []
          else push breaking "FUNCTION_TRANSACTION_CHANGED"
              (quoted fkey " changed its transactional execution contract")
              (some
                "transactional execution requires a key and commits the receipt with database writes"))
        ++ (if is_http bfn.exposure && not (is_http afn.exposure)
            then push breaking "FUNCTION_HTTP_REMOVED"
                (template
                  ("server function " ∷ quoted fkey " is no longer exposed over generic HTTP" ∷ []))
                (some "move callers behind the trusted route that owns this internal function")
            else []))

-- The effects that a function gained and that change something.
unfoldable pub gained_effects : Function → Function → List String
gained_effects bfn afn =
    filter
      (λ effect.
        (starts_with effect "write:" || starts_with effect "enqueue:")
        && not (includes bfn.effects effect))
      afn.effects

unfoldable pub access_items : String → Function → Function → List DiffItem
access_items fkey bfn afn =
    (if not bfn.cross_company && afn.cross_company
      then push risky "CROSS_COMPANY_GAINED" (quoted fkey " now reads across legal entities")
          (some "the company filter no longer applies to it — confirm that is intended")
      else [])
    ++ ((if not bfn.anonymous && afn.anonymous
          then push risky "ANONYMOUS_GAINED" (quoted fkey " can now be called without signing in")
              none
          else [])
        ++ ((if not (is_http bfn.exposure) && is_http afn.exposure
              then push risky "FUNCTION_HTTP_EXPOSED"
                  (template
                    ("server function " ∷ quoted fkey " is now exposed over generic HTTP" ∷ []))
                  none
              else [])
            ++ ((if not bfn.agent && afn.agent
                  then push risky "AGENT_GAINED" (quoted fkey " is now offered to agents as a tool")
                      none
                  else [])
                ++ (if is_empty (gained_effects bfn afn)
                    then []
                    else push risky "EFFECTS_WIDENED"
                        (quoted fkey
                          (template (" can now " ∷ join ", " (gained_effects bfn afn) ∷ [])))
                        (some "everyone already granted this function gains these writes")))))

unfoldable pub risk_items : Manifest → Manifest → String → List DiffItem
risk_items before after fkey = elim (lookup fkey before.permissions.risks) [
  | none ↦ []
  | some brisk ↦ elim (lookup fkey after.permissions.risks) [
    | none ↦ []
    | some arisk ↦
        if str_eq brisk arisk
        then []
        else push risky "PERMISSION_RISK_CHANGED"
            (quoted fkey (template (" is now classified " ∷ arisk ∷ " risk, was " ∷ brisk ∷ [])))
            none
  ]
]

unfoldable pub function_items : Manifest → Manifest → String × Function → List DiffItem
function_items before after (fkey, bfn) = elim (lookup fkey after.functions) [
  | none ↦
      push breaking "FUNCTION_REMOVED"
        (template ("server function " ∷ quoted fkey " was removed" ∷ []))
        (some "callers and agent tools break")
  | some afn ↦
      flat_map (input_removed fkey afn) bfn.input
      ++ (flat_map (input_added fkey bfn) afn.input
          ++ (returns_items fkey bfn afn
              ++ (contract_items fkey bfn afn
                  ++ (access_items fkey bfn afn ++ risk_items before after fkey))))
]

-- A function that is new and open to everybody.
unfoldable pub added_items : Manifest → String × Function → List DiffItem
added_items before (fkey, afn) =
    if has_key fkey before.functions || not afn.anonymous
    then []
    else push risky "FUNCTION_ADDED_ANONYMOUS"
        (template ("new server function " ∷ quoted fkey " can be called without signing in" ∷ []))
        none

-- `widened`, for one bundle or role template.
unfoldable pub widened_items :
    String → String → List (String × List String) → String × List String → List DiffItem
widened_items code kind before_set (key, next) = elim (lookup key before_set) [
  | none ↦ []
  | some previous ↦
      let added = filter (λ fn. not (includes previous fn)) next in
      if is_empty added
      then []
      else push risky code (template (kind ∷ " \"" ∷ key ∷ "\" now grants " ∷ join ", " added ∷ []))
          (some "every role holding it gains these")
]
