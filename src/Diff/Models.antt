-- ===== src/Diff/Models.antt =====
-- packages/ketjs/src/kernel/diff.ts: joints, models and their fields.
use ketjs.Common.{
  String, ◌&&◌, ◌||◌, not, none, some, List, [], ◌∷◌, ◌++◌, map, flat_map, str_eq, if◌then◌else◌,
  is_empty, filter, includes, lookup, template, join,
}
use ketjs.Manifest.{Manifest, Model, Field, Fill, View}
use ketjs.Diff.Item.{DiffItem, breaking, risky, push, base_text, scope_text, option_eq, bool_eq}

unfoldable pub joint_items : Manifest → String → List DiffItem
joint_items after key =
    let users = map (λ (f : Fill). f.by) (filter (λ (f : Fill). str_eq f.joint key) after.fills) in
    if includes after.joints key
    then []
    else push breaking "JOINT_REMOVED" (template ("joint \"" ∷ key ∷ "\" was removed" ∷ [])) (
        some (
          if is_empty users
          then "no composed module fills it - safe to proceed"
          else template ("still filled by: " ∷ join ", " users ∷ [])))

-- `[...new Set(xs)]`: the first occurrence of each.
unfoldable pub unique_from : List String → List String → List String
unique_from seen [] = []
unique_from seen (x ∷ xs) =
    let kept = unique_from (x ∷ seen) xs in
    let rest = unique_from seen xs in if includes seen x then rest else x ∷ kept

unfoldable pub field_removed : Manifest → String → String → Field → List DiffItem
field_removed after mkey fname f =
    let readers =
      map (λ (e : String × View). e.0)
        (filter (λ (e : String × View). str_eq e.1.of mkey && includes e.1.fields fname)
          after.views) in
    push breaking "FIELD_REMOVED"
      (template
        ("field \"" ∷ mkey ∷ "." ∷ fname ∷ "\" (contributed by " ∷ f.by ∷ ") was removed" ∷ []))
      (some (
        if is_empty readers
        then "no view reads it, but existing rows lose the column"
        else template ("read by view(s): " ∷ join ", " readers ∷ " - data loss on migrate" ∷ [])))

-- The chain of `else if` for a field that both manifests have.
unfoldable pub field_changed : String → String → Field → Field → List DiffItem
field_changed mkey fname f af =
    let name = template ("field \"" ∷ mkey ∷ "." ∷ fname ∷ "\"" ∷ []) in
    if not (str_eq (base_text af.base) (base_text f.base)) || not (option_eq af.target f.target)
    then push breaking "FIELD_TYPE_CHANGED"
        (template (name ∷ " changed " ∷ base_text f.base ∷ " -> " ∷ base_text af.base ∷ []))
        (some "write an explicit data migration")
    else if f.optional && not af.optional
    then push risky "FIELD_NOW_REQUIRED" (template (name ∷ " became required" ∷ []))
        (some "existing NULL rows violate it - backfill first")
    else if not (bool_eq f.sensitive af.sensitive)
    then push risky "FIELD_SENSITIVITY_CHANGED"
        (template
          (name ∷ " is " ∷ (if af.sensitive then "now" else "no longer") ∷ " sensitive" ∷ []))
        (some (
          if af.sensitive
          then "values already written to write records and idempotency rows are not masked retroactively"
          else "its values will now reach write records, the agent descriptor and dry-run previews"))
    else if not (bool_eq f.personal af.personal)
    then push risky "FIELD_CLASSIFICATION_CHANGED"
        (template
          (name ∷ " is " ∷ (if af.personal then "now" else "no longer") ∷ " personal data" ∷ []))
        (some (
          if af.personal
          then "existing rows are in scope for export and erasure from this version on"
          else "check that the obligation really ended rather than the declaration being dropped"))
    else []

unfoldable pub field_items : Manifest → String → Model → String × Field → List DiffItem
field_items after mkey amodel (fname, f) = elim (lookup fname amodel.fields) [
  | none ↦ field_removed after mkey fname f
  | some af ↦ field_changed mkey fname f af
]

unfoldable pub model_removed : String → Model → List DiffItem
model_removed mkey bmodel =
    let extenders = unique_from [] (
      map (λ (e : String × Field). e.1.by)
        (filter (λ (e : String × Field). not (str_eq e.1.by bmodel.owner)) bmodel.fields)) in
    push breaking "MODEL_REMOVED" (template ("model \"" ∷ mkey ∷ "\" was removed" ∷ [])) (
      some (
        if is_empty extenders
        then "no module extends it"
        else template ("extended by: " ∷ join ", " extenders ∷ [])))

unfoldable pub scope_items : String → Model → Model → List DiffItem
scope_items mkey bmodel amodel =
    if str_eq (scope_text amodel.scope) (scope_text bmodel.scope)
    then []
    else push breaking "MODEL_SCOPE_CHANGED"
        (template (
          "model \""
          ∷ mkey
          ∷ "\" moved from "
          ∷ scope_text bmodel.scope
          ∷ " to "
          ∷ scope_text amodel.scope
          ∷ []))
        (some "existing rows carry the old shape; widening leaks and narrowing hides data")

unfoldable pub append_items : String → Model → Model → List DiffItem
append_items mkey bmodel amodel =
    if bool_eq amodel.append bmodel.append
    then []
    else push risky "MODEL_APPEND_CHANGED"
        (template (
          "model \""
          ∷ mkey
          ∷ "\" is "
          ∷ (if amodel.append then "now" else "no longer")
          ∷ " append-only"
          ∷ []))
        (some (
          if amodel.append
          then "code that updated these rows will now be refused at runtime"
          else "a record whose value was that it never changed can now be edited"))

unfoldable pub model_items : Manifest → String × Model → List DiffItem
model_items after (mkey, bmodel) = elim (lookup mkey after.models) [
  | none ↦ model_removed mkey bmodel
  | some amodel ↦
      scope_items mkey bmodel amodel
      ++ (append_items mkey bmodel amodel ++ flat_map (field_items after mkey amodel) bmodel.fields)
]
