-- ===== src/Diff/Compatible.antt =====
-- packages/ketjs/src/kernel/diff.ts: what a diff without a breaking item guarantees. The upgraded
-- manifest is described by what the clients of the old one rely on.
use ketjs.Common.{
  String, Bool, true, false, ◌≡◌, refl, sym, ◌∙◌, ◌⊎◌, inl, inr, Option, none, some, ◌++◌, flat_map,
  str_eq, eq_iff, Bool-cases, Option-cases, includes, lookup, has_key, ends_with, arith, All,
  All-In, All-map, All-of_In, All-append_split, All-flat_map, In-sort_by,
}
use ketjs.Manifest.{Manifest, Model, Field, Function, BackgroundJob, Report}
use ketjs.Diff.Item.{
  Severity, DiffItem, breaking, base_text, scope_text, option_eq, bool_eq, is_http,
}
use ketjs.Diff.Models.{
  joint_items, field_removed, field_changed, field_items, model_removed, scope_items, append_items,
  model_items,
}
use ketjs.Diff.Functions.{
  input_removed, input_added, returns_items, contract_items, function_items, added_items,
  widened_items,
}
use ketjs.Diff.Surface.{
  job_input_removed, job_input_added, job_items, report_items, region_items, all_items, item_le,
  diff_manifests,
}

abbrev pub is_breaking : Severity → Bool
is_breaking breaking = true
is_breaking _ = false

abbrev pub NotBreaking : DiffItem → Type 0
NotBreaking i = is_breaking i.severity ≡ false

-- Every row that the old field could hold has the same type in the new one.
abbrev pub KeepsField : Model → String × Field → Type 0
KeepsField am (name, f) =
    (af : Field) × (lookup name am.fields ≡ some af)
    × (base_text af.base ≡ base_text f.base)
    × (af.target ≡ f.target)

abbrev pub KeepsModel : Manifest → String × Model → Type 0
KeepsModel after (key, m) =
    (am : Model) × (lookup key after.models ≡ some am)
    × (scope_text am.scope ≡ scope_text m.scope)
    × All (KeepsField am) m.fields

-- The function is there, takes every input name that it took, requires no new one, keeps what it
-- declares to return and its transaction, and stays reachable over HTTP. The types of inputs are not
-- compared.
abbrev pub KeepsFunction : Manifest → String × Function → Type 0
KeepsFunction after (key, f) =
    (af : Function) × (lookup key after.functions ≡ some af)
    × All (λ (e : String × String). has_key e.0 af.input ≡ true) f.input
    × All (λ (e : String × String). (has_key e.0 f.input ≡ true) ⊎ (ends_with e.1 "?" ≡ true))
        af.input
    × ((f.returns ≡ none) ⊎ (af.returns ≡ f.returns))
    × (f.transactional ≡ af.transactional)
    × (is_http f.exposure ≡ true → is_http af.exposure ≡ true)

abbrev pub KeepsJob : Manifest → String × BackgroundJob → Type 0
KeepsJob after (key, j) =
    (aj : BackgroundJob) × (lookup key after.jobs ≡ some aj)
    × All (λ (e : String × String). has_key e.0 aj.input ≡ true) j.input
    × All (λ (e : String × String). (has_key e.0 j.input ≡ true) ⊎ (ends_with e.1 "?" ≡ true))
        aj.input

abbrev pub KeepsReport : Manifest → String × Report → Type 0
KeepsReport after (key, r) =
    (ar : Report) × (lookup key after.reports ≡ some ar) × (ar.target ≡ r.target)

pub record Compatible (before after : Manifest) : Type 0 where
  pub joints : All (λ key. includes after.joints key ≡ true) before.joints
  pub models : All (KeepsModel after) before.models
  pub functions : All (KeepsFunction after) before.functions
  pub jobs : All (KeepsJob after) before.jobs
  pub reports : All (KeepsReport after) before.reports
  pub regions :
      All
        (λ r.
          (includes after.provided_regions r ≡ true) ⊎ (includes after.required_regions r ≡ false))
        before.provided_regions

option_eq-path : (a b : Option String) → option_eq a b ≡ true → a ≡ b
option_eq-path none none h = refl
option_eq-path none (some b) h = cc
option_eq-path (some a) none h = cc
option_eq-path (some a) (some b) h = ground (arith, eq_iff a b)

bool_eq-path : (a b : Bool) → bool_eq a b ≡ true → a ≡ b
bool_eq-path true b h = ground arith
bool_eq-path false true h = cc
bool_eq-path false false h = refl

field_changed_kept :
    (mkey name : String) (f af : Field)
    → All NotBreaking (field_changed mkey name f af)
    → (base_text af.base ≡ base_text f.base) × (af.target ≡ f.target)
unfolding field_changed
field_changed_kept mkey name f af h =
    elim (Bool-cases (str_eq (base_text af.base) (base_text f.base))) [
      | inr e ↦ absurd (cc (rw e at h).0)
      | inl e ↦ elim (Bool-cases (option_eq af.target f.target)) [
        | inr k ↦ absurd (cc ((rw (e, k) at h).0))
        | inl k ↦ ((eq_iff _ _).0 e, option_eq-path af.target f.target k)
      ]
    ]

field_kept :
    (after : Manifest) (mkey : String) (am : Model) (e : String × Field)
    → All NotBreaking (field_items after mkey am e)
    → KeepsField am e
unfolding field_items field_removed
field_kept after mkey am (name, f) h = elim (Option-cases (lookup name am.fields)) [
  | inl e ↦ absurd (cc ((rw (e, field_items) at h).0))
  | inr (af, e) ↦
      let (base, target) = field_changed_kept mkey name f af (rw (e, field_items) at h) in
      (af, e, base, target)
]

scope_kept :
    (mkey : String) (m am : Model)
    → All NotBreaking (scope_items mkey m am)
    → scope_text am.scope ≡ scope_text m.scope
unfolding scope_items
scope_kept mkey m am h = elim (Bool-cases (str_eq (scope_text am.scope) (scope_text m.scope))) [
  | inl e ↦ (eq_iff _ _).0 e
  | inr e ↦ absurd (cc ((rw e at h).0))
]

model_kept :
    (after : Manifest) (e : String × Model)
    → All NotBreaking (model_items after e)
    → KeepsModel after e
unfolding model_items model_removed
model_kept after (key, m) h = elim (Option-cases (lookup key after.models)) [
  | inl e ↦ absurd (cc ((rw (e, model_items) at h).0))
  | inr (am, e) ↦
      let (scoped, rest) =
        All-append_split NotBreaking (scope_items key m am)
          (append_items key m am ++ flat_map (field_items after key am) m.fields)
          (rw (e, model_items) at h) in
      let (_, fields) = All-append_split NotBreaking (append_items key m am) _ rest in
      (
        am,
        e,
        scope_kept key m am scoped,
        All-map _ _ (λ f. field_kept after key am f) m.fields
            (All-flat_map NotBreaking (field_items after key am) m.fields fields),
      )
]

joint_kept :
    (after : Manifest) (key : String)
    → All NotBreaking (joint_items after key)
    → includes after.joints key ≡ true
unfolding joint_items
joint_kept after key h = elim (Bool-cases (includes after.joints key)) [
  | inl e ↦ e
  | inr e ↦ absurd (cc ((rw e at h).0))
]

input_kept :
    (fkey : String) (af : Function) (e : String × String)
    → All NotBreaking (input_removed fkey af e)
    → has_key e.0 af.input ≡ true
unfolding input_removed
input_kept fkey af (arg, t) h = elim (Bool-cases (has_key arg af.input)) [
  | inl e ↦ e
  | inr e ↦ absurd (cc ((rw e at h).0))
]

input_old_or_optional :
    (fkey : String) (f : Function) (e : String × String)
    → All NotBreaking (input_added fkey f e)
    → (has_key e.0 f.input ≡ true) ⊎ (ends_with e.1 "?" ≡ true)
unfolding input_added
input_old_or_optional fkey f (arg, t) h = elim (Bool-cases (has_key arg f.input)) [
  | inl e ↦ inl e
  | inr e ↦ elim (Bool-cases (ends_with t "?")) [
    | inl k ↦ inr k
    | inr k ↦ absurd (cc ((rw (e, k) at h).0))
  ]
]

returns_kept :
    (fkey : String) (f af : Function)
    → All NotBreaking (returns_items fkey f af)
    → (f.returns ≡ none) ⊎ (af.returns ≡ f.returns)
unfolding returns_items
returns_kept fkey f af h = elim (Option-cases f.returns) [
  | inl e ↦ inl e
  | inr (r, e) ↦ elim (Bool-cases (option_eq af.returns (some r))) [
    | inl k ↦ inr (option_eq-path af.returns (some r) k ∙ sym e)
    | inr k ↦ absurd (cc ((rw (e, k) at h).0))
  ]
]

contract_kept :
    (fkey : String) (f af : Function)
    → All NotBreaking (contract_items fkey f af)
    → (f.transactional ≡ af.transactional)
      × (is_http f.exposure ≡ true → is_http af.exposure ≡ true)
unfolding contract_items
contract_kept fkey f af h = ground (arith, bool_eq-path f.transactional af.transactional)

function_kept :
    (before after : Manifest) (e : String × Function)
    → All NotBreaking (function_items before after e)
    → KeepsFunction after e
unfolding function_items
function_kept before after (key, f) h = elim (Option-cases (lookup key after.functions)) [
  | inl e ↦ absurd (cc ((rw (e, function_items) at h).0))
  | inr (af, e) ↦
      let (removed, h₁) =
        All-append_split NotBreaking (flat_map (input_removed key af) f.input) _
          (rw (e, function_items) at h) in
      let (added, h₂) = All-append_split NotBreaking (flat_map (input_added key f) af.input) _ h₁ in
      let (returned, h₃) = All-append_split NotBreaking (returns_items key f af) _ h₂ in
      let (contract, h₄) = All-append_split NotBreaking (contract_items key f af) _ h₃ in
      let (same, exposed) = contract_kept key f af contract in
      (
        af,
        e,
        All-map _ _ (input_kept key af) f.input (All-flat_map NotBreaking _ f.input removed),
        All-map _ _ (input_old_or_optional key f) af.input
            (All-flat_map NotBreaking _ af.input added),
        returns_kept key f af returned,
        same,
        exposed,
      )
]

job_input_kept :
    (key : String) (aj : BackgroundJob) (e : String × String)
    → All NotBreaking (job_input_removed key aj e)
    → has_key e.0 aj.input ≡ true
unfolding job_input_removed
job_input_kept key aj (arg, t) h = elim (Bool-cases (has_key arg aj.input)) [
  | inl e ↦ e
  | inr e ↦ absurd (cc ((rw e at h).0))
]

job_input_old_or_optional :
    (key : String) (j : BackgroundJob) (e : String × String)
    → All NotBreaking (job_input_added key j e)
    → (has_key e.0 j.input ≡ true) ⊎ (ends_with e.1 "?" ≡ true)
unfolding job_input_added
job_input_old_or_optional key j (arg, t) h = elim (Bool-cases (has_key arg j.input)) [
  | inl e ↦ inl e
  | inr e ↦ elim (Bool-cases (ends_with t "?")) [
    | inl k ↦ inr k
    | inr k ↦ absurd (cc ((rw (e, k) at h).0))
  ]
]

job_kept :
    (after : Manifest) (e : String × BackgroundJob)
    → All NotBreaking (job_items after e)
    → KeepsJob after e
unfolding job_items
job_kept after (key, j) h = elim (Option-cases (lookup key after.jobs)) [
  | inl e ↦ absurd (cc ((rw (e, job_items) at h).0))
  | inr (aj, e) ↦
      let (removed, rest) =
        All-append_split NotBreaking (flat_map (job_input_removed key aj) j.input) _
          (rw (e, job_items) at h) in
      let (added, _) =
        All-append_split NotBreaking (flat_map (job_input_added key j) aj.input) _ rest in
      (
        aj,
        e,
        All-map _ _ (job_input_kept key aj) j.input (All-flat_map NotBreaking _ j.input removed),
        All-map _ _ (job_input_old_or_optional key j) aj.input
            (All-flat_map NotBreaking _ aj.input added),
      )
]

report_kept :
    (after : Manifest) (e : String × Report)
    → All NotBreaking (report_items after e)
    → KeepsReport after e
unfolding report_items
report_kept after (key, r) h = elim (Option-cases (lookup key after.reports)) [
  | inl e ↦ absurd (cc ((rw (e, report_items) at h).0))
  | inr (ar, e) ↦ elim (Bool-cases (str_eq r.target ar.target)) [
    | inl k ↦ (ar, e, sym ((eq_iff _ _).0 k))
    | inr k ↦ absurd (cc ((rw (e, k, report_items) at h).0))
  ]
]

region_kept :
    (after : Manifest) (r : String)
    → All NotBreaking (region_items after r)
    → (includes after.provided_regions r ≡ true) ⊎ (includes after.required_regions r ≡ false)
unfolding region_items
region_kept after r h = elim (Bool-cases (includes after.provided_regions r)) [
  | inl e ↦ inl e
  | inr e ↦ elim (Bool-cases (includes after.required_regions r)) [
    | inr k ↦ inr k
    | inl k ↦ absurd (cc ((rw (e, k) at h).0))
  ]
]

-- A diff with no breaking item means that the upgraded manifest keeps the joints, the models with
-- their scope and their fields, each of the same base type and target, the functions with the names
-- of their inputs, their declared result, transaction and HTTP exposure, the jobs with the names of
-- their inputs, the reports with their targets and the required regions; a new input of a function
-- or a job is optional. The type of an input that stays may change.
pub diff_manifests-Compatible :
    (before after : Manifest)
    → All NotBreaking (diff_manifests before after)
    → Compatible before after
unfolding diff_manifests all_items
diff_manifests-Compatible before after h =
    let unsorted =
      All-of_In NotBreaking (all_items before after)
        (λ i m. All-In NotBreaking (In-sort_by item_le m) h) in
    let (joints, h₁) =
      All-append_split NotBreaking (flat_map (joint_items after) before.joints) _ unsorted in
    let (models, h₂) =
      All-append_split NotBreaking (flat_map (model_items after) before.models) _ h₁ in
    let (functions, h₃) =
      All-append_split NotBreaking (flat_map (function_items before after) before.functions) _ h₂ in
    let (_, h₄) =
      All-append_split NotBreaking (flat_map (added_items before) after.functions) _ h₃ in
    let (_, h₅) =
      All-append_split NotBreaking
        (flat_map (widened_items "BUNDLE_WIDENED" "permission bundle" before.permissions.bundles)
          after.permissions.bundles)
        _ h₄ in
    let (_, h₆) =
      All-append_split NotBreaking
        (flat_map
          (widened_items "ROLE_TEMPLATE_WIDENED" "role template" before.permissions.role_templates)
          after.permissions.role_templates)
        _ h₅ in
    let (jobs, h₇) = All-append_split NotBreaking (flat_map (job_items after) before.jobs) _ h₆ in
    let (reports, h₈) =
      All-append_split NotBreaking (flat_map (report_items after) before.reports) _ h₇ in
    let (regions, _) =
      All-append_split NotBreaking (flat_map (region_items after) before.provided_regions) _ h₈ in
    record {
      joints = All-map _ _ (joint_kept after) _ (All-flat_map NotBreaking _ _ joints);
      models = All-map _ _ (model_kept after) _ (All-flat_map NotBreaking _ _ models);
      functions =
          All-map _ _ (function_kept before after) _ (All-flat_map NotBreaking _ _ functions);
      jobs = All-map _ _ (job_kept after) _ (All-flat_map NotBreaking _ _ jobs);
      reports = All-map _ _ (report_kept after) _ (All-flat_map NotBreaking _ _ reports);
      regions = All-map _ _ (region_kept after) _ (All-flat_map NotBreaking _ _ regions);
    }
