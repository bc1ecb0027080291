-- ===== src/Diff/Surface.antt =====
-- packages/ketjs/src/kernel/diff.ts: jobs, reports, regions and patches, and `diffManifests`.
use ketjs.Common.{
  pad_end, spaces, join, map, Option, String, Bool, ◌&&◌, not, none, some, List, [], ◌∷◌, ◌++◌,
  flat_map, str_eq, leb, if◌then◌else◌, includes, lookup, has_key, template, ends_with, sort_by,
}
use ketjs.Manifest.{Manifest, BackgroundJob, Report, Patch}
use ketjs.Diff.Item.{Severity, DiffItem, safe, breaking, risky, push, rank}
use ketjs.Diff.Models.{joint_items, model_items}
use ketjs.Diff.Functions.{quoted, function_items, added_items, widened_items}

unfoldable pub job_input_removed : String → BackgroundJob → String × String → List DiffItem
job_input_removed key next (arg, t) =
    if has_key arg next.input
    then []
    else push breaking "JOB_INPUT_REMOVED"
        (quoted key (template (" no longer accepts input \"" ∷ arg ∷ "\"" ∷ []))) none

unfoldable pub job_input_added : String → BackgroundJob → String × String → List DiffItem
job_input_added key job (arg, type) =
    if not (has_key arg job.input) && not (ends_with type "?")
    then push breaking "JOB_INPUT_ADDED_REQUIRED"
        (quoted key (template (" gained required input \"" ∷ arg ∷ "\"" ∷ [])))
        (some "already-enqueued records do not carry it")
    else []

unfoldable pub job_items : Manifest → String × BackgroundJob → List DiffItem
job_items after (key, job) = elim (lookup key after.jobs) [
  | none ↦
      push breaking "JOB_REMOVED" (template ("background job " ∷ quoted key " was removed" ∷ []))
        (some "pending records will be discarded instead of running stale code")
  | some next ↦
      flat_map (job_input_removed key next) job.input
      ++ (flat_map (job_input_added key job) next.input
          ++ (if str_eq job.queue next.queue
              then []
              else push risky "JOB_QUEUE_CHANGED"
                  (quoted key (
                    template
                      (" moved from queue \"" ∷ job.queue ∷ "\" to \"" ∷ next.queue ∷ "\"" ∷ [])))
                  (some (
                    template (
                      "existing records remain in \"" ∷ job.queue ∷ "\" until drained or retried"
                      ∷ [])))))
]

unfoldable pub report_items : Manifest → String × Report → List DiffItem
report_items after (key, report) = elim (lookup key after.reports) [
  | none ↦
      push breaking "REPORT_REMOVED" (template ("report " ∷ quoted key " was removed" ∷ []))
        (some "saved templates and print actions no longer resolve")
  | some next ↦
      (if str_eq report.target next.target
        then []
        else push breaking "REPORT_TARGET_CHANGED"
            (template
              ("report " ∷ quoted key " moved from " ∷ report.target ∷ " to " ∷ next.target ∷ []))
            none)
      ++ (if str_eq report.source next.source
          then []
          else push risky "REPORT_SOURCE_CHANGED"
              (template (
                "report "
                ∷ quoted key " changed source from "
                ∷ report.source
                ∷ " to "
                ∷ next.source
                ∷ []))
              none)
]

unfoldable pub region_items : Manifest → String → List DiffItem
region_items after r =
    if not (includes after.provided_regions r) && includes after.required_regions r
    then push breaking "REGION_LOST"
        (template ("region " ∷ quoted r " is no longer provided by any theme" ∷ [])) none
    else []

unfoldable pub patch_items : Patch → List DiffItem
patch_items p =
    push risky "UNSAFE_PATCH"
      (template ("module " ∷ quoted p.by " unsafe-patches " ∷ quoted p.target "" ∷ []))
      (some (
        template
          ("declared reason: " ∷ p.reason ∷ ". The escape hatch is visible here on purpose." ∷ [])))

-- The items in the order in which they are pushed.
unfoldable pub all_items : Manifest → Manifest → List DiffItem
all_items before after =
    flat_map (joint_items after) before.joints
    ++ (flat_map (model_items after) before.models
        ++ (flat_map (function_items before after) before.functions
            ++ (flat_map (added_items before) after.functions
                ++ (flat_map
                      (widened_items "BUNDLE_WIDENED" "permission bundle"
                        before.permissions.bundles)
                      after.permissions.bundles
                    ++ (flat_map
                          (widened_items "ROLE_TEMPLATE_WIDENED" "role template"
                            before.permissions.role_templates)
                          after.permissions.role_templates
                        ++ (flat_map (job_items after) before.jobs
                            ++ (flat_map (report_items after) before.reports
                                ++ (flat_map (region_items after) before.provided_regions
                                    ++ flat_map patch_items after.patches))))))))

abbrev pub item_le : DiffItem → DiffItem → Bool
item_le a b = leb (rank a.severity) (rank b.severity)

unfoldable pub diff_manifests : Manifest → Manifest → List DiffItem
diff_manifests before after = sort_by item_le (all_items before after)

-- `i.severity.toUpperCase()`
abbrev severity_text : Severity → String
severity_text breaking = "BREAKING"
severity_text risky = "RISKY"
severity_text safe = "SAFE"

abbrev hint_line : Option String → String
hint_line none = ""
hint_line (some hint) =
    if str_eq hint "" then "" else template ("\n" ∷ spaces 32 ∷ "-> " ∷ hint ∷ [])

unfoldable pub format_item : DiffItem → String
format_item i = template (
    pad_end (severity_text i.severity) 8
    ∷ " "
    ∷ pad_end i.code 22
    ∷ " "
    ∷ i.message
    ∷ hint_line i.hint
    ∷ [])

unfoldable pub format_diff : List DiffItem → String
format_diff [] = "no breaking changes"
format_diff (i ∷ items) = join "\n" (map format_item (i ∷ items))
