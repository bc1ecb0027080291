-- ===== src/Types/Tests.antt =====
-- packages/ketjs/src/kernel/types.ts: types and dates read.
use ketjs.Common.{◌≤◌, true, false, ◌≡◌, ◌↔◌, refl, some, none, template, arith}
use ketjs.Manifest.{ref, decimal}
use ketjs.Types.{
  ParsedType, parsed, rejected, parse_type, parse_split, type_of, ts_type_of, sql_type_of,
  split_mark, after_prefix, append_text, is_target, is_target_tail, is_model, is_model_tail,
  scalar_of,
}
use ketjs.Types.Dates.{is_date_text, is_date_codes, is_day, days_in}
use ketjs.Types.RoundTrip.{reference, parse_type-type_of}
use ketjs.Types.Calendar.{date_codes, IsWithin, is_date_codes-date_codes}

abbrev order_ref : ParsedType
order_ref = record { base = ref; target = some "sales.Order"; optional = true }

unknown : parse_type "money" ≡ rejected "unknown type \"money\""
unfolding parse_type parse_split split_mark after_prefix scalar_of template
unknown = refl

typed : ts_type_of (record { base = decimal; target = none; optional = true }) ≡ "string | null"
unfolding ts_type_of append_text
typed = refl

stored : sql_type_of order_ref ≡ "TEXT"
unfolding sql_type_of
stored = refl

leap_day : is_date_text "2024-02-29" ≡ true
unfolding is_date_text is_date_codes is_day days_in
leap_day = refl

no_leap_day : is_date_text "2100-02-29" ≡ false
unfolding is_date_text is_date_codes is_day days_in
no_leap_day = refl

parse_type-type_of_example : parse_type "ref:sales.Order?" ≡ parsed order_ref
unfolding type_of append_text is_target is_target_tail is_model is_model_tail
parse_type-type_of_example = parse_type-type_of order_ref (reference refl)

is_date_codes_example :
    (is_date_codes (date_codes 2024 2 30) ≡ true)
    ↔ ((1 ≤ 2024) × (1 ≤ 2) × (2 ≤ 12) × (1 ≤ 30) × (IsWithin 2024 2 30))
is_date_codes_example = is_date_codes-date_codes 2024 2 30 (omega arith) (omega arith) (omega arith)
