-- ===== src/Layout/Typed.antt =====
-- packages/ketjs/src/kernel/layout.ts: a setting without an error has the type of its field.
use ketjs.Manifest.{FieldBase, id, text, int, float, decimal, bool, json, date, datetime, ref}
use ketjs.Common.{str_eq, String, true, ◌≡◌, inl, inr, Option, none, some, List, Bool-cases, arith}
use ketjs.Types.{ParsedType}
use ketjs.Layout.Json.{
  null, boolean, number, array, object, method, type_name, setting_value, Json, is_null,
}
use ketjs.Layout.Settings.{value_error, js_of, is_date_value, setting_error, typed_error}
use ketjs.Layout.Fits.{
  IsText, IsNumber, IsBoolean, IsObject, IsDate, HasType, MeetsType, MeetsField,
}

type_name-IsText : (v : Json) → str_eq (type_name v) "string" ≡ true → IsText v
unfolding type_name
type_name-IsText (Json.text s) h = tt
type_name-IsText null h = cc
type_name-IsText (boolean b) h = cc
type_name-IsText (number n) h = cc
type_name-IsText (array xs) h = cc
type_name-IsText (object fs) h = cc
type_name-IsText method h = cc

type_name-IsNumber : (v : Json) → str_eq (type_name v) "number" ≡ true → IsNumber v
unfolding type_name
type_name-IsNumber (number n) h = tt
type_name-IsNumber null h = cc
type_name-IsNumber (boolean b) h = cc
type_name-IsNumber (Json.text s) h = cc
type_name-IsNumber (array xs) h = cc
type_name-IsNumber (object fs) h = cc
type_name-IsNumber method h = cc

type_name-IsBoolean : (v : Json) → str_eq (type_name v) "boolean" ≡ true → IsBoolean v
unfolding type_name
type_name-IsBoolean (boolean b) h = tt
type_name-IsBoolean null h = cc
type_name-IsBoolean (number n) h = cc
type_name-IsBoolean (Json.text s) h = cc
type_name-IsBoolean (array xs) h = cc
type_name-IsBoolean (object fs) h = cc
type_name-IsBoolean method h = cc

type_name-IsObject : (v : Json) → str_eq (type_name v) "object" ≡ true → IsObject v
unfolding type_name
type_name-IsObject null h = tt
type_name-IsObject (array xs) h = tt
type_name-IsObject (object fs) h = tt
type_name-IsObject (boolean b) h = cc
type_name-IsObject (number n) h = cc
type_name-IsObject (Json.text s) h = cc
type_name-IsObject method h = cc

type_name-IsDate :
    (v : Json) → str_eq (type_name v) "string" ≡ true → is_date_value v ≡ true → IsDate v
unfolding type_name
type_name-IsDate (Json.text s) h d = d
type_name-IsDate null h d = cc
type_name-IsDate (boolean b) h d = cc
type_name-IsDate (number n) h d = cc
type_name-IsDate (array xs) h d = cc
type_name-IsDate (object fs) h d = cc
type_name-IsDate method h d = cc

value_error-HasType : (base : FieldBase) (v : Json) → value_error base v ≡ none → HasType base v
unfolding value_error js_of
value_error-HasType id v h = type_name-IsText v (ground (arith, h))
value_error-HasType text v h = type_name-IsText v (ground (arith, h))
value_error-HasType int v h = type_name-IsNumber v (ground (arith, h))
value_error-HasType float v h = type_name-IsNumber v (ground (arith, h))
value_error-HasType decimal v h = tt
value_error-HasType bool v h = type_name-IsBoolean v (ground (arith, h))
value_error-HasType json v h = type_name-IsObject v (ground (arith, h))
value_error-HasType date v h = type_name-IsDate v (ground (arith, h)) (ground (arith, h))
value_error-HasType datetime v h = type_name-IsText v (ground (arith, h))
value_error-HasType ref v h = type_name-IsText v (ground (arith, h))

typed_error-MeetsType :
    (spec : String) (t : ParsedType) (o : Option Json) → typed_error spec t o ≡ none → MeetsType t o
typed_error-MeetsType spec t none h = ground (arith, h)
typed_error-MeetsType spec t (some value) h = elim (Bool-cases (is_null value)) [
  | inl e ↦ rw e (ground (arith, h, e))
  | inr e ↦ rw e (value_error-HasType t.base value (rw e at h))
]

pub setting_error-MeetsField :
    (settings : List (String × Json)) (f : String × String)
    → setting_error settings f ≡ none
    → MeetsField settings f
unfolding setting_error
setting_error-MeetsField settings (field, spec) h t e =
    typed_error-MeetsType spec t (setting_value field settings) (rw (e, setting_error) at h)
