-- ===== src/JsUtils/Laws.antt =====
-- What the conversions of src/utils/JSUtils.js give back.
use tgvejs.Prelude.{◌≡◌, Bool, true, false, ◌⊎◌, arith}
use tgvejs.Js.{Value, null, str, Floats, to_number}
use tgvejs.JsUtils.{
  is_string, is_number, is_boolean, sanitize_float, sanitize_int, sanitize_string, sanitize_bool,
  sanitize_string_non_null, is_string_numeric, is_null_undefined_nan,
}

module _ (F : Floats) where
  open F use {Num}

  -- A result of the right type, or null.
  abbrev pub OfType : (Value Num → Bool) → Value Num → Type 0
  OfType test v = (test v ≡ true) ⊎ (v ≡ null)

  float_type : (v : Value Num) → OfType (is_number F) (sanitize_float F v)
  unfolding sanitize_float is_number
  float_type (str s) = ground arith
  float_type v = ground arith

  float_again : (v : Value Num) → sanitize_float F (sanitize_float F v) ≡ sanitize_float F v
  unfolding sanitize_float
  float_again (str s) = ground arith
  float_again v = ground arith

  -- The sanitisers return null or a value of their type, and a second call changes nothing;
  -- `sanitizeString` is null or agrees with `sanitizeStringNonNull`.
  sanitize_laws :
      (v : Value Num)
      → OfType (is_number F) (sanitize_float F v)
        × OfType (is_number F) (sanitize_int F v)
        × OfType (is_string F) (sanitize_string F v)
        × OfType (is_boolean F) (sanitize_bool F v)
        × (sanitize_float F (sanitize_float F v) ≡ sanitize_float F v)
        × (sanitize_int F (sanitize_int F v) ≡ sanitize_int F v)
        × (sanitize_string F (sanitize_string F v) ≡ sanitize_string F v)
        × (sanitize_bool F (sanitize_bool F v) ≡ sanitize_bool F v)
        × ((sanitize_string F v ≡ null)
            ⊎ (sanitize_string F v ≡ str (sanitize_string_non_null F v)))
  unfolding is_number is_string is_boolean sanitize_int sanitize_string sanitize_bool
      sanitize_string_non_null
  sanitize_laws v = (
    float_type v,
    ground arith,
    ground arith,
    ground arith,
    float_again v,
    ground arith,
    ground arith,
    ground arith,
    ground arith,
  )

  -- A text that `isStringNumeric` accepts is a value whose number is a number; the sanitised
  -- float of it is no NaN either.
  is_string_numeric_sound :
      (v : Value Num)
      → is_string_numeric F v ≡ true
      → (F.is_nan (to_number F v) ≡ false)
        × (is_null_undefined_nan F v ≡ false)
        × (is_null_undefined_nan F (sanitize_float F v) ≡ false)
  unfolding is_string_numeric is_null_undefined_nan sanitize_float
  is_string_numeric_sound v h = ground arith
