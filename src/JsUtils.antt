-- ===== src/JsUtils.antt =====
-- src/utils/JSUtils.js: constructor tests and lenient conversions.
pub mod Laws
use Prim.Native.String
use tgvejs.Prelude.{
  ℕ, zero, String, Bool, true, false, not, ◌&&◌, Option, none, some, code, ◌==◌, if◌then◌else◌,
}
use tgvejs.Js.{
  Value, undefined, null, bool, num, str, ref, object, array, date, Kind, Floats, truthy,
}

module _ (F : Floats) where
  open F use {Num}

  unfoldable pub is_string : Value Num → Bool
  is_string (str s) = true
  is_string v = false

  unfoldable pub is_number : Value Num → Bool
  is_number (num a) = true
  is_number v = false

  unfoldable pub is_boolean : Value Num → Bool
  is_boolean (bool b) = true
  is_boolean v = false

  unfoldable pub is_object : Value Num → Bool
  is_object (ref object a) = true
  is_object v = false

  unfoldable pub is_array : Value Num → Bool
  is_array (ref array a) = true
  is_array v = false

  -- A date whose `getTime()` is NaN does not count.
  unfoldable pub is_date : Value Num → Bool
  is_date (ref date a) = not (F.is_nan (F.number_ref a))
  is_date v = false

  unfoldable pub sanitize_float : Value Num → Value Num
  sanitize_float (num a) = num a
  sanitize_float (str s) = let n = F.parse_float s in if F.is_nan n then null else num n
  sanitize_float v = null

  unfoldable pub sanitize_int : Value Num → Value Num
  sanitize_int (num a) = num a
  sanitize_int (str s) = num (F.parse_int s)
  sanitize_int v = null

  unfoldable pub sanitize_string : Value Num → Value Num
  sanitize_string (str s) = str s
  sanitize_string (num a) = str (F.show a)
  sanitize_string v = null

  unfoldable pub sanitize_string_non_null : Value Num → String
  sanitize_string_non_null (str s) = s
  sanitize_string_non_null (num a) = F.show a
  sanitize_string_non_null v = ""

  unfoldable pub sanitize_bool : Value Num → Value Num
  sanitize_bool (bool b) = bool b
  sanitize_bool (num a) = bool (truthy F (num a))
  sanitize_bool v = null

  unfoldable pub is_string_numeric : Value Num → Bool
  is_string_numeric (str s) = not (F.is_nan (F.number s)) && not (F.is_nan (F.parse_float s))
  is_string_numeric v = false

  unfoldable pub is_null_undefined_nan : Value Num → Bool
  is_null_undefined_nan null = true
  is_null_undefined_nan undefined = true
  is_null_undefined_nan (num a) = F.is_nan a
  is_null_undefined_nan v = false

-- The expression `^ *$`.
unfoldable pub all_spaces : String → Bool
all_spaces String.[] = true
all_spaces (String.◌∷◌ c s) = code c == b' ' && all_spaces s

-- `none` is null.
unfoldable pub is_empty_or_spaces : Option String → Bool
unfolding all_spaces
is_empty_or_spaces none = true
is_empty_or_spaces (some s) = all_spaces s

-- `pick n` is `Math.floor(Math.random() * n)`.
unfoldable pub random_to_number : (ℕ → ℕ) → ℕ → ℕ
random_to_number pick zero = 0
random_to_number pick n = pick n
