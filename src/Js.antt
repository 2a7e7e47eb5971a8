-- ===== src/Js.antt =====
-- The JavaScript values that the code of src/utils and src/home tells apart, and what the language
-- itself does with them: truthiness, `===`, conversions to numbers and to texts. Numbers are a
-- parameter, `Floats`: a double with its two zeros identified, and one NaN. An object, an array, a
-- date or a function is a reference to a store that the modelled code does not write to.
pub mod Dict
pub mod Collection
pub mod Counter
pub mod Sort
pub mod Text
use tgvejs.Prelude.{
  ℕ, String, ◌≡◌, refl, ◌↔◌, Bool, true, false, not, ◌&&◌, ◌||◌, arith, str_eq, eq_iff, ◌==◌,
  ==_iff, if◌then◌else◌, Option,
}

-- The constructor of what a reference points to.
pub data Kind : Type 0 where
  object array date function : Kind

pub data Value (N : Type 0) : Type 0 where
  undefined null : Value N
  bool : Bool → Value N
  num : N → Value N
  str : String → Value N
  ref : Kind → ℕ → Value N

-- Doubles, with the functions of the language that read and print them.
pub record Floats : Type 1 where
  pub Num : Type 0
  -- SameValueZero, the equality of the keys of a Map or Set
  pub same : Num → Num → Bool
  pub same_iff : (a b : Num) → (same a b ≡ true) ↔ (a ≡ b)
  pub is_nan : Num → Bool
  pub zero : Num
  pub nan : Num
  pub nan-is_nan : is_nan nan ≡ true
  pub zero-is_nan : is_nan zero ≡ false
  pub infinity : Num
  pub minus_infinity : Num
  pub of_nat : ℕ → Num
  pub lt : Num → Num → Bool
  pub add : Num → Num → Num
  pub sub : Num → Num → Num
  pub mul : Num → Num → Num
  pub div : Num → Num → Num
  pub floor : Num → Num
  -- `Number(s)`, `parseFloat(s)`, `parseInt(s)`, `n.toString()`
  pub number : String → Num
  pub parse_float : String → Num
  pub parse_int : String → Num
  pub show : Num → String
  -- the index that a text names as a key of an array
  pub array_index : String → Option ℕ
  -- `o.toString()` and the number that an object converts to
  pub show_ref : ℕ → String
  pub number_ref : ℕ → Num

abbrev pub same_kind : Kind → Kind → Bool
same_kind object object = true
same_kind array array = true
same_kind date date = true
same_kind function function = true
same_kind _ _ = false

pub same_kind_iff : (a b : Kind) → (same_kind a b ≡ true) ↔ (a ≡ b)
same_kind_iff a b = ground arith

module _ (F : Floats) where
  open F use {Num}

  -- SameValueZero, `indexOf` and `includes` apart from NaN.
  abbrev pub same_value : Value Num → Value Num → Bool
  same_value undefined undefined = true
  same_value null null = true
  same_value (bool true) (bool b) = b
  same_value (bool false) (bool b) = not b
  same_value (num a) (num b) = F.same a b
  same_value (str s) (str t) = str_eq s t
  same_value (ref k a) (ref j b) = same_kind k j && a == b
  same_value _ _ = false

  pub same_value_iff : (v w : Value Num) → (same_value v w ≡ true) ↔ (v ≡ w)
  same_value_iff (num a) (num b) = ground (arith, F.same_iff a b)
  same_value_iff (str s) (str t) = ground (arith, eq_iff s t)
  same_value_iff (ref k a) (ref j b) = ground (arith, same_kind_iff k j, ==_iff a b)
  same_value_iff v w = ground arith

  -- `v === w`: NaN is not equal to itself.
  abbrev pub strict_eq : Value Num → Value Num → Bool
  strict_eq (num a) (num b) = not (F.is_nan a) && F.same a b
  strict_eq v w = same_value v w

  -- `!!v`
  abbrev pub truthy : Value Num → Bool
  truthy undefined = false
  truthy null = false
  truthy (bool b) = b
  truthy (num a) = not (F.is_nan a || F.same a F.zero)
  truthy (str s) = not (str_eq s "")
  truthy (ref k a) = true

  -- `+v`
  abbrev pub to_number : Value Num → Num
  to_number undefined = F.nan
  to_number null = F.zero
  to_number (bool b) = if b then F.of_nat 1 else F.zero
  to_number (num a) = a
  to_number (str s) = F.number s
  to_number (ref k a) = F.number_ref a

  -- `v + ""`
  abbrev pub to_text : Value Num → String
  to_text undefined = "undefined"
  to_text null = "null"
  to_text (bool b) = if b then "true" else "false"
  to_text (num a) = F.show a
  to_text (str s) = s
  to_text (ref k a) = F.show_ref a
