-- ===== src/Utils/Xy.antt =====
-- `xyObjectByProperty` of src/utils/utils.js: the points {x, y} of a bar chart of a property.
pub mod Bars
use tgvejs.Prelude.{
  ℕ, ◌+◌, String, ◌≡◌, refl, sym, ap, subst, ◌∙◌, ◌⊎◌, inl, inr, Bool, true, false, ◌&&◌, Option,
  none, some, List, [], ◌∷◌, length, str_eq, arith, Bool-cases, if◌then◌else◌,
}
use tgvejs.Js.{Value, num, Floats, to_number, same_value, same_value_iff}
use tgvejs.Js.Collection.{
  contains, Distinct, unique, unique-Distinct, contains-unique, All-of_contains, same_value_refl,
}
use tgvejs.Js.Counter.{
  Counter, keys, count, bump, tally, occurrences, total, count-tally, total-tally, keys-tally,
  sum_by, sum_by-count, count_of_absent,
}
use tgvejs.Js.Sort.{
  sort, IsSorted, IsComparison, sort-IsSorted, sort-Distinct, contains-sort, sum_by-sort,
}
use tgvejs.JsUtils.{is_string_numeric, is_null_undefined_nan}
use tgvejs.Geojson.{Feature, read}

-- A point of the chart.
pub record Point (N : Type 0) : Type 0 where
  pub x : Value N
  pub y : ℕ

-- `after a b` says that `ascending(a, b)` of d3-array is positive.
module _ (F : Floats) (after : Value F.Num → Value F.Num → Bool) where
  open F use {Num}

  -- isStringNumeric(value) ? +(value) : value
  unfoldable pub plain : Value Num → Value Num
  plain v = if is_string_numeric F v then num (to_number F v) else v

  unfoldable pub xy_scan : Bool → String → Counter F → List (Feature Num) → Counter F
  unfolding plain
  xy_scan no_nulls property m [] = m
  xy_scan no_nulls property m (f ∷ fs) =
      let value = read f.properties property in
      xy_scan no_nulls property
        (if no_nulls && is_null_undefined_nan F value then m else bump F m (plain value)) fs

  unfoldable pub points : Counter F → List (Value Num) → List (Point Num)
  points m [] = []
  points m (k ∷ ks) = record { x = k; y = count F k m } ∷ points m ks

  unfoldable pub chart : Counter F → Option (List (Point Num))
  unfolding points
  chart m = elim (keys F m) [ [] ↦ none | k ∷ ks ↦ some (points m (sort after (k ∷ ks))) ]

  -- `none` is undefined.
  unfoldable pub xy_object_by_property :
      Option (List (Feature Num)) → Option String → Bool → Option (List (Point Num))
  unfolding xy_scan chart
  xy_object_by_property none property no_nulls = none
  xy_object_by_property (some fs) none no_nulls = none
  xy_object_by_property (some fs) (some p) no_nulls =
      let m = xy_scan no_nulls p [] fs in if str_eq p "" then none else chart m
