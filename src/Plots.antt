-- ===== src/Plots.antt =====
-- src/components/showcases/plots.jsx: the numbers that its plots hand to the charts, with
-- `isStringDate` and `getFirstDateColumnName` of src/utils/utils.js.
pub mod Years
pub mod Charts
use tgvejs.Prelude.{
  ℕ, zero, suc, ◌+◌, ◌-◌, String, Bool, true, false, not, ◌&&◌, ◌||◌, ◌==◌, ltb, Option, none, some,
  List, [], ◌∷◌, ◌++◌, map, length, take, filter, get_elem?, str_eq, if◌then◌else◌,
}
use tgvejs.Js.{Value, Floats, truthy, to_text}
use tgvejs.Js.Dict.{Dict, get, has, keys}
use tgvejs.Geojson.{Feature, FeatureCollection, read}
use tgvejs.Geojson.Values.{Found, get_property_values}
use tgvejs.Geojson.Counts.{count_at, inner, property_count_by_property}
use tgvejs.Utils.Xy.{Point, xy_object_by_property}

-- `DateTime` of luxon: whether what it reads off a text, in a format, or off a value in that of ISO
-- or of HTTP, is valid.
pub record Luxon (N : Type 0) : Type 0 where
  pub from_format : String → String → Bool
  pub from_iso : Value N → Bool
  pub from_http : Value N → Bool

-- A point over a year.
pub record YearPoint : Type 0 where
  pub x : String
  pub y : ℕ

-- `plot_data_multi`: three arrays of points.
pub record Series : Type 0 where
  pub males : List YearPoint
  pub females : List YearPoint
  pub totals : List YearPoint

-- [[], [], []]
abbrev pub no_series : Series
no_series = record { males = []; females = []; totals = [] }

-- `y && mf[y].Male && mf[y].Female`; a count that is there is a number.
unfoldable pub has_both : Dict (Dict ℕ) → String → Bool
has_both mf y = not (str_eq y "") && ltb 0 (count_at y "Male" mf) && ltb 0 (count_at y "Female" mf)

-- One pass of the loop over the years.
unfoldable pub push_year : Dict (Dict ℕ) → Series → String → Series
unfolding has_both
push_year mf s y =
    let m = count_at y "Male" mf in
    let f = count_at y "Female" mf in
    if has_both mf y
    then record {
      males = s.males ++ record { x = y; y = m } ∷ [];
      females = s.females ++ record { x = y; y = f } ∷ [];
      totals = s.totals ++ record { x = y; y = m + f } ∷ [];
    }
    else s

unfoldable pub push_years : Dict (Dict ℕ) → Series → List String → Series
unfolding push_year
push_years mf s [] = s
push_years mf s (y ∷ ys) = push_years mf (push_year mf s y) ys

-- Null where there is no point.
unfoldable pub if_any : Series → Option Series
if_any s = elim s.males [ [] ↦ none | p ∷ ps ↦ some s ]

module _ (F : Floats) (full_year : Value F.Num → F.Num) (L : Luxon F.Num) where
  open F use {Num}

  -- The last test of the source, `typeof value === Number`, compares a text with a function and is
  -- always false.
  unfoldable pub is_string_date : Value Num → Bool
  is_string_date value =
      let text = to_text F value in
      L.from_format text "MMMM dd yyyy"
      || L.from_format text "MMMM d yyyy"
      || L.from_format text "MMM d yyyy"
      || L.from_format text "MMM dd yyyy"
      || L.from_format text "dd/MM/yyyy"
      || L.from_format text "dd-MM-yyyy"
      || L.from_format text "yyyy/mm/dd"
      || L.from_format text "yyyy-mm-dd"
      || L.from_iso value
      || L.from_http value

  unfoldable pub time_cols : Feature Num → List String
  unfolding is_string_date filter keys
  time_cols f = filter (λ each. is_string_date (read f.properties each)) (keys f.properties)

  unfoldable pub years : List (Feature Num) → String → List String → Series
  unfolding property_count_by_property push_years keys
  years fs column [] = no_series
  years fs column (t ∷ ts) = elim (property_count_by_property F full_year (some fs) column t true) [
    | none ↦ no_series
    | some mf ↦ if ltb 1 (length (keys mf)) then push_years mf no_series (keys mf) else no_series
  ]

  -- `random n` is `Math.floor(Math.random() * n)`.
  unfoldable pub row_to_read : (ℕ → ℕ) → List (Feature Num) → ℕ
  row_to_read random fs = if length fs == 1 then 0 else random (length fs - 1) + 1

  -- `none` is null. There is always a row at a random position, which is below the length.
  unfoldable pub array_of_year_and_property :
      (ℕ → ℕ) → List (Feature Num) → Option String → Option Series
  unfolding row_to_read time_cols years if_any
  array_of_year_and_property random [] column = none
  array_of_year_and_property random (f ∷ fs) none = none
  array_of_year_and_property random (f ∷ fs) (some column) =
      if str_eq column "" then none else elim (get_elem? (f ∷ fs) (row_to_read random (f ∷ fs))) [
        | none ↦ none
        | some row ↦ if_any (years (f ∷ fs) column (time_cols row))
      ]
