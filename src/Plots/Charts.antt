-- ===== src/Plots/Charts.antt =====
-- The charts of src/components/showcases/plots.jsx: `plotByPropertyByDate`, `PropertyPlot`,
-- `PyramidPlot` and `timePlot`, as the numbers and titles that they hand over.
use tgvejs.Prelude.{
  ℕ, ◌+◌, String, Bool, true, false, not, ◌&&◌, ltb, ◌==◌, ◌⊎◌, inl, inr, Option, none, some, List,
  [], ◌∷◌, map, length, take, filter, codes, str_eq, if◌then◌else◌,
}
use tgvejs.Js.{Value, Floats, truthy}
use tgvejs.Js.Dict.{Dict, get, has, keys}
use tgvejs.Js.Sort.{sort}
use tgvejs.Geojson.{Feature, read}
use tgvejs.Geojson.Values.{Found, get_property_values}
use tgvejs.Geojson.Counts.{inner, property_count_by_property}
use tgvejs.Utils.Text.{humanize}
use tgvejs.Utils.Xy.{Point, xy_object_by_property}
use tgvejs.Plots.{Luxon, YearPoint, Series, array_of_year_and_property}

-- A line of `plotByPropertyByDate`; `color` is `i / 3` on the range of turquoise.
pub record Trace : Type 0 where
  pub x : List String
  pub y : List ℕ
  pub name : String
  pub color : ℕ × ℕ

-- `later a b` says that `new Date(a) - new Date(b)` is positive. The years are sorted, and the
-- counts stay in the order that they had.
unfoldable pub trace : (String → String → Bool) → List YearPoint → String → ℕ → Trace
unfolding sort
trace later r name i = record {
  x = sort later (map (λ e. e.x) r);
  y = map (λ e. e.y) r;
  name = name;
  color = (i, 3);
}

unfoldable pub traces : (String → String → Bool) → Series → List Trace
unfolding trace
traces later s =
    trace later s.males "Male" 0
    ∷ trace later s.females "Female" 1
    ∷ trace later s.totals "Total" 2
    ∷ []

-- A bar of the pyramid, from 0 to `x0`: `none` is NaN, the number that undefined converts to. A bar
-- of the women goes to the left.
pub record Bar : Type 0 where
  pub to_left : Bool
  pub x0 : Option ℕ
  pub y : ℕ
  pub y0 : ℕ

unfoldable pub bars : Bool → String → Dict (Dict ℕ) → ℕ → List String → List Bar
unfolding get
bars to_left sex mf i [] = []
bars to_left sex mf i (y ∷ ys) =
    record { to_left = to_left; x0 = get sex (inner (get y mf)); y = i; y0 = i + 1 }
    ∷ bars to_left sex mf (i + 1) ys

-- `PropertyPlot`: whether the heading of the first ten is shown, the points, the title.
pub record PropertyBars (N : Type 0) : Type 0 where
  pub limited : Bool
  pub points : List (Point N)
  pub title : List ℕ

module _ (F : Floats) where
  open F use {Num}

  -- `timePlot`: its title, or the two columns that make it, its dates and its values.
  pub record TimePlot : Type 0 where
    pub title : String ⊎ (String × String)
    pub x : Found F
    pub y : Found F

  -- `getFirstDateColumnName`; `is_date_name` is the test of `DATE_REGEX`.
  unfoldable pub get_first_date_column_name : (String → Bool) → Dict (Value Num) → Option String
  unfolding filter keys
  get_first_date_column_name is_date_name d = elim (filter is_date_name (keys d)) [
    | [] ↦ none
    | k ∷ ks ↦ some k
  ]

  -- `.map(e => new Date(e))`
  abbrev dates : (Value Num → Value Num) → Found F → Found F
  dates to_date (Found.values vs) = Found.values (map to_date vs)
  dates to_date r = r

  -- `none` is null.
  unfoldable pub time_plot :
      (String → Bool)
      → (Value Num → Value Num)
      → Option String
      → List (Feature Num)
      → Option String
      → Option TimePlot
  unfolding get_first_date_column_name get_property_values
  time_plot is_date_name to_date none fs title = none
  time_plot is_date_name to_date (some p) [] title = none
  time_plot is_date_name to_date (some p) (f ∷ fs) title =
      let g = some (record { type = ""; features = some (f ∷ fs) }) in
      elim (get_first_date_column_name is_date_name f.properties) [
        | none ↦ none
        | some c ↦ some (record {
          title = elim title [
            | none ↦ inr (c, p)
            | some t ↦ if str_eq t "" then inr (c, p) else inl t
          ];
          x = dates to_date (get_property_values F g (some c));
          y = get_property_values F g (some p);
        })
      ]

  -- `!noLimit && data.length > limit`
  unfoldable pub is_over_limit : Bool → List (Feature Num) → Bool
  is_over_limit no_limit fs = not no_limit && ltb 10 (length fs)

  unfoldable pub rows_shown : Bool → List (Feature Num) → List (Feature Num)
  unfolding is_over_limit
  rows_shown no_limit fs = if is_over_limit no_limit fs then take 10 fs else fs

  -- `none` is null.
  unfoldable pub property_plot :
      (Value Num → Value Num → Bool)
      → Bool
      → String
      → List (Feature Num)
      → Option (PropertyBars Num)
  unfolding has is_over_limit rows_shown xy_object_by_property humanize
  property_plot after no_limit p [] = none
  property_plot after no_limit p (f ∷ fs) =
      if has p f.properties
      then elim (xy_object_by_property F after (some (rows_shown no_limit (f ∷ fs))) (some p)
          true) [
            | none ↦ none
            | some ps ↦ some (record {
              limited = is_over_limit no_limit (f ∷ fs);
              points = ps;
              title = humanize (codes p);
            })
          ]
      else none

  module _ (full_year : Value Num → Num) where
    -- `none` is null; the bars of the women come first.
    unfoldable pub pyramid_plot : List (Feature Num) → Option (List Bar × List Bar)
    unfolding read property_count_by_property bars keys
    pyramid_plot [] = none
    pyramid_plot (f ∷ fs) =
        if truthy F (read f.properties "date") && truthy F (read f.properties "sex_of_casualty")
        then elim (property_count_by_property F full_year (some (f ∷ fs)) "sex_of_casualty" "date"
            true) [
              | none ↦ none
              | some mf ↦
                  if length (keys mf) == 1
                  then none
                  else some (bars true "Female" mf 0 (keys mf), bars false "Male" mf 0 (keys mf))
            ]
        else none

    -- `none` is null.
    unfoldable pub plot_by_property_by_date :
        Luxon Num
        → (ℕ → ℕ)
        → (String → String → Bool)
        → List (Feature Num)
        → Option String
        → Option (List Trace)
    unfolding traces array_of_year_and_property
    plot_by_property_by_date L random later fs p =
        elim (array_of_year_and_property F full_year L random fs p) [
          | none ↦ none
          | some s ↦ some (traces later s)
        ]
