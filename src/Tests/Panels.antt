-- ===== src/Tests/Panels.antt =====
-- The theorems on the charts over years and on the side bar at concrete inputs.
use tgvejs.Prelude.{
  Bool, Option, ◌↔◌, ◌<◌, ◌≤◌, ◌⊎◌, length, ℕ, String, ◌≡◌, refl, true, false, ◌||◌, none, some,
  List, [], ◌∷◌, codes, map, str_eq, if◌then◌else◌,
}
use tgvejs.Js.{Value, str, to_text}
use tgvejs.Js.Dict.{get, put, has}
use tgvejs.Js.Collection.{unique}
use tgvejs.Geojson.{Feature, read}
use tgvejs.Geojson.Counts.{count_at}
use tgvejs.Home.Filter.{Selection, multi}
use tgvejs.Plots.{Luxon, time_cols, row_to_read, array_of_year_and_property}
use tgvejs.Plots.Years.{IsYears, array_of_year_and_property-IsYears}
use tgvejs.Sidebar.{
  tell, tell_selection, Action, choose_values, choose_columns, click_bar, start_anew, mounted,
  includes, change_columns, filter_or_reset,
}
use tgvejs.Sidebar.Runs.{IsSelection, Sound, run, run-Sound}
use tgvejs.Sidebar.Columns.{IsTold, change_columns-Syncs, filter_or_reset-again}
use tgvejs.Utils.Text.{humanize}
use tgvejs.Utils.Xy.{xy_object_by_property}
use tgvejs.AddVis.{Vis, line, plot, marks_of, click_add, click_remove}
use tgvejs.AddVis.Throws.{IsUnready, click_remove-add, click_add_throws_iff}
use tgvejs.Tooltip.{Picked, Row, listed, plotted, points_of, generate_tooltip}
use tgvejs.Tooltip.Empty.{few, generate_tooltip-body}
use tgvejs.Samples.{wholes, Whole, not_a_number}

abbrev casualty : String → String → Feature Whole
casualty year sex = record {
  type = "Feature";
  geometry = none;
  properties = ("year", str year) ∷ ("sex", str sex) ∷ [];
}

abbrev casualties : List (Feature Whole)
casualties = casualty "2009" "Male" ∷ casualty "2009" "Female" ∷ casualty "2010" "Male" ∷ []

-- Of the texts only two years are dates.
abbrev calendar : Luxon Whole
calendar = record {
  from_format = λ text format. str_eq text "2009" || str_eq text "2010";
  from_iso = λ v. false;
  from_http = λ v. false;
}

abbrev no_year : Value Whole → Whole
no_year v = not_a_number

abbrev first_row : ℕ → ℕ
first_row n = 0

array_of_year_and_property-IsYears_example :
    IsYears wholes no_year calendar casualties "sex" "year"
      (array_of_year_and_property wholes no_year calendar first_row casualties (some "sex"))
unfolding row_to_read time_cols read
array_of_year_and_property-IsYears_example =
    array_of_year_and_property-IsYears wholes no_year calendar first_row casualties "sex" "year" []
      (casualty "2009" "Female") refl refl refl refl refl

-- The year with women and men is shown.
shown_years :
    array_of_year_and_property wholes no_year calendar first_row casualties (some "sex")
    ≡ some (record {
      males = record { x = "2009"; y = 1 } ∷ [];
      females = record { x = "2009"; y = 1 } ∷ [];
      totals = record { x = "2009"; y = 2 } ∷ [];
    })
unfolding array_of_year_and_property read count_at
shown_years = refl

nothing_chosen : IsSelection wholes []
unfolding get
nothing_chosen k vs e = cc

abbrev acts : List (Action wholes)
acts =
    choose_columns []
    ∷ choose_values "name" (str "Leeds" ∷ str "Leeds" ∷ [])
    ∷ start_anew
    ∷ click_bar "code" true (str "E1" ∷ [])
    ∷ []

run-Sound_example : Sound wholes (run wholes acts (mounted wholes []))
run-Sound_example = run-Sound wholes acts [] nothing_chosen

abbrev by_name : Selection Whole
by_name = ("name", str "Leeds" ∷ []) ∷ ("code", str "E1" ∷ []) ∷ []

change_columns-Syncs_example :
    ((j : String)
      → get j (change_columns wholes ("code" ∷ []) (mounted wholes by_name)).shared
        ≡ (if includes ("code" ∷ []) j then get j by_name else none))
    × IsTold wholes
        (mounted wholes by_name)
        (change_columns wholes ("code" ∷ []) (mounted wholes by_name))
change_columns-Syncs_example = change_columns-Syncs wholes ("code" ∷ []) (mounted wholes by_name)

filter_or_reset-again_example :
    filter_or_reset wholes "total" true (str "7" ∷ []) (
      filter_or_reset wholes "total" true
        (str "4" ∷ [])
        (record { shared = by_name; own = none; columns = []; told = [] }))
    ≡ record {
      shared = by_name;
      own = none;
      columns = [];
      told =
          tell_selection by_name
          ∷ tell (
              multi (
                some (
                  put "total"
                    (unique wholes (map (λ v. str (to_text wholes v)) (str "4" ∷ [])))
                    by_name)))
          ∷ [];
    }
unfolding has
filter_or_reset-again_example =
    filter_or_reset-again wholes "total" (str "4") (str "7") [] [] true true by_name [] [] refl refl
      refl

abbrev never : Value Whole → Value Whole → Bool
never v w = false

click_remove-add_example :
    (t : Vis wholes never) × (click_add wholes never casualties true false
        (record { column = some (str "sex" ∷ []); vis = some (str "Line" ∷ []); list = [] })
      ≡ some t)
    × (t.list
        ≡ plot line
            (xy_object_by_property wholes never (some casualties) (some "sex") true)
            true
            false
            (humanize (codes "sex"))
          ∷ [])
    × (click_remove wholes never 0 t
        ≡ record { column = some (str "sex" ∷ []); vis = some (str "Line" ∷ []); list = [] })
unfolding marks_of
click_remove-add_example =
    click_remove-add wholes never (casualty "2009" "Female" ∷ casualty "2010" "Male" ∷ []) true
      false "sex" "Line" [] [] [] (casualty "2009" "Male") line refl refl

-- No kind was chosen.
click_add_throws_iff_example :
    (click_add wholes never casualties true false
        (record { column = some (str "sex" ∷ []); vis = none; list = [] })
      ≡ none)
    ↔ IsUnready wholes never casualties (some (str "sex" ∷ [])) none
click_add_throws_iff_example =
    click_add_throws_iff wholes never casualties true false (some (str "sex" ∷ [])) none []

-- A cell of a grid with three casualties.
abbrev cell : Picked wholes no_year
cell = record { type = ""; points = some casualties; count = 3; properties = none }

generate_tooltip-body_example :
    ((2 < length (points_of wholes no_year cell))
      × (generate_tooltip wholes no_year "sex" "year" cell
          ≡ some (record { total = 3; body = plotted [] })))
    ⊎ ((length (points_of wholes no_year cell) ≤ 2)
        × ((generate_tooltip wholes no_year "sex" "year" cell ≡ none)
            ⊎ ((r : Option (List (Row wholes no_year))) × (generate_tooltip wholes no_year "sex"
                    "year" cell
                  ≡ some (record { total = few wholes no_year cell; body = listed r })))))
generate_tooltip-body_example = generate_tooltip-body wholes no_year "sex" "year" cell
