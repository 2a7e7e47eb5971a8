-- ===== src/Tests.antt =====
-- The theorems at concrete inputs.
mod Panels
mod Plots
mod Features
mod Loading
mod Color
mod Counts
mod Params
mod Drawing
mod Moves
mod Forms
use tgvejs.Prelude.{
  ◌≢◌, ℕ, ◌+◌, ◌≤◌, String, ◌≡◌, ◌≢◌, refl, ◌⊎◌, inl, inr, ◌↔◌, true, false, none, some, List, [],
  ◌∷◌, ◌++◌, codes, length, filter, In, arith,
}
use tgvejs.Js.{Value, str, null, to_number}
use tgvejs.Js.Dict.{Dict, get, put, keys, has}
use tgvejs.Js.Collection.{Distinct, unique, contains}
use tgvejs.Js.Sort.{IsComparison}
use tgvejs.Geojson.{Feature, read, flat, sf_type}
use tgvejs.Geojson.Values.{get_key_columns, values, columns, get_property_values, set_of, column}
use tgvejs.Geojson.Values.{get_property_values-columns}
use tgvejs.Geojson.KeyColumns.{collection, some_list, get_key_columns_iff}
use tgvejs.Geojson.Join.{Columns, set_geojson_props, join_columns}
use tgvejs.Geojson.Join.Laws.{
  geography, usable, IsJoin, set_geojson_props-IsJoin, set_geojson_props-no_lower,
}
use tgvejs.Utils.Xy.{plain, Point, xy_object_by_property}
use tgvejs.Utils.Xy.Bars.{Charts, xy_object_by_property-Charts, counted}
use tgvejs.Utils.Domain.{subtracts, domain_key, generate_domain}
use tgvejs.Utils.Domain.Laws.{all_numeric, entries, IsDomain, generate_domain-IsDomain}
use tgvejs.Home.Filter.{Filter, bounds_subset, multi, coords, demands, filter_geojson}
use tgvejs.Home.Filter.Outcomes.{IsFiltered, filter_geojson-Passes}
use tgvejs.Plotly.{
  needs_update, sync_event_handlers, attach_update_events, remove_update_events, sync_window_resize,
  component_will_unmount, then_react, then_sync, Component, event_names, plotly_name,
}
use tgvejs.Plotly.Sync.{holds, sync_event_handlers_lem}
use tgvejs.Plotly.Lifecycle.{Listens, remove_update_events-attach, component_will_unmount_lem}
use tgvejs.Api.Names.{join, flatten, upper, api_to_react_app, api_to_react_app-words}
use tgvejs.Api.Select.{object, json_from_key_set_object, key_set_object, key_set_object-json_from}
use tgvejs.JsUtils.{
  is_number, is_string, is_boolean, sanitize_float, sanitize_int, sanitize_string, sanitize_bool,
  sanitize_string_non_null, is_string_numeric, is_null_undefined_nan,
}
use tgvejs.JsUtils.Laws.{OfType}
use tgvejs.Samples.{
  wholes, Whole, differs, whole-IsComparison, IsWhole-of_two, whole, packages, table, leeds, york,
  accidents, more_accidents, clicked, constructed, shouting, place, point,
}

react_app_names :
    (api_to_react_app (codes "defaultURL") ≡ some (codes "REACT_APP_DEFAULT_URL"))
    × (api_to_react_app (codes "hideChartGenerator")
        ≡ some (codes "REACT_APP_HIDE_CHART_GENERATOR"))
    × (api_to_react_app (codes "column") ≡ some (codes "REACT_APP_COLUMN"))
unfolding api_to_react_app
react_app_names = (refl, refl, refl)

abbrev areas : List (Feature Whole)
areas = leeds ∷ york ∷ []

abbrev rows : List (Feature Whole)
rows = accidents ∷ more_accidents ∷ []

abbrev area_code : Columns
area_code = join_columns (λ s. s) (some "area:code") leeds accidents

-- The selection of one name.
abbrev by_name : Dict (List (Value Whole))
by_name = ("name", str "Leeds" ∷ []) ∷ []

abbrev seven : Value Whole
seven = str "7"

set_geojson_props-IsJoin_example :
    ((usable wholes area_code leeds accidents ≡ false)
      × (set_geojson_props wholes
            (λ s. s)
            (geography wholes "FeatureCollection" areas)
            rows
            (some "area:code")
          ≡ geography wholes "FeatureCollection" areas))
    ⊎ ((usable wholes area_code leeds accidents ≡ true)
        × (rs : List (Feature Whole)) × (set_geojson_props wholes
              (λ s. s)
              (geography wholes "FeatureCollection" areas)
              rows
              (some "area:code")
            ≡ geography wholes "FeatureCollection" rs)
        × IsJoin wholes area_code areas rows rs)
set_geojson_props-IsJoin_example =
    set_geojson_props-IsJoin wholes (λ s. s) "FeatureCollection" leeds accidents (york ∷ [])
      (more_accidents ∷ []) (some "area:code")

-- Both areas are joined to their rows.
joined :
    set_geojson_props wholes
      (λ s. s)
      (geography wholes "FeatureCollection" areas)
      rows
      (some "area:code")
    ≡ geography wholes "FeatureCollection" (
        place (point (whole 1) (whole 2)) accidents.properties
        ∷ place (point (whole 3) (whole 4)) more_accidents.properties
        ∷ [])
unfolding set_geojson_props read
joined = refl

set_geojson_props-no_lower_example :
    set_geojson_props wholes
      (λ s. "code")
      (geography wholes "FeatureCollection" (shouting ∷ []))
      (shouting ∷ [])
      none
    ≡ geography wholes "FeatureCollection" (shouting ∷ [])
unfolding read
set_geojson_props-no_lower_example =
    set_geojson_props-no_lower wholes (λ s. "code") "FeatureCollection" shouting shouting [] []
      (λ k. refl)

get_key_columns_iff_example :
    In "code"
      (some_list wholes (get_key_columns wholes (collection wholes "FeatureCollection" areas)))
    ↔ (length (unique wholes (column wholes "code" areas)) ≡ length areas)
get_key_columns_iff_example =
    get_key_columns_iff wholes "FeatureCollection" leeds (york ∷ []) "code"

get_property_values-columns_example :
    (all : Dict (List (Value Whole))) × (get_property_values wholes
        (some (record { type = "FeatureCollection"; features = some areas }))
        none
      ≡ columns all)
    × ((k : String) → set_of wholes (get k all) ≡ unique wholes (column wholes k areas))
get_property_values-columns_example = get_property_values-columns wholes "FeatureCollection" areas

totals_compare :
    IsComparison differs (λ v. contains wholes (counted wholes differs false "total" rows) v ≡ true)
unfolding counted plain read is_string_numeric
totals_compare = whole-IsComparison _ (IsWhole-of_two 7 4)

domain_compares :
    all_numeric wholes "total" rows ≡ true
    → IsComparison (subtracts wholes) (λ v. contains wholes (entries wholes "total" rows) v ≡ true)
unfolding subtracts entries domain_key read
domain_compares h = whole-IsComparison _ (IsWhole-of_two 7 4)

xy_object_by_property-Charts_example :
    ((counted wholes differs false "total" rows ≡ [])
      × (xy_object_by_property wholes differs (some rows) (some "total") false ≡ none))
    ⊎ ((counted wholes differs false "total" rows ≢ [])
        × ((r : List (Point Whole)) × (xy_object_by_property wholes differs
                (some rows)
                (some "total")
                false
              ≡ some r)
            × Charts wholes differs (counted wholes differs false "total" rows) r))
xy_object_by_property-Charts_example =
    xy_object_by_property-Charts wholes differs rows "total" false refl totals_compare

generate_domain-IsDomain_example :
    (r : List (Value Whole)) × (generate_domain wholes (some rows) "total" ≡ some r)
    × IsDomain wholes "total" rows r
generate_domain-IsDomain_example =
    generate_domain-IsDomain wholes "total" accidents (more_accidents ∷ []) refl domain_compares

-- A road, and a box around one of the areas.
abbrev road : Feature Whole
road = record {
  type = "Feature";
  geometry = some (record { type = "MultiLineString"; coordinates = [] });
  properties = ("name", str "Leeds") ∷ [];
}

abbrev around_leeds : Filter wholes
around_leeds = bounds_subset (
    some (record {
      sw = record { lng = whole 0; lat = whole 0 };
      ne = record { lng = whole 2; lat = whole 3 };
    }))

filter_geojson-Passes_example :
    IsFiltered wholes packages areas
      (demands wholes (some around_leeds) none (some by_name))
      (filter_geojson wholes packages areas (some around_leeds) none (some by_name))
filter_geojson-Passes_example =
    filter_geojson-Passes wholes packages areas (some around_leeds) none (some by_name)

in_the_box : filter_geojson wholes packages areas (some around_leeds) none none ≡ some (leeds ∷ [])
unfolding filter_geojson flat sf_type
in_the_box = refl

-- The package throws at the road.
road_throws : filter_geojson wholes packages (road ∷ areas) (some around_leeds) none none ≡ none
unfolding filter_geojson sf_type flat
road_throws = refl

only_leeds :
    filter_geojson wholes packages areas (some (multi (some by_name))) none none ≡ some (leeds ∷ [])
unfolding filter_geojson read contains
only_leeds = refl

api_to_react_app-words_example :
    (ws : List (List ℕ)) × (api_to_react_app (codes "defaultURL")
      ≡ some (codes "REACT_APP_" ++ join ws))
    × (flatten ws ≡ upper (codes "defaultURL"))
api_to_react_app-words_example = api_to_react_app-words (codes "defaultURL")

key_set_object-json_from_example :
    (r : Dict (List (Value Whole))) × (key_set_object wholes
        (λ v. object (json_from_key_set_object wholes (some by_name)))
        (str "")
      ≡ some r)
    × ((k : String) → get k r ≡ get k by_name)
unfolding has contains
key_set_object-json_from_example =
    key_set_object-json_from wholes (λ v. object (json_from_key_set_object wholes (some by_name)))
      (str "") by_name (refl, (refl, tt), tt) refl
