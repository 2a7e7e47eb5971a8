-- ===== src/Tests/Drawing.antt =====
-- The theorems on layers at concrete inputs.
use tgvejs.Prelude.{
  ℕ, ◌≡◌, ◌≢◌, refl, ◌⊎◌, inl, ◌<◌, ◌↔◌, true, false, Option, none, some, List, [], ◌∷◌, All,
}
use tgvejs.Js.{undefined, num, str, ref, function}
use tgvejs.Js.Dict.{Dict, has}
use tgvejs.Geojson.{Feature, read, sf_type}
use tgvejs.Js.Collection.{unique}
use tgvejs.Geojson.Join.{join_columns}
use tgvejs.Geojson.Join.Laws.{geography, IsJoin}
use tgvejs.Color.{color_ranges}
use tgvejs.Home.Filter.{Selection, on, missing, demands, bounds_subset}
use tgvejs.Layers.{Setting}
use tgvejs.Layers.Settings.{Prop, get_layer_props, options, scatter_obj, add_options_to_object}
use tgvejs.Layers.Settings.Laws.{IsSlider, get_layer_props-IsSlider}
use tgvejs.Layers.Deck.{Layer, generate_deck_layer}
use tgvejs.Layers.Deck.Result.{IsMade, generate_deck_layer-IsMade}
use tgvejs.Layers.Options.{Look, generate_options, not_empty_domain, is_layer, numeric_valid_domain}
use tgvejs.Layers.Options.Laws.{generate_options_throws_iff}
use tgvejs.Layers.State.{
  State, narrow, Values, Shown, Update, draw, blank, icon_mode, as_filter, or_text,
}
use tgvejs.Layers.Generate.{rows_of, generate_layer}
use tgvejs.Layers.Generate.Names.{IsTyped}
use tgvejs.Geojson.Values.{Found}
use tgvejs.Layers.Generate.Outcomes.{
  IsDrawn, generate_layer-Ends, generate_layer-joins, generate_layer-layer,
}
use tgvejs.Samples.{
  wholes, Whole, whole, packages, set1, engine, leeds, york, accidents, more_accidents,
}

abbrev areas : List (Feature Whole)
areas = leeds ∷ york ∷ []

abbrev by_name : Selection Whole
by_name = ("name", str "Leeds" ∷ []) ∷ []

-- Two areas, one of which is selected; no layer has been drawn yet.
abbrev start : State wholes
start = record {
  shown = some (geography wholes "FeatureCollection" areas);
  filtered = none;
  geography = none;
  geography_column = none;
  multi_var_select = some by_name;
  at = none;
  by_column = none;
  layer_name = none;
  color_name = "default";
  icon_limit = 500;
  layer_options = [];
  road_type = undefined;
  loading = true;
  alert = none;
  geom_type = "";
  layers = [];
  legend = none;
  panel = none;
  map_style = blank;
}

abbrev call : Values wholes
call = record { filter = none; cn = none; layer_options = []; custom_error = none }

fair : (n : ℕ) → 0 < n → 0 < n
fair n h = h

default_known : color_ranges (some "default") ≢ none
unfolding color_ranges
default_known = λ e. cc

on≢missing : {A : Type 0} {a : A} → on a ≢ missing
on≢missing = λ e. cc

-- The map is moved to where only one area is.
abbrev here : Values wholes
here = record call {
  filter = some (
      narrow (
        bounds_subset (
          some (record {
            sw = record { lng = whole 0; lat = whole 0 };
            ne = record { lng = whole 2; lat = whole 3 };
          }))));
}

generate_layer-Ends_example :
    IsDrawn wholes engine packages set1 false start here areas
      (λ kept. kept)
      (generate_layer wholes engine packages set1 false start here)
unfolding rows_of as_filter or_text
generate_layer-Ends_example =
    generate_layer-Ends wholes engine packages set1 false start here "FeatureCollection" areas areas
      refl refl refl refl fair default_known

-- Accidents whose geography is elsewhere.
abbrev apart : State wholes
apart = record start {
  shown = some (geography wholes "FeatureCollection" (accidents ∷ more_accidents ∷ []));
  geography = some (geography wholes "FeatureCollection" areas);
  geography_column = some "area:code";
  multi_var_select = some (("total", str "7" ∷ []) ∷ []);
}

generate_layer-joins_example :
    (js : List (Feature Whole)) × IsJoin wholes
      (join_columns (λ s. s) (some "area:code") leeds accidents)
      areas
      (accidents ∷ more_accidents ∷ [])
      js
    × IsDrawn wholes engine packages set1 false apart call js
        (λ kept. areas)
        (generate_layer wholes engine packages set1 false apart call)
unfolding rows_of as_filter or_text join_columns read
generate_layer-joins_example =
    generate_layer-joins wholes engine packages set1 false apart call "FeatureCollection"
      "FeatureCollection" (accidents ∷ more_accidents ∷ []) leeds accidents (york ∷ [])
      (more_accidents ∷ []) refl refl refl refl refl fair default_known

abbrev drawn : Option (Update wholes)
drawn = generate_layer wholes engine packages set1 false start call

abbrev nothing_shown : Shown wholes
nothing_shown = record {
  alert = none;
  layer_name = none;
  geom_type = "";
  filtered = [];
  layer = none;
  layer_options = [];
  multi_var_select = none;
  road_type = undefined;
  color_name = "";
  by_column = none;
  at = none;
  legend = none;
  panel = record { rows = none; dates = Found.nothing };
}

-- What is drawn of the start.
abbrev shown : Shown wholes
shown = elim drawn [ none ↦ nothing_shown | some u ↦ elim u [ draw w ↦ w | _ ↦ nothing_shown ] ]

draws : drawn ≡ some (draw shown)
unfolding generate_layer read sf_type unique
draws = refl

typed : All (IsTyped wholes engine packages set1 false) areas
typed = ((_, refl, refl), ((_, refl, refl), tt))

generate_layer-layer_example : (shown.alert ≢ some icon_mode) × (shown.layer ≢ none)
unfolding rows_of demands as_filter or_text
generate_layer-layer_example =
    generate_layer-layer wholes engine packages set1 false start call "FeatureCollection" areas
      areas shown refl refl refl refl on≢missing typed fair default_known (inl refl) draws

-- An option that is a function of the rows, and a plain one.
abbrev chosen : Dict (Setting Whole)
chosen =
    ("getRadius", Setting.given (ref function 1)) ∷ ("opacity", Setting.given (num (whole 1))) ∷ []

abbrev scatter : Dict Prop
scatter = add_options_to_object options scatter_obj

scatter_props : get_layer_props (some "scatterplot") ≡ some scatter
unfolding get_layer_props
scatter_props = refl

generate_deck_layer-IsMade_example :
    (w : Layer Whole) × (generate_deck_layer wholes engine (some "scatterplot") areas chosen
      ≡ some w)
    × IsMade wholes engine "scatterplot" areas chosen scatter w
unfolding has
generate_deck_layer-IsMade_example =
    generate_deck_layer-IsMade wholes engine "scatterplot" areas chosen scatter refl scatter_props
      (refl, (refl, tt))

get_layer_props-IsSlider_example : All (λ e. IsSlider e.1) scatter
get_layer_props-IsSlider_example =
    get_layer_props-IsSlider (some "scatterplot") scatter scatter_props

-- An arc in unknown colours over two texts.
abbrev unknown_colors : Look wholes
unknown_colors = record {
  color_name = "violet";
  layer_name = some "arc";
  rows = areas;
  column_name = "name";
  domain = some (str "Leeds" ∷ str "York" ∷ []);
  geom_type = "linestring";
}

generate_options_throws_iff_example :
    (generate_options wholes engine set1 unknown_colors [] [] ≡ none) ↔ (
      (color_ranges (some "violet") ≡ none)
      × ((not_empty_domain wholes unknown_colors ≡ false)
          ⊎ ((is_layer wholes unknown_colors "arc" ≡ true)
              × (numeric_valid_domain wholes unknown_colors ≡ false))))
generate_options_throws_iff_example =
    generate_options_throws_iff wholes engine set1 unknown_colors [] []

-- One of the two areas passes; it is drawn as a grid, and not as an icon.
draws_leeds :
    (shown.filtered ≡ leeds ∷ []) × (shown.layer_name ≡ some "grid") × (shown.geom_type ≡ "Point")
unfolding generate_layer read sf_type unique
draws_leeds = (refl, refl, refl)
