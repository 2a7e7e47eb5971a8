-- ===== src/Home/Steps.antt =====
-- The steps of the main component, src/home/index.js: `_callGenerateLayer`, `_urlCallback`,
-- `_renderTooltip` and `_updateHistory`, the callbacks of its `render`, and what the loading of data (Home/Loading) sets. `setState`
-- takes effect at once; an exception leaves the state as it is.
pub mod Fits
pub mod Runs
use tgvejs.Prelude.{
  ℕ, ◌+◌, ◌-◌, String, ◌≡◌, refl, Bool, true, false, not, Option, none, some, List, [], ◌∷◌, ◌++◌,
  ltb, if◌then◌else◌,
}
use tgvejs.Js.{Floats, undefined}
use tgvejs.Js.Dict.{Dict}
use tgvejs.Geojson.{FeatureCollection}
use tgvejs.Color.{Palette}
use tgvejs.Api.Select.{Item, json_from_key_set_object}
use tgvejs.Utils.Numbers.{Bounds}
use tgvejs.Home.Filter.{Selection, Packages, bounds_subset}
use tgvejs.Home.Loading.{Alert}
use tgvejs.Layers.{Engine}
use tgvejs.Layers.State.{
  State, Values, narrow, osm, mapbox, Shown, Update, nothing, restyle, unmatched, empty, draw,
  Notice, no_matching_column, no_results, error,
}
use tgvejs.Layers.Generate.{generate_layer}

-- What the tooltip or the popup shows: an object at a place.
pub record Tip : Type 0 where
  pub popup : Bool
  pub x : ℕ
  pub y : ℕ
  pub object : ℕ

module _ (F : Floats) where
  open F use {Num}

  pub record Home : Type 0 where
    pub map : State F
    pub tooltip : Option Tip
    pub popup : Option Tip
    -- milliseconds
    pub last_view_port_change : ℕ
    pub subset_bounds_change : Bool
    pub reset : Bool
    -- typeof onStateChange === 'function'
    pub listens : Bool
    -- calls of onStateChange with their selections, of `updateHistory` with their times, and of
    -- `_initDataState`, the last one first
    pub selects : List (Dict (Item F))
    pub histories : List ℕ
    pub inits : ℕ

  -- What the callback of "Add data" and of the reset is given.
  pub record UrlParams : Type 0 where
    pub geojson_returned : Option (FeatureCollection Num)
    pub geography_returned : Option (FeatureCollection Num)
    pub geo_column : Option String
    pub reset : Bool

  -- The props that the constructor reads.
  pub record HomeProps : Type 0 where
    pub select : Option (Selection Num)
    pub geography_column : Option String
    pub column : Option String
    pub layer_name : Option String
    pub dark : Bool
    pub listens : Bool

  -- The state that the constructor makes: `now` is the time, `road_type` and `layerOptions` are not set.
  unfoldable pub constructed : Bool → ℕ → HomeProps → Home
  constructed has_token now p = record {
    map = record {
      shown = none;
      filtered = none;
      geography = none;
      geography_column = p.geography_column;
      multi_var_select = elim p.select [ none ↦ some [] | some s ↦ some s ];
      at = none;
      by_column = p.column;
      layer_name = p.layer_name;
      color_name = "default";
      icon_limit = 500;
      layer_options = [];
      road_type = undefined;
      loading = true;
      alert = none;
      geom_type = "";
      layers = [];
      legend = none;
      panel = none;
      map_style = if has_token then mapbox (if p.dark then "dark" else "streets") else osm "";
    };
    tooltip = none;
    popup = none;
    last_view_port_change = now;
    subset_bounds_change = false;
    reset = false;
    listens = p.listens;
    selects = [];
    histories = [];
    inits = 0;
  }

  unfoldable pub merge : Update F → State F → State F
  merge nothing s = s
  merge (restyle style) s = record s { map_style = style }
  merge unmatched s = record s { alert = some no_matching_column }
  merge empty s = record s { loading = false; alert = some no_results }
  merge (draw u) s = record s {
    alert = u.alert;
    loading = false;
    layer_name = u.layer_name;
    geom_type = u.geom_type;
    filtered = some u.filtered;
    layers = u.layer ∷ [];
    layer_options = u.layer_options;
    multi_var_select = u.multi_var_select;
    road_type = u.road_type;
    color_name = u.color_name;
    by_column = u.by_column;
    at = u.at;
    legend = u.legend;
    panel = some u.panel;
  }

  -- The selection that `onStateChange` is told: updateState has one only where something is drawn.
  unfoldable pub told : Update F → List (Dict (Item F))
  unfolding json_from_key_set_object
  told nothing = []
  told (draw u) = json_from_key_set_object F u.multi_var_select ∷ []
  told u = json_from_key_set_object F none ∷ []

  unfoldable pub tooltip_after : Update F → Option Tip → Option Tip
  tooltip_after (draw u) old = none
  tooltip_after u old = old

  -- x, y and object of `info`
  unfoldable pub render_tooltip : Option ℕ → ℕ → ℕ → Bool → Home → Home
  render_tooltip none x y click h =
      if click then record h { popup = none } else record h { tooltip = none }
  render_tooltip (some object) x y click h =
      let tip : Tip = record { popup = click; x = x; y = y; object = object } in
      if click
      then record h { tooltip = none; popup = some tip }
      else record h { tooltip = some tip }

  -- the first setState of `_urlCallback`
  unfoldable pub cleared : Bool → State F → State F
  cleared reset s = record s {
    by_column = none;
    loading = true;
    at = none;
    multi_var_select = some [];
    geography = none;
    shown = if reset then some (record { type = ""; features = none }) else s.shown;
    filtered = if reset then some [] else s.filtered;
    layers = if reset then [] else s.layers;
    legend = if reset then none else s.legend;
  }

  abbrev pub given_data : Option (FeatureCollection Num) → State F → State F
  given_data data_ s = record s { loading = false; shown = data_ }

  abbrev pub given_geography :
      Option (FeatureCollection Num) → FeatureCollection Num → Option Alert → State F → State F
  given_geography data_ g custom_error s = record s {
    loading = false;
    shown = data_;
    geography = some g;
    alert = elim custom_error [ none ↦ none | some e ↦ some (error e) ];
  }

  -- the second setState of `_urlCallback`
  abbrev pub given_both : UrlParams → FeatureCollection Num → State F → State F
  given_both p geojson s = record s {
    shown = some geojson;
    geography = p.geography_returned;
    geography_column = p.geo_column;
  }

  module _ (E : Engine F) (P : Packages F) (C : Palette F) (has_token : Bool) where
    unfoldable pub call_generate_layer : Values F → Home → Home
    unfolding generate_layer merge told tooltip_after
    call_generate_layer v h = elim (generate_layer F E P C has_token h.map v) [
      | none ↦ h
      | some u ↦ record h {
        map = merge u h.map;
        tooltip = tooltip_after u h.tooltip;
        selects = if h.listens then told u ++ h.selects else h.selects;
      }
    ]

    abbrev pub no_values : Values F
    no_values = record { filter = none; cn = none; layer_options = []; custom_error = none }

    -- Data arrives: `_initDataState`, `_initWithGeojson` and `_updateStateAndLayers` set it, with the
    -- geography in the last case, and generate a layer.
    unfoldable pub arrive :
        Option (FeatureCollection Num) → Option (FeatureCollection Num) → Option Alert → Home → Home
    unfolding call_generate_layer
    arrive data_ none custom_error h =
        call_generate_layer (record no_values { custom_error = custom_error })
          (record h { map = given_data data_ h.map })
    arrive data_ (some g) custom_error h =
        call_generate_layer no_values
          (record h { map = given_geography data_ g custom_error h.map })

    unfoldable pub url_callback : UrlParams → Home → Home
    unfolding cleared call_generate_layer
    url_callback p h =
        let now = record h { map = cleared p.reset h.map; tooltip = none; reset = p.reset } in
        elim p.geojson_returned [
          | none ↦ record now { inits = now.inits + 1 }
          | some geojson ↦
              call_generate_layer no_values (record now { map = given_both p geojson now.map })
        ]

    -- `now` is the time, `bounds` what the map has.
    unfoldable pub update_history : ℕ → Option (Bounds F) → Home → Home
    unfolding call_generate_layer
    update_history now bounds h =
        let late = ltb 1000 (now - h.last_view_port_change) in
        let timed =
          if late
          then record h { last_view_port_change = now; histories = now ∷ h.histories }
          else h in
        let subset =
          call_generate_layer (record no_values { filter = some (narrow (bounds_subset bounds)) })
            (record timed { map = record timed.map { loading = true } }) in
        if h.subset_bounds_change then subset else timed

    -- `onClick` of DeckGL: a click beside the layers drops the coordinate that is selected.
    unfoldable pub on_click : Bool → Option ℕ → ℕ → ℕ → Home → Home
    unfolding call_generate_layer render_tooltip
    on_click on_layer object x y h =
        let dropped =
          call_generate_layer no_values (record h { map = record h.map { at = none } }) in
        render_tooltip object x y true
          (if on_layer then h else elim h.map.at [ none ↦ h | some vs ↦ dropped ])

    -- `toggleSubsetBoundsChange`
    unfoldable pub toggle_subset_bounds_change : Home → Home
    unfolding call_generate_layer
    toggle_subset_bounds_change h =
        call_generate_layer no_values
          (record h { subset_bounds_change = not h.subset_bounds_change })

    -- What happens to a mounted component.
    pub data Event : Type 0 where
      select : Values F → Event
      arrives :
          Option (FeatureCollection Num) → Option (FeatureCollection Num) → Option Alert → Event
      returns : UrlParams → Event
      hovers : Option ℕ → ℕ → ℕ → Event
      clicks : Bool → Option ℕ → ℕ → ℕ → Event
      closes_popup : Event
      moves : ℕ → Option (Bounds F) → Event
      subsets : Event

    unfoldable pub step : Event → Home → Home
    unfolding call_generate_layer arrive url_callback render_tooltip update_history on_click
        toggle_subset_bounds_change
    step (select v) h = call_generate_layer v h
    step (arrives data_ geography e) h = arrive data_ geography e h
    step (returns p) h = url_callback p h
    step (hovers object x y) h = render_tooltip object x y false h
    step (clicks on_layer object x y) h = on_click on_layer object x y h
    step closes_popup h = record h { popup = none }
    step (moves now bounds) h = update_history now bounds h
    step subsets h = toggle_subset_bounds_change h
