-- ===== src/Layers/State.antt =====
-- What `generateLayer` of src/home/util.js reads and what it returns, with its tests and choices.
use tgvejs.Prelude.{
  ℕ, String, Bool, true, false, not, Option, none, some, List, [], ◌∷◌, codes, str_eq,
  if◌then◌else◌,
}
use tgvejs.Js.{Value, Floats}
use tgvejs.Js.Dict.{keys}
use tgvejs.Geojson.{Feature, FeatureCollection}
use tgvejs.Geojson.Join.{includes}
use tgvejs.Geojson.Values.{Found}
use tgvejs.Color.{Interpolator, color_range_names_to_interpolate}
use tgvejs.Utils.Text.{humanize}
use tgvejs.Home.Filter.{Selection, Filter, multi, coords, other}
use tgvejs.Home.Loading.{Alert}
use tgvejs.Layers.{Setting}
use tgvejs.Layers.Deck.{Layer}

-- `DECK_LAYER_NAMES` of src/Constants.js
unfoldable pub deck_layer_names : List String
deck_layer_names =
    "arc" ∷ "geojson" ∷ "grid" ∷ "heatmap" ∷ "hex" ∷ "icon" ∷ "line" ∷ "path" ∷ "scatterplot"
    ∷ "sgrid" ∷ "barvis" ∷ []

-- DECK_LAYER_NAMES.includes(layerName)
unfoldable pub is_known : Option String → Bool
unfolding deck_layer_names includes
is_known none = false
is_known (some name) = includes deck_layer_names name

-- `BLANKSTYLE`, a style of OSM tiles, or one of mapbox
pub data Style : Type 0 where
  blank : Style
  osm : String → Style
  mapbox : String → Style

-- `alert` of the state
pub data Notice : Type 0 where
  no_matching_column no_results icon_mode : Notice
  error : Alert → Notice

pub record Legend (N : Type 0) : Type 0 where
  pub domain : List (Value N)
  pub title : List ℕ
  pub interpolate : Interpolator

-- a || b, for texts
unfoldable pub or_text : Option String → Option String → Option String
or_text none b = b
or_text (some s) b = if str_eq s "" then b else some s

abbrev pub is_text : Option String → Bool
is_text none = false
is_text (some s) = not (str_eq s "")

module _ (F : Floats) where
  open F use {Num}

  -- `filter.what` with `filter.selected`; those that `filterGeojson` knows are its own.
  pub data What : Type 0 where
    narrow : Filter F → What
    map_style : String → What
    percent : Num → What
    column : String → What
    layer_name : String → What
    road_type : Value Num → What

  pub record Values : Type 0 where
    pub filter : Option What
    pub cn : Option String
    pub layer_options : List (String × Setting Num)
    pub custom_error : Option Alert

  -- The slider of the bottom panel: its rows, and its dates.
  pub record Panel : Type 0 where
    pub rows : Option (List (Feature Num))
    pub dates : Found F

  -- What `generateLayer` reads of the state and gives back for it.
  pub record State : Type 0 where
    pub shown : Option (FeatureCollection Num)
    pub filtered : Option (List (Feature Num))
    pub geography : Option (FeatureCollection Num)
    pub geography_column : Option String
    pub multi_var_select : Option (Selection Num)
    pub at : Option (List (Value Num))
    pub by_column : Option String
    pub layer_name : Option String
    pub color_name : String
    pub icon_limit : ℕ
    pub layer_options : List (String × Setting Num)
    pub road_type : Value Num
    pub loading : Bool
    pub alert : Option Notice
    pub geom_type : String
    pub layers : List (Option (Layer Num))
    pub legend : Option (Legend Num)
    pub panel : Option Panel
    pub map_style : Style

  -- The object for `setState`, by its keys.
  pub record Shown : Type 0 where
    pub alert : Option Notice
    pub layer_name : Option String
    pub geom_type : String
    pub filtered : List (Feature Num)
    pub layer : Option (Layer Num)
    pub layer_options : List (String × Setting Num)
    pub multi_var_select : Option (Selection Num)
    pub road_type : Value Num
    pub color_name : String
    pub by_column : Option String
    pub at : Option (List (Value Num))
    pub legend : Option (Legend Num)
    pub panel : Panel

  pub data Update : Type 0 where
    nothing : Update
    restyle : Style → Update
    unmatched : Update
    empty : Update
    draw : Shown → Update

  -- the filter as `filterGeojson` reads it
  unfoldable pub as_filter : Option What → Option (Filter F)
  as_filter none = none
  as_filter (some (narrow f)) = some f
  as_filter (some (map_style s)) = some (other "mapstyle")
  as_filter (some (percent n)) = some (other "%")
  as_filter (some (column s)) = some (other "column")
  as_filter (some (layer_name s)) = some (other "layerName")
  as_filter (some (road_type v)) = some (other "road_type")

  abbrev pub selected_column : Option What → Option String
  selected_column (some (column s)) = some s
  selected_column filter = none

  abbrev pub selected_layer : Option What → Option String
  selected_layer (some (layer_name s)) = some s
  selected_layer filter = none

  abbrev pub is_column : Option What → Bool
  is_column (some (column s)) = true
  is_column filter = false

  abbrev pub is_layer_name : Option What → Bool
  is_layer_name (some (layer_name s)) = true
  is_layer_name filter = false

  -- `has_token`: the access token of mapbox is set.
  unfoldable pub style_of : Bool → String → Style
  style_of has_token selected =
      if str_eq selected "No map"
      then blank
      else if has_token
      then mapbox selected
      else osm selected

  unfoldable pub kept_selection : Option What → Option (Selection Num) → Option (Selection Num)
  kept_selection (some (narrow (multi s))) mvs = s
  kept_selection filter mvs = mvs

  unfoldable pub kept_coords : Option What → Option (List (Value Num)) → Option (List (Value Num))
  kept_coords (some (narrow (coords vs))) at = vs
  kept_coords filter at = at

  unfoldable pub kept_road_type : Option What → Value Num → Value Num
  kept_road_type (some (road_type v)) old = v
  kept_road_type filter old = old

  -- data[0]
  abbrev pub head : List (Feature Num) → Option (Feature Num)
  head [] = none
  head (d ∷ ds) = some d

  -- The first key of the properties; 0, where there is none, reads like an empty name.
  abbrev pub first_key : Feature Num → String
  first_key d = elim (keys d.properties) [ [] ↦ "" | k ∷ ks ↦ k ]

  abbrev pub column_name : Option String → Feature Num → String
  column_name by d = elim by [
    | none ↦ first_key d
    | some c ↦ if str_eq c "" then first_key d else c
  ]

  unfoldable pub legend_of : Option (List (Value Num)) → String → String → Option (Legend Num)
  unfolding humanize color_range_names_to_interpolate
  legend_of none name color = none
  legend_of (some []) name color = none
  legend_of (some (v ∷ [])) name color = none
  legend_of (some (v ∷ w ∷ vs)) name color = some (record {
    domain = v ∷ w ∷ vs;
    title = humanize (codes name);
    interpolate = color_range_names_to_interpolate color;
  })
