-- ===== src/Layers/Settings.antt =====
-- src/components/settings/settingsUtils.js: the properties of the layers, with their controls.
-- Numbers are counted in tenths.
pub mod Laws
use tgvejs.Prelude.{ℕ, String, Bool, true, false, Option, none, some, List, [], ◌∷◌}
use tgvejs.Js.Dict.{Dict, get, put}

-- The classes of deck.gl, and the two of the program.
pub data Class : Type 0 where
  scatterplot_layer hexagon_layer geo_json_layer screen_grid_layer grid_layer line_layer : Class
  heatmap_layer text_layer arc_layer path_layer point_cloud_layer : Class
  icon_cluster_layer bar_layer : Class

pub record Slider : Type 0 where
  pub min : ℕ
  pub max : ℕ
  pub default : ℕ
  pub step : ℕ

pub data Prop : Type 0 where
  class : Class → Prop
  boolean : Bool → Prop
  number : Slider → Prop
  -- type: 'column', with `value` 'number' or 'string' and the default
  column : ℕ → Prop
  text_column : String → Prop
  -- d => d.geometry.coordinates, and d => d.geometry.coordinates[i]
  coordinates : Prop
  coordinate_at : ℕ → Prop
  color : List ℕ → Prop
  text : String → Prop

-- obj[key] = opt[key], for every key of opt
unfoldable pub add_options_to_object : {A : Type 0} → Dict A → Dict A → Dict A
unfolding put
add_options_to_object [] obj = obj
add_options_to_object ((key, v) ∷ opt) obj = add_options_to_object opt (put key v obj)

-- `makeObject` of a number, whose fourth argument is the default and whose fifth is the step
unfoldable pub make_object : ℕ → ℕ → ℕ → ℕ → Prop
make_object min max def step = number (record { min = min; max = max; default = def; step = step })

unfoldable pub options : Dict Prop
options =
    ("pickable", boolean true) ∷ ("extruded", boolean true) ∷ ("autoHighlight", boolean true) ∷ []

unfoldable pub hex_object : Dict Prop
unfolding make_object
hex_object =
    ("class", class hexagon_layer)
    ∷ ("extruded", boolean true)
    ∷ ("radius", make_object 500 10000 1000 500)
    ∷ ("elevationScale", make_object 10 80 10 20)
    ∷ []

unfoldable pub scatter_obj : Dict Prop
unfolding make_object
scatter_obj =
    ("class", class scatterplot_layer)
    ∷ ("opacity", make_object 0 10 8 1)
    ∷ ("getRadius", column 300)
    ∷ ("radiusScale", make_object 0 10 8 1)
    ∷ ("radiusMinPixels", make_object 10 100 10 10)
    ∷ ("radiusMaxPixels", make_object 10 1000 1000 50)
    ∷ []

unfoldable pub geojson_object : Dict Prop
unfolding make_object
geojson_object =
    ("class", class geo_json_layer)
    ∷ ("pickable", boolean true)
    ∷ ("extruded", boolean false)
    ∷ ("stroked", boolean false)
    ∷ ("filled", boolean true)
    ∷ ("lineWidthScale", make_object 200 1000 200 50)
    ∷ ("lineWidthMinPixels", make_object 20 200 20 20)
    ∷ ("getRadius", column 300)
    ∷ ("getLineWidth", column 10)
    ∷ ("getElevation", make_object 300 1000 300 100)
    ∷ []

unfoldable pub icon_object : Dict Prop
icon_object = ("class", class icon_cluster_layer) ∷ ("wrapLongitude", boolean false) ∷ []

unfoldable pub sgrid_object : Dict Prop
unfolding make_object
sgrid_object =
    ("class", class screen_grid_layer) ∷ ("cellSizePixels", make_object 500 1000 500 50) ∷ []

unfoldable pub grid_object : Dict Prop
unfolding make_object
grid_object =
    ("class", class grid_layer)
    ∷ ("cellSize", make_object 1000 500000 1000 500)
    ∷ ("elevationScale", make_object 40 100 40 20)
    ∷ []

unfoldable pub line_object : Dict Prop
line_object =
    ("class", class line_layer)
    ∷ ("getWidth", column 10)
    ∷ ("getSourcePosition", coordinate_at 0)
    ∷ ("getTargetPosition", coordinate_at 1)
    ∷ []

unfoldable pub arc_object : Dict Prop
arc_object =
    ("class", class arc_layer)
    ∷ ("getWidth", column 10)
    ∷ ("getWeight", column 10)
    ∷ ("getTilt", column 0)
    ∷ ("getSourcePosition", coordinate_at 0)
    ∷ ("getTargetPosition", coordinate_at 1)
    ∷ ("getSourceColor", color (255 ∷ 255 ∷ 178 ∷ []))
    ∷ ("getTargetColor", color (189 ∷ 0 ∷ 38 ∷ []))
    ∷ []

unfoldable pub path_object : Dict Prop
unfolding make_object
path_object =
    ("class", class path_layer)
    ∷ ("widthUnits", text "pixels")
    ∷ ("getPath", coordinates)
    ∷ ("getWidth", column 20)
    ∷ ("widthScale", column 10)
    ∷ ("widthMinScale", make_object 0 1000 10 20)
    ∷ []

unfoldable pub heat_object : Dict Prop
heat_object = ("class", class heatmap_layer) ∷ ("getWeight", column 10) ∷ []

unfoldable pub text_object : Dict Prop
text_object = ("class", class text_layer) ∷ ("getText", text_column "") ∷ []

unfoldable pub barvis_object : Dict Prop
barvis_object =
    ("class", class bar_layer) ∷ ("getRotationAngle", column 0) ∷ ("getScale", column 200) ∷ []

unfoldable pub point_cloud_object : Dict Prop
unfolding make_object
point_cloud_object =
    ("class", class point_cloud_layer)
    ∷ ("pointSize", make_object 10 1000 100 20)
    ∷ ("opacity", make_object 0 10 5 1)
    ∷ []

abbrev with_options : Dict Prop → Dict Prop
with_options obj = add_options_to_object options obj

unfoldable pub layers : Dict (Dict Prop)
unfolding add_options_to_object options hex_object scatter_obj geojson_object icon_object
    sgrid_object grid_object line_object arc_object path_object heat_object text_object
    barvis_object point_cloud_object
layers =
    ("hex", with_options hex_object)
    ∷ ("scatterplot", with_options scatter_obj)
    ∷ ("geojson", geojson_object)
    ∷ ("icon", with_options icon_object)
    ∷ ("sgrid", with_options sgrid_object)
    ∷ ("grid", with_options grid_object)
    ∷ ("line", with_options line_object)
    ∷ ("arc", with_options arc_object)
    ∷ ("path", with_options path_object)
    ∷ ("heatmap", with_options heat_object)
    ∷ ("text", with_options text_object)
    ∷ ("barvis", with_options barvis_object)
    ∷ ("pointcloud", with_options point_cloud_object)
    ∷ []

-- `getLayerProps`: null for a name that is no text, undefined for an unknown one.
unfoldable pub get_layer_props : Option String → Option (Dict Prop)
unfolding layers get
get_layer_props none = none
get_layer_props (some name) = get name layers
