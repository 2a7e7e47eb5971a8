-- ===== src/Layers/Options.antt =====
-- `_generateOptions` of src/home/util.js: the options that the data, a column and the name of the
-- colours add to those of the state and of the caller.
pub mod Laws
use tgvejs.Prelude.{
  ℕ, String, Bool, false, ◌&&◌, ◌||◌, Option, none, some, List, [], ◌∷◌, ◌++◌, map, length, ltb,
  str_eq, if◌then◌else◌,
}
use tgvejs.Js.{Value, num, str, Floats, to_number, truthy}
use tgvejs.Js.Dict.{Dict, get, put}
use tgvejs.Geojson.{Feature, Geometry, Coord, read}
use tgvejs.Color.{Palette, Shade, color_scale, color_ranges, get_color_array}
use tgvejs.Utils.Numbers.{get_min, get_max, is_array_numeric}
use tgvejs.Layers.Settings.{add_options_to_object}
use tgvejs.Layers.{Trigger, off, values, Setting, Engine, call_setting}

module _ (F : Floats) where
  open F use {Num}

  -- The arguments that say what is drawn.
  pub record Look : Type 0 where
    pub color_name : String
    pub layer_name : Option String
    pub rows : List (Feature Num)
    pub column_name : String
    pub domain : Option (List (Value Num))
    pub geom_type : String

  abbrev pub Options : Type 0
  Options = Dict (Setting Num)

  -- What a click on a feature asks for: nothing, or a filter by its first coordinate; the read of a
  -- geometry that is null throws.
  pub data Clicked : Type 0 where
    ignored throws : Clicked
    asks : Option (Coord Num) → Clicked

  unfoldable pub on_click : Option String → String → Feature Num → Clicked
  on_click name geom_type d =
      let lines : Bool = elim name [
        | none ↦ false
        | some n ↦ str_eq n "path" || str_eq n "arc" || str_eq n "line"
      ] in
      if lines || str_eq geom_type "linestring"
      then elim d.geometry [
        | none ↦ throws
        | some g ↦ asks (elim g.coordinates [ [] ↦ none | c ∷ cs ↦ some c ])
      ]
      else ignored

  -- layerName === name
  abbrev pub is_layer : Look → String → Bool
  is_layer l name = elim l.layer_name [ none ↦ false | some n ↦ str_eq n name ]

  -- the domain, empty where it is undefined
  abbrev pub domain_of : Look → List (Value Num)
  domain_of l = elim l.domain [ none ↦ [] | some d ↦ d ]

  unfoldable pub not_empty_domain : Look → Bool
  not_empty_domain l = ltb 1 (length (domain_of l))

  unfoldable pub numeric_valid_domain : Look → Bool
  unfolding is_array_numeric not_empty_domain
  numeric_valid_domain l = is_array_numeric F (domain_of l) && not_empty_domain l

  -- getMin(domain) and getMax(domain), of a domain of numbers
  unfoldable pub min_of : Look → Num
  unfolding get_min
  min_of l = get_min F (map (to_number F) (domain_of l))

  unfoldable pub max_of : Look → Num
  unfolding get_max
  max_of l = get_max F (map (to_number F) (domain_of l))

  -- [...domain, colorName] or [colorName]
  unfoldable pub trigger : Look → Trigger Num
  unfolding not_empty_domain
  trigger l =
      values
        (if not_empty_domain l then domain_of l ++ str l.color_name ∷ [] else str l.color_name ∷ [])

  abbrev pub last_color : List (List ℕ) → Setting Num
  last_color [] = Setting.no_color
  last_color (c ∷ []) = Setting.color c
  last_color (c ∷ d ∷ cs) = last_color (d ∷ cs)

  abbrev pub first_color : List (List ℕ) → Setting Num
  first_color [] = Setting.no_color
  first_color (c ∷ cs) = Setting.color c

  -- `none` is the TypeError of colorRange.length for a name without colours.
  unfoldable pub fill_or_constant_color : Look → Option (Setting Num)
  unfolding not_empty_domain color_ranges
  fill_or_constant_color l =
      if not_empty_domain l
      then some (Setting.fill l.column_name (domain_of l) l.color_name)
      else elim (color_ranges (some l.color_name)) [ none ↦ none | some cs ↦ some (last_color cs) ]

  unfoldable pub base_options : Look → Options → Options → Options
  unfolding add_options_to_object put color_ranges get_color_array
  base_options l state_options layer_options =
      let paint : Setting Num = elim (get_color_array (some l.color_name)) [
        | none ↦ Setting.no_color
        | some c ↦ Setting.color c
      ] in
      add_options_to_object layer_options (
        put "getColor" paint (
          put "colorRange" (Setting.palette (color_ranges (some l.color_name)))
            (put "lightSettings" Setting.lights state_options)))

  abbrev pub one_trigger : String → Trigger Num → Setting Num
  one_trigger key t = Setting.triggers ((key, t) ∷ [])

  -- `xs` in place of `o` under a condition
  abbrev pub when : Bool → (Options → Options) → Options → Options
  when b f o = if b then f o else o

  module _ (E : Engine F) (P : Palette F) where
    -- `fill`: the colour of a feature's value, which is made a number if it can be
    unfoldable pub fill : String → List (Value Num) → String → Feature Num → Shade Num
    unfolding color_scale read
    fill column_name domain color_name d =
        let v = read d.properties column_name in
        let n = num (to_number F v) in
        color_scale F P (if truthy F n then n else v) domain (F.of_nat 180) (some color_name)

    unfoldable pub weights : Look → Options → Trigger Num
    unfolding get call_setting
    weights l o = elim (get "getWeight" o) [
      | none ↦ off
      | some s ↦ elim (call_setting F E s) [ none ↦ off | some f ↦ values (map f l.rows) ]
    ]

    unfoldable pub heatmap_options : Look → Options → Options
    unfolding put weights
    heatmap_options l o =
        let placed = put "getPosition" Setting.coordinates o in
        put "updateTriggers" (one_trigger "getWeight" (weights l placed)) placed

    abbrev pub in_domain : Look → Setting Num
    in_domain l = Setting.in_range l.column_name (min_of l) (max_of l)

    -- the colour of a number of the domain
    unfoldable pub end_color : Look → Num → Setting Num
    unfolding color_scale
    end_color l n =
        Setting.shade (color_scale F P (num n) (domain_of l) (F.of_nat 180) (some l.color_name))

    unfoldable pub arc_options : Look → Options → Option Options
    unfolding numeric_valid_domain end_color min_of max_of put color_ranges
    arc_options l o =
        let colors = color_ranges (some l.color_name) in
        if numeric_valid_domain l
        then some (
            put "getTargetColor" (end_color l (max_of l))
              (put "getSourceColor" (end_color l (min_of l)) o))
        else elim colors [
          | none ↦ none
          | some cs ↦
              some (put "getTargetColor" (last_color cs) (put "getSourceColor" (first_color cs) o))
        ]

    -- for lines and paths
    unfoldable pub line_options : Look → Setting Num → Options → Options
    unfolding numeric_valid_domain trigger min_of max_of put
    line_options l paint o =
        let painted =
          put "onClick" (Setting.on_click l.layer_name l.geom_type)
            (put "getPath" Setting.coordinates (put "getColor" paint o)) in
        when (numeric_valid_domain l)
          (λ w.
            put "updateTriggers" (one_trigger "getColor" (trigger l))
              (put "getWidth" (in_domain l) w))
          painted

    unfoldable pub area_options : Look → Setting Num → Options → Options
    unfolding trigger put
    area_options l paint o =
        put "updateTriggers"
          (Setting.triggers (("getFillColor", trigger l) ∷ ("getLineColor", trigger l) ∷ []))
          (put "getLineColor" paint (put "getFillColor" paint o))

    unfoldable pub point_options : Look → Setting Num → Options → Options
    unfolding trigger put
    point_options l paint o =
        put "updateTriggers"
          (Setting.triggers (
            ("getColor", trigger l)
            ∷ ("getPosition", values (num (F.of_nat (length l.rows)) ∷ []))
            ∷ []))
          (put "getColor" paint o)

    abbrev pub is_area : Look → Bool
    is_area l =
        str_eq l.geom_type "polygon"
        || str_eq l.geom_type "multipolygon"
        || is_layer l "geojson"
        || is_layer l "scatterplot"

    abbrev pub is_line : Look → Bool
    is_line l = str_eq l.geom_type "linestring" || is_layer l "line"

    unfoldable pub sized_options : Look → Options → Options
    unfolding heatmap_options numeric_valid_domain min_of max_of put
    sized_options l o =
        let heat = when (is_layer l "heatmap") (heatmap_options l) o in
        when (is_layer l "scatterplot" && numeric_valid_domain l) (put "getRadius" (in_domain l))
          heat

    -- the branches that do not need a colour to be drawn with
    unfoldable pub plain_options : Look → Options → Option Options
    unfolding sized_options arc_options
    plain_options l o =
        let sized = sized_options l o in
        if is_layer l "arc" then arc_options l sized else some sized

    unfoldable pub painted_options : Look → Setting Num → Options → Options
    unfolding line_options area_options point_options
    painted_options l paint o =
        let lines = when (is_line l) (line_options l paint) o in
        let areas = when (is_area l) (area_options l paint) lines in
        when (is_layer l "pointcloud" || is_layer l "barvis") (point_options l paint) areas

    unfoldable pub generate_options : Look → Options → Options → Option Options
    unfolding base_options plain_options fill_or_constant_color painted_options
    generate_options l state_options layer_options =
        elim (plain_options l (base_options l state_options layer_options)) [
          | none ↦ none
          | some o ↦ elim (fill_or_constant_color l) [
            | none ↦ none
            | some paint ↦ some (painted_options l paint o)
          ]
        ]
