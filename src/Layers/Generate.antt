-- ===== src/Layers/Generate.antt =====
-- `generateLayer` of src/home/util.js: what a selection makes of the state of the main component.
pub mod Laws
pub mod Draws
pub mod Outcomes
pub mod Rows
pub mod Names
use tgvejs.Prelude.{
  String, Bool, true, false, not, ◌&&◌, Option, none, some, List, [], ◌∷◌, length, take, ltb,
  str_eq, if◌then◌else◌,
}
use tgvejs.Js.{Floats}
use tgvejs.Geojson.{Feature, FeatureCollection, sf_type}
use tgvejs.Geojson.Join.{includes, set_geojson_props}
use tgvejs.Geojson.Values.{get_property_values}
use tgvejs.Color.{Palette}
use tgvejs.Utils.Domain.{generate_domain}
use tgvejs.Home.Filter.{Packages, demands, idle, filter_geojson}
use tgvejs.Layers.{Setting, Engine}
use tgvejs.Layers.Deck.{suggest_deck_layer, generate_deck_layer}
use tgvejs.Layers.Options.{Look, generate_options}
use tgvejs.Layers.State.{
  Shown, is_known, deck_layer_names, icon_mode, error, or_text, is_text, What, map_style, percent,
  Values, State, Update, nothing, unmatched, empty, draw, restyle, as_filter, selected_column,
  selected_layer, is_column, is_layer_name, style_of, kept_selection, kept_coords, kept_road_type,
  head, column_name, legend_of,
}

module _ (F : Floats) where
  open F use {Num}

  module _ (E : Engine F) (P : Packages F) (C : Palette F) (has_token : Bool) where
    -- the rows to begin with: the share asked for, or those of the last time
    unfoldable pub rows_of :
        Option (What F) → State F → List (Feature Num) → Option (List (Feature Num))
    rows_of filter s data_ =
        let share : List (Feature Num) = elim filter [
          | none ↦ data_
          | some w ↦ elim w [
            | percent n ↦
                let end = F.mul (F.div n (F.of_nat 100)) (F.of_nat (length data_)) in
                take (E.slice_end end (length data_)) data_
            | _ ↦ data_
          ]
        ] in
        let again : Bool = elim s.at [ none ↦ is_column F filter | some vs ↦ true ] in
        if again then s.filtered else some share

    -- `setGeojsonProps` of rows that may be undefined
    abbrev pub with_geography :
        FeatureCollection Num → Option (List (Feature Num)) → Option String → FeatureCollection Num
    with_geography g none by = g
    with_geography g (some ds) by = set_geojson_props F E.lower g ds by

    -- `filterGeojson` of rows that may be undefined, whose `filter` would throw
    unfoldable pub filter_rows :
        State F
        → Option (What F)
        → Option (List (Feature Num))
        → Option (Option (List (Feature Num)))
    unfolding as_filter demands filter_geojson
    filter_rows s filter none =
        if idle F P (demands F (as_filter F filter) s.at s.multi_var_select)
        then some none
        else none
    filter_rows s filter (some ds) =
        elim (filter_geojson F P ds (as_filter F filter) s.at s.multi_var_select) [
          | none ↦ none
          | some r ↦ some (some r)
        ]

    -- The name of the layer, before the switch to icons.
    unfoldable pub layer_for :
        State F → Option (What F) → List (Feature Num) → Option (Option String)
    unfolding is_known or_text suggest_deck_layer
    layer_for s filter places =
        if is_known s.layer_name
        then some (or_text (selected_layer F filter) s.layer_name)
        else suggest_deck_layer E.random places

    abbrev pub switch_to_icon :
        State F → Option (What F) → Option String → List (Feature Num) → String → Bool
    switch_to_icon s filter name rows geom_type =
        ltb (length rows) s.icon_limit
        && not (is_text name)
        && not (is_layer_name F filter)
        && str_eq geom_type "point"

    abbrev pub named : Bool → Option String → Option String
    named icons name = if icons then some "icon" else name

    -- What is drawn of the rows, of which there is one: by the layer's name and the type of geometry.
    unfoldable pub look_of :
        State F → Values F → Option String → String → Feature Num → List (Feature Num) → Look F
    unfolding or_text generate_domain
    look_of s v name geom_type d ds =
        let by_name = column_name F (or_text (selected_column F v.filter) s.by_column) d in
        let color : String = elim (or_text v.cn (some s.color_name)) [ none ↦ "" | some c ↦ c ] in
        record {
          color_name = color;
          layer_name = name;
          rows = d ∷ ds;
          column_name = by_name;
          domain = generate_domain F (some (d ∷ ds)) by_name;
          geom_type = geom_type;
        }

    -- The object with all its keys.
    unfoldable pub shown_of :
        State F → Values F → Bool → Look F → List (String × Setting Num) → Shown F
    unfolding or_text generate_deck_layer legend_of kept_selection kept_coords kept_road_type
        get_property_values
    shown_of s v icons look options = record {
      alert =
          if icons
          then some icon_mode
          else elim v.custom_error [ none ↦ none | some e ↦ some (error e) ];
      layer_name = look.layer_name;
      geom_type = look.geom_type;
      filtered = look.rows;
      layer = generate_deck_layer F E look.layer_name look.rows options;
      layer_options = options;
      multi_var_select = kept_selection F v.filter s.multi_var_select;
      road_type = kept_road_type F v.filter s.road_type;
      color_name = look.color_name;
      by_column = or_text (selected_column F v.filter) s.by_column;
      at = kept_coords F v.filter s.at;
      legend = legend_of F look.domain look.column_name look.color_name;
      -- `state.date`, which nothing sets, is undefined
      panel = record { rows = none; dates = get_property_values F s.shown (some "alt") };
    }

    unfoldable pub draw_look : State F → Values F → Bool → Look F → Option (Update F)
    unfolding generate_options shown_of
    draw_look s v icons look = elim (generate_options F E C look s.layer_options v.layer_options) [
      | none ↦ none
      | some options ↦ some (draw (shown_of s v icons look options))
    ]

    -- The places are the features with the geometries.
    unfoldable pub draw_rows :
        State F
        → Values F
        → List (Feature Num)
        → Feature Num
        → List (Feature Num)
        → Option (Update F)
    unfolding layer_for look_of draw_look
    draw_rows s v [] d ds = none
    draw_rows s v (place ∷ places) d ds = elim (layer_for s v.filter (place ∷ places)) [
      | none ↦ none
      | some name ↦
          let geom_type = E.lower (sf_type place) in
          let icons = switch_to_icon s v.filter name (d ∷ ds) geom_type in
          draw_look s v icons (look_of s v (named icons name) geom_type d ds)
    ]

    -- From the rows of the data, with the geography.
    unfoldable pub draw_data :
        State F → Values F → Option (List (Feature Num)) → List (Feature Num) → Option (Update F)
    unfolding filter_rows draw_rows
    draw_data s v rows geography_features = elim (filter_rows s v.filter rows) [
      | none ↦ none
      | some none ↦ some empty
      | some (some []) ↦ some empty
      | some (some (d ∷ ds)) ↦ elim s.geography [
        | none ↦ draw_rows s v (d ∷ ds) d ds
        | some g ↦ draw_rows s v geography_features d ds
      ]
    ]

    -- data = data.features || data, of the geography with the rows joined to it
    unfoldable pub draw_joined :
        State F → Values F → FeatureCollection Num → Option (List (Feature Num)) → Option (Update F)
    unfolding set_geojson_props draw_data
    draw_joined s v g rows =
        let places : List (Feature Num) = elim g.features [ none ↦ [] | some fs ↦ fs ] in
        elim (with_geography g rows s.geography_column).features [
          | none ↦ some unmatched
          | some fs ↦ draw_data s v (some fs) places
        ]

    -- What is drawn of the features of the state.
    unfoldable pub draw_features : State F → Values F → List (Feature Num) → Option (Update F)
    unfolding rows_of draw_data draw_joined
    draw_features s v ds = elim s.geography [
      | none ↦ draw_data s v (rows_of v.filter s ds) []
      | some g ↦ draw_joined s v g (rows_of v.filter s ds)
    ]

    unfoldable pub draw_state : State F → Values F → Option (Update F)
    unfolding draw_features
    draw_state s v = elim s.shown [
      | none ↦ some nothing
      | some g ↦ elim g.features [ none ↦ some nothing | some ds ↦ draw_features s v ds ]
    ]

    -- The name of a style, if one is selected.
    abbrev pub selected_style : Option (What F) → Option String
    selected_style (some (map_style name)) = some name
    selected_style filter = none

    -- `none` is a TypeError.
    unfoldable pub generate_layer : State F → Values F → Option (Update F)
    unfolding style_of draw_state
    generate_layer s v = elim (selected_style v.filter) [
      | none ↦ draw_state s v
      | some name ↦ some (restyle (style_of F has_token name))
    ]
