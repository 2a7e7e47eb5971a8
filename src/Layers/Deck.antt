-- ===== src/Layers/Deck.antt =====
-- `suggestDeckLayer` and `generateDeckLayer` of src/utils/utils.js.
pub mod Laws
pub mod Result
use tgvejs.Prelude.{
  ℕ, ◌+◌, String, Bool, true, false, ◌&&◌, ◌||◌, Option, none, some, List, [], ◌∷◌, map, length,
  get_elem?, codes, ◌==◌, leb, str_eq, if◌then◌else◌,
}
use Prim.Native.String.{◌++◌ as string_append}
use tgvejs.Js.{Floats}
use tgvejs.Js.Dict.{Dict, get, put}
use tgvejs.Geojson.{Feature, sf_type}
use tgvejs.Layers.Settings.{Class, Prop, add_options_to_object, get_layer_props}
use tgvejs.Layers.{Trigger, values, Setting, Engine, call_setting}

-- The small letter, in ASCII.
abbrev pub small : ℕ → ℕ
small c = if leb b'A' c && leb c b'Z' then c + 32 else c

abbrev pub starts_with : List ℕ → List ℕ → Bool
starts_with [] s = true
starts_with (c ∷ w) [] = false
starts_with (c ∷ w) (d ∷ s) = c == small d && starts_with w s

-- new RegExp(word, "i").test(text), for a word of small letters
unfoldable pub occurs : List ℕ → List ℕ → Bool
occurs w [] = starts_with w []
occurs w (c ∷ s) = starts_with w (c ∷ s) || occurs w s

-- The layer for a type of geometry.
unfoldable pub layer_of_type : String → String
unfolding occurs
layer_of_type type =
    if occurs (codes "point") (codes type)
    then "grid"
    else if occurs (codes "line") (codes type)
    then "line"
    else "geojson"

-- A suggestion of `none` is null; there is no suggestion at all where the read of the feature at a
-- random position throws.
unfoldable pub suggest_deck_layer :
    {N : Type 0} → (ℕ → ℕ) → List (Feature N) → Option (Option String)
unfolding layer_of_type
suggest_deck_layer random features = elim (get_elem? features (random (length features))) [
  | none ↦ none
  | some f ↦ elim f.geometry [
    | none ↦ some none
    | some g ↦ some (if str_eq g.type "" then none else some (layer_of_type (sf_type f)))
  ]
]

abbrev pub class_in : Dict Prop → Option Class
class_in props = elim (get "class" props) [
  | none ↦ none
  | some p ↦ elim p [ Prop.class c ↦ some c | _ ↦ none ]
]

-- An instance of a class of deck.gl.
pub record Layer (N : Type 0) : Type 0 where
  pub class : Class
  pub settings : Dict (Setting N)

module _ (F : Floats) (E : Engine F) where
  open F use {Num}

  -- layerOptions[key], by the type of the property
  unfoldable pub setting_of : Prop → Setting Num
  setting_of (Prop.number s) = Setting.tenths s.default
  setting_of (Prop.column n) = Setting.tenths n
  setting_of (Prop.text_column s) = Setting.text s
  setting_of (Prop.boolean b) = Setting.flag b
  setting_of (Prop.class c) = Setting.class c
  setting_of Prop.coordinates = Setting.coordinates
  setting_of (Prop.coordinate_at i) = Setting.coordinate_at i
  setting_of (Prop.color c) = Setting.color c
  setting_of (Prop.text s) = Setting.text s

  abbrev pub is_column : Prop → Bool
  is_column (Prop.column n) = true
  is_column (Prop.text_column s) = true
  is_column p = false

  -- what options[key] computes for each feature, if it is a function
  unfoldable pub trigger_of :
      Dict (Setting Num) → List (Feature Num) → String → Option (Trigger Num)
  unfolding get call_setting
  trigger_of options rows key = elim (get key options) [
    | none ↦ none
    | some s ↦ elim (call_setting F E s) [ none ↦ none | some f ↦ some (values (map f rows)) ]
  ]

  pub record Made : Type 0 where
    pub layer_options : Dict (Setting Num)
    pub update_triggers : Dict (Trigger Num)

  unfoldable pub layer_step : Dict (Setting Num) → List (Feature Num) → Made → String → Prop → Made
  unfolding setting_of trigger_of put
  layer_step options rows m key p = record {
    layer_options = put key (setting_of p) m.layer_options;
    update_triggers =
        if is_column p
        then elim (trigger_of options rows key) [
          | none ↦ m.update_triggers
          | some t ↦ put key t m.update_triggers
        ]
        else m.update_triggers;
  }

  unfoldable pub layer_scan : Dict (Setting Num) → List (Feature Num) → Made → Dict Prop → Made
  unfolding layer_step
  layer_scan options rows m [] = m
  layer_scan options rows m ((key, p) ∷ props) =
      layer_scan options rows (layer_step options rows m key p) props

  abbrev pub triggers_in : Dict (Setting Num) → Dict (Trigger Num)
  triggers_in options = elim (get "updateTriggers" options) [
    | none ↦ []
    | some s ↦ elim s [ Setting.triggers t ↦ t | _ ↦ [] ]
  ]

  -- the defaults, then what is common to the layers, and the options over both
  unfoldable pub all_settings :
      String → List (Feature Num) → Dict (Setting Num) → Dict (Setting Num) → Dict (Setting Num)
  unfolding put add_options_to_object
  all_settings name rows options layer_options = add_options_to_object options (
      put "getPosition" Setting.coordinates (
        put "onHover" Setting.tooltip (
          put "id" (Setting.text (string_append name "-layer"))
            (put "data" (Setting.features rows) layer_options))))

  -- the inner `generateOptions`
  unfoldable pub generate_options :
      Option String → List (Feature Num) → Dict (Setting Num) → Option (Layer Num)
  unfolding get_layer_props get put layer_scan all_settings add_options_to_object
  generate_options none rows options = none
  generate_options (some name) rows options = elim (get_layer_props (some name)) [
    | none ↦ none
    | some props ↦ elim (class_in props) [
      | none ↦ none
      | some c ↦
          let m =
            layer_scan options rows (record { layer_options = []; update_triggers = [] }) props in
          let all = all_settings name rows options m.layer_options in
          let triggers = add_options_to_object m.update_triggers (triggers_in all) in
          some
            (record { class = c; settings = put "updateTriggers" (Setting.triggers triggers) all })
    ]
  ]

  unfoldable pub icon_obj : List (Feature Num) → Dict (Setting Num)
  icon_obj rows =
      ("id", Setting.text "icon-layer")
      ∷ ("data", Setting.features rows)
      ∷ ("pickable", Setting.flag true)
      ∷ ("iconAtlas", Setting.icon_atlas)
      ∷ ("iconMapping", Setting.icon_mapping)
      ∷ ("sizeScale", Setting.tenths 600)
      ∷ ("getPosition", Setting.coordinates)
      ∷ ("wrapLongitude", Setting.flag true)
      ∷ ("onHover", Setting.tooltip)
      ∷ []

  -- `none` is null.
  unfoldable pub generate_deck_layer :
      Option String → List (Feature Num) → Dict (Setting Num) → Option (Layer Num)
  unfolding generate_options icon_obj add_options_to_object
  generate_deck_layer name rows options =
      let icon : Bool = elim name [ none ↦ false | some n ↦ str_eq n "icon" ] in
      let clusters : Layer Num = record {
        class = Class.icon_cluster_layer;
        settings = add_options_to_object options (icon_obj rows);
      } in
      let rest = generate_options name rows options in if icon then some clusters else rest
