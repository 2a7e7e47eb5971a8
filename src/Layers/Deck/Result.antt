-- ===== src/Layers/Deck/Result.antt =====
-- The layer that `generateDeckLayer` of src/utils/utils.js makes of options and properties.
use tgvejs.Prelude.{
  String, ◌≡◌, ◌≢◌, refl, ap, ◌∙◌, inl, inr, false, Option, none, some, List, [], ◌∷◌, arith,
  str_eq, eq_iff, Bool-cases, Option-cases, if◌then◌else◌,
}
use Prim.Native.String.{◌++◌ as string_append}
use tgvejs.Js.{Floats}
use tgvejs.Js.Dict.{Keyed, Keyed-put, Dict, get, put, get-put, get-put_self}
use tgvejs.Geojson.{Feature}
use tgvejs.Layers.Settings.{Class, Prop, add_options_to_object, get_layer_props}
use tgvejs.Layers.Settings.Laws.{or_else, get-add_options_to_object, get_layer_props-Keyed}
use tgvejs.Layers.{Trigger, Setting, Engine}
use tgvejs.Layers.Deck.{
  Layer, is_column, trigger_of, Made, layer_step, layer_scan, class_in, triggers_in, all_settings,
  generate_options, generate_deck_layer,
}
use tgvejs.Layers.Deck.Laws.{
  get_layer_props-class, no_triggers, setting_at, column_trigger, scan_options, scan_triggers,
}

module _ (F : Floats) (E : Engine F) where
  open F use {Num}

  -- What a key has before the options are written over it.
  abbrev pub own : String → List (Feature Num) → Dict Prop → String → Option (Setting Num)
  own name rows props k =
      if str_eq "getPosition" k
      then some Setting.coordinates
      else if str_eq "onHover" k
      then some Setting.tooltip
      else if str_eq "id" k
      then some (Setting.text (string_append name "-layer"))
      else if str_eq "data" k
      then some (Setting.features rows)
      else setting_at F E (get k props)

  all_settings-get :
      (name : String) (rows : List (Feature Num)) (options made : Dict (Setting Num))
      (props : Dict Prop) (k : String)
      → Keyed options
      → get k made ≡ setting_at F E (get k props)
      → get k (all_settings F E name rows options made)
        ≡ or_else (get k options) (own name rows props k)
  unfolding all_settings
  all_settings-get name rows options made props k h e =
      simp (get-add_options_to_object k options _ h, get-put, e)

  step-Keyed :
      (options : Dict (Setting Num)) (rows : List (Feature Num)) (m : Made F E) (key : String)
      (p : Prop)
      → Keyed m.update_triggers
      → Keyed (layer_step F E options rows m key p).update_triggers
  unfolding layer_step
  step-Keyed options rows m key p h = elim (Bool-cases (is_column F E p)) [
    | inr e ↦ rw e h
    | inl e ↦ rw e (elim (Option-cases (trigger_of F E options rows key)) [
      | inl n ↦ rw n h
      | inr (t, n) ↦ rw n (Keyed-put key t m.update_triggers h)
    ])
  ]

  scan-Keyed :
      (options : Dict (Setting Num)) (rows : List (Feature Num)) (m : Made F E) (props : Dict Prop)
      → Keyed m.update_triggers
      → Keyed (layer_scan F E options rows m props).update_triggers
  unfolding layer_scan
  scan-Keyed options rows m [] h = h
  scan-Keyed options rows m ((key, p) ∷ props) h =
      scan-Keyed options rows (layer_step F E options rows m key p) props
        (step-Keyed options rows m key p h)

  -- What the options and the properties make of a layer: each setting is the option's, if there is
  -- one, and else the layer's own; a column that an option computes is compared by its values.
  pub record IsMade (name : String) (rows : List (Feature Num)) (options : Dict (Setting Num))
      (props : Dict Prop) (w : Layer Num) : Type 0 where
    pub class : class_in props ≡ some w.class
    pub set :
        (k : String)
        → k ≢ "updateTriggers"
        → get k w.settings ≡ or_else (get k options) (own name rows props k)
    pub compared :
        (ts : Dict (Trigger Num)) × (get "updateTriggers" w.settings ≡ some (Setting.triggers ts))
        × ((k : String)
            → get k ts
              ≡ or_else
                  (column_trigger F E options rows k (get k props))
                  (get k (triggers_in F E options)))

  abbrev triggers_at : Option (Setting Num) → Dict (Trigger Num)
  triggers_at o = elim o [ none ↦ [] | some s ↦ elim s [ Setting.triggers t ↦ t | _ ↦ [] ] ]

  triggers_in_of :
      (a b : Dict (Setting Num))
      → get "updateTriggers" a ≡ get "updateTriggers" b
      → triggers_in F E a ≡ triggers_in F E b
  triggers_in_of a b h = ap triggers_at h

  get-put_other :
      {A : Type 0} (j k : String) (v : A) (d : Dict A) → k ≢ j → get k (put j v d) ≡ get k d
  get-put_other j k v d h = ground (arith, get-put j k v d, eq_iff j k)

  abbrev scanned : Dict (Setting Num) → List (Feature Num) → Dict Prop → Made F E
  scanned options rows props =
      layer_scan F E options rows (record { layer_options = []; update_triggers = [] }) props

  abbrev settled : String → List (Feature Num) → Dict (Setting Num) → Dict Prop → Dict (Setting Num)
  settled name rows options props =
      all_settings F E name rows options (scanned options rows props).layer_options

  abbrev merged : String → List (Feature Num) → Dict (Setting Num) → Dict Prop → Dict (Trigger Num)
  merged name rows options props =
      add_options_to_object (scanned options rows props).update_triggers
        (triggers_in F E (settled name rows options props))

  pub generate_deck_layer_of :
      (name : String) (rows : List (Feature Num)) (options : Dict (Setting Num)) (props : Dict Prop)
      (c : Class)
      → str_eq name "icon" ≡ false
      → get_layer_props (some name) ≡ some props
      → class_in props ≡ some c
      → generate_deck_layer F E (some name) rows options
        ≡ some (record {
          class = c;
          settings =
              put "updateTriggers"
                (Setting.triggers (merged name rows options props))
                (settled name rows options props);
        })
  unfolding generate_deck_layer generate_options
  generate_deck_layer_of name rows options props c n e q = ground arith

  or_else-none : {A : Type 0} (a : Option A) → or_else a none ≡ a
  or_else-none none = refl
  or_else-none (some a) = refl

  settled-get :
      (name : String) (rows : List (Feature Num)) (options : Dict (Setting Num)) (props : Dict Prop)
      (k : String)
      → get_layer_props (some name) ≡ some props
      → Keyed options
      → get k (settled name rows options props) ≡ or_else (get k options) (own name rows props k)
  unfolding get
  settled-get name rows options props k e h =
      all_settings-get name rows options (scanned options rows props).layer_options props k h (
        scan_options F E options rows (record { layer_options = []; update_triggers = [] }) k props
          (get_layer_props-Keyed (some name) props e)
        ∙ or_else-none (setting_at F E (get k props)))

  settled-triggers :
      (name : String) (rows : List (Feature Num)) (options : Dict (Setting Num)) (props : Dict Prop)
      → get_layer_props (some name) ≡ some props
      → Keyed options
      → get "updateTriggers" (settled name rows options props) ≡ get "updateTriggers" options
  settled-triggers name rows options props e h =
      settled-get name rows options props "updateTriggers" e h
      ∙ ap (λ o. or_else (get "updateTriggers" options) (setting_at F E o))
          (no_triggers (some name) props e)
      ∙ or_else-none (get "updateTriggers" options)

  merged-get :
      (name : String) (rows : List (Feature Num)) (options : Dict (Setting Num)) (props : Dict Prop)
      (k : String)
      → get_layer_props (some name) ≡ some props
      → Keyed options
      → get k (merged name rows options props)
        ≡ or_else
            (column_trigger F E options rows k (get k props))
            (get k (triggers_in F E options))
  unfolding get
  merged-get name rows options props k e h =
      let old = triggers_in F E (settled name rows options props) in
      let same : old ≡ triggers_in F E options =
        triggers_in_of (settled name rows options props) options
          (settled-triggers name rows options props e h) in
      let new : get k (scanned options rows props).update_triggers
          ≡ column_trigger F E options rows k (get k props) =
        scan_triggers F E options rows (record { layer_options = []; update_triggers = [] }) k props
          (get_layer_props-Keyed (some name) props e)
        ∙ or_else-none (column_trigger F E options rows k (get k props)) in
      get-add_options_to_object k (scanned options rows props).update_triggers old
        (scan-Keyed options rows (record { layer_options = []; update_triggers = [] }) props tt)
      ∙ ap (λ t. or_else t (get k old)) new
      ∙ ap (λ d. or_else (column_trigger F E options rows k (get k props)) (get k d)) same

  -- The layer of a known name other than "icon", under options with different keys.
  pub generate_deck_layer-IsMade :
      (name : String) (rows : List (Feature Num)) (options : Dict (Setting Num)) (props : Dict Prop)
      → str_eq name "icon" ≡ false
      → get_layer_props (some name) ≡ some props
      → Keyed options
      → (w : Layer Num) × (generate_deck_layer F E (some name) rows options ≡ some w)
        × IsMade name rows options props w
  generate_deck_layer-IsMade name rows options props n e h =
      let (c, q) = get_layer_props-class (some name) props e in
      (
        record {
          class = c;
          settings =
              put "updateTriggers" (Setting.triggers (merged name rows options props))
                (settled name rows options props);
        },
        generate_deck_layer_of name rows options props c n e q,
        record {
          class = q;
          set = λ k d.
              get-put_other "updateTriggers" k (Setting.triggers (merged name rows options props))
                (settled name rows options props) d
              ∙ settled-get name rows options props k e h;
          compared = (
            merged name rows options props,
            get-put_self "updateTriggers" (Setting.triggers (merged name rows options props))
                (settled name rows options props),
            λ k. merged-get name rows options props k e h,
          );
        },
      )
