-- ===== src/Layers/Deck/Laws.antt =====
-- What the layer that `generateDeckLayer` makes is set to.
use tgvejs.Prelude.{
  String, ◌≡◌, refl, inl, inr, Bool, true, false, not, Option, none, some, List, [], ◌∷◌, arith,
  str_eq, eq_iff, Option-cases, if◌then◌else◌,
}
use tgvejs.Js.{Floats}
use tgvejs.Js.Dict.{Keyed, Dict, get, has, get-put, get_of_has}
use tgvejs.Geojson.{Feature}
use tgvejs.Layers.Settings.{Class, Prop, layers, get_layer_props}
use tgvejs.Layers.Settings.Laws.{or_else, every, every_layer}
use tgvejs.Layers.{Trigger, Setting, Engine}
use tgvejs.Layers.Deck.{setting_of, is_column, trigger_of, Made, layer_step, layer_scan, class_in}

abbrev has_class : Dict Prop → Bool
has_class d = elim (class_in d) [ none ↦ false | some c ↦ true ]

layers_classed : every has_class layers ≡ true
unfolding layers get
layers_classed = refl

classed : (d : Dict Prop) → has_class d ≡ true → (c : Class) × (class_in d ≡ some c)
classed d h = elim (Option-cases (class_in d)) [ inl e ↦ absurd (cc) | inr r ↦ r ]

pub get_layer_props-class :
    (name : Option String) (props : Dict Prop)
    → get_layer_props name ≡ some props
    → (c : Class) × (class_in props ≡ some c)
get_layer_props-class name props h =
    classed props (every_layer has_class name props layers_classed h)

abbrev without_triggers : Dict Prop → Bool
without_triggers d = not (has "updateTriggers" d)

layers_without_triggers : every without_triggers layers ≡ true
unfolding layers has
layers_without_triggers = refl

pub no_triggers :
    (name : Option String) (props : Dict Prop)
    → get_layer_props name ≡ some props
    → get "updateTriggers" props ≡ none
no_triggers name props h =
    let e = every_layer without_triggers name props layers_without_triggers h in
    get_of_has "updateTriggers" props (ground arith)

module _ (F : Floats) (E : Engine F) where
  open F use {Num}

  abbrev pub setting_at : Option Prop → Option (Setting Num)
  setting_at none = none
  setting_at (some p) = some (setting_of F E p)

  -- The values of a column, if an option computes them.
  abbrev pub column_trigger :
      Dict (Setting Num) → List (Feature Num) → String → Option Prop → Option (Trigger Num)
  column_trigger options rows key none = none
  column_trigger options rows key (some p) =
      if is_column F E p then trigger_of F E options rows key else none

  step_options :
      (options : Dict (Setting Num)) (rows : List (Feature Num)) (m : Made F E) (key k : String)
      (p : Prop)
      → get k (layer_step F E options rows m key p).layer_options
        ≡ (if str_eq key k then some (setting_of F E p) else get k m.layer_options)
  unfolding layer_step
  step_options options rows m key k p = get-put key k (setting_of F E p) m.layer_options

  step_triggers :
      (options : Dict (Setting Num)) (rows : List (Feature Num)) (m : Made F E) (key k : String)
      (p : Prop)
      → get k (layer_step F E options rows m key p).update_triggers ≡ (
          if str_eq key k
          then or_else (column_trigger options rows k (some p)) (get k m.update_triggers)
          else get k m.update_triggers)
  unfolding layer_step
  step_triggers options rows m key k p = elim (Option-cases (trigger_of F E options rows key)) [
    | inl e ↦ ground (arith, eq_iff key k)
    | inr (t, e) ↦ ground (arith, eq_iff key k, get-put key k t m.update_triggers)
  ]

  pub scan_options :
      (options : Dict (Setting Num)) (rows : List (Feature Num)) (m : Made F E) (k : String)
      (props : Dict Prop)
      → Keyed props
      → get k (layer_scan F E options rows m props).layer_options
        ≡ or_else (setting_at (get k props)) (get k m.layer_options)
  unfolding layer_scan get
  scan_options options rows m k [] h = refl
  scan_options options rows m k ((key, p) ∷ props) h = ground (
    arith,
    scan_options options rows (layer_step F E options rows m key p) k props h.1,
    step_options options rows m key k p,
    get_of_has key props h.0,
    eq_iff key k,
  )

  pub scan_triggers :
      (options : Dict (Setting Num)) (rows : List (Feature Num)) (m : Made F E) (k : String)
      (props : Dict Prop)
      → Keyed props
      → get k (layer_scan F E options rows m props).update_triggers
        ≡ or_else (column_trigger options rows k (get k props)) (get k m.update_triggers)
  unfolding layer_scan get
  scan_triggers options rows m k [] h = refl
  scan_triggers options rows m k ((key, p) ∷ props) h = ground (
    arith,
    scan_triggers options rows (layer_step F E options rows m key p) k props h.1,
    step_triggers options rows m key k p,
    get_of_has key props h.0,
    eq_iff key k,
  )
