-- ===== src/Layers/Generate/Names.antt =====
-- The name of the layer that `generateLayer` draws, and that there is such a layer.
use tgvejs.Prelude.{
  String, ◌≡◌, ◌≢◌, refl, sym, ap, ◌∙◌, ◌⊎◌, inl, inr, Bool, true, false, not, ◌&&◌, Option, none,
  some, List, [], ◌∷◌, All, All-In, arith, codes, str_eq, eq_iff, Option-cases, Bool-cases,
  false≢true, if◌then◌else◌,
}
use tgvejs.Js.{Floats}
use tgvejs.Js.Dict.{Dict, get}
use tgvejs.Geojson.{Feature, Geometry, sf_type}
use tgvejs.Geojson.Join.{includes}
use tgvejs.Color.{Palette}
use tgvejs.Home.Filter.{Packages}
use tgvejs.Home.Loading.{Alert}
use tgvejs.Layers.{Setting, Engine}
use tgvejs.Layers.Settings.{Prop, Class, layers, get_layer_props}
use tgvejs.Layers.Deck.{occurs, layer_of_type, class_in, generate_deck_layer}
use tgvejs.Layers.Deck.Result.{generate_deck_layer_of}
use tgvejs.Layers.State.{
  State, Values, What, Shown, icon_mode, error, Notice, deck_layer_names, is_known, or_text,
  is_text, selected_layer,
}
use tgvejs.Layers.Generate.{switch_to_icon, named}
use tgvejs.Layers.Generate.Laws.{suggestion, IsNameFor}
use tgvejs.Layers.Generate.Draws.{Draws}

abbrev has_layer : String → Bool
has_layer name = elim (get_layer_props (some name)) [
  | none ↦ false
  | some props ↦ elim (class_in props) [ none ↦ false | some c ↦ true ]
]

abbrev all_have : List String → Bool
all_have [] = true
all_have (n ∷ ns) = has_layer n && all_have ns

all_have-includes :
    (ns : List String) (name : String)
    → all_have ns ≡ true
    → includes ns name ≡ true
    → has_layer name ≡ true
unfolding includes
all_have-includes [] name h e = cc
all_have-includes (n ∷ ns) name h e = ground (arith, all_have-includes ns name, eq_iff n name)

names_have : all_have deck_layer_names ≡ true
unfolding deck_layer_names get_layer_props layers get
names_have = refl

-- Every name that the application knows has a layer.
known_has : (name : String) → is_known (some name) ≡ true → has_layer name ≡ true
unfolding is_known
known_has name h = all_have-includes deck_layer_names name names_have h

layer_of_type-cases :
    (type : String)
    → (layer_of_type type ≡ "grid")
      ⊎ (layer_of_type type ≡ "line")
      ⊎ (layer_of_type type ≡ "geojson")
unfolding layer_of_type
layer_of_type-cases type = elim (Bool-cases (occurs (codes "point") (codes type))) [
  | inl e ↦ inl (rw e refl)
  | inr e ↦ elim (Bool-cases (occurs (codes "line") (codes type))) [
    | inl w ↦ inr (inl (rw (e, w) refl))
    | inr w ↦ inr (inr (rw (e, w) refl))
  ]
]

type_has : (type : String) → has_layer (layer_of_type type) ≡ true
unfolding get_layer_props layers get
type_has type = elim (layer_of_type-cases type) [
  | inl e ↦ ap has_layer e
  | inr (inl e) ↦ ap has_layer e
  | inr (inr e) ↦ ap has_layer e
]

abbrev not_empty : String → Bool
not_empty s = not (str_eq s "")

type_is_text : (type : String) → is_text (some (layer_of_type type)) ≡ true
type_is_text type = elim (layer_of_type-cases type) [
  | inl e ↦ ap not_empty e
  | inr (inl e) ↦ ap not_empty e
  | inr (inr e) ↦ ap not_empty e
]

nameless_unknown : is_known (some "") ≡ false
unfolding is_known deck_layer_names includes
nameless_unknown = refl

known_is_text : (name : Option String) → is_known name ≡ true → is_text name ≡ true
unfolding is_known
known_is_text none h = cc
known_is_text (some name) h = elim (Bool-cases (str_eq name "")) [
  | inr e ↦ ap not e
  | inl e ↦
      let same = (eq_iff name "").0 e in
      absurd (false≢true (sym nameless_unknown ∙ ap (λ n. is_known (some n)) (sym same) ∙ h))
]

has_layer-class :
    (name : String)
    → has_layer name ≡ true
    → (props : Dict Prop) × (c : Class) × (get_layer_props (some name) ≡ some props)
      × (class_in props ≡ some c)
has_layer-class name h = elim (Option-cases (get_layer_props (some name))) [
  | inl e ↦ absurd (ground arith)
  | inr (props, e) ↦ elim (Option-cases (class_in props)) [
    | inl w ↦ absurd (ground arith)
    | inr (c, w) ↦ (props, c, e, w)
  ]
]

module _ (F : Floats) (E : Engine F) where
  open F use {Num}

  icon_made :
      (name : String) (rows : List (Feature Num)) (options : Dict (Setting Num))
      → str_eq name "icon" ≡ true
      → generate_deck_layer F E (some name) rows options ≢ none
  unfolding generate_deck_layer
  icon_made name rows options h = rw h (λ e. cc)

  generate_deck_layer-has :
      (name : String) (rows : List (Feature Num)) (options : Dict (Setting Num))
      → has_layer name ≡ true
      → generate_deck_layer F E (some name) rows options ≢ none
  generate_deck_layer-has name rows options h = elim (Bool-cases (str_eq name "icon")) [
    | inl i ↦ icon_made name rows options i
    | inr i ↦
        let (props, c, e, w) = has_layer-class name h in
        let q = generate_deck_layer_of F E name rows options props c i e w in λ n. cc
  ]

known_none : ¬ (is_known none ≡ true)
unfolding is_known
known_none h = cc

or_text-none : (b : Option String) → or_text none b ≡ b
unfolding or_text
or_text-none b = refl

abbrev custom : Option Alert → Option Notice
custom o = elim o [ none ↦ none | some e ↦ some (error e) ]

no_icons : (o : Option Alert) → custom o ≢ some icon_mode
no_icons none = λ e. cc
no_icons (some a) = λ e. cc

module _ (F : Floats) (E : Engine F) (P : Packages F) (C : Palette F) (has_token : Bool) where
  open F use {Num}

  -- A feature whose geometry has a type.
  abbrev pub IsTyped : Feature Num → Type 0
  IsTyped f = (g : Geometry Num) × (f.geometry ≡ some g) × (str_eq g.type "" ≡ false)

  suggestion-typed :
      (f : Feature Num)
      → IsTyped f
      → suggestion F E P C has_token f ≡ some (layer_of_type (sf_type f))
  suggestion-typed f (g, e, t) = rw (e, t) refl

  or_text-is_text : (a b : Option String) → is_text b ≡ true → is_text (or_text a b) ≡ true
  unfolding or_text
  or_text-is_text none b h = h
  or_text-is_text (some s) b h = ground arith

  or_text-known : (a b : Option String) → is_known a ≡ true → or_text a b ≡ a
  unfolding or_text
  or_text-known none b h = absurd (known_none h)
  or_text-known (some s) b h = ground (arith, known_is_text (some s) h)

  suggestion-has :
      (f : Feature Num) (name : Option String)
      → IsTyped f
      → name ≡ suggestion F E P C has_token f
      → (n : String) × (name ≡ some n) × (is_text (some n) ≡ true) × (has_layer n ≡ true)
  suggestion-has f name t e = (
    layer_of_type (sf_type f),
    e ∙ suggestion-typed f t,
    type_is_text (sf_type f),
    type_has (sf_type f),
  )

  known_some :
      (name : Option String)
      → is_known name ≡ true
      → (n : String) × (name ≡ some n) × (is_text (some n) ≡ true) × (has_layer n ≡ true)
  known_some none h = absurd (known_none h)
  known_some (some n) h = (n, refl, known_is_text (some n) h, known_has n h)

  -- Nothing is selected, or a layer that the application knows.
  abbrev pub SelectsKnown : Option (What F) → Type 0
  SelectsKnown filter =
      (selected_layer F filter ≡ none) ⊎ (is_known (selected_layer F filter) ≡ true)

  name_for-has :
      (s : State F) (filter : Option (What F)) (places : List (Feature Num)) (name : Option String)
      → IsNameFor F E P C has_token s filter places name
      → All IsTyped places
      → SelectsKnown filter
      → (n : String) × (name ≡ some n) × (is_text (some n) ≡ true) × (has_layer n ≡ true)
  name_for-has s filter places name (inr (k, f, m, e)) typed sel =
      suggestion-has f name (All-In IsTyped f places typed m) e
  name_for-has s filter places name (inl (k, e)) typed (inl n) =
      let (t, w, a, b) = known_some s.layer_name k in
      (t, e ∙ ap (λ o. or_text o s.layer_name) n ∙ or_text-none s.layer_name ∙ w, a, b)
  name_for-has s filter places name (inl (k, e)) typed (inr n) =
      let (t, w, a, b) = known_some (selected_layer F filter) n in
      (t, e ∙ or_text-known (selected_layer F filter) s.layer_name n ∙ w, a, b)

  not_switched :
      (s : State F) (filter : Option (What F)) (name : Option String) (rows : List (Feature Num))
      (type : String)
      → is_text name ≡ true
      → switch_to_icon F E P C has_token s filter name rows type ≡ false
  not_switched s filter name rows type h = rw h (ground arith)

  -- Where the places have types of geometry, `generateLayer` does not switch to icons, however few
  -- rows there are; and it has a layer to draw, unless one is selected that it does not know.
  pub Draws-layer :
      (s : State F) (v : Values F) (place : Feature Num) (places rows : List (Feature Num))
      (u : Shown F)
      → Draws F E P C has_token s v place places rows u
      → All IsTyped (place ∷ places)
      → SelectsKnown v.filter
      → (u.alert ≢ some icon_mode) × (u.layer ≢ none)
  Draws-layer s v place places rows u w typed sel =
      let (n, e, a, b) = name_for-has s v.filter (place ∷ places) w.name w.name_for typed sel in
      let off = not_switched s v.filter w.name rows (E.lower (sf_type place)) (ap is_text e ∙ a) in
      let named_so : u.layer_name ≡ some n =
        w.layer_name ∙ ap (λ b. named F E P C has_token b w.name) off ∙ e in
      (
        λ x.
            no_icons v.custom_error (
              sym (w.alert ∙ ap (λ b. if b then some icon_mode else custom v.custom_error) off)
              ∙ x),
        λ x. generate_deck_layer-has F E n u.filtered u.layer_options b (
            ap (λ o. generate_deck_layer F E o u.filtered u.layer_options) (sym named_so)
            ∙ sym w.layer
            ∙ x),
      )
