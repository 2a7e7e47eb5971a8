-- ===== src/Layers/Generate/Laws.antt =====
-- When `generateLayer` draws, and what.
use tgvejs.Prelude.{
  ℕ, zero, suc, ◌<◌, String, ◌≡◌, ◌≢◌, refl, ◌∙◌, ◌⊎◌, inl, inr, Bool, true, false, Option, none,
  some, List, [], ◌∷◌, length, get_elem?, In, arith, str_eq, Bool-cases, Option-cases,
  if◌then◌else◌,
}
use tgvejs.Js.{Floats}
use tgvejs.Geojson.{Feature, sf_type}
use tgvejs.Color.{Palette, color_ranges}
use tgvejs.Home.Filter.{Packages}
use tgvejs.Layers.{Engine}
use tgvejs.Layers.Deck.{layer_of_type, suggest_deck_layer}
use tgvejs.Layers.Options.{Look, Options, generate_options}
use tgvejs.Layers.Options.Laws.{generate_options_throws_iff}
use tgvejs.Layers.State.{State, Values, What, draw, or_text, is_known, selected_layer}
use tgvejs.Layers.Generate.{layer_for, shown_of, draw_look}

module _ (F : Floats) (E : Engine F) (P : Packages F) (C : Palette F) (has_token : Bool) where
  open F use {Num}

  -- The name of the colours has a palette.
  abbrev pub color_of : State F → Values F → String
  color_of s v = elim (or_text v.cn (some s.color_name)) [ none ↦ "" | some c ↦ c ]

  abbrev pub Fair : Type 0
  Fair = (n : ℕ) → 0 < n → E.random n < n

  get_elem?-below :
      {A : Type 0} (xs : List A) (i : ℕ)
      → i < length xs
      → (x : A) × (get_elem? xs i ≡ some x) × In x xs
  get_elem?-below [] i h = absurd (omega arith)
  get_elem?-below (x ∷ xs) zero h = (x, refl, inl refl)
  get_elem?-below (x ∷ xs) (suc i) h =
      let (y, e, m) = get_elem?-below xs i (omega arith) in (y, e, inr m)

  -- What is suggested for a feature.
  abbrev pub suggestion : Feature Num → Option String
  suggestion f = elim f.geometry [
    | none ↦ none
    | some g ↦ if str_eq g.type "" then none else some (layer_of_type (sf_type f))
  ]

  suggest_deck_layer-some :
      (d : Feature Num) (ds : List (Feature Num))
      → Fair
      → (f : Feature Num) × In f (d ∷ ds)
        × (suggest_deck_layer E.random (d ∷ ds) ≡ some (suggestion f))
  unfolding suggest_deck_layer
  suggest_deck_layer-some d ds fair =
      let (f, e, m) =
        get_elem?-below (d ∷ ds) (E.random (length (d ∷ ds))) (fair _ (omega arith)) in
      (f, m, ground arith)

  layer_for-known :
      (s : State F) (filter : Option (What F)) (ds : List (Feature Num))
      → is_known s.layer_name ≡ true
      → layer_for F E P C has_token s filter ds
        ≡ some (or_text (selected_layer F filter) s.layer_name)
  unfolding layer_for
  layer_for-known s filter ds h = rw h refl

  layer_for-unknown :
      (s : State F) (filter : Option (What F)) (ds : List (Feature Num))
      → is_known s.layer_name ≡ false
      → layer_for F E P C has_token s filter ds ≡ suggest_deck_layer E.random ds
  unfolding layer_for
  layer_for-unknown s filter ds h = rw h refl

  draw_look-of :
      (s : State F) (v : Values F) (icons : Bool) (look : Look F) (o : Options F)
      → generate_options F E C look s.layer_options v.layer_options ≡ some o
      → draw_look F E P C has_token s v icons look
        ≡ some (draw (shown_of F E P C has_token s v icons look o))
  unfolding draw_look
  draw_look-of s v icons look o e = ground arith

  pub draw_look-some :
      (s : State F) (v : Values F) (icons : Bool) (look : Look F)
      → color_ranges (some look.color_name) ≢ none
      → (options : Options F) × (draw_look F E P C has_token s v icons look
          ≡ some (draw (shown_of F E P C has_token s v icons look options)))
  draw_look-some s v icons look k =
      elim (Option-cases (generate_options F E C look s.layer_options v.layer_options)) [
        | inl e ↦
            absurd
              (k ((generate_options_throws_iff F E C look s.layer_options v.layer_options).0 e).0)
        | inr (o, e) ↦ (o, draw_look-of s v icons look o e)
      ]

  -- The name for a state and a filter: the known one, or a suggestion for one of the places.
  abbrev pub IsNameFor : State F → Option (What F) → List (Feature Num) → Option String → Type 0
  IsNameFor s filter places name =
      ((is_known s.layer_name ≡ true) × (name ≡ or_text (selected_layer F filter) s.layer_name))
      ⊎ ((is_known s.layer_name ≡ false) × (f : Feature Num) × In f places × (name ≡ suggestion f))

  pub layer_for-some :
      (s : State F) (filter : Option (What F)) (d : Feature Num) (ds : List (Feature Num))
      → Fair
      → (name : Option String) × (layer_for F E P C has_token s filter (d ∷ ds) ≡ some name)
        × IsNameFor s filter (d ∷ ds) name
  layer_for-some s filter d ds fair = elim (Bool-cases (is_known s.layer_name)) [
    | inl k ↦ (_, layer_for-known s filter (d ∷ ds) k, inl (k, refl))
    | inr k ↦
        let (f, m, e) = suggest_deck_layer-some d ds fair in
        (suggestion f, layer_for-unknown s filter (d ∷ ds) k ∙ e, inr (k, f, m, refl))
  ]
