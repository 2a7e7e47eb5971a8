-- ===== src/Layers/Generate/Rows.antt =====
-- What `generateLayer` draws has rows.
use tgvejs.Prelude.{◌≡◌, refl, inl, inr, Bool, Option, none, some, List, [], ◌∷◌, Option-cases}
use tgvejs.Js.{Floats}
use tgvejs.Geojson.{Feature, FeatureCollection, sf_type}
use tgvejs.Color.{Palette}
use tgvejs.Home.Filter.{Packages}
use tgvejs.Layers.{Engine}
use tgvejs.Layers.Options.{Look, generate_options}
use tgvejs.Layers.State.{State, Values, Update, draw}
use tgvejs.Layers.Generate.{
  filter_rows, layer_for, switch_to_icon, named, look_of, shown_of, draw_look, draw_rows, draw_data,
  with_geography, draw_joined, draw_features, draw_state, selected_style, generate_layer,
}

module _ (F : Floats) (E : Engine F) (P : Packages F) (C : Palette F) (has_token : Bool) where
  open F use {Num}

  abbrev pub HasRows : Option (Update F) → Type 0
  HasRows (some (draw u)) = (d : Feature Num) × (ds : List (Feature Num)) × (u.filtered ≡ d ∷ ds)
  HasRows result = Unit

  draw_look-HasRows :
      (s : State F) (v : Values F) (icons : Bool) (look : Look F) (d : Feature Num)
      (ds : List (Feature Num))
      → look.rows ≡ d ∷ ds
      → HasRows (draw_look F E P C has_token s v icons look)
  unfolding draw_look shown_of
  draw_look-HasRows s v icons look d ds h =
      elim (Option-cases (generate_options F E C look s.layer_options v.layer_options)) [
        | inl e ↦ rw (draw_look, e) tt
        | inr (o, e) ↦ rw (draw_look, e) (d, ds, h)
      ]

  draw_rows-HasRows :
      (s : State F) (v : Values F) (places : List (Feature Num)) (d : Feature Num)
      (ds : List (Feature Num))
      → HasRows (draw_rows F E P C has_token s v places d ds)
  unfolding draw_rows look_of
  draw_rows-HasRows s v [] d ds = tt
  draw_rows-HasRows s v (place ∷ places) d ds =
      elim (Option-cases (layer_for F E P C has_token s v.filter (place ∷ places))) [
        | inl e ↦ rw (draw_rows, e) tt
        | inr (name, e) ↦
            let type = E.lower (sf_type place) in
            let icons = switch_to_icon F E P C has_token s v.filter name (d ∷ ds) type in
            rw (draw_rows, e)
              (draw_look-HasRows s v icons
                (look_of F E P C has_token s v (named F E P C has_token icons name) type d ds) d ds
                refl)
      ]

  draw_data-HasRows :
      (s : State F) (v : Values F) (rows : Option (List (Feature Num)))
      (places : List (Feature Num))
      → HasRows (draw_data F E P C has_token s v rows places)
  unfolding draw_data
  draw_data-HasRows s v rows places =
      elim (Option-cases (filter_rows F E P C has_token s v.filter rows)) [
        | inl e ↦ rw (draw_data, e) tt
        | inr (none, e) ↦ rw (draw_data, e) tt
        | inr (some [], e) ↦ rw (draw_data, e) tt
        | inr (some (d ∷ ds), e) ↦ elim (Option-cases s.geography) [
          | inl g ↦ rw (draw_data, e, g) (draw_rows-HasRows s v (d ∷ ds) d ds)
          | inr (c, g) ↦ rw (draw_data, e, g) (draw_rows-HasRows s v places d ds)
        ]
      ]

  draw_joined-HasRows :
      (s : State F) (v : Values F) (g : FeatureCollection Num) (rows : Option (List (Feature Num)))
      → HasRows (draw_joined F E P C has_token s v g rows)
  unfolding draw_joined
  draw_joined-HasRows s v g rows =
      elim (Option-cases (with_geography F E P C has_token g rows s.geography_column).features) [
        | inl e ↦ rw (draw_joined, e) tt
        | inr (fs, e) ↦ rw (draw_joined, e) (draw_data-HasRows s v (some fs) _)
      ]

  draw_features-HasRows :
      (s : State F) (v : Values F) (ds : List (Feature Num))
      → HasRows (draw_features F E P C has_token s v ds)
  unfolding draw_features
  draw_features-HasRows s v ds = elim (Option-cases s.geography) [
    | inl g ↦ rw (draw_features, g) (draw_data-HasRows s v _ [])
    | inr (c, g) ↦ rw (draw_features, g) (draw_joined-HasRows s v c _)
  ]

  draw_state-HasRows : (s : State F) (v : Values F) → HasRows (draw_state F E P C has_token s v)
  unfolding draw_state
  draw_state-HasRows s v = elim (Option-cases s.shown) [
    | inl e ↦ rw (draw_state, e) tt
    | inr (g, e) ↦ elim (Option-cases g.features) [
      | inl w ↦ rw (draw_state, e, w) tt
      | inr (ds, w) ↦ rw (draw_state, e, w) (draw_features-HasRows s v ds)
    ]
  ]

  pub generate_layer-HasRows :
      (s : State F) (v : Values F) → HasRows (generate_layer F E P C has_token s v)
  unfolding generate_layer
  generate_layer-HasRows s v = elim (Option-cases (selected_style F E P C has_token v.filter)) [
    | inl e ↦ rw (generate_layer, e) (draw_state-HasRows s v)
    | inr (name, e) ↦ rw (generate_layer, e) tt
  ]
