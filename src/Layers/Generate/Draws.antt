-- ===== src/Layers/Generate/Draws.antt =====
-- What `generateLayer` of src/home/util.js draws of rows and places.
use tgvejs.Prelude.{
  String, ◌≡◌, ◌≢◌, refl, ◌∙◌, ◌⊎◌, inl, inr, Bool, Option, none, some, List, [], ◌∷◌, arith,
  if◌then◌else◌,
}
use tgvejs.Js.{Floats}
use tgvejs.Geojson.{Feature, FeatureCollection, sf_type}
use tgvejs.Color.{Palette, color_ranges}
use tgvejs.Home.Filter.{Packages, filter_geojson}
use tgvejs.Layers.{Engine}
use tgvejs.Layers.Deck.{generate_deck_layer}
use tgvejs.Layers.State.{
  State, Values, What, Update, Shown, draw, empty, Shown, icon_mode, error, as_filter,
}
use tgvejs.Layers.Generate.{
  layer_for, switch_to_icon, named, look_of, shown_of, draw_look, draw_rows, filter_rows, draw_data,
}
use tgvejs.Layers.Generate.Laws.{color_of, Fair, draw_look-some, IsNameFor, layer_for-some}

module _ (F : Floats) (E : Engine F) (P : Packages F) (C : Palette F) (has_token : Bool) where
  open F use {Num}

  -- What is drawn of rows and places.
  pub record Draws (s : State F) (v : Values F) (place : Feature Num)
      (places rows : List (Feature Num)) (u : Shown F) : Type 0 where
    pub name : Option String
    pub name_for : IsNameFor F E P C has_token s v.filter (place ∷ places) name
    pub filtered : u.filtered ≡ rows
    pub geom_type : u.geom_type ≡ E.lower (sf_type place)
    pub layer_name :
        u.layer_name
        ≡ named F E P C has_token
            (switch_to_icon F E P C has_token s v.filter name rows (E.lower (sf_type place)))
            name
    pub alert : u.alert ≡ (
        if switch_to_icon F E P C has_token s v.filter name rows (E.lower (sf_type place))
        then some icon_mode
        else elim v.custom_error [ none ↦ none | some e ↦ some (error e) ])
    pub layer : u.layer ≡ generate_deck_layer F E u.layer_name u.filtered u.layer_options

  draw_rows-of :
      (s : State F) (v : Values F) (place : Feature Num) (places : List (Feature Num))
      (d : Feature Num) (ds : List (Feature Num)) (name : Option String)
      → layer_for F E P C has_token s v.filter (place ∷ places) ≡ some name
      → draw_rows F E P C has_token s v (place ∷ places) d ds
        ≡ draw_look F E P C has_token s v
            (switch_to_icon F E P C has_token s v.filter name (d ∷ ds) (E.lower (sf_type place)))
            (look_of F E P C has_token s v
              (named F E P C has_token
                (switch_to_icon F E P C has_token s v.filter name
                  (d ∷ ds)
                  (E.lower (sf_type place)))
                name)
              (E.lower (sf_type place))
              d
              ds)
  unfolding draw_rows
  draw_rows-of s v place places d ds name e = ground arith

  draw_rows-Draws :
      (s : State F) (v : Values F) (place : Feature Num) (places : List (Feature Num))
      (d : Feature Num) (ds : List (Feature Num))
      → Fair F E P C has_token
      → color_ranges (some (color_of F E P C has_token s v)) ≢ none
      → (u : Shown F) × (draw_rows F E P C has_token s v (place ∷ places) d ds ≡ some (draw u))
        × Draws s v place places (d ∷ ds) u
  unfolding look_of shown_of
  draw_rows-Draws s v place places d ds fair k =
      let (name, e, n) = layer_for-some F E P C has_token s v.filter place places fair in
      let type = E.lower (sf_type place) in
      let icons = switch_to_icon F E P C has_token s v.filter name (d ∷ ds) type in
      let look = look_of F E P C has_token s v (named F E P C has_token icons name) type d ds in
      let (o, q) = draw_look-some F E P C has_token s v icons look k in
      (
        shown_of F E P C has_token s v icons look o,
        draw_rows-of s v place places d ds name e ∙ q,
        record {
          name = name;
          name_for = n;
          filtered = refl;
          geom_type = refl;
          layer_name = refl;
          alert = refl;
          layer = refl;
        },
      )

  -- The two ends of a call that has rows and throws no error: none of them is left, or what is left
  -- is drawn.
  abbrev pub Ends :
      State F → Values F → Option (Update F) → List (Feature Num) → List (Feature Num) → Type 0
  Ends s v result kept places =
      ((kept ≡ []) × (result ≡ some empty))
      ⊎ ((u : Shown F) × (place : Feature Num) × (rest : List (Feature Num)) × (places
            ≡ place ∷ rest)
          × (result ≡ some (draw u))
          × Draws s v place rest kept u)

  pub filter_rows-some :
      (s : State F) (filter : Option (What F)) (rows r : List (Feature Num))
      → filter_geojson F P rows (as_filter F filter) s.at s.multi_var_select ≡ some r
      → filter_rows F E P C has_token s filter (some rows) ≡ some (some r)
  unfolding filter_rows
  filter_rows-some s filter rows r e = ground arith

  draw_data-empty :
      (s : State F) (v : Values F) (rows : Option (List (Feature Num)))
      (places : List (Feature Num))
      → filter_rows F E P C has_token s v.filter rows ≡ some (some [])
      → draw_data F E P C has_token s v rows places ≡ some empty
  unfolding draw_data
  draw_data-empty s v rows places e = ground arith

  draw_data-own :
      (s : State F) (v : Values F) (rows : Option (List (Feature Num)))
      (places : List (Feature Num)) (d : Feature Num) (ds : List (Feature Num))
      → s.geography ≡ none
      → filter_rows F E P C has_token s v.filter rows ≡ some (some (d ∷ ds))
      → draw_data F E P C has_token s v rows places ≡ draw_rows F E P C has_token s v (d ∷ ds) d ds
  unfolding draw_data
  draw_data-own s v rows places d ds g e = ground arith

  draw_data-geography :
      (s : State F) (v : Values F) (rows : Option (List (Feature Num)))
      (places : List (Feature Num)) (d : Feature Num) (ds : List (Feature Num))
      (g : FeatureCollection Num)
      → s.geography ≡ some g
      → filter_rows F E P C has_token s v.filter rows ≡ some (some (d ∷ ds))
      → draw_data F E P C has_token s v rows places ≡ draw_rows F E P C has_token s v places d ds
  unfolding draw_data
  draw_data-geography s v rows places d ds g h e = ground arith

  pub Ends-own :
      (s : State F) (v : Values F) (rows : Option (List (Feature Num))) (kept : List (Feature Num))
      → Fair F E P C has_token
      → color_ranges (some (color_of F E P C has_token s v)) ≢ none
      → s.geography ≡ none
      → filter_rows F E P C has_token s v.filter rows ≡ some (some kept)
      → Ends s v (draw_data F E P C has_token s v rows []) kept kept
  Ends-own s v rows [] fair k g e = inl (refl, draw_data-empty s v rows [] e)
  Ends-own s v rows (d ∷ ds) fair k g e =
      let (u, q, w) = draw_rows-Draws s v d ds d ds fair k in
      inr (u, d, ds, refl, draw_data-own s v rows [] d ds g e ∙ q, w)

  pub Ends-geography :
      (s : State F) (v : Values F) (rows : Option (List (Feature Num))) (kept : List (Feature Num))
      (place : Feature Num) (places : List (Feature Num)) (g : FeatureCollection Num)
      → Fair F E P C has_token
      → color_ranges (some (color_of F E P C has_token s v)) ≢ none
      → s.geography ≡ some g
      → filter_rows F E P C has_token s v.filter rows ≡ some (some kept)
      → Ends s v (draw_data F E P C has_token s v rows (place ∷ places)) kept (place ∷ places)
  Ends-geography s v rows [] place places g fair k h e =
      inl (refl, draw_data-empty s v rows (place ∷ places) e)
  Ends-geography s v rows (d ∷ ds) place places g fair k h e =
      let (u, q, w) = draw_rows-Draws s v place places d ds fair k in
      inr (u, place, places, refl, draw_data-geography s v rows (place ∷ places) d ds g h e ∙ q, w)
