-- ===== src/Layers/Generate/Outcomes.antt =====
-- What `generateLayer` returns: for data that has its own geometry, and for data that is joined to a
-- geography.
use tgvejs.Prelude.{
  String, ◌≡◌, ◌≢◌, ◌⊎◌, refl, none≢some, sym, ap, subst, ◌∙◌, inl, inr, ◌↔◌, Bool, true, Option,
  none, some, List, [], ◌∷◌, All, In, All-In, All-map, All-self, false≢true, arith,
}
use tgvejs.Js.{Floats}
use tgvejs.Geojson.{Feature}
use tgvejs.Geojson.Join.{set_geojson_props, join_columns}
use tgvejs.Geojson.Join.Laws.{geography, usable, IsJoin, set_geojson_props-IsJoin}
use tgvejs.Color.{Palette, color_ranges}
use tgvejs.Home.Filter.{missing, Packages, demands, filter_geojson}
use tgvejs.Home.Filter.Laws.{Passes}
use tgvejs.Home.Filter.Outcomes.{Throws, filter_geojson-Passes}
use tgvejs.Layers.{Engine}
use tgvejs.Layers.State.{State, Values, Shown, draw, empty, icon_mode, as_filter, Update}
use tgvejs.Layers.Generate.{
  rows_of, draw_data, draw_joined, draw_features, draw_state, selected_style, generate_layer,
  filter_rows,
}
use tgvejs.Layers.Generate.Names.{IsTyped, SelectsKnown, Draws-layer}
use tgvejs.Layers.Generate.Laws.{Fair, color_of}
use tgvejs.Layers.Generate.Draws.{Ends, filter_rows-some, Ends-own, Ends-geography}

module _ (F : Floats) (E : Engine F) (P : Packages F) (C : Palette F) (has_token : Bool) where
  open F use {Num}

  generate_layer-own :
      (s : State F) (v : Values F) (t : String) (ds : List (Feature Num))
      → selected_style F E P C has_token v.filter ≡ none
      → s.shown ≡ some (geography F t ds)
      → s.geography ≡ none
      → generate_layer F E P C has_token s v
        ≡ draw_data F E P C has_token s v (rows_of F E P C has_token v.filter s ds) []
  unfolding generate_layer draw_state draw_features
  generate_layer-own s v t ds n e g = ground arith

  generate_layer-geography :
      (s : State F) (v : Values F) (t gt : String) (ds fs rows js : List (Feature Num))
      → selected_style F E P C has_token v.filter ≡ none
      → s.shown ≡ some (geography F t ds)
      → s.geography ≡ some (geography F gt fs)
      → rows_of F E P C has_token v.filter s ds ≡ some rows
      → set_geojson_props F E.lower (geography F gt fs) rows s.geography_column ≡ geography F gt js
      → generate_layer F E P C has_token s v ≡ draw_data F E P C has_token s v (some js) fs
  unfolding generate_layer draw_state draw_features draw_joined
  generate_layer-geography s v t gt ds fs rows js n e g r j = ground arith

  -- The rows that the filter lets through, and no others.
  abbrev pub Kept : State F → Values F → List (Feature Num) → List (Feature Num) → Type 0
  Kept s v rows kept =
      (d : Feature Num)
      → In d kept
        ↔ (In d rows × Passes F P (demands F (as_filter F v.filter) s.at s.multi_var_select) d)

  -- What comes of rows that go through the filter: an exception, if it throws at one of them, or else
  -- an end with the rows that pass it, drawn at `places` or at themselves.
  abbrev pub IsDrawn :
      State F
      → Values F
      → List (Feature Num)
      → (List (Feature Num) → List (Feature Num))
      → Option (Update F)
      → Type 0
  IsDrawn s v rows places result =
      let q = demands F (as_filter F v.filter) s.at s.multi_var_select in
      ((d : Feature Num) × In d rows × Throws F P q d × (result ≡ none))
      ⊎ (All (λ d. ¬ (Throws F P q d)) rows
          × ((kept : List (Feature Num)) × Kept s v rows kept
              × Ends F E P C has_token s v result kept (places kept)))

  filter_rows-none :
      (s : State F) (v : Values F) (rows : List (Feature Num))
      → filter_geojson F P rows (as_filter F v.filter) s.at s.multi_var_select ≡ none
      → filter_rows F E P C has_token s v.filter (some rows) ≡ none
  unfolding filter_rows
  filter_rows-none s v rows e = rw (filter_rows, e) refl

  draw_data-none :
      (s : State F) (v : Values F) (rows : Option (List (Feature Num)))
      (places : List (Feature Num))
      → filter_rows F E P C has_token s v.filter rows ≡ none
      → draw_data F E P C has_token s v rows places ≡ none
  unfolding draw_data
  draw_data-none s v rows places e = rw (draw_data, e) refl

  draw_data-IsDrawn :
      (s : State F) (v : Values F) (rows fs : List (Feature Num))
      (places : List (Feature Num) → List (Feature Num))
      → ((kept : List (Feature Num))
          → filter_rows F E P C has_token s v.filter (some rows) ≡ some (some kept)
          → Ends F E P C has_token s v
              (draw_data F E P C has_token s v (some rows) fs)
              kept
              (places kept))
      → IsDrawn s v rows places (draw_data F E P C has_token s v (some rows) fs)
  draw_data-IsDrawn s v rows fs places ends =
      elim (filter_geojson-Passes F P rows (as_filter F v.filter) s.at s.multi_var_select) [
        | inl (d, m, t, e) ↦
            inl (d, m, t, draw_data-none s v (some rows) fs (filter_rows-none s v rows e))
        | inr (quiet, (kept, e, k, l)) ↦ inr (
          quiet,
          (kept, k, ends kept (filter_rows-some F E P C has_token s v.filter rows kept e)),
        )
      ]

  -- Data with its own geometries: if the filter throws at one of the rows, so does `generateLayer`; if
  -- it throws at none, `generateLayer` keeps exactly the rows that pass it, and draws them if there are
  -- any.
  pub generate_layer-Ends :
      (s : State F) (v : Values F) (t : String) (ds rows : List (Feature Num))
      → selected_style F E P C has_token v.filter ≡ none
      → s.shown ≡ some (geography F t ds)
      → s.geography ≡ none
      → rows_of F E P C has_token v.filter s ds ≡ some rows
      → Fair F E P C has_token
      → color_ranges (some (color_of F E P C has_token s v)) ≢ none
      → IsDrawn s v rows (λ kept. kept) (generate_layer F E P C has_token s v)
  generate_layer-Ends s v t ds rows n e g r fair k =
      subst (IsDrawn s v rows (λ kept. kept))
        (sym (generate_layer-own s v t ds n e g ∙ ap (λ x. draw_data F E P C has_token s v x []) r))
        (draw_data-IsDrawn s v rows [] (λ kept. kept)
          (λ kept q. Ends-own F E P C has_token s v (some rows) kept fair k g q))

  -- Data joined to a geography by a usable column: if the filter throws at one of the joined rows, so
  -- does `generateLayer`; if it throws at none, `generateLayer` keeps exactly the joined rows that pass
  -- it, and draws them at their places if there are any.
  pub generate_layer-joins :
      (s : State F) (v : Values F) (t gt : String) (ds : List (Feature Num)) (f r : Feature Num)
      (fs rs : List (Feature Num))
      → selected_style F E P C has_token v.filter ≡ none
      → s.shown ≡ some (geography F t ds)
      → s.geography ≡ some (geography F gt (f ∷ fs))
      → rows_of F E P C has_token v.filter s ds ≡ some (r ∷ rs)
      → usable F (join_columns E.lower s.geography_column f r) f r ≡ true
      → Fair F E P C has_token
      → color_ranges (some (color_of F E P C has_token s v)) ≢ none
      → (js : List (Feature Num)) × IsJoin F
          (join_columns E.lower s.geography_column f r)
          (f ∷ fs)
          (r ∷ rs)
          js
        × IsDrawn s v js (λ kept. f ∷ fs) (generate_layer F E P C has_token s v)
  generate_layer-joins s v t gt ds f r fs rs n e g w usable_columns fair k =
      elim (set_geojson_props-IsJoin F E.lower gt f r fs rs s.geography_column) [
        | inl (unusable, x) ↦ absurd (false≢true (sym unusable ∙ usable_columns))
        | inr (u, js, x, j) ↦ (
          js,
          j,
          subst (IsDrawn s v js (λ kept. f ∷ fs))
              (sym (generate_layer-geography s v t gt ds (f ∷ fs) (r ∷ rs) js n e g w x))
              (draw_data-IsDrawn s v js (f ∷ fs) (λ kept. f ∷ fs)
                (λ kept q.
                  Ends-geography F E P C has_token s v (some js) kept f fs (geography F gt (f ∷ fs))
                    fair k g q)),
        )
      ]

  same_shown : (u w : Shown F) → some (draw u) ≡ some (draw w) → u ≡ w
  same_shown u w e = cc

  empty≢draw : {u : Shown F} → ¬ (some empty ≡ some (draw u))
  empty≢draw e = cc

  Ends-layer :
      (s : State F) (v : Values F) (result : Option (Update F)) (kept places : List (Feature Num))
      (u : Shown F)
      → Ends F E P C has_token s v result kept places
      → All (IsTyped F E P C has_token) places
      → SelectsKnown F E P C has_token v.filter
      → result ≡ some (draw u)
      → (u.alert ≢ some icon_mode) × (u.layer ≢ none)
  Ends-layer s v result kept places u (inl (n, e)) typed sel h = absurd (empty≢draw (sym e ∙ h))
  Ends-layer s v result kept places u (inr (w, place, rest, p, e, d)) typed sel h =
      subst (λ (x : Shown F). (x.alert ≢ some icon_mode) × (x.layer ≢ none))
        (same_shown w u (sym e ∙ h))
        (Draws-layer F E P C has_token s v place rest kept w d
          (subst (All (IsTyped F E P C has_token)) p typed) sel)

  -- Data whose geometries have types: what `generateLayer` draws has a layer, unless one is selected
  -- that it does not know, and it never says that it switched to icons, however few rows there are.
  pub generate_layer-layer :
      (s : State F) (v : Values F) (t : String) (ds rows : List (Feature Num)) (u : Shown F)
      → selected_style F E P C has_token v.filter ≡ none
      → s.shown ≡ some (geography F t ds)
      → s.geography ≡ none
      → rows_of F E P C has_token v.filter s ds ≡ some rows
      → (demands F (as_filter F v.filter) s.at s.multi_var_select).values ≢ missing
      → All (IsTyped F E P C has_token) rows
      → Fair F E P C has_token
      → color_ranges (some (color_of F E P C has_token s v)) ≢ none
      → SelectsKnown F E P C has_token v.filter
      → generate_layer F E P C has_token s v ≡ some (draw u)
      → (u.alert ≢ some icon_mode) × (u.layer ≢ none)
  generate_layer-layer s v t ds rows u n e g r here typed fair k sel h =
      elim (generate_layer-Ends s v t ds rows n e g r fair k) [
        | inl (d, m, x, none_drawn) ↦ absurd (none≢some (sym none_drawn ∙ h))
        | inr (quiet, (kept, p, ends)) ↦
            Ends-layer s v (generate_layer F E P C has_token s v) kept kept u ends
              (All-map (λ d. In d kept) (IsTyped F E P C has_token)
                (λ d m. All-In (IsTyped F E P C has_token) d rows typed ((p d).0 m).0) kept
                (All-self kept))
              sel h
      ]
