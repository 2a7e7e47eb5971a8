-- ===== src/Home/Steps/Fits.antt =====
-- What the state of the main component, src/home/index.js, keeps through the generation of a layer.
use tgvejs.Prelude.{
  ℕ, ◌+◌, ◌-◌, ◌<◌, ◌≤◌, ◌≡◌, refl, ap, subst, ◌⊎◌, inl, inr, Bool, true, false, Option, none, some,
  List, [], ◌∷◌, ltb, arith, Option-cases,
}
use tgvejs.Js.{Floats}
use tgvejs.Geojson.{Feature}
use tgvejs.Color.{Palette}
use tgvejs.Home.Filter.{Packages}
use tgvejs.Layers.{Engine}
use tgvejs.Layers.Deck.{Layer}
use tgvejs.Layers.State.{State, Values, Update, nothing, restyle, unmatched, empty, draw}
use tgvejs.Layers.Generate.{generate_layer}
use tgvejs.Layers.Generate.Rows.{HasRows, generate_layer-HasRows}
use tgvejs.Home.Steps.{Home, merge, cleared, call_generate_layer}

-- More than a second lies between the times, the last one first.
abbrev pub Apart : ℕ → List ℕ → Type 0
Apart t [] = Unit
Apart t (u ∷ us) = (u + 1000 < t) × Apart u us

abbrev pub Spaced : ℕ → List ℕ → Type 0
Spaced last [] = Unit
Spaced last (t ∷ ts) = (t ≤ last) × Apart t ts

pub Spaced-late :
    (last now : ℕ) (ts : List ℕ)
    → ltb 1000 (now - last) ≡ true
    → Spaced last ts
    → Spaced now (now ∷ ts)
Spaced-late last now [] h s = (omega arith, tt)
Spaced-late last now (t ∷ ts) h s =
    let late : 1000 < now - last = ground arith in (omega arith, (omega (arith, s.0), s.1))

module _ (F : Floats) where
  open F use {Num}

  -- The list of the layers is empty if there are no filtered rows, and else has one element, which is
  -- null where no layer could be made; a selected coordinate has a row, at least, to search.
  pub record Fits (s : State F) : Type 0 where
    pub drawn :
        ((s.layers ≡ []) × ((s.filtered ≡ none) ⊎ (s.filtered ≡ some [])))
        ⊎ ((w : Option (Layer Num)) × (d : Feature Num) × (ds : List (Feature Num)) × (s.layers
              ≡ w ∷ [])
            × (s.filtered ≡ some (d ∷ ds)))
    pub searchable :
        (s.at ≡ none)
        ⊎ ((d : Feature Num) × (ds : List (Feature Num)) × (s.filtered ≡ some (d ∷ ds)))

  module _ (E : Engine F) (P : Packages F) (C : Palette F) (has_token : Bool) where
    merge-Fits :
        (s : State F) (u : Update F)
        → Fits s
        → HasRows F E P C has_token (some u)
        → Fits (merge F u s)
    unfolding merge
    merge-Fits s nothing f h = f
    merge-Fits s (restyle style) f h = record { drawn = f.drawn; searchable = f.searchable }
    merge-Fits s unmatched f h = record { drawn = f.drawn; searchable = f.searchable }
    merge-Fits s empty f h = record { drawn = f.drawn; searchable = f.searchable }
    merge-Fits s (draw u) f (d, ds, e) = record {
      drawn = inr (u.layer, d, ds, refl, ap some e);
      searchable = inr (d, ds, ap some e);
    }

    call-Fits :
        (v : Values F) (h : Home F)
        → Fits h.map
        → Fits (call_generate_layer F E P C has_token v h).map
    unfolding call_generate_layer
    call-Fits v h f = elim (Option-cases (generate_layer F E P C has_token h.map v)) [
      | inl e ↦ rw (call_generate_layer, e) f
      | inr (u, e) ↦
          rw (call_generate_layer, e)
            (merge-Fits h.map u f (
              subst (HasRows F E P C has_token) e
                (generate_layer-HasRows F E P C has_token h.map v)))
    ]

    call-times :
        (v : Values F) (h : Home F)
        → Spaced h.last_view_port_change h.histories
        → Spaced
            (call_generate_layer F E P C has_token v h).last_view_port_change
            (call_generate_layer F E P C has_token v h).histories
    unfolding call_generate_layer
    call-times v h f = elim (Option-cases (generate_layer F E P C has_token h.map v)) [
      | inl e ↦ rw (call_generate_layer, e) f
      | inr (u, e) ↦ rw (call_generate_layer, e) f
    ]

    pub cleared-Fits : (reset : Bool) (s : State F) → Fits s → Fits (cleared F reset s)
    unfolding cleared
    cleared-Fits true s f = record { drawn = inl (refl, inr refl); searchable = inl refl }
    cleared-Fits false s f = record { drawn = f.drawn; searchable = inl refl }

    -- What holds of every state.
    pub record Sound (h : Home F) : Type 0 where
      pub fits : Fits h.map
      pub spaced : Spaced h.last_view_port_change h.histories

    pub call-Sound :
        (v : Values F) (h : Home F) → Sound h → Sound (call_generate_layer F E P C has_token v h)
    call-Sound v h s = record { fits = call-Fits v h s.fits; spaced = call-times v h s.spaced }

    -- the parts of a state that `Fits` looks at
    pub same-Fits :
        (s t : State F)
        → Fits s
        → t.layers ≡ s.layers
        → t.filtered ≡ s.filtered
        → t.at ≡ s.at
        → Fits t
    same-Fits s t f a b c = record {
      drawn = rw (a, b) (f.drawn);
      searchable = rw (b, c) (f.searchable);
    }
