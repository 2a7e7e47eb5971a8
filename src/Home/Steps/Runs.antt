-- ===== src/Home/Steps/Runs.antt =====
-- The states that the steps of the main component, src/home/index.js, lead to.
use tgvejs.Prelude.{
  not, ℕ, ◌-◌, refl, inl, inr, Bool, true, false, Option, none, some, ◌∷◌, ltb, Bool-cases,
  Option-cases, if◌then◌else◌,
}
use tgvejs.Js.{Floats}
use tgvejs.Geojson.{FeatureCollection}
use tgvejs.Color.{Palette}
use tgvejs.Utils.Numbers.{Bounds}
use tgvejs.Home.Filter.{Packages, bounds_subset}
use tgvejs.Home.Loading.{Alert}
use tgvejs.Layers.{Engine}
use tgvejs.Layers.State.{narrow}
use tgvejs.Home.Steps.{
  Home, HomeProps, UrlParams, constructed, cleared, render_tooltip, call_generate_layer, no_values,
  given_data, given_geography, given_both, arrive, url_callback, update_history, Event, select,
  arrives, returns, hovers, clicks, closes_popup, moves, subsets, step, on_click,
  toggle_subset_bounds_change,
}
use tgvejs.Home.Steps.Fits.{Spaced-late, Sound, call-Sound, same-Fits, cleared-Fits}

module _ (F : Floats) where
  open F use {Num}

  module _ (E : Engine F) (P : Packages F) (C : Palette F) (has_token : Bool) where
    arrive-Sound :
        (data_ geography : Option (FeatureCollection Num)) (e : Option Alert) (h : Home F)
        → Sound F E P C has_token h
        → Sound F E P C has_token (arrive F E P C has_token data_ geography e h)
    unfolding arrive
    arrive-Sound data_ none e h s =
        call-Sound F E P C has_token (record (no_values F E P C has_token) { custom_error = e })
          (record h { map = given_data F data_ h.map })
          (record {
            fits =
                same-Fits F E P C has_token h.map (given_data F data_ h.map) s.fits refl refl refl;
            spaced = s.spaced;
          })
    arrive-Sound data_ (some g) e h s =
        call-Sound F E P C has_token (no_values F E P C has_token)
          (record h { map = given_geography F data_ g e h.map })
          (record {
            fits =
                same-Fits F E P C has_token h.map (given_geography F data_ g e h.map) s.fits refl
                  refl refl;
            spaced = s.spaced;
          })

    url_callback-Sound :
        (p : UrlParams F) (h : Home F)
        → Sound F E P C has_token h
        → Sound F E P C has_token (url_callback F E P C has_token p h)
    unfolding url_callback
    url_callback-Sound p h s =
        let clear = cleared F p.reset h.map in
        elim (Option-cases p.geojson_returned) [
          | inl e ↦
              rw (url_callback, e)
                (record {
                  fits = cleared-Fits F E P C has_token p.reset h.map s.fits;
                  spaced = s.spaced;
                })
          | inr (g, e) ↦
              rw (url_callback, e)
                (call-Sound F E P C has_token (no_values F E P C has_token)
                  (record h { map = given_both F p g clear; tooltip = none; reset = p.reset })
                  (record {
                    fits =
                        same-Fits F E P C has_token clear (given_both F p g clear)
                          (cleared-Fits F E P C has_token p.reset h.map s.fits) refl refl refl;
                    spaced = s.spaced;
                  }))
        ]

    render_tooltip-Sound :
        (object : Option ℕ) (x y : ℕ) (click : Bool) (h : Home F)
        → Sound F E P C has_token h
        → Sound F E P C has_token (render_tooltip F object x y click h)
    unfolding render_tooltip
    render_tooltip-Sound none x y true h s = record { fits = s.fits; spaced = s.spaced }
    render_tooltip-Sound none x y false h s = record { fits = s.fits; spaced = s.spaced }
    render_tooltip-Sound (some o) x y true h s = record { fits = s.fits; spaced = s.spaced }
    render_tooltip-Sound (some o) x y false h s = record { fits = s.fits; spaced = s.spaced }

    abbrev timed : ℕ → Home F → Home F
    timed now h =
        if ltb 1000 (now - h.last_view_port_change)
        then record h { last_view_port_change = now; histories = now ∷ h.histories }
        else h

    timed-Sound :
        (now : ℕ) (h : Home F) → Sound F E P C has_token h → Sound F E P C has_token (timed now h)
    timed-Sound now h s = elim (Bool-cases (ltb 1000 (now - h.last_view_port_change))) [
      | inl e ↦ rw e (record {
        fits = s.fits;
        spaced = Spaced-late h.last_view_port_change now h.histories e s.spaced;
      })
      | inr e ↦ rw e s
    ]

    loading_again :
        (h : Home F)
        → Sound F E P C has_token h
        → Sound F E P C has_token (record h { map = record h.map { loading = true } })
    loading_again h s = record {
      fits =
          same-Fits F E P C has_token h.map (record h.map { loading = true }) s.fits refl refl refl;
      spaced = s.spaced;
    }

    Sound-if :
        (b : Bool) (x y : Home F)
        → Sound F E P C has_token x
        → Sound F E P C has_token y
        → Sound F E P C has_token (if b then x else y)
    Sound-if true x y s t = s
    Sound-if false x y s t = t

    update_history-Sound :
        (now : ℕ) (bounds : Option (Bounds F)) (h : Home F)
        → Sound F E P C has_token h
        → Sound F E P C has_token (update_history F E P C has_token now bounds h)
    unfolding update_history
    update_history-Sound now bounds h s =
        let moved = record (timed now h) { map = record (timed now h).map { loading = true } } in
        let values = record (no_values F E P C has_token) {
          filter = some (narrow (bounds_subset bounds));
        } in
        Sound-if h.subset_bounds_change (call_generate_layer F E P C has_token values moved)
          (timed now h)
          (call-Sound F E P C has_token values moved
            (loading_again (timed now h) (timed-Sound now h s)))
          (timed-Sound now h s)

    dropped-Sound :
        (h : Home F)
        → Sound F E P C has_token h
        → Sound F E P C has_token (
            call_generate_layer F E P C has_token
              (no_values F E P C has_token)
              (record h { map = record h.map { at = none } }))
    dropped-Sound h s =
        call-Sound F E P C has_token (no_values F E P C has_token)
          (record h { map = record h.map { at = none } })
          (record {
            fits = record { drawn = s.fits.drawn; searchable = inl refl };
            spaced = s.spaced;
          })

    on_click-Sound :
        (on_layer : Bool) (object : Option ℕ) (x y : ℕ) (h : Home F)
        → Sound F E P C has_token h
        → Sound F E P C has_token (on_click F E P C has_token on_layer object x y h)
    unfolding on_click
    on_click-Sound true object x y h s = render_tooltip-Sound object x y true h s
    on_click-Sound false object x y h s = elim (Option-cases h.map.at) [
      | inl e ↦ rw (on_click, e) (render_tooltip-Sound object x y true h s)
      | inr (vs, e) ↦ rw (on_click, e) (render_tooltip-Sound object x y true _ (dropped-Sound h s))
    ]

    step-Sound :
        (e : Event F E P C has_token) (h : Home F)
        → Sound F E P C has_token h
        → Sound F E P C has_token (step F E P C has_token e h)
    unfolding step toggle_subset_bounds_change
    step-Sound (select v) h s = call-Sound F E P C has_token v h s
    step-Sound (arrives data_ g e) h s = arrive-Sound data_ g e h s
    step-Sound (returns p) h s = url_callback-Sound p h s
    step-Sound (hovers o x y) h s = render_tooltip-Sound o x y false h s
    step-Sound (clicks on_layer o x y) h s = on_click-Sound on_layer o x y h s
    step-Sound closes_popup h s = record { fits = s.fits; spaced = s.spaced }
    step-Sound (moves now bounds) h s = update_history-Sound now bounds h s
    step-Sound subsets h s =
        call-Sound F E P C has_token (no_values F E P C has_token)
          (record h { subset_bounds_change = not h.subset_bounds_change })
          (record { fits = s.fits; spaced = s.spaced })

    -- The states that the component comes to.
    pub data Reached : Home F → Type 0 where
      mounted : (now : ℕ) (p : HomeProps F) → Reached (constructed F has_token now p)
      next :
          {h : Home F} (e : Event F E P C has_token)
          → Reached h
          → Reached (step F E P C has_token e h)

    -- In every state that the component comes to, the list of the layers is empty if there are no
    -- filtered rows, and else has one element, which is null where no layer could be made; where a
    -- coordinate is selected, there is a row, at least, to search; and more than a second lies between
    -- any two updates of the history.
    pub reached-Sound : (h : Home F) → Reached h → Sound F E P C has_token h
    unfolding constructed
    reached-Sound h (mounted now p) = record {
      fits = record { drawn = inl (refl, inl refl); searchable = inl refl };
      spaced = tt;
    }
    reached-Sound h (next {h = g} e r) = step-Sound e g (reached-Sound g r)
