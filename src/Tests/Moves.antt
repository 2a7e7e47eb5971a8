-- ===== src/Tests/Moves.antt =====
-- The theorems on the steps of the main component and on the view at concrete inputs.
use tgvejs.Prelude.{◌≡◌, refl, true, false, none, some, [], ◌∷◌}
use tgvejs.Js.{str}
use tgvejs.Js.Dict.{Dict}
use tgvejs.Geojson.{FeatureCollection}
use tgvejs.Home.Steps.{Home, HomeProps, constructed, Event, arrives, moves, clicks, step}
use tgvejs.Home.Steps.Fits.{Sound}
use tgvejs.Home.Steps.Runs.{mounted, next, reached-Sound}
use tgvejs.Home.View.{
  Page, init_view_state, get_view_port, absent, no_rows, collection, exception, unchanged,
}
use tgvejs.Samples.{wholes, Whole, whole, packages, set1, engine, leeds, york}

abbrev props : HomeProps wholes
props = record {
  select = some (("name", str "Leeds" ∷ []) ∷ []);
  geography_column = none;
  column = none;
  layer_name = none;
  dark = false;
  listens = true;
}

abbrev mounted_home : Home wholes
mounted_home = constructed wholes false 5 props

abbrev areas : FeatureCollection Whole
areas = record { type = "FeatureCollection"; features = some (leeds ∷ york ∷ []) }

abbrev arrival : Event wholes engine packages set1 false
arrival = arrives (some areas) none none

abbrev loaded : Home wholes
loaded = step wholes engine packages set1 false arrival mounted_home

abbrev moved_on : Home wholes
moved_on = step wholes engine packages set1 false (moves 2000 none) loaded

abbrev later : Home wholes
later = step wholes engine packages set1 false (clicks false none 1 1) moved_on

reached-Sound_example : Sound wholes engine packages set1 false later
reached-Sound_example = reached-Sound wholes engine packages set1 false later (
    next {h = moved_on} (clicks false none 1 1)
      (next {h = loaded} (moves 2000 none) (next {h = mounted_home} arrival (mounted 5 props))))

-- A query with a latitude and a pitch.
abbrev page : Page wholes
page = record {
  parse = λ s. ("lat", "4") ∷ ("pit", "7") ∷ [];
  without_mark = λ s. s;
  fixed = λ a. "4";
  centroid = λ g. some (whole 1, whole 2);
}

abbrev shared : Dict Whole
shared = ("latitude", whole 53) ∷ ("pitch", whole 55) ∷ []

-- The pitch of the query stands under a key that the map does not read.
pitch_of_query :
    init_view_state wholes page shared none (some "hex") "?lat=4&pit=7"
    ≡ ("latitude", whole 4) ∷ ("pitch", whole 55) ∷ ("pit", whole 7) ∷ []
unfolding init_view_state
pitch_of_query = refl

-- Without a map the view throws.
no_map : get_view_port wholes page absent (collection areas) none false ≡ exception
unfolding get_view_port
no_map = refl

-- An empty array has no view.
no_view : get_view_port wholes page no_rows absent none true ≡ unchanged
unfolding get_view_port
no_view = refl
