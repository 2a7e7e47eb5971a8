-- ===== src/Tests/Loading.antt =====
-- The theorems on the loading of data at concrete inputs.
use tgvejs.Prelude.{◌<◌, String, ◌≡◌, refl, Bool, true, false, none, some, [], ◌∷◌}
use tgvejs.Geojson.{FeatureCollection}
use tgvejs.Home.Loading.{
  Props, for_data, for_geography, State, constructed, send, init_data_state, answer,
}
use tgvejs.Home.Loading.Runs.{answered, Reached, mounted, next, loading_ends, to_come, answers_end}
use tgvejs.Home.Loading.Quiet.{Stays, begins, follows, IsAbout, alert-IsAbout}
use tgvejs.Samples.{Whole, leeds}

abbrev any : String → Bool
any s = true

-- Data and geography from two URLs.
abbrev urls : Props Whole any
urls = record {
  data_prop = none;
  default_url = some "https://a.org/data.json";
  geography_url = some "https://a.org/areas.json";
}

abbrev areas : FeatureCollection Whole
areas = record { type = "FeatureCollection"; features = some (leeds ∷ []) }

abbrev waiting : State Whole any
waiting = send Whole any (for_data "https://a.org/data.json" none) (constructed Whole any)

waits : init_data_state Whole any urls (constructed Whole any) ≡ waiting
unfolding init_data_state
waits = refl

-- No data, but a geography.
abbrev half : State Whole any
half = send Whole any (for_geography "https://a.org/areas.json" none none) (constructed Whole any)

abbrev done : State Whole any
done =
    answer Whole any urls (for_geography "https://a.org/areas.json" none none) (some areas)
      (constructed Whole any)

reached : Reached Whole any done
unfolding init_data_state answer
reached =
    next {s = half} {t = done} urls
      (next {s = waiting} {t = half} urls (mounted urls)
        (answered waiting [] [] (for_data "https://a.org/data.json" none) none refl))
      (answered half [] [] (for_geography "https://a.org/areas.json" none none) (some areas) refl)

loading_ends_example : done.loading ≡ false
unfolding answer
loading_ends_example = loading_ends Whole any done reached refl

answers_end_example :
    to_come Whole any
      (answer Whole any urls
        (for_data "https://a.org/data.json" none)
        none
        (constructed Whole any)).pending
    < 2
answers_end_example =
    answers_end Whole any urls waiting [] [] (for_data "https://a.org/data.json" none) none refl

-- Neither the data nor the geography can be reached.
abbrev lost : State Whole any
lost =
    answer Whole any urls (for_geography "https://a.org/areas.json" none none) none
      (constructed Whole any)

stays : Stays Whole any urls lost
unfolding init_data_state answer
stays =
    follows {s = half} {t = lost}
      (follows {s = waiting} {t = half} begins
        (answered waiting [] [] (for_data "https://a.org/data.json" none) none refl))
      (answered half [] [] (for_geography "https://a.org/areas.json" none none) none refl)

alert-IsAbout_example : IsAbout Whole any urls "https://a.org/areas.json" lost.alert
unfolding answer
alert-IsAbout_example = alert-IsAbout Whole any urls "https://a.org/areas.json" lost refl refl stays
