-- ===== src/Tests/Forms.antt =====
-- The theorems on the form for data files, on the throttle and on the icons at concrete inputs.
use tgvejs.Prelude.{ℕ, ◌+◌, ◌≡◌, ◌⊎◌, refl, ◌≤◌, true, not, none, some, [], ◌∷◌, inl, codes, length}
use tgvejs.Geojson.{FeatureCollection}
use tgvejs.Input.DataInput.{read, reads, types_column, Form, opened, content_callback}
use tgvejs.Input.DataInput.Runs.{Sound, act_all, opened-Sound}
use tgvejs.Input.DataInput.Pairs.{content_callback-pair}
use tgvejs.Drag.{called, framed, throttle, call, frame}
use tgvejs.Drag.Laws.{run, IsCancelled, throttle-calls}
use tgvejs.Icons.{get_icon_name}
use tgvejs.Samples.{Whole, leeds, accidents}

abbrev rows : FeatureCollection Whole
rows = record { type = "FeatureCollection"; features = some (accidents ∷ []) }

abbrev areas : FeatureCollection Whole
areas = record { type = "FeatureCollection"; features = some (leeds ∷ []) }

opened-Sound_example : Sound Whole (
    act_all Whole
      (reads (codes "text/csv") "rows.csv" (read rows)
        ∷ types_column "area:code"
        ∷ reads (codes "json") "areas.json" (read areas)
        ∷ [])
      (opened Whole))
opened-Sound_example = opened-Sound Whole (
    reads (codes "text/csv") "rows.csv" (read rows)
    ∷ types_column "area:code"
    ∷ reads (codes "json") "areas.json" (read areas)
    ∷ [])

abbrev asked : Form Whole
asked = record (opened Whole) { is_open = true; geo_column = some "area:code" }

waits : asked.data_file ≡ none
unfolding opened
waits = refl

content_callback-pair_example :
    content_callback Whole
      (codes "json")
      "areas.json"
      (read areas)
      (content_callback Whole (codes "text/csv") "rows.csv" (read rows) asked)
    ≡ record asked {
      is_open = not asked.is_open;
      alert = none;
      data_file = none;
      sent =
          record {
            geojson = rows;
            name = "areas.json";
            geography = some areas;
            geo_column = asked.geo_column;
          }
          ∷ asked.sent;
      toggles = asked.toggles + 1;
    }
content_callback-pair_example =
    content_callback-pair Whole (codes "text/csv") (codes "json") "rows.csv" "areas.json" rows areas
      asked waits (accidents ∷ [], refl, (refl, tt)) (leeds ∷ [], refl, leeds, inl refl, λ e. cc)

throttle-calls_example :
    (length (run ℕ (called 1 ∷ framed ∷ called 2 ∷ []) (throttle ℕ)).frames ≤ 1)
    × (IsCancelled ℕ (called 1 ∷ framed ∷ called 2 ∷ []) (throttle ℕ)
        ⊎ ((frame ℕ (call ℕ 3 (run ℕ (called 1 ∷ framed ∷ called 2 ∷ []) (throttle ℕ)))).calls
            ≡ 3 ∷ (run ℕ (called 1 ∷ framed ∷ called 2 ∷ []) (throttle ℕ)).calls))
throttle-calls_example = throttle-calls ℕ (called 1 ∷ framed ∷ called 2 ∷ []) 3

names : (get_icon_name 47 ≡ codes "marker-40") × (get_icon_name 5 ≡ codes "marker-5")
unfolding get_icon_name
names = (refl, refl)
