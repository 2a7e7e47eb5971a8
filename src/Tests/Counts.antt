-- ===== src/Tests/Counts.antt =====
-- The theorems on counts of properties at concrete inputs.
use tgvejs.Prelude.{ℕ, ◌≡◌, refl, true, Option, none, some, List, [], ◌∷◌}
use tgvejs.Js.{Value}
use tgvejs.Js.Dict.{Dict}
use tgvejs.Js.Collection.{unique}
use tgvejs.Js.Counter.{occurrences}
use tgvejs.Geojson.{Feature, read}
use tgvejs.Geojson.Values.{column}
use tgvejs.Geojson.Counts.{property_count_by_property}
use tgvejs.Geojson.Slots.{at, index_of, list_copy, property_count}
use tgvejs.Geojson.Slots.Laws.{slot_of, property_count-occurrences}
use tgvejs.Utils.Xy.{Point}
use tgvejs.Samples.{wholes, Whole, not_a_number, leeds, york}

abbrev areas : List (Feature Whole)
areas = leeds ∷ york ∷ leeds ∷ []

abbrev no_year : Value Whole → Whole
no_year v = not_a_number

-- {E1: {Leeds: 2}, E2: {York: 1}}
counted_by_code :
    property_count_by_property wholes no_year (some areas) "name" "code" true
    ≡ some (("E1", ("Leeds", 2) ∷ []) ∷ ("E2", ("York", 1) ∷ []) ∷ [])
unfolding property_count_by_property read
counted_by_code = refl

property_count-occurrences_example :
    (r : List (Option ℕ × Point Whole)) × (property_count wholes (some areas) "name" none ≡ some r)
    × ((v : Value Whole) (i : ℕ)
        → index_of wholes (list_copy wholes areas "name" none) v ≡ some i
        → at (some i) r ≡ slot_of wholes v (occurrences wholes v (column wholes "name" areas)))
    × (list_copy wholes areas "name" none ≡ unique wholes (column wholes "name" areas))
property_count-occurrences_example = property_count-occurrences wholes areas "name" none refl
