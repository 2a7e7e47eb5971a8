-- ===== src/Tests/Features.antt =====
-- The theorems on columns and what is plotted of them at concrete inputs.
use tgvejs.Prelude.{codes, ℕ, ◌≡◌, refl, Bool, false, List, [], ◌∷◌}
use tgvejs.Js.{Value, num, str}
use tgvejs.Js.Dict.{Dict}
use tgvejs.Geojson.{Feature}
use tgvejs.Geojson.Plots.{Indexed}
use tgvejs.Utils.Numbers.{Bounds}
use tgvejs.Utils.Text.{humanize, shorten_name, first_last_n_characters}
use tgvejs.Samples.{wholes, Whole, whole, accidents, more_accidents}

abbrev row : Dict (Value Whole)
row = ("area", str "E1") ∷ ("total", num (whole 7)) ∷ []

abbrev never : Value Whole → Bool
never v = false

abbrev rows : List (Feature Whole)
rows = accidents ∷ more_accidents ∷ []

abbrev totals : List (Indexed Whole)
totals = record { x = 0; y = str "7" } ∷ record { x = 1; y = str "4" } ∷ []

-- Two corners, the first one to the east of the second.
abbrev corners : Bounds wholes
corners = record {
  sw = record { lng = whole 5; lat = whole 1 };
  ne = record { lng = whole 2; lat = whole 3 };
}

abbrev letters : List ℕ → Bool
letters s = false

texts :
    (first_last_n_characters letters (codes "abcdefghijklm") 5 ≡ codes "abcde...ijklm")
    × (humanize (codes "road_type") ≡ codes "Road Type")
    × (shorten_name (λ s. s) (codes "a_long_name_of_a_file_here.geojson") 26
        ≡ codes "a_long_nam...geojson")
unfolding first_last_n_characters humanize shorten_name
texts = (refl, refl, refl)
