-- ===== src/Tests/Params.antt =====
-- The theorems on the parameters of the application at concrete inputs.
use tgvejs.Prelude.{none, String, ◌≡◌, refl, inl, ◌↔◌, true, false, some, [], ◌∷◌, In, codes}
use tgvejs.Js.{Value, bool, str}
use tgvejs.Js.Dict.{Dict, get}
use tgvejs.Api.Select.{scalar}
use tgvejs.Api.Params.{Expected, read_value, tgve_api, item, params}
use tgvejs.Api.Params.Precedence.{params_precedence}
use tgvejs.Api.Changed.{Differs, IsMalformed, has_api_changed, has_api_changed_iff}
use tgvejs.Samples.{wholes, Whole, sources, store}

params_precedence_example :
    get "column" (params wholes (sources []))
    ≡ get "column" (params wholes (sources (codes "REACT_APP_COLUMN")))
unfolding get
params_precedence_example =
    params_precedence wholes (sources []) (sources (codes "REACT_APP_COLUMN")) "column" refl refl
      (inl (λ h. cc))

-- The flag of the settings, and the column of the query.
params_here :
    (get "hideCharts" (params wholes (sources [])) ≡ some (item (scalar (bool true))))
    × (get "column" (params wholes (sources [])) ≡ some (item (scalar (str "total"))))
    × (get "dark" (params wholes (sources [])) ≡ some (item (scalar (bool false))))
unfolding get params
params_here = (refl, refl, refl)

abbrev same_column : Dict (Value Whole)
same_column = ("column", str "total") ∷ []

has_api_changed_iff_example :
    ((has_api_changed wholes store same_column same_column ≡ none)
      ↔ IsMalformed wholes store (read_value wholes same_column "select"))
    × ((has_api_changed wholes store same_column same_column ≡ some true) ↔ (
        ¬ (IsMalformed wholes store (read_value wholes same_column "select"))
        × ((c : String × Expected) × In c tgve_api
            × Differs wholes store same_column same_column c)))
has_api_changed_iff_example = has_api_changed_iff wholes store same_column same_column
