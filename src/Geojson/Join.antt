-- ===== src/Geojson/Join.antt =====
-- `setGeojsonProps` of src/utils/geojsonutils.js: joins the rows of `data` to the features of a
-- geography by a shared column.
pub mod Laws
use Prim.Native.String
use tgvejs.Prelude.{
  ℕ, String, ◌≡◌, Bool, true, false, not, ◌&&◌, ◌||◌, Option, none, some, List, [], ◌∷◌, map,
  get_elem?, filter, str_eq, if◌then◌else◌,
}
use tgvejs.Js.{Value, Floats, truthy, strict_eq}
use tgvejs.Js.Dict.{keys}
use tgvejs.Js.Text.{split}
use tgvejs.Geojson.{Feature, FeatureCollection, read}

-- `undefined` as a key is read like its name.
abbrev pub key : Option String → String
key none = "undefined"
key (some k) = k

pub record Columns : Type 0 where
  pub in_data : Option String
  pub in_geojson : Option String

unfoldable pub includes : List String → String → Bool
includes [] s = false
includes (t ∷ ts) s = str_eq t s || includes ts s

-- (isString(geoColumn) && geoColumn.split(":")[n]) || geoColumn
unfoldable pub split_or_same : Option String → ℕ → Option String
unfolding split
split_or_same none n = none
split_or_same (some s) n = elim (get_elem? (split ":" s) n) [
  | none ↦ some s
  | some t ↦ if str_eq t "" then some s else some t
]

abbrev pub first : List String → Option String
first [] = none
first (s ∷ ss) = some s

-- `lower` is `toLocaleLowerCase`.
module _ (lower : String → String) where
  -- the first key of the geography's first feature that the data's first row has too
  unfoldable pub first_matching : {N : Type 0} → Feature N → Feature N → Option String
  unfolding keys includes filter
  first_matching f d =
      let data_small = map lower (keys d.properties) in
      first (filter (includes data_small) (map lower (keys f.properties)))

  unfoldable pub join_columns : {N : Type 0} → Option String → Feature N → Feature N → Columns
  unfolding split_or_same first_matching
  join_columns geo_column f d =
      let found = first_matching f d in
      let matched : Columns = record { in_data = found; in_geojson = found } in
      elim geo_column [
        | none ↦ matched
        | some s ↦ if str_eq s "" then matched else record {
          in_data = split_or_same (some s) 0;
          in_geojson = split_or_same (some s) 1;
        }
      ]

-- !isString(dataColumn) && !isString(geojsonColumn)
abbrev pub both_missing : Columns → Bool
both_missing c = elim c.in_data [
  | none ↦ elim c.in_geojson [ none ↦ true | some k ↦ false ]
  | some k ↦ false
]

module _ (F : Floats) where
  open F use {Num}

  unfoldable pub merge : Feature Num → Feature Num → Feature Num
  merge f d = record { type = f.type; geometry = f.geometry; properties = d.properties }

  -- feature.properties[geojsonColumn] === data[i].properties[dataColumn]
  unfoldable pub agrees : Columns → Feature Num → Feature Num → Bool
  agrees c f d =
      strict_eq F (read f.properties (key c.in_geojson)) (read d.properties (key c.in_data))

  -- the inner loop, up to its `break`
  unfoldable pub find_row : Columns → Feature Num → List (Feature Num) → Option (Feature Num)
  unfolding agrees
  find_row c f [] = none
  find_row c f (d ∷ ds) = if agrees c f d then some d else find_row c f ds

  unfoldable pub join : Columns → List (Feature Num) → List (Feature Num) → List (Feature Num)
  unfolding find_row merge
  join c [] ds = []
  join c (f ∷ fs) ds = elim (find_row c f ds) [
    | none ↦ join c fs ds
    | some d ↦ merge f d ∷ join c fs ds
  ]

  -- The first feature and the first row, if the arguments have them.
  unfoldable pub set_geojson_props :
      (String → String)
      → FeatureCollection Num
      → List (Feature Num)
      → Option String
      → FeatureCollection Num
  unfolding join_columns join
  set_geojson_props lower g [] geo_column = g
  set_geojson_props lower g (d ∷ ds) geo_column = elim g.features [
    | none ↦ g
    | some [] ↦ g
    | some (f ∷ fs) ↦
        let c = join_columns lower geo_column f d in
        if both_missing c
          || not (truthy F (read f.properties (key c.in_geojson)))
          || not (truthy F (read d.properties (key c.in_data)))
        then g
        else record g { features = some (join c (f ∷ fs) (d ∷ ds)) }
  ]
