-- ===== src/Geojson.antt =====
-- src/utils/geojsonutils.js: features and what is read off a list of them. A feature here always
-- has an object of properties, as GeoJSON features that came through csv2geojson have; its geometry
-- may be null.
pub mod Values
pub mod KeyColumns
pub mod Join
pub mod Counts
pub mod Groups
pub mod Slots
pub mod Plots
use tgvejs.Prelude.{
  ℕ, String, ◌≡◌, Bool, true, false, ◌&&◌, ◌==◌, Option, none, some, List, [], ◌∷◌, ◌++◌, length,
  str_eq, if◌then◌else◌,
}
use tgvejs.Js.{Value, undefined, Floats}
use tgvejs.Js.Dict.{Dict, get}

-- An element of an array of coordinates: a number or a reference, or a row of such.
pub data Coord (N : Type 0) : Type 0 where
  scalar : Value N → Coord N
  row : List (Value N) → Coord N

pub record Geometry (N : Type 0) : Type 0 where
  pub type : String
  pub coordinates : List (Coord N)

pub record Feature (N : Type 0) : Type 0 where
  pub type : String
  pub geometry : Option (Geometry N)
  pub properties : Dict (Value N)

-- `features` may be missing.
pub record FeatureCollection (N : Type 0) : Type 0 where
  pub type : String
  pub features : Option (List (Feature N))

-- `object[key]`, undefined where there is no such key.
unfoldable pub read : {N : Type 0} → Dict (Value N) → String → Value N
unfolding get
read d k = elim (get k d) [ none ↦ undefined | some v ↦ v ]

-- `coordinates.flat()`
unfoldable pub flat : {N : Type 0} → List (Coord N) → List (Value N)
flat [] = []
flat (scalar v ∷ cs) = v ∷ flat cs
flat (row vs ∷ cs) = vs ++ flat cs

-- `sfType` of a feature.
unfoldable pub sf_type : {N : Type 0} → Feature N → String
sf_type f =
    if str_eq f.type "FeatureCollection"
    then "FeatureCollection"
    else if str_eq f.type "GeometryCollection"
    then "GeometryCollection"
    else if str_eq f.type "Feature"
    then elim f.geometry [ none ↦ f.type | some g ↦ g.type ]
    else f.type
