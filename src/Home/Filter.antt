-- ===== src/Home/Filter.antt =====
-- `filterGeojson` of src/home/util.js: the features that the current selections let through.
pub mod Laws
pub mod Outcomes
use tgvejs.Prelude.{
  ℕ, String, ◌≡◌, Bool, true, false, not, ◌&&◌, ◌||◌, Option, none, some, List, [], ◌∷◌, str_eq,
  if◌then◌else◌,
}
use tgvejs.Js.{Value, str, Floats, to_text}
use tgvejs.Js.Dict.{Dict, get}
use tgvejs.Js.Collection.{contains}
use tgvejs.Geojson.{Feature, Geometry, read, flat, sf_type}
use tgvejs.Utils.Numbers.{Bounds, Box, get_bbx}

-- A selection has a set of values for each of its columns.
abbrev pub Selection : Type 0 → Type 0
Selection N = Dict (List (Value N))

-- `filter.what`, with the fields that come with it.
pub data Filter (F : Floats) : Type 0 where
  multi : Option (Selection F.Num) → Filter F
  coords : Option (List (Value F.Num)) → Filter F
  bounds_subset : Option (Bounds F) → Filter F
  other : String → Filter F

-- A demand on the features: none, one whose values are missing, or one.
pub data Demand (A : Type 0) : Type 0 where
  off missing : Demand A
  on : A → Demand A

-- What turf's `booleanContains` and underscore's `difference` are to the code. `booleanContains`
-- throws for the types of geometry that it does not support: `none`.
pub record Packages (F : Floats) : Type 0 where
  pub contains_box : Box F → Feature F.Num → Option Bool
  pub difference : List (Value F.Num) → List (Value F.Num) → List (Value F.Num)

module _ (F : Floats) where
  open F use {Num}

  -- isObject(multiVarSelect) && Object.keys(multiVarSelect).length
  unfoldable pub remembered : Option (Selection Num) → Demand (Selection Num)
  remembered none = off
  remembered (some []) = off
  remembered (some (e ∷ s)) = on (e ∷ s)

  -- filter.selected || multiVarSelect
  unfoldable pub or_remembered :
      Option (Selection Num) → Option (Selection Num) → Demand (Selection Num)
  or_remembered (some s) mvs = on s
  or_remembered none (some s) = on s
  or_remembered none none = missing

  unfoldable pub filter_values : Option (Filter F) → Option (Selection Num) → Demand (Selection Num)
  unfolding remembered or_remembered
  filter_values (some (multi s)) mvs = or_remembered s mvs
  filter_values filter mvs = remembered mvs

  -- filter.selected || state.coords; `difference` of nothing is empty
  unfoldable pub filter_coords :
      Option (Filter F) → Option (List (Value Num)) → Demand (List (Value Num))
  filter_coords (some (coords (some vs))) state_coords = on vs
  filter_coords (some (coords none)) (some vs) = on vs
  filter_coords (some (coords none)) none = on []
  filter_coords filter state_coords = off

  unfoldable pub filter_box : Option (Filter F) → Demand (Box F)
  unfolding get_bbx
  filter_box (some (bounds_subset b)) = elim (get_bbx F b) [ none ↦ off | some box ↦ on box ]
  filter_box filter = off

  pub record Demands : Type 0 where
    pub values : Demand (Selection Num)
    pub at : Demand (List (Value Num))
    pub inside : Demand (Box F)

  unfoldable pub demands :
      Option (Filter F) → Option (List (Value Num)) → Option (Selection Num) → Demands
  unfolding filter_values filter_coords filter_box
  demands filter state_coords mvs = record {
    values = filter_values filter mvs;
    at = filter_coords filter state_coords;
    inside = filter_box filter;
  }

  -- for (let each of Object.keys(selected)) …
  unfoldable pub chosen : Selection Num → Feature Num → Bool
  chosen [] d = true
  chosen ((each, set) ∷ rest) d =
      contains F set (str (to_text F (read d.properties each))) && chosen rest d

  abbrev pub is_empty : List (Value Num) → Bool
  is_empty [] = true
  is_empty (v ∷ vs) = false

  module _ (P : Packages F) where
    -- A geometry that is null has no coordinates: the read throws.
    unfoldable pub at_coords : List (Value Num) → Feature Num → Option Bool
    at_coords vs d = elim d.geometry [
      | none ↦ none
      | some g ↦ some (is_empty (P.difference vs (flat g.coordinates)))
    ]

    -- A multipolygon is not held against the box.
    unfoldable pub in_box : Box F → Feature Num → Option Bool
    in_box box d = elim d.geometry [
      | none ↦ some true
      | some g ↦ if str_eq (sf_type d) "MultiPolygon" then some true else P.contains_box box d
    ]

    -- The callback of `data.filter`; `none` is an exception.
    unfoldable pub keep_values : Demand (Selection Num) → Feature Num → Option Bool
    unfolding chosen
    keep_values off d = some true
    keep_values missing d = none
    keep_values (on s) d = some (chosen s d)

    unfoldable pub keep_coords : Demand (List (Value Num)) → Feature Num → Option Bool
    unfolding at_coords
    keep_coords off d = some true
    keep_coords missing d = some true
    keep_coords (on vs) d = at_coords vs d

    unfoldable pub keep_box : Demand (Box F) → Feature Num → Option Bool
    unfolding in_box
    keep_box off d = some true
    keep_box missing d = some true
    keep_box (on box) d = in_box box d

    unfoldable pub keep : Demands → Feature Num → Option Bool
    unfolding keep_values keep_coords keep_box
    keep q d = elim (keep_values q.values d) [
      | none ↦ none
      | some false ↦ some false
      | some true ↦ elim (keep_coords q.at d) [
        | none ↦ none
        | some false ↦ some false
        | some true ↦ keep_box q.inside d
      ]
    ]

    unfoldable pub filter_all : Demands → List (Feature Num) → Option (List (Feature Num))
    unfolding keep
    filter_all q [] = some []
    filter_all q (d ∷ ds) = elim (keep q d) [
      | none ↦ none
      | some b ↦ elim (filter_all q ds) [
        | none ↦ none
        | some rest ↦ some (if b then d ∷ rest else rest)
      ]
    ]

    -- !filterValues && !filterCoords && !bbox
    abbrev pub idle : Demands → Bool
    idle q = elim q.values [
      | off ↦ elim q.at [ off ↦ elim q.inside [ off ↦ true | _ ↦ false ] | _ ↦ false ]
      | _ ↦ false
    ]

    unfoldable pub filter_geojson :
        List (Feature Num)
        → Option (Filter F)
        → Option (List (Value Num))
        → Option (Selection Num)
        → Option (List (Feature Num))
    unfolding demands filter_all
    filter_geojson ds filter state_coords mvs =
        let q = demands filter state_coords mvs in if idle q then some ds else filter_all q ds
