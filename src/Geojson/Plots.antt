-- ===== src/Geojson/Plots.antt =====
-- `describeFeatureVariables`, `coordsAsXY`, `isColumnAllNumeric` and `arrayPlotProps` of
-- src/utils/geojsonutils.js: what the columns hold, and what can be plotted of them.
use tgvejs.Prelude.{
  ℕ, zero, suc, ◌+◌, String, ◌≡◌, refl, ap, ◌∙◌, inl, inr, Bool, true, false, not, ◌&&◌, Option,
  none, some, List, [], ◌∷◌, length, get_elem?, filter, ltb, str_eq, eq_iff, arith, Bool-cases,
  if◌then◌else◌,
}
use tgvejs.Js.{Value, Floats, truthy}
use tgvejs.Js.Dict.{Dict, get, put, has, get-put, get_of_has}
use tgvejs.JsUtils.{is_number, is_boolean, is_object, is_string_numeric}
use tgvejs.Geojson.{Coord, Feature, read}
use tgvejs.Utils.Xy.{Point, xy_object_by_property}
use tgvejs.Utils.Domain.{key_at}
use tgvejs.Utils.Numbers.{unique_value_percentage}

-- The constructors that stand for types.
pub data Variable : Type 0 where
  string date number boolean object : Variable

-- A point of `coordsAsXY`; what is undefined is `none`.
pub record Xy (N : Type 0) : Type 0 where
  pub x : Option (Coord N)
  pub y : Option (Coord N)
  pub size : Option (Value N)

-- A point of a continuous plot.
pub record Indexed (N : Type 0) : Type 0 where
  pub x : ℕ
  pub y : Value N

-- What `arrayPlotProps` returns; the points of a cardinal plot may be undefined.
pub data PlotProps (N : Type 0) : Type 0 where
  empty : PlotProps N
  continuous_points : List (Indexed N) → PlotProps N
  cardinal_points : Option (List (Point N)) → PlotProps N

module _ (F : Floats) where
  open F use {Num}

  -- `is_date` is `isStringDate`, which asks the package luxon.
  unfoldable pub variable_of : (Value Num → Bool) → Value Num → Variable
  variable_of is_date v =
      if is_date v
      then date
      else if is_number F v
      then number
      else if is_boolean F v
      then boolean
      else if is_object F v
      then object
      else string

  unfoldable pub describe_into :
      (Value Num → Bool) → Dict (Value Num) → Dict Variable → Dict Variable
  unfolding variable_of put
  describe_into is_date [] d = d
  describe_into is_date ((k, v) ∷ props) d =
      describe_into is_date props (put k (variable_of is_date v) d)

  unfoldable pub describe_feature_variables : (Value Num → Bool) → Dict (Value Num) → Dict Variable
  unfolding describe_into
  describe_feature_variables is_date props = describe_into is_date props []

  -- A geometry that is null makes the read throw: `none`.
  unfoldable pub coords_as_xy : String → List (Feature Num) → Option (List (Xy Num))
  unfolding read
  coords_as_xy size_property [] = some []
  coords_as_xy size_property (f ∷ fs) = elim f.geometry [
    | none ↦ none
    | some g ↦ elim (coords_as_xy size_property fs) [
      | none ↦ none
      | some rest ↦
          let v = read f.properties size_property in
          some (
            record {
              x = get_elem? g.coordinates 0;
              y = get_elem? g.coordinates 1;
              size = if not (str_eq size_property "") && truthy F v then some v else none;
            }
            ∷ rest)
    ]
  ]

  -- +column || +column === 0 ? Object.keys(properties)[column] : column
  unfoldable pub column_key : Feature Num → String → String
  unfolding key_at
  column_key f column = if F.is_nan (F.number column) then column else key_at F f column

  unfoldable pub is_column_all_numeric : List (Feature Num) → String → Bool
  unfolding column_key read is_string_numeric
  is_column_all_numeric [] column = true
  is_column_all_numeric (f ∷ fs) column =
      let rest = is_column_all_numeric fs column in
      if is_string_numeric F (read f.properties (column_key f column)) then rest else false

  unfoldable pub values_of : String → List (Feature Num) → List (Value Num)
  unfolding read
  values_of property [] = []
  values_of property (f ∷ fs) = read f.properties property ∷ values_of property fs

  -- percentage > n
  unfoldable pub more_than : ℕ → ℕ → ℕ → Bool
  more_than n part whole =
      F.lt (F.of_nat n) (F.mul (F.div (F.of_nat part) (F.of_nat whole)) (F.of_nat 100))

  unfoldable pub mostly_numbers : List (Value Num) → Bool
  unfolding more_than filter is_string_numeric
  mostly_numbers vs =
      let found = length (filter (is_string_numeric F) vs) in
      if ltb 10 found then more_than 95 found (length vs) else more_than 50 found (length vs)

  unfoldable pub indexed : ℕ → List (Value Num) → List (Indexed Num)
  indexed i [] = []
  indexed i (v ∷ vs) = record { x = i; y = v } ∷ indexed (suc i) vs

  -- `after` is `ascending` of d3-array, as for the bars.
  unfoldable pub array_plot_props :
      (Value Num → Value Num → Bool) → List (Feature Num) → String → PlotProps Num
  unfolding values_of mostly_numbers indexed unique_value_percentage xy_object_by_property
  array_plot_props after [] property = empty
  array_plot_props after (f ∷ fs) property =
      let vs = values_of property (f ∷ fs) in
      let keyed : Bool = elim (unique_value_percentage F vs (F.of_nat 95)) [
        | some true ↦ true
        | _ ↦ false
      ] in
      if str_eq property ""
      then empty
      else if keyed && not (mostly_numbers vs)
      then empty
      else if mostly_numbers vs
      then continuous_points (indexed 0 vs)
      else cardinal_points (xy_object_by_property F after (some (f ∷ fs)) (some property) true)

  -- Each key at most once, as in an object.
  abbrev pub IsObject : Dict (Value Num) → Type 0
  IsObject [] = Unit
  IsObject ((k, v) ∷ props) = (has k props ≡ false) × IsObject props

  abbrev pub map_variable : (Value Num → Bool) → Option (Value Num) → Option Variable
  map_variable is_date none = none
  map_variable is_date (some v) = some (variable_of is_date v)

  get-describe_into :
      (is_date : Value Num → Bool) (k : String) (props : Dict (Value Num)) (d : Dict Variable)
      → IsObject props
      → get k (describe_into is_date props d)
        ≡ elim (get k props) [ none ↦ get k d | some v ↦ some (variable_of is_date v) ]
  unfolding describe_into get
  get-describe_into is_date k [] d h = refl
  get-describe_into is_date k ((j, v) ∷ props) d h = elim (Bool-cases (str_eq j k)) [
    | inl e ↦
        let same = (eq_iff j k).0 e in
        ground (
          arith,
          get-describe_into is_date k props (put j (variable_of is_date v) d) h.1,
          get-put j k (variable_of is_date v) d,
          get_of_has j props h.0,
          ap (λ u. get u props) same,
        )
    | inr e ↦ ground (
      arith,
      get-describe_into is_date k props (put j (variable_of is_date v) d) h.1,
      get-put j k (variable_of is_date v) d,
    )
  ]

  -- `describeFeatureVariables` of an object describes each of its keys by the type of its value,
  -- and has no other keys.
  describe_feature_variables-get :
      (is_date : Value Num → Bool) (props : Dict (Value Num)) (k : String)
      → IsObject props
      → get k (describe_feature_variables is_date props) ≡ map_variable is_date (get k props)
  unfolding describe_feature_variables get
  describe_feature_variables-get is_date props k h = at (get k props) refl
    where
      at :
          (o : Option (Value Num))
          → get k props ≡ o
          → get k (describe_feature_variables is_date props) ≡ map_variable is_date (get k props)
      at none e = ground (arith, get-describe_into is_date k props [] h)
      at (some v) e = ground (arith, get-describe_into is_date k props [] h)

  same_point :
      (i j : ℕ) (v w : Value Num)
      → i ≡ j
      → some v ≡ some w
      → ◌≡◌ {A = Option (Indexed Num)}
          (some (record { x = i; y = v }))
          (some (record { x = j; y = w }))
  same_point i j v w p q = cc (p, q)

  get_elem?-indexed :
      (vs : List (Value Num)) (n i : ℕ) (v : Value Num)
      → get_elem? vs i ≡ some v
      → get_elem? (indexed n vs) i ≡ some (record { x = n + i; y = v })
  unfolding indexed
  get_elem?-indexed [] n i v h = cc
  get_elem?-indexed (w ∷ vs) n zero v h = same_point n (n + 0) w v (omega arith) h
  get_elem?-indexed (w ∷ vs) n (suc i) v h =
      get_elem?-indexed vs (suc n) i v h ∙ same_point (suc n + i) (n + suc i) v v (omega arith) refl

  length-indexed : (n : ℕ) (vs : List (Value Num)) → length (indexed n vs) ≡ length vs
  unfolding indexed
  length-indexed n [] = refl
  length-indexed n (v ∷ vs) = ap suc (length-indexed (suc n) vs)

  length-values_of :
      (property : String) (fs : List (Feature Num)) → length (values_of property fs) ≡ length fs
  unfolding values_of
  length-values_of property [] = refl
  length-values_of property (f ∷ fs) = ap suc (length-values_of property fs)

  get_elem?-values_of :
      (property : String) (fs : List (Feature Num)) (i : ℕ) (f : Feature Num)
      → get_elem? fs i ≡ some f
      → get_elem? (values_of property fs) i ≡ some (read f.properties property)
  unfolding values_of
  get_elem?-values_of property [] i f h = cc
  get_elem?-values_of property (g ∷ fs) zero f h =
      let same : g ≡ f = cc h in ap (λ (u : Feature Num). some (read u.properties property)) same
  get_elem?-values_of property (g ∷ fs) (suc i) f h = get_elem?-values_of property fs i f h

  continuous-indexed :
      (after : Value Num → Value Num → Bool) (fs : List (Feature Num)) (property : String)
      (ps : List (Indexed Num))
      → array_plot_props after fs property ≡ continuous_points ps
      → ps ≡ indexed 0 (values_of property fs)
  unfolding array_plot_props
  continuous-indexed after [] property ps h = cc
  continuous-indexed after (f ∷ fs) property ps h = ground arith

  -- A continuous plot has a point for each feature: its position, and its value of the property.
  array_plot_props-points :
      (after : Value Num → Value Num → Bool) (fs : List (Feature Num)) (property : String)
      (ps : List (Indexed Num))
      → array_plot_props after fs property ≡ continuous_points ps
      → (length ps ≡ length fs)
        × ((i : ℕ) (f : Feature Num)
            → get_elem? fs i ≡ some f
            → get_elem? ps i ≡ some (record { x = i; y = read f.properties property }))
  array_plot_props-points after fs property ps h =
      let e = continuous-indexed after fs property ps h in
      (
        ap length e ∙ length-indexed 0 (values_of property fs) ∙ length-values_of property fs,
        λ i f g.
            ap (λ (qs : List (Indexed Num)). get_elem? qs i) e
            ∙ get_elem?-indexed (values_of property fs) 0 i _
                (get_elem?-values_of property fs i f g)
            ∙ same_point (0 + i) i (read f.properties property) (read f.properties property)
                (omega arith) refl,
      )
