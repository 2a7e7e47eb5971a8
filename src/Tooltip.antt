-- ===== src/Tooltip.antt =====
-- src/components/tooltip/utils.js: what the tooltip shows of an object. Its place on the page is left
-- out.
pub mod Empty
use tgvejs.Prelude.{
  ℕ, ◌+◌, String, Bool, true, false, not, ◌&&◌, ◌||◌, ltb, leb, Option, none, some, List, [], ◌∷◌,
  ◌++◌, map, length, take, codes, str_eq, if◌then◌else◌,
}
use tgvejs.Js.{Value, Floats, to_text}
use tgvejs.Js.Dict.{Dict, keys}
use tgvejs.Geojson.{Feature, read}
use tgvejs.Geojson.Values.{Found, get_property_values}
use tgvejs.Geojson.Counts.{count_at, property_count_by_property}
use tgvejs.Utils.Text.{humanize}

module _ (F : Floats) (full_year : Value F.Num → F.Num) where
  open F use {Num}

  -- `selectedObject`: a cell or cluster with its points, or a feature.
  pub record Picked : Type 0 where
    pub type : String
    pub points : Option (List (Feature Num))
    pub count : ℕ
    pub properties : Option (Dict (Value Num))

  -- A line of the plot; its color is `i / n` on the range of turquoise.
  pub record Line : Type 0 where
    pub x : List String
    pub y : List ℕ
    pub name : Value Num
    pub color : ℕ × ℕ
    pub lines : Bool

  -- One pass of the loop over the years.
  unfoldable pub push_count : Dict (Dict ℕ) → Value Num → ℕ → ℕ → Option Line → String → Option Line
  unfolding count_at
  push_count by_year name i n l y =
      let c = count_at y (to_text F name) by_year in
      if not (str_eq y "") && ltb 0 c
      then elim l [
        | none ↦
            some (record { x = y ∷ []; y = c ∷ []; name = name; color = (i, n); lines = false })
        | some r ↦ some (record r { x = r.x ++ y ∷ []; y = r.y ++ c ∷ [] })
      ]
      else l

  unfoldable pub push_counts :
      Dict (Dict ℕ) → Value Num → ℕ → ℕ → Option Line → List String → Option Line
  unfolding push_count
  push_counts by_year name i n l [] = l
  push_counts by_year name i n l (y ∷ ys) =
      push_counts by_year name i n (push_count by_year name i n l y) ys

  -- `e.mode = 'lines'` where there is more than one year; a place without a line stays empty.
  unfoldable pub with_mode : Option Line → Option Line
  with_mode none = none
  with_mode (some l) = some (if ltb 1 (length l.x) then record l { lines = true } else l)

  unfoldable pub separate : Dict (Dict ℕ) → ℕ → ℕ → List (Value Num) → List (Option Line)
  unfolding push_counts with_mode keys
  separate by_year n i [] = []
  separate by_year n i (v ∷ vs) =
      with_mode (push_counts by_year v i n none (keys by_year)) ∷ separate by_year n (i + 1) vs

  -- `severity_data_separate` of points; `none` is the TypeError of `Object.keys(undefined)`.
  unfoldable pub severity_data : String → String → List (Feature Num) → Option (List (Option Line))
  unfolding get_property_values property_count_by_property separate
  severity_data column1 column2 fs =
      elim (get_property_values F (some (record { type = ""; features = some fs }))
        (some column1)) [
          | Found.values [] ↦ some []
          | Found.values (v ∷ vs) ↦
              if str_eq column2 ""
              then some []
              else elim (property_count_by_property F full_year (some fs) column1 column2 true) [
                | none ↦ none
                | some d ↦ some (separate d (length (v ∷ vs)) 0 (v ∷ vs))
              ]
          | _ ↦ some []
        ]

  -- A row of the table: the title, and one value or that of each of two points.
  pub record Row : Type 0 where
    pub title : List ℕ
    pub values : List (Value Num)

  unfoldable pub rows : List (Dict (Value Num)) → List String → List Row
  unfolding humanize read
  rows ds [] = []
  rows ds (k ∷ ks) =
      record { title = humanize (codes k); values = map (λ d. read d k) ds } ∷ rows ds ks

  abbrev pub properties_of : List (Feature Num) → List (Dict (Value Num))
  properties_of fs = map (λ f. f.properties) fs

  -- `listPropsAndValues` of six columns; `none` is a TypeError, `some none` null.
  unfoldable pub list_props_and_values : Picked → Option (Option (List Row))
  unfolding rows keys
  list_props_and_values s = elim s.properties [
    | some d ↦ some (some (rows (d ∷ []) (take 6 (keys d))))
    | none ↦ elim s.points [
      | none ↦ some none
      | some [] ↦ none
      | some (f ∷ fs) ↦
          some (some (rows (properties_of (f ∷ take 1 fs)) (take 6 (keys f.properties))))
    ]
  ]

  pub data Body : Type 0 where
    listed : Option (List Row) → Body
    plotted : List (Option Line) → Body

  pub record Tooltip : Type 0 where
    pub total : ℕ
    pub body : Body

  abbrev pub points_of : Picked → List (Feature Num)
  points_of s = elim s.points [ none ↦ [] | some ps ↦ ps ]

  unfoldable pub is_cluster : Picked → Bool
  is_cluster s = ltb 2 (length (points_of s))

  -- The lines: none for a feature or a cluster. `none` is a TypeError, also where there are no points.
  unfoldable pub lines_of : String → String → Picked → Option (List (Option Line))
  unfolding is_cluster severity_data
  lines_of column1 column2 s =
      if str_eq s.type "Feature" || is_cluster s then some [] else elim s.points [
        | none ↦ none
        | some ps ↦ if str_eq column1 "" then some [] else severity_data column1 column2 ps
      ]

  unfoldable pub body_of : Picked → List (Option Line) → Option Body
  unfolding is_cluster list_props_and_values
  body_of s ls =
      if not (is_cluster s) && (str_eq s.type "Feature" || leb (length (points_of s)) 2)
      then elim (list_props_and_values s) [ none ↦ none | some t ↦ some (listed t) ]
      else some (plotted ls)

  -- `generateTooltip` of an object; `none` is a TypeError.
  unfoldable pub generate_tooltip : String → String → Picked → Option Tooltip
  unfolding lines_of body_of is_cluster
  generate_tooltip column1 column2 s = elim (lines_of column1 column2 s) [
    | none ↦ none
    | some ls ↦ elim (body_of s ls) [
      | none ↦ none
      | some b ↦ some (record {
        total =
            if is_cluster s
            then s.count
            else if str_eq s.type "Feature"
            then 1
            else length (points_of s);
        body = b;
      })
    ]
  ]
