-- ===== src/AddVis.antt =====
-- src/components/AddVIS.jsx: the charts that are made from a column, and the list of them. The style
-- of a plot, which is passed on as it is, is left out.
pub mod Throws
use tgvejs.Prelude.{
  ℕ, ◌+◌, String, Bool, true, false, ◌==◌, Option, none, some, List, [], ◌∷◌, ◌++◌, length, codes,
  str_eq, if◌then◌else◌,
}
use tgvejs.Js.{Value, str, Floats}
use tgvejs.JsUtils.{is_number}
use tgvejs.Geojson.{Feature}
use tgvejs.Utils.Text.{humanize}
use tgvejs.Utils.Xy.{Point, xy_object_by_property}

-- `s.startsWith(w)`
unfoldable pub begins : List ℕ → List ℕ → Bool
begins [] s = true
begins (c ∷ w) [] = false
begins (c ∷ w) (d ∷ s) = if c == d then begins w s else false

-- VerticalBarSeries, HorizontalBarSeries and LineSeries of react-vis.
pub data Marks : Type 0 where
  vertical horizontal line : Marks

unfoldable pub marks_of : List ℕ → Option Marks
unfolding begins
marks_of vis =
    if begins (codes "Vertical") vis
    then some vertical
    else if begins (codes "Horizontal") vis
    then some horizontal
    else if begins (codes "Line") vis
    then some line
    else none

module _ (F : Floats) (after : Value F.Num → Value F.Num → Bool) where
  open F use {Num}

  -- A part of the tree map; its size is `count / rows`, and its colour true where there is no number.
  pub record Part : Type 0 where
    pub name : Value Num
    pub count : ℕ
    pub rows : ℕ
    pub color : Option ℕ

  unfoldable pub parts : ℕ → ℕ → List (Point Num) → List Part
  unfolding is_number
  parts rows i [] = []
  parts rows i (p ∷ ps) =
      record {
        name = p.x;
        count = p.y;
        rows = rows;
        color = if is_number F p.x then none else some i;
      }
      ∷ parts rows (i + 1) ps

  -- What `generateVIS` makes: nothing, a tree map or a plot with its props.
  pub data Drawn : Type 0 where
    nothing : Drawn
    tree : List ℕ → List Part → Drawn
    plot : Marks → Option (List (Point Num)) → Bool → Bool → List ℕ → Drawn

  -- What is made of the counts; `none` is the TypeError of `counts.map`. A plot has `noLimit` first,
  -- then `dark`.
  unfoldable pub drawn_of :
      Option (List (Point Num)) → ℕ → String → String → Bool → Bool → Option Drawn
  unfolding parts marks_of humanize
  drawn_of counts rows column vis no_limit dark =
      if str_eq vis "Treemap"
      then elim counts [
        | none ↦ none
        | some ps ↦ some (tree (humanize (codes column)) (parts rows 0 ps))
      ]
      else elim (marks_of (codes vis)) [
        | none ↦ some nothing
        | some m ↦ some (plot m counts no_limit dark (humanize (codes column)))
      ]

  -- `generateVIS`
  unfoldable pub generate_vis :
      List (Feature Num) → Value Num → Value Num → Bool → Bool → Option Drawn
  unfolding xy_object_by_property drawn_of
  generate_vis (f ∷ fs) (str column) (str vis) no_limit dark =
      drawn_of (xy_object_by_property F after (some (f ∷ fs)) (some column) true) (length (f ∷ fs))
        column vis no_limit dark
  generate_vis fs column vis no_limit dark = some nothing

  -- The state: the choice of a column and that of a kind, each false at first and then the array that
  -- the select gives, of which the values are kept; and the charts.
  pub record Vis : Type 0 where
    pub column : Option (List (Value Num))
    pub vis : Option (List (Value Num))
    pub list : List Drawn

  unfoldable pub add_vis : List (Feature Num) → Bool → Bool → Value Num → Vis → Option Vis
  unfolding generate_vis
  add_vis fs dark no_limit c s = elim s.vis [
    | none ↦ none
    | some [] ↦ some s
    | some (v ∷ vs) ↦ elim (generate_vis fs c v dark no_limit) [
      | none ↦ none
      | some d ↦ some (record s { list = s.list ++ d ∷ [] })
    ]
  ]

  -- The button "Add"; `none` is a TypeError. `dark` goes where `generateVIS` has `noLimit`, and the
  -- other way round.
  unfoldable pub click_add : List (Feature Num) → Bool → Bool → Vis → Option Vis
  unfolding add_vis
  click_add fs dark no_limit s = elim s.column [
    | none ↦ some s
    | some [] ↦ some s
    | some (c ∷ cs) ↦ add_vis fs dark no_limit c s
  ]

  -- `list.filter((e, j) => i !== j)`
  unfoldable pub without : ℕ → ℕ → List Drawn → List Drawn
  without i j [] = []
  without i j (d ∷ ds) = let rest = without i (j + 1) ds in if i == j then rest else d ∷ rest

  -- The button "X" of a chart.
  unfoldable pub click_remove : ℕ → Vis → Vis
  unfolding without
  click_remove i s = record s { list = without i 0 s.list }
