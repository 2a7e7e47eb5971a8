-- ===== src/Layers.antt =====
-- The layers of the map: their properties, the options that they are given, and how a layer is made
-- of the data. A function among the options is kept as what it closes over, and called by `call_setting`.
pub mod Settings
pub mod Deck
pub mod Options
pub mod State
pub mod Generate
use tgvejs.Prelude.{
  ℕ, String, Bool, true, false, ◌||◌, Option, none, some, List, [], ◌∷◌, if◌then◌else◌,
}
use tgvejs.Js.{Value, undefined, num, ref, function, Floats, to_number}
use tgvejs.Js.Dict.{Dict}
use tgvejs.Geojson.{Feature, read}
use tgvejs.Color.{Shade}
use tgvejs.Utils.Numbers.{Ranges, convert_range}
use tgvejs.Layers.Settings.{Class}

-- An entry of `updateTriggers`: false, or the values that are compared.
pub data Trigger (N : Type 0) : Type 0 where
  off : Trigger N
  values : List (Value N) → Trigger N

pub data Setting (N : Type 0) : Type 0 where
  -- of the user, or of the state
  given : Value N → Setting N
  -- a number in tenths, and the other constants
  tenths : ℕ → Setting N
  flag : Bool → Setting N
  text : String → Setting N
  class : Class → Setting N
  color : List ℕ → Setting N
  no_color : Setting N
  palette : Option (List (List ℕ)) → Setting N
  shade : Shade N → Setting N
  lights : Setting N
  -- the image of the icons, and where each stands in it
  icon_atlas icon_mapping : Setting N
  features : List (Feature N) → Setting N
  triggers : Dict (Trigger N) → Setting N
  -- d => d.geometry.coordinates, and d => d.geometry.coordinates[i]
  coordinates : Setting N
  coordinate_at : ℕ → Setting N
  -- d => newRange(d, column, min, max)
  in_range : String → N → N → Setting N
  -- `fill`, for a column, a domain and the name of the colours
  fill : String → List (Value N) → String → Setting N
  -- `renderTooltip`, and the `onClick` of a layer's name and a type of geometry
  tooltip : Setting N
  on_click : Option String → String → Setting N

-- What the code takes from the language and from the page.
pub record Engine (F : Floats) : Type 0 where
  -- `+(v.toFixed(2))`
  pub round : F.Num → F.Num
  -- the functions among the values
  pub call : ℕ → Feature F.Num → Value F.Num
  -- `Math.floor(Math.random() * n)`
  pub random : ℕ → ℕ
  -- `toLowerCase`
  pub lower : String → String
  -- how many of `n` elements `slice(0, end)` takes
  pub slice_end : F.Num → ℕ → ℕ

module _ (F : Floats) (E : Engine F) where
  open F use {Num}

  -- `newRange`; an undefined value is 2, the default of `convertRange`.
  unfoldable pub new_range : Feature Num → String → Num → Num → Num
  unfolding convert_range
  new_range d column_name min max =
      let value = read d.properties column_name in
      let old : Num = elim value [ undefined ↦ F.of_nat 2 | v ↦ to_number F v ] in
      let wide = F.lt min (F.of_nat 1) || F.lt (F.of_nat 300) max in
      convert_range F E.round old (record {
        old_min = min;
        old_max = max;
        new_max = if wide then F.of_nat 10 else max;
        new_min = if wide then F.of_nat 1 else min;
      })

  -- The function that stands under a key of type column: of the user, or a range.
  unfoldable pub call_setting : Setting Num → Option (Feature Num → Value Num)
  unfolding new_range
  call_setting (given (ref function a)) = some (E.call a)
  call_setting (in_range column_name min max) = some (λ d. num (new_range d column_name min max))
  call_setting s = none
