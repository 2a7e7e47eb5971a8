-- ===== src/Utils/Numbers.antt =====
-- `getMin`, `getMax`, `getBbx`, `convertRange`, `sortNumericArray`, `isArrayNumeric`,
-- `arrayCardinality`, `uniqueValuePercentage` and `suggestUIforNumber` of src/utils/utils.js.
use tgvejs.Prelude.{
  ◌⊎◌, ◌≡◌, refl, arith, ℕ, Bool, true, false, not, ◌&&◌, ◌||◌, Option, none, some, List, [], ◌∷◌,
  ◌==◌, ltb, leb, length, if◌then◌else◌,
}
use tgvejs.Js.{Value, Floats}
use tgvejs.Js.Collection.{unique}
use tgvejs.Js.Sort.{sort}
use tgvejs.JsUtils.{is_number}
use tgvejs.Utils.Domain.{subtracts}

module _ (F : Floats) where
  open F use {Num}

  -- `a >= b` of doubles
  abbrev pub ge : Num → Num → Bool
  ge a b = not (F.is_nan a || F.is_nan b) && not (F.lt a b)

  unfoldable pub max_from : Num → List Num → Num
  max_from m [] = m
  max_from m (v ∷ vs) = max_from (if ge m v then m else v) vs

  unfoldable pub min_from : Num → List Num → Num
  min_from m [] = m
  min_from m (v ∷ vs) = min_from (if ge v m then m else v) vs

  unfoldable pub get_max : List Num → Num
  unfolding max_from
  get_max arr = max_from F.minus_infinity arr

  unfoldable pub get_min : List Num → Num
  unfolding min_from
  get_min arr = min_from F.infinity arr

  pub record LngLat : Type 0 where
    pub lng : Num
    pub lat : Num

  pub record Bounds : Type 0 where
    pub sw : LngLat
    pub ne : LngLat

  pub record Box : Type 0 where
    pub xmin : Num
    pub ymin : Num
    pub xmax : Num
    pub ymax : Num

  unfoldable pub get_bbx : Option Bounds → Option Box
  get_bbx none = none
  get_bbx (some b) =
      let swap_x = F.lt b.ne.lng b.sw.lng in
      let swap_y = F.lt b.ne.lat b.sw.lat in
      some (record {
        xmin = if swap_x then b.ne.lng else b.sw.lng;
        ymin = if swap_y then b.ne.lat else b.sw.lat;
        xmax = if swap_x then b.sw.lng else b.ne.lng;
        ymax = if swap_y then b.sw.lat else b.ne.lat;
      })

  unfoldable pub is_array_numeric : List (Value Num) → Bool
  unfolding is_number
  is_array_numeric [] = true
  is_array_numeric (v ∷ vs) =
      let rest = is_array_numeric vs in if is_number F v then rest else false

  unfoldable pub sort_numeric_array : List (Value Num) → List (Value Num)
  unfolding is_array_numeric sort subtracts
  sort_numeric_array vs = if is_array_numeric vs then sort (subtracts F) vs else vs

  unfoldable pub array_cardinality : List (Value Num) → Option ℕ
  unfolding unique
  array_cardinality [] = none
  array_cardinality (v ∷ vs) = some (length (unique F (v ∷ vs)))

  -- cardinality / array.length * 100 > test
  unfoldable pub unique_value_percentage : List (Value Num) → Num → Option Bool
  unfolding array_cardinality
  unique_value_percentage vs test = elim (array_cardinality vs) [
    | none ↦ none
    | some c ↦ some (F.lt test (F.mul (F.div (F.of_nat c) (F.of_nat (length vs))) (F.of_nat 100)))
  ]

  -- The conversions of a value from one range to another, before the rounding.
  pub record Ranges : Type 0 where
    pub old_max : Num
    pub old_min : Num
    pub new_max : Num
    pub new_min : Num

  -- `round v` is `+(v.toFixed(2))`.
  unfoldable pub convert_range : (Num → Num) → Num → Ranges → Num
  convert_range round old r = round (
      F.add
        (F.div (F.mul (F.sub old r.old_min) (F.sub r.new_max r.new_min))
          (F.sub r.old_max r.old_min))
        r.new_min)

-- `UI_LIST` of src/Constants.js
pub data Ui : Type 0 where
  checkbox radio buttongroups dropdown slider : Ui

unfoldable pub suggest_ui_for_number : ℕ → Ui
suggest_ui_for_number n =
    if n == 0
    then radio
    else if n == 1
    then checkbox
    else if ltb 3 n && leb n 6
    then radio
    else if n == 2 || n == 3
    then buttongroups
    else if ltb 9 n && ltb n 15
    then dropdown
    else slider

module _ (F : Floats) where
  open F use {Num}

  -- The coordinates of the two corners, along each axis, and in order.
  pub record IsBox (b : Bounds F) (box : Box F) : Type 0 where
    pub along_x :
        ((box.xmin ≡ b.sw.lng) × (box.xmax ≡ b.ne.lng))
        ⊎ ((box.xmin ≡ b.ne.lng) × (box.xmax ≡ b.sw.lng))
    pub along_y :
        ((box.ymin ≡ b.sw.lat) × (box.ymax ≡ b.ne.lat))
        ⊎ ((box.ymin ≡ b.ne.lat) × (box.ymax ≡ b.sw.lat))
    pub ordered : (F.lt box.xmax box.xmin ≡ false) × (F.lt box.ymax box.ymin ≡ false)

  in_order :
      (a b : Num)
      → (F.lt b a ≡ true → F.lt a b ≡ false)
      → F.lt (if F.lt b a then a else b) (if F.lt b a then b else a) ≡ false
  in_order a b asym = ground arith

  -- `getBbx` of two corners gives their coordinates, those of each axis in order, if the order of
  -- the numbers is asymmetric.
  get_bbx-IsBox :
      (b : Bounds F)
      → ((x y : Num) → F.lt x y ≡ true → F.lt y x ≡ false)
      → (box : Box F) × (get_bbx F (some b) ≡ some box) × IsBox b box
  unfolding get_bbx
  get_bbx-IsBox b asym = (
    record {
      xmin = if F.lt b.ne.lng b.sw.lng then b.ne.lng else b.sw.lng;
      ymin = if F.lt b.ne.lat b.sw.lat then b.ne.lat else b.sw.lat;
      xmax = if F.lt b.ne.lng b.sw.lng then b.sw.lng else b.ne.lng;
      ymax = if F.lt b.ne.lat b.sw.lat then b.sw.lat else b.ne.lat;
    },
    refl,
    record {
      along_x = ground arith;
      along_y = ground arith;
      ordered = (
        in_order b.sw.lng b.ne.lng (asym b.ne.lng b.sw.lng),
        in_order b.sw.lat b.ne.lat (asym b.ne.lat b.sw.lat),
      );
    },
  )
