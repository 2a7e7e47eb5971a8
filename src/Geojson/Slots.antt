-- ===== src/Geojson/Slots.antt =====
-- `propertyCount` of src/utils/geojsonutils.js: how often the values of a list occur in a property.
pub mod Laws
use tgvejs.Prelude.{
  ℕ, zero, suc, ◌+◌, String, ◌≡◌, refl, ap, sym, subst, ◌∙◌, ◌↔◌, Bool, true, false, not, ◌&&◌,
  ◌==◌, ==_iff, Option, none, some, List, [], ◌∷◌, ◌++◌, str_eq, get_elem?, eq_iff, arith,
  Bool-cases, Option-cases, inl, inr, if◌then◌else◌, if_true, if_false, false≢true,
}
use tgvejs.Js.{Value, Floats, strict_eq, same_value, same_value_iff}
use tgvejs.Js.Dict.{keys}
use tgvejs.Js.Collection.{unique}
use tgvejs.Js.Counter.{occurrences}
use tgvejs.Geojson.{Feature, read}
use tgvejs.Geojson.Values.{
  Found, nothing, values, columns, get_property_values, column, readings,
  get_property_values-values,
}
use tgvejs.Utils.Xy.{Point}

-- Positions in the array: `none` is -1.
abbrev pub same_position : Option ℕ → Option ℕ → Bool
same_position none none = true
same_position (some a) (some b) = a == b
same_position _ _ = false

pub same_position_iff : (i j : Option ℕ) → (same_position i j ≡ true) ↔ (i ≡ j)
same_position_iff (some a) (some b) = ground (arith, ==_iff a b)
same_position_iff i j = ground arith

module _ {N : Type 0} where
  -- The array `sub_data`, with what stands at its positions.
  unfoldable pub at : Option ℕ → List (Option ℕ × Point N) → Option (Point N)
  at i [] = none
  at i ((j, p) ∷ s) = if same_position j i then some p else at i s

  unfoldable pub write : Option ℕ → Point N → List (Option ℕ × Point N) → List (Option ℕ × Point N)
  write i p [] = (i, p) ∷ []
  write i p ((j, q) ∷ s) = if same_position j i then (j, p) ∷ s else (j, q) ∷ write i p s

  pub at-write :
      (i j : Option ℕ) (p : Point N) (s : List (Option ℕ × Point N))
      → at j (write i p s) ≡ (if same_position i j then some p else at j s)
  unfolding at write
  at-write i j p [] = refl
  at-write i j p ((k, q) ∷ s) =
      ground (
        arith,
        same_position_iff i j,
        same_position_iff k i,
        same_position_iff k j,
        at-write i j p s,
      )

module _ (F : Floats) where
  open F use {Num}

  unfoldable pub shift : Option ℕ → Option ℕ
  shift none = none
  shift (some i) = some (suc i)

  -- `array.indexOf(v)`
  unfoldable pub index_of : List (Value Num) → Value Num → Option ℕ
  unfolding shift
  index_of [] v = none
  index_of (x ∷ xs) v = if strict_eq F x v then some 0 else shift (index_of xs v)

  -- One reading: the counter at the value's position, or a new one.
  unfoldable pub count_slot :
      List (Value Num) → Value Num → List (Option ℕ × Point Num) → List (Option ℕ × Point Num)
  unfolding index_of at write
  count_slot list v s = elim (at (index_of list v) s) [
    | none ↦ write (index_of list v) (record { x = v; y = 1 }) s
    | some p ↦
        if strict_eq F p.x v
        then write (index_of list v) (record { x = p.x; y = p.y + 1 }) s
        else write (index_of list v) (record { x = v; y = 1 }) s
  ]

  unfoldable pub slot_keys :
      List (Value Num)
      → String
      → Feature Num
      → List String
      → List (Option ℕ × Point Num)
      → List (Option ℕ × Point Num)
  unfolding count_slot
  slot_keys list key f [] s = s
  slot_keys list key f (each ∷ ks) s =
      slot_keys list key f ks
        (if str_eq each key then count_slot list (read f.properties each) s else s)

  unfoldable pub slot_features :
      List (Value Num)
      → String
      → List (Feature Num)
      → List (Option ℕ × Point Num)
      → List (Option ℕ × Point Num)
  unfolding slot_keys keys
  slot_features list key [] s = s
  slot_features list key (f ∷ fs) s =
      slot_features list key fs (slot_keys list key f (keys f.properties) s)

  abbrev pub found_values : Found F → List (Value Num)
  found_values (values vs) = vs
  found_values found = []

  -- the list, or all values of the property
  unfoldable pub list_copy :
      List (Feature Num) → String → Option (List (Value Num)) → List (Value Num)
  unfolding get_property_values
  list_copy fs key (some (v ∷ vs)) = v ∷ vs
  list_copy fs key list =
      found_values
        (get_property_values F (some (record { type = ""; features = some fs })) (some key))

  -- `none` is undefined.
  unfoldable pub property_count :
      Option (List (Feature Num))
      → String
      → Option (List (Value Num))
      → Option (List (Option ℕ × Point Num))
  unfolding slot_features list_copy
  property_count none key list = none
  property_count (some fs) key list =
      if str_eq key "" then none else some (slot_features (list_copy fs key list) key fs [])
