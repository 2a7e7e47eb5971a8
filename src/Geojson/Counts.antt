-- ===== src/Geojson/Counts.antt =====
-- `propertyCountByProperty` of src/utils/geojsonutils.js: how often each value of a property comes
-- under each value of another one.
use tgvejs.Prelude.{
  ℕ, zero, suc, ◌+◌, String, ◌≡◌, refl, ap, ◌∙◌, Bool, false, ◌&&◌, Option, none, some, List, [],
  ◌∷◌, str_eq, eq_iff, arith, if◌then◌else◌,
}
use tgvejs.Js.{Value, num, Floats, truthy, to_text}
use tgvejs.Js.Dict.{Dict, get, put, keys, get-put}
use tgvejs.Geojson.{Feature, read}

-- The counts under a key, empty where there are none.
abbrev pub inner : Option (Dict ℕ) → Dict ℕ
inner none = []
inner (some d) = d

abbrev pub or_zero : Option ℕ → ℕ
or_zero none = 0
or_zero (some n) = n

-- `sub_data[k2][v]`
unfoldable pub count_at : String → String → Dict (Dict ℕ) → ℕ
unfolding get
count_at k2 v d = or_zero (get v (inner (get k2 d)))

-- A count that is there and not 0 is incremented; else `Object.assign` writes 1.
unfoldable pub count_step : String → String → Dict (Dict ℕ) → Dict (Dict ℕ)
unfolding get put
count_step k2 v d = elim (get v (inner (get k2 d))) [
  | some (suc n) ↦ put k2 (put v (suc n + 1) (inner (get k2 d))) d
  | _ ↦ put k2 (put v 1 (inner (get k2 d))) d
]

module _ (F : Floats) (full_year : Value F.Num → F.Num) where
  open F use {Num}

  -- The year of a date, if it is wanted and no NaN and not 0, or the value. `full_year` is
  -- `new Date(v).getFullYear()`.
  unfoldable pub group_of : Bool → Value Num → Value Num
  group_of year v = if year && truthy F (num (full_year v)) then num (full_year v) else v

  unfoldable pub count_keys :
      String → String → Feature Num → List String → Dict (Dict ℕ) → Dict (Dict ℕ)
  unfolding count_step
  count_keys key k2 f [] d = d
  count_keys key k2 f (each ∷ ks) d =
      count_keys key k2 f ks
        (if str_eq each key then count_step k2 (to_text F (read f.properties each)) d else d)

  unfoldable pub count_features :
      String → String → Bool → List (Feature Num) → Dict (Dict ℕ) → Dict (Dict ℕ)
  unfolding count_keys group_of keys
  count_features key key2 year [] d = d
  count_features key key2 year (f ∷ fs) d =
      let k2 = to_text F (group_of year (read f.properties key2)) in
      count_features key key2 year fs (count_keys key k2 f (keys f.properties) d)

  -- `none` is undefined.
  unfoldable pub property_count_by_property :
      Option (List (Feature Num)) → String → String → Bool → Option (Dict (Dict ℕ))
  unfolding count_features
  property_count_by_property none key key2 year = none
  property_count_by_property (some fs) key key2 year =
      if str_eq key ""
      then none
      else if str_eq key2 ""
      then none
      else if str_eq key key2
      then none
      else some (count_features key key2 year fs [])

  -- The number of pairs: a feature whose group is `k`, and a reading of the key in it that is `v`.
  unfoldable pub readings_of : String → String → Feature Num → List String → ℕ
  readings_of key v f [] = 0
  readings_of key v f (each ∷ ks) =
      (if str_eq each key && str_eq (to_text F (read f.properties each)) v then 1 else 0)
      + readings_of key v f ks

  unfoldable pub pairs : String → String → Bool → String → String → List (Feature Num) → ℕ
  unfolding readings_of group_of keys
  pairs key key2 year k v [] = 0
  pairs key key2 year k v (f ∷ fs) =
      (if str_eq (to_text F (group_of year (read f.properties key2))) k
        then readings_of key v f (keys f.properties)
        else 0)
      + pairs key key2 year k v fs

  pub count_step-put :
      (k2 v : String) (d : Dict (Dict ℕ))
      → count_step k2 v d ≡ put k2 (put v (count_at k2 v d + 1) (inner (get k2 d))) d
  unfolding count_step count_at
  count_step-put k2 v d = at (get v (inner (get k2 d))) refl
    where
      at :
          (o : Option ℕ)
          → get v (inner (get k2 d)) ≡ o
          → count_step k2 v d ≡ put k2 (put v (count_at k2 v d + 1) (inner (get k2 d))) d
      at none e = ground arith
      at (some zero) e = ground arith
      at (some (suc n)) e = ground arith

  pub count_at-step :
      (k2 v k w : String) (d : Dict (Dict ℕ))
      → count_at k w (count_step k2 v d)
        ≡ count_at k w d + (if str_eq k2 k && str_eq v w then 1 else 0)
  unfolding count_at
  count_at-step k2 v k w d =
      ap (count_at k w) (count_step-put k2 v d)
      ∙ ground (
        arith,
        get-put k2 k (put v (count_at k2 v d + 1) (inner (get k2 d))) d,
        get-put v w (count_at k2 v d + 1) (inner (get k2 d)),
        eq_iff k2 k,
        eq_iff v w,
      )

  count_at-keys :
      (key k2 : String) (f : Feature Num) (ks : List String) (d : Dict (Dict ℕ)) (k w : String)
      → count_at k w (count_keys key k2 f ks d)
        ≡ count_at k w d + (if str_eq k2 k then readings_of key w f ks else 0)
  unfolding count_keys readings_of
  count_at-keys key k2 f [] d k w = ground arith
  count_at-keys key k2 f (each ∷ ks) d k w =
      let v = to_text F (read f.properties each) in
      ground (
        arith,
        count_at-keys key k2 f ks d k w,
        count_at-keys key k2 f ks (count_step k2 v d) k w,
        count_at-step k2 v k w d,
      )

  count_at-features :
      (key key2 : String) (year : Bool) (fs : List (Feature Num)) (d : Dict (Dict ℕ)) (k w : String)
      → count_at k w (count_features key key2 year fs d)
        ≡ count_at k w d + pairs key key2 year k w fs
  unfolding count_features pairs
  count_at-features key key2 year [] d k w = omega arith
  count_at-features key key2 year (f ∷ fs) d k w =
      let k2 = to_text F (group_of year (read f.properties key2)) in
      omega (
        arith,
        count_at-features key key2 year fs (count_keys key k2 f (keys f.properties) d) k w,
        count_at-keys key k2 f (keys f.properties) d k w,
      )

  pub property_count_by_property-pairs :
      (fs : List (Feature Num)) (key key2 : String) (year : Bool)
      → str_eq key "" ≡ false
      → str_eq key2 "" ≡ false
      → str_eq key key2 ≡ false
      → (d : Dict (Dict ℕ)) × (property_count_by_property (some fs) key key2 year ≡ some d)
        × ((k v : String) → count_at k v d ≡ pairs key key2 year k v fs)
  unfolding property_count_by_property count_at
  property_count_by_property-pairs fs key key2 year a b c = (
    count_features key key2 year fs [],
    rw (a, b, c) refl,
    λ k v. omega (arith, count_at-features key key2 year fs [] k v),
  )
