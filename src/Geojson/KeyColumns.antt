-- ===== src/Geojson/KeyColumns.antt =====
-- Which columns `getKeyColumns` of src/utils/geojsonutils.js returns.
use tgvejs.Prelude.{
  ℕ, ◌≤◌, ◌<◌, String, ◌≡◌, refl, sym, ap, subst, ◌∙◌, ◌↔◌, true, ==_iff, Option, none, some, List,
  [], ◌∷◌, length, length-append, filter, In, In-filter, All, str_eq, arith,
}
use tgvejs.Js.{Value, Floats}
use tgvejs.Js.Dict.{Dict, get, keys, keys_of_get}
use tgvejs.Js.Collection.{unique, Distinct, Distinct-of_length, length-add_all}
use tgvejs.Geojson.{Feature, FeatureCollection}
use tgvejs.Geojson.Values.{
  set_of, is_full, get_key_columns, scan_features, readings, column, scan_features-all,
}

module _ (F : Floats) where
  open F use {Num}

  abbrev pub some_list : Option (List String) → List String
  some_list none = []
  some_list (some ks) = ks

  some_list-nonempty :
      (ks : List String) → some_list (elim ks [ [] ↦ none | k ∷ r ↦ some (k ∷ r) ]) ≡ ks
  some_list-nonempty [] = refl
  some_list-nonempty (k ∷ ks) = refl

  abbrev pub collection : String → List (Feature Num) → Option (FeatureCollection Num)
  collection t fs = some (record { type = t; features = some fs })

  abbrev swept : List (Feature Num) → Dict (List (Value Num))
  swept fs = (scan_features F none (record { all = []; values = [] }) fs).all

  set_of-swept :
      (k : String) (fs : List (Feature Num))
      → set_of F (get k (swept fs)) ≡ unique F (column F k fs)
  unfolding get unique
  set_of-swept k fs = scan_features-all F k (record { all = []; values = [] }) fs

  listed :
      (k : String) (d : Dict (List (Value Num))) → 0 < length (set_of F (get k d)) → In k (keys d)
  listed k d h = at (get k d) refl
    where
      at : (o : Option (List (Value Num))) → get k d ≡ o → In k (keys d)
      at none e = absurd (ground arith)
      at (some vs) e = keys_of_get k d e

  is_full_iff :
      (n : ℕ) (k : String) (d : Dict (List (Value Num)))
      → is_full F n d k ≡ true
      → length (set_of F (get k d)) ≡ n
  unfolding is_full
  is_full_iff n k d h = (==_iff _ n).0 h

  full_of_length :
      (n : ℕ) (k : String) (d : Dict (List (Value Num)))
      → length (set_of F (get k d)) ≡ n
      → is_full F n d k ≡ true
  unfolding is_full
  full_of_length n k d h = (==_iff _ n).1 h

  -- Over a collection that is not empty, a column is returned exactly when it has as many
  -- different values as there are features.
  pub get_key_columns_iff :
      (t : String) (f : Feature Num) (fs : List (Feature Num)) (k : String)
      → In k (some_list (get_key_columns F (collection t (f ∷ fs))))
        ↔ (length (unique F (column F k (f ∷ fs))) ≡ length (f ∷ fs))
  unfolding get_key_columns
  get_key_columns_iff t f fs k =
      let n = length (f ∷ fs) in
      let all = swept (f ∷ fs) in
      let e = ap length (set_of-swept k (f ∷ fs)) in
      subst (λ l. In k l ↔ (length (unique F (column F k (f ∷ fs))) ≡ n))
        (sym (some_list-nonempty (filter (is_full F n all) (keys all))))
        (
          λ m. sym e ∙ is_full_iff n k all ((In-filter (is_full F n all) k (keys all)).0 m).1,
          λ h.
              (In-filter (is_full F n all) k (keys all)).1
                (listed k all (omega (arith, e, h)), full_of_length n k all (e ∙ h)),
        )

  -- No feature lists a key twice.
  abbrev pub OncePerFeature : String → List (Feature Num) → Type 0
  OncePerFeature k fs =
      All (λ (f : Feature Num). length (filter (λ j. str_eq j k) (keys f.properties)) ≤ 1) fs

  length-readings :
      (k : String) (f : Feature Num) (ks : List String)
      → length (readings F k f ks) ≡ length (filter (λ j. str_eq j k) ks)
  unfolding readings filter
  length-readings k f [] = refl
  length-readings k f (j ∷ js) = ground (arith, length-readings k f js)

  length-column :
      (k : String) (fs : List (Feature Num))
      → OncePerFeature k fs
      → length (column F k fs) ≤ length fs
  unfolding column
  length-column k [] h = omega arith
  length-column k (f ∷ fs) h = omega (
    arith,
    length-append (readings F k f (keys f.properties)) (column F k fs),
    length-readings k f (keys f.properties),
    length-column k fs h.1,
    h.0,
  )

  no_columns : (t : String) (k : String) → ¬ In k (some_list (get_key_columns F (collection t [])))
  unfolding get_key_columns
  no_columns t k m = m

  length-unique : (vs : List (Value Num)) → length (unique F vs) ≤ length vs
  unfolding unique
  length-unique vs = omega (arith, length-add_all F [] vs)

  -- A column that is returned is a key: each feature has a value in it, and no value comes twice.
  get_key_columns-Distinct :
      (t : String) (fs : List (Feature Num)) (k : String)
      → OncePerFeature k fs
      → In k (some_list (get_key_columns F (collection t fs)))
      → Distinct F (column F k fs) × (length (column F k fs) ≡ length fs)
  get_key_columns-Distinct t [] k once m = elim (no_columns t k m) [ ]
  get_key_columns-Distinct t (f ∷ fs) k once m =
      let n = (get_key_columns_iff t f fs k).0 m in
      let short = length-column k (f ∷ fs) once in
      let sets = length-unique (column F k (f ∷ fs)) in
      (Distinct-of_length F (column F k (f ∷ fs)) (omega arith), omega arith)
