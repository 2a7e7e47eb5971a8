-- ===== src/Geojson/Values.antt =====
-- `getPropertyValues` and `getKeyColumns` of src/utils/geojsonutils.js.
use tgvejs.Prelude.{
  ℕ, String, ◌≡◌, refl, Bool, false, not, ◌&&◌, ◌==◌, Option, none, some, List, [], ◌∷◌, ◌++◌,
  length, filter, str_eq, eq_iff, arith, if◌then◌else◌,
}
use tgvejs.Js.{Value, Floats}
use tgvejs.Js.Dict.{Dict, get, put, keys, get-put}
use tgvejs.Js.Collection.{add, add_all, unique}
use tgvejs.Geojson.{Feature, FeatureCollection, read}

module _ (F : Floats) where
  open F use {Num}

  -- The two accumulators of the loop.
  pub record Scan : Type 0 where
    pub all : Dict (List (Value Num))
    pub values : List (Value Num)

  -- `property && property === each`
  unfoldable pub is_wanted : Option String → String → Bool
  is_wanted none each = false
  is_wanted (some p) each = not (str_eq p "") && str_eq p each

  -- all[each].add(v), on a new set where there was none
  unfoldable pub add_to : Dict (List (Value Num)) → String → Value Num → Dict (List (Value Num))
  unfolding add
  add_to all each v = elim (get each all) [
    | none ↦ put each (add F [] v) all
    | some set ↦ put each (add F set v) all
  ]

  -- One pass of the inner loop.
  unfoldable pub scan_key : Option String → Feature Num → Scan → String → Scan
  unfolding is_wanted add_to
  scan_key property f s each =
      let v = read f.properties each in
      if is_wanted property each
      then record s { values = add F s.values v }
      else record s { all = add_to s.all each v }

  unfoldable pub scan_keys : Option String → Feature Num → Scan → List String → Scan
  unfolding scan_key
  scan_keys property f s [] = s
  scan_keys property f s (k ∷ ks) = scan_keys property f (scan_key property f s k) ks

  unfoldable pub scan_features : Option String → Scan → List (Feature Num) → Scan
  unfolding scan_keys keys
  scan_features property s [] = s
  scan_features property s (f ∷ fs) =
      scan_features property (scan_keys property f s (keys f.properties)) fs

  -- An array of values for a property, and an object of sets without one.
  pub data Found : Type 0 where
    nothing : Found
    values : List (Value Num) → Found
    columns : Dict (List (Value Num)) → Found

  unfoldable pub get_property_values : Option (FeatureCollection Num) → Option String → Found
  unfolding scan_features
  get_property_values none property = nothing
  get_property_values (some g) property = elim g.features [
    | none ↦ nothing
    | some fs ↦
        let s = scan_features property (record { all = []; values = [] }) fs in
        elim property [
          | none ↦ columns s.all
          | some p ↦ if str_eq p "" then columns s.all else values s.values
        ]
  ]

  -- The set that stands under a key, empty where the key is missing.
  abbrev pub set_of : Option (List (Value Num)) → List (Value Num)
  set_of none = []
  set_of (some vs) = vs

  -- Array.from(all_property_counts[column]).length === geojson.features.length
  unfoldable pub is_full : ℕ → Dict (List (Value Num)) → String → Bool
  is_full n all k = length (set_of (get k all)) == n

  unfoldable pub get_key_columns : Option (FeatureCollection Num) → Option (List String)
  unfolding scan_features is_full keys filter
  get_key_columns none = none
  get_key_columns (some g) = elim g.features [
    | none ↦ none
    | some fs ↦
        let all = (scan_features none (record { all = []; values = [] }) fs).all in
        elim (filter (is_full (length fs) all) (keys all)) [ [] ↦ none | k ∷ ks ↦ some (k ∷ ks) ]
  ]

  -- What the features have under a key, feature by feature.
  unfoldable pub readings : String → Feature Num → List String → List (Value Num)
  readings k f [] = []
  readings k f (j ∷ js) =
      let rest = readings k f js in if str_eq j k then read f.properties j ∷ rest else rest

  unfoldable pub column : String → List (Feature Num) → List (Value Num)
  unfolding readings keys
  column k [] = []
  column k (f ∷ fs) = readings k f (keys f.properties) ++ column k fs

  pub add_all-append :
      (acc vs ws : List (Value Num)) → add_all F acc (vs ++ ws) ≡ add_all F (add_all F acc vs) ws
  unfolding add_all
  add_all-append acc [] ws = refl
  add_all-append acc (v ∷ vs) ws = add_all-append (add F acc v) vs ws

  module _ (p : String) (named : str_eq p "" ≡ false) where
    scan_keys-values :
        (f : Feature Num) (s : Scan) (ks : List String)
        → (scan_keys (some p) f s ks).values ≡ add_all F s.values (readings p f ks)
    unfolding scan_keys readings add_all
    scan_keys-values f s [] = refl
    scan_keys-values f s (k ∷ ks) =
        ground (arith, eq_iff p k, eq_iff k p, scan_keys-values f (scan_key (some p) f s k) ks)

    scan_features-values :
        (s : Scan) (fs : List (Feature Num))
        → (scan_features (some p) s fs).values ≡ add_all F s.values (column p fs)
    unfolding scan_features column add_all
    scan_features-values s [] = refl
    scan_features-values s (f ∷ fs) = cc (
      scan_features-values (scan_keys (some p) f s (keys f.properties)) fs,
      scan_keys-values f s (keys f.properties),
      add_all-append s.values (readings p f (keys f.properties)) (column p fs),
    )

    -- For a named property the result is the set of its values, in the order of their first
    -- occurrence.
    pub get_property_values-values :
        (t : String) (fs : List (Feature Num))
        → get_property_values (some (record { type = t; features = some fs })) (some p)
          ≡ values (unique F (column p fs))
    unfolding get_property_values unique
    get_property_values-values t fs =
        rw (named, scan_features-values (record { all = []; values = [] }) fs)

  get-add_to :
      (k j : String) (v : Value Num) (all : Dict (List (Value Num)))
      → set_of (get k (add_to all j v))
        ≡ (if str_eq j k then add F (set_of (get k all)) v else set_of (get k all))
  unfolding add_to
  get-add_to k j v all = at (get j all) refl
    where
      at :
          (o : Option (List (Value Num)))
          → get j all ≡ o
          → set_of (get k (add_to all j v))
            ≡ (if str_eq j k then add F (set_of (get k all)) v else set_of (get k all))
      at none e = ground (arith, get-put j k (add F [] v) all, eq_iff j k)
      at (some set) e = ground (arith, get-put j k (add F set v) all, eq_iff j k)

  scan_keys-all :
      (k : String) (f : Feature Num) (s : Scan) (ks : List String)
      → set_of (get k (scan_keys none f s ks).all)
        ≡ add_all F (set_of (get k s.all)) (readings k f ks)
  unfolding scan_keys readings add_all
  scan_keys-all k f s [] = refl
  scan_keys-all k f s (j ∷ js) = ground (
    arith,
    scan_keys-all k f (scan_key none f s j) js,
    get-add_to k j (read f.properties j) s.all,
  )

  pub scan_features-all :
      (k : String) (s : Scan) (fs : List (Feature Num))
      → set_of (get k (scan_features none s fs).all)
        ≡ add_all F (set_of (get k s.all)) (column k fs)
  unfolding scan_features column add_all
  scan_features-all k s [] = refl
  scan_features-all k s (f ∷ fs) = cc (
    scan_features-all k (scan_keys none f s (keys f.properties)) fs,
    scan_keys-all k f s (keys f.properties),
    add_all-append (set_of (get k s.all)) (readings k f (keys f.properties)) (column k fs),
  )

  -- Without a property, each column has the set of its values.
  pub get_property_values-columns :
      (t : String) (fs : List (Feature Num))
      → (all : Dict (List (Value Num))) × (get_property_values
            (some (record { type = t; features = some fs }))
            none
          ≡ columns all)
        × ((k : String) → set_of (get k all) ≡ unique F (column k fs))
  unfolding get_property_values unique get
  get_property_values-columns t fs = (
    (scan_features none (record { all = []; values = [] }) fs).all,
    refl,
    λ k. scan_features-all k (record { all = []; values = [] }) fs,
  )
