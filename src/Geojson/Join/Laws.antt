-- ===== src/Geojson/Join/Laws.antt =====
-- What the join of `setGeojsonProps` gives.
use tgvejs.Prelude.{
  none≢some, ◌≤◌, String, ◌≡◌, refl, sym, ap, ◌∙◌, subst, false≢true, ◌⊎◌, inl, inr, Bool, true,
  false, not, ◌&&◌, Option, none, some, List, [], ◌∷◌, map, length, In, filter, arith, Bool-cases,
  Option-cases,
}
use tgvejs.Js.{undefined, Floats, truthy, strict_eq}
use tgvejs.Js.Dict.{keys}
use tgvejs.Geojson.{Feature, FeatureCollection, read}
use tgvejs.Geojson.Join.{
  Columns, both_missing, key, first, first_matching, join_columns, merge, agrees, find_row, join,
  set_geojson_props,
}

module _ (F : Floats) where
  open F use {Num}

  -- Feature and row have the same value in the shared columns.
  abbrev pub shares : Columns → Feature Num → Feature Num → Bool
  shares c f d =
      strict_eq F (read f.properties (key c.in_geojson)) (read d.properties (key c.in_data))

  -- The place of the feature, with the properties of the row.
  abbrev pub joined : Feature Num → Feature Num → Feature Num
  joined f d = record { type = f.type; geometry = f.geometry; properties = d.properties }

  -- The rows before the first one that agrees do not agree.
  abbrev pub FirstRow : Columns → Feature Num → List (Feature Num) → Feature Num → Type 0
  FirstRow c f [] d = ⊥
  FirstRow c f (e ∷ es) d =
      ((e ≡ d) × (shares c f e ≡ true)) ⊎ ((shares c f e ≡ false) × FirstRow c f es d)

  first_of_some : (e d : Feature Num) → some e ≡ some d → e ≡ d
  first_of_some e d h = cc

  find_row-FirstRow :
      (c : Columns) (f d : Feature Num) (ds : List (Feature Num))
      → find_row F c f ds ≡ some d
      → FirstRow c f ds d
  unfolding find_row agrees
  find_row-FirstRow c f d [] h = cc
  find_row-FirstRow c f d (e ∷ es) h = elim (Bool-cases (shares c f e)) [
    | inl a ↦ inl (first_of_some e d (rw a at h), a)
    | inr a ↦ inr (a, find_row-FirstRow c f d es (rw a at h))
  ]

  FirstRow_of_In :
      (c : Columns) (f d : Feature Num) (ds : List (Feature Num))
      → In d ds
      → shares c f d ≡ true
      → (e : Feature Num) × (find_row F c f ds ≡ some e)
  unfolding find_row agrees
  FirstRow_of_In c f d [] m a = elim m [ ]
  FirstRow_of_In c f d (e ∷ es) m a = elim (Bool-cases (shares c f e)) [
    | inl x ↦ (e, rw x)
    | inr x ↦ elim m [
      | inl p ↦ absurd (false≢true (sym x ∙ ap (shares c f) (sym p) ∙ a))
      | inr m' ↦ let (r, q) = FirstRow_of_In c f d es m' a in (r, rw x q)
    ]
  ]

  -- The features of a join: each is a feature of the geography with the properties of the first
  -- row that shares its value, and each feature with such a row is there.
  pub record IsJoin (c : Columns) (fs ds rs : List (Feature Num)) : Type 0 where
    pub sound :
        (r : Feature Num)
        → In r rs
        → (f d : Feature Num) × In f fs × FirstRow c f ds d × (r ≡ joined f d)
    pub complete :
        (f d : Feature Num)
        → In f fs
        → In d ds
        → shares c f d ≡ true
        → (e : Feature Num) × FirstRow c f ds e × In (joined f e) rs
    pub short : length rs ≤ length fs

  join_unmatched :
      (c : Columns) (f : Feature Num) (fs ds : List (Feature Num))
      → find_row F c f ds ≡ none
      → join F c (f ∷ fs) ds ≡ join F c fs ds
  unfolding join
  join_unmatched c f fs ds e = ground arith

  join_matched :
      (c : Columns) (f : Feature Num) (fs ds : List (Feature Num)) (d : Feature Num)
      → find_row F c f ds ≡ some d
      → join F c (f ∷ fs) ds ≡ joined f d ∷ join F c fs ds
  unfolding join merge
  join_matched c f fs ds d e = ground arith

  join-nil : (c : Columns) (ds : List (Feature Num)) → join F c [] ds ≡ []
  unfolding join
  join-nil c ds = refl

  IsJoin-cons :
      (c : Columns) (f : Feature Num) (fs ds : List (Feature Num))
      → IsJoin c fs ds (join F c fs ds)
      → IsJoin c (f ∷ fs) ds (join F c (f ∷ fs) ds)
  IsJoin-cons c f fs ds j = elim (Option-cases (find_row F c f ds)) [
    | inl e ↦ subst (IsJoin c (f ∷ fs) ds) (sym (join_unmatched c f fs ds e)) (record {
      sound = λ r m. let (g, d, i, w, q) = j.sound r m in (g, d, inr i, w, q);
      complete = λ g d i n a. elim i [
        | inl p ↦
            let (x, q) = FirstRow_of_In c f d ds n (ap (λ u. shares c u d) (sym p) ∙ a) in
            absurd (none≢some (sym e ∙ q))
        | inr i' ↦ j.complete g d i' n a
      ];
      short = omega (arith, j.short);
    })
    | inr (w, e) ↦ subst (IsJoin c (f ∷ fs) ds) (sym (join_matched c f fs ds w e)) (record {
      sound = λ r m. elim m [
        | inl p ↦ (f, w, inl refl, find_row-FirstRow c f w ds e, p)
        | inr m' ↦ let (g, d, i, v, q) = j.sound r m' in (g, d, inr i, v, q)
      ];
      complete = λ g d i n a. elim i [
        | inl p ↦ (
          w,
          subst (λ u. FirstRow c u ds w) (sym p) (find_row-FirstRow c f w ds e),
          inl (ap (λ u. joined u w) p),
        )
        | inr i' ↦ let (x, v, m) = j.complete g d i' n a in (x, v, inr m)
      ];
      short = omega (arith, j.short);
    })
  ]

  join-IsJoin : (c : Columns) (fs ds : List (Feature Num)) → IsJoin c fs ds (join F c fs ds)
  join-IsJoin c [] ds = subst (IsJoin c [] ds) (sym (join-nil c ds)) (record {
    sound = λ r m. elim m [ ];
    complete = λ f d i n a. elim i [ ];
    short = omega arith;
  })
  join-IsJoin c (f ∷ fs) ds = IsJoin-cons c f fs ds (join-IsJoin c fs ds)

  -- A shared column is known, and the first feature and the first row have something in it.
  abbrev pub usable : Columns → Feature Num → Feature Num → Bool
  usable c f d =
      not (both_missing c)
      && truthy F (read f.properties (key c.in_geojson))
      && truthy F (read d.properties (key c.in_data))

  abbrev pub geography : String → List (Feature Num) → FeatureCollection Num
  geography t fs = record { type = t; features = some fs }

  -- What `setGeojsonProps` does with a geography whose features are `f ∷ fs` and the rows
  -- `d ∷ ds`: where the first feature and the first row have a value in the shared columns, the
  -- features become the join, and all else stays; else the geography comes back as it was.
  pub set_geojson_props-IsJoin :
      (lower : String → String) (t : String) (f d : Feature Num) (fs ds : List (Feature Num))
      (geo_column : Option String)
      → ((usable (join_columns lower geo_column f d) f d ≡ false)
          × (set_geojson_props F lower (geography t (f ∷ fs)) (d ∷ ds) geo_column
              ≡ geography t (f ∷ fs)))
        ⊎ ((usable (join_columns lower geo_column f d) f d ≡ true)
            × (rs : List (Feature Num)) × (set_geojson_props F lower
                  (geography t (f ∷ fs))
                  (d ∷ ds)
                  geo_column
                ≡ geography t rs)
            × IsJoin (join_columns lower geo_column f d) (f ∷ fs) (d ∷ ds) rs)
  unfolding set_geojson_props
  set_geojson_props-IsJoin lower t f d fs ds geo_column =
      let c = join_columns lower geo_column f d in
      elim (Bool-cases (both_missing c)) [
        | inl e ↦ inl (ground arith, rw e refl)
        | inr e ↦ elim (Bool-cases (truthy F (read f.properties (key c.in_geojson)))) [
          | inr z ↦ inl (ground arith, rw (e, z) refl)
          | inl z ↦ elim (Bool-cases (truthy F (read d.properties (key c.in_data)))) [
            | inr y ↦ inl (ground arith, rw (e, z, y) refl)
            | inl y ↦ inr (
              ground arith,
              join F c (f ∷ fs) (d ∷ ds),
              rw (e, z, y) refl,
              join-IsJoin c (f ∷ fs) (d ∷ ds),
            )
          ]
        ]
      ]

  first-filter :
      (lower : String → String) (p : String → Bool) (ks : List String)
      → (first (filter p (map lower ks)) ≡ none)
        ⊎ ((k : String) × (first (filter p (map lower ks)) ≡ some (lower k)))
  unfolding filter
  first-filter lower p [] = inl refl
  first-filter lower p (k ∷ ks) = elim (Bool-cases (p (lower k))) [
    | inl e ↦ inr (k, rw e refl)
    | inr e ↦ rw e (first-filter lower p ks)
  ]

  first_matching_lower :
      (lower : String → String) (f d : Feature Num)
      → (first_matching lower f d ≡ none)
        ⊎ ((k : String) × (first_matching lower f d ≡ some (lower k)))
  unfolding first_matching
  first_matching_lower lower f d = first-filter lower _ (keys f.properties)

  -- Without a column name the first column that the two have in common is looked for among the
  -- keys in lower case. If the geography's first feature has no value under any key in lower case,
  -- the geography comes back as it was, whatever columns the two share.
  pub set_geojson_props-no_lower :
      (lower : String → String) (t : String) (f d : Feature Num) (fs ds : List (Feature Num))
      → ((k : String) → read f.properties (lower k) ≡ undefined)
      → set_geojson_props F lower (geography t (f ∷ fs)) (d ∷ ds) none ≡ geography t (f ∷ fs)
  unfolding set_geojson_props
  set_geojson_props-no_lower lower t f d fs ds none_lower = elim (first_matching_lower lower f d) [
    | inl e ↦ rw e refl
    | inr (k, e) ↦ rw e (ground (arith, none_lower k))
  ]
