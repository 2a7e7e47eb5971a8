-- ===== src/Home/Filter/Outcomes.antt =====
-- When `filterGeojson` throws, and what a second call does.
use tgvejs.Prelude.{
  ◌≤◌, ◌≡◌, ◌≢◌, refl, sym, ap, subst, ◌∙◌, ◌⊎◌, ◌↔◌, inl, inr, Bool, true, false, Option, none,
  some, List, [], ◌∷◌, length, In, All, All-map, All-self, eq_iff, arith, Bool-cases, Option-cases,
  if◌then◌else◌,
}
use tgvejs.Js.{Value, Floats}
use tgvejs.Geojson.{Feature, Geometry, sf_type}
use tgvejs.Utils.Numbers.{Box}
use tgvejs.Home.Filter.{
  Selection, Filter, Demand, off, missing, on, Packages, Demands, demands, keep_values, keep_coords,
  keep_box, in_box, at_coords, keep, filter_all, idle, filter_geojson,
}
use tgvejs.Home.Filter.Laws.{
  PassesValues, PassesCoords, Passes, keep_values_iff, keep_coords_iff, keep_iff, idle-Passes,
  filter_all-cons, filter_all-nil, filter_all-Kept,
}

module _ (F : Floats) (P : Packages F) where
  open F use {Num}

  filter_all_again :
      (q : Demands F) (ds : List (Feature Num))
      → All (λ d. keep F P q d ≡ some true) ds
      → filter_all F P q ds ≡ some ds
  filter_all_again q [] h = filter_all-nil F P q
  filter_all_again q (d ∷ ds) h = filter_all-cons F P q d ds ds true h.0 (filter_all_again q ds h.1)

  filter_all_throws :
      (q : Demands F) (d : Feature Num) (ds : List (Feature Num))
      → In d ds
      → keep F P q d ≡ none
      → filter_all F P q ds ≡ none
  unfolding filter_all
  filter_all_throws q d [] m h = elim m [ ]
  filter_all_throws q d (e ∷ ds) (inl p) h = ground (arith, ap (keep F P q) p)
  filter_all_throws q d (e ∷ ds) (inr m) h = ground (arith, filter_all_throws q d ds m h)

  filter_all-cons_none :
      (q : Demands F) (e : Feature Num) (ds : List (Feature Num))
      → filter_all F P q ds ≡ none
      → filter_all F P q (e ∷ ds) ≡ none
  unfolding filter_all
  filter_all-cons_none q e ds h = ground arith

  same_list : (r t : List (Feature Num)) → some r ≡ some t → r ≡ t
  same_list r t h = cc

  none_list : {r : List (Feature Num)} → ¬ (none ≡ some r)
  none_list h = cc

  All-if :
      (q : Demands F) (e : Feature Num) (r : List (Feature Num)) (b : Bool)
      → keep F P q e ≡ some b
      → All (λ d. keep F P q d ≡ some true) r
      → All (λ d. keep F P q d ≡ some true) (if b then e ∷ r else r)
  All-if q e r true k h = (k, h)
  All-if q e r false k h = h

  filter_all-All :
      (q : Demands F) (ds r : List (Feature Num))
      → filter_all F P q ds ≡ some r
      → All (λ d. keep F P q d ≡ some true) r
  filter_all-All q [] r h =
      subst (All (λ d. keep F P q d ≡ some true)) (same_list [] r (sym (filter_all-nil F P q) ∙ h))
        tt
  filter_all-All q (e ∷ ds) r h = elim (Option-cases (keep F P q e)) [
    | inl n ↦ absurd (none_list (sym (filter_all_throws q e (e ∷ ds) (inl refl) n) ∙ h))
    | inr (b, k) ↦ elim (Option-cases (filter_all F P q ds)) [
      | inl n ↦ absurd (none_list (sym (filter_all-cons_none q e ds n) ∙ h))
      | inr (t, p) ↦
          subst (All (λ d. keep F P q d ≡ some true))
            (same_list _ r (sym (filter_all-cons F P q e ds t b k p) ∙ h))
            (All-if q e t b k (filter_all-All q ds t p))
    ]
  ]

  -- What the filter by coordinates throws at: a geometry that is null.
  abbrev pub CoordsThrow : Demand (List (Value Num)) → Feature Num → Type 0
  CoordsThrow (on vs) d = d.geometry ≡ none
  CoordsThrow q d = ⊥

  -- What the box throws at: a geometry that `booleanContains` does not support, but no multipolygon.
  abbrev pub BoxThrows : Demand (Box F) → Feature Num → Type 0
  BoxThrows (on box) d =
      (d.geometry ≢ none) × (sf_type d ≢ "MultiPolygon") × (P.contains_box box d ≡ none)
  BoxThrows q d = ⊥

  -- The features that the callback throws at: each test is made only of what passes those before it.
  abbrev pub Throws : Demands F → Feature Num → Type 0
  Throws q d =
      (q.values ≡ missing)
      ⊎ (PassesValues F P q.values d
          × (CoordsThrow q.at d ⊎ (PassesCoords F P q.at d × BoxThrows q.inside d)))

  keep_values-none :
      (q : Demand (Selection Num)) (d : Feature Num) → (keep_values F P q d ≡ none) ↔ (q ≡ missing)
  unfolding keep_values
  keep_values-none off d = (λ h. cc, λ h. cc)
  keep_values-none missing d = (λ h. refl, λ h. refl)
  keep_values-none (on s) d = (λ h. cc, λ h. cc)

  keep_coords-none :
      (q : Demand (List (Value Num))) (d : Feature Num)
      → (keep_coords F P q d ≡ none) ↔ CoordsThrow q d
  unfolding keep_coords at_coords
  keep_coords-none off d = (λ h. cc, λ h. elim h [ ])
  keep_coords-none missing d = (λ h. cc, λ h. elim h [ ])
  keep_coords-none (on vs) d = (λ h. ground arith, λ h. ground arith)

  keep_box-none : (q : Demand (Box F)) (d : Feature Num) → (keep_box F P q d ≡ none) ↔ BoxThrows q d
  unfolding keep_box in_box
  keep_box-none off d = (λ h. cc, λ h. elim h [ ])
  keep_box-none missing d = (λ h. cc, λ h. elim h [ ])
  keep_box-none (on box) d = at d.geometry refl
    where
      at :
          (g : Option (Geometry Num))
          → d.geometry ≡ g
          → (in_box F P box d ≡ none) ↔ BoxThrows (on box) d
      at g e = (
        λ h. (
          ground (arith, e),
          ground (arith, e, eq_iff (sf_type d) "MultiPolygon"),
          ground (arith, e, eq_iff (sf_type d) "MultiPolygon"),
        ),
        λ h. ground (arith, e, h.0, h.1, h.2, eq_iff (sf_type d) "MultiPolygon"),
      )

  keep-none_parts :
      (q : Demands F) (d : Feature Num)
      → (keep F P q d ≡ none) ↔ (
          (keep_values F P q.values d ≡ none)
          ⊎ ((keep_values F P q.values d ≡ some true)
              × ((keep_coords F P q.at d ≡ none)
                  ⊎ ((keep_coords F P q.at d ≡ some true) × (keep_box F P q.inside d ≡ none)))))
  unfolding keep
  keep-none_parts q d = ground arith

  keep-none_iff : (q : Demands F) (d : Feature Num) → (keep F P q d ≡ none) ↔ Throws q d
  keep-none_iff q d = (
    λ h. elim ((keep-none_parts q d).0 h) [
      | inl v ↦ inl ((keep_values-none q.values d).0 v)
      | inr (v, inl c) ↦
          inr ((keep_values_iff F P q.values d).0 v, inl ((keep_coords-none q.at d).0 c))
      | inr (v, inr (c, b)) ↦ inr (
        (keep_values_iff F P q.values d).0 v,
        inr ((keep_coords_iff F P q.at d).0 c, (keep_box-none q.inside d).0 b),
      )
    ],
    λ h. (keep-none_parts q d).1 (elim h [
      | inl v ↦ inl ((keep_values-none q.values d).1 v)
      | inr (v, inl c) ↦
          inr ((keep_values_iff F P q.values d).1 v, inl ((keep_coords-none q.at d).1 c))
      | inr (v, inr (c, b)) ↦ inr (
        (keep_values_iff F P q.values d).1 v,
        inr ((keep_coords_iff F P q.at d).1 c, (keep_box-none q.inside d).1 b),
      )
    ]),
  )

  -- Some feature throws, or none does.
  throwing :
      (q : Demands F) (ds : List (Feature Num))
      → ((d : Feature Num) × In d ds × (keep F P q d ≡ none)) ⊎ All (λ d. keep F P q d ≢ none) ds
  throwing q [] = inr tt
  throwing q (d ∷ ds) = elim (Option-cases (keep F P q d)) [
    | inl n ↦ inl (d, inl refl, n)
    | inr (b, e) ↦ elim (throwing q ds) [
      | inl (x, m, n) ↦ inl (x, inr m, n)
      | inr a ↦ inr ((λ n. none_bool (sym n ∙ e)), a)
    ]
  ]
    where
      none_bool : {b : Bool} → ¬ (none ≡ some b)
      none_bool h = cc

  idle-quiet : (q : Demands F) (d : Feature Num) → idle F P q ≡ true → keep F P q d ≢ none
  idle-quiet q d e n = let p = (keep_iff F P q d).1 (idle-Passes F P q d e) in cc (p, n)

  -- What the filter gives: an exception at a feature, or the features that pass.
  abbrev pub IsFiltered : List (Feature Num) → Demands F → Option (List (Feature Num)) → Type 0
  IsFiltered ds q result =
      ((d : Feature Num) × In d ds × Throws q d × (result ≡ none))
      ⊎ (All (λ d. ¬ (Throws q d)) ds
          × ((r : List (Feature Num)) × (result ≡ some r)
              × ((d : Feature Num) → In d r ↔ (In d ds × Passes F P q d))
              × (length r ≤ length ds)))

  -- Either the callback throws at one of the features, and `filterGeojson` throws; or it throws at
  -- none, and `filterGeojson` returns exactly the features that pass, no more than there were.
  pub filter_geojson-Passes :
      (ds : List (Feature Num)) (filter : Option (Filter F))
      (state_coords : Option (List (Value Num))) (mvs : Option (Selection Num))
      → IsFiltered ds
          (demands F filter state_coords mvs)
          (filter_geojson F P ds filter state_coords mvs)
  unfolding filter_geojson
  filter_geojson-Passes ds filter state_coords mvs =
      let q = demands F filter state_coords mvs in
      elim (Bool-cases (idle F P q)) [
        | inl e ↦ inr (
          All-map _ _ (λ d m. λ t. idle-quiet q d e ((keep-none_iff q d).1 t)) ds (All-self ds),
          (ds, rw e refl, λ d. (λ m. (m, idle-Passes F P q d e), λ m. m.0), omega arith),
        )
        | inr e ↦ elim (throwing q ds) [
          | inl (d, m, n) ↦ inl (d, m, (keep-none_iff q d).0 n, rw e (filter_all_throws q d ds m n))
          | inr quiet ↦
              let (r, p, k, l) = filter_all-Kept F P q ds quiet in
              inr (
                All-map _ _ (λ d n. λ t. n ((keep-none_iff q d).1 t)) ds quiet,
                (
                  r,
                  rw e p,
                  λ d. (
                    λ m. let (i, t) = (k d).0 m in (i, (keep_iff F P q d).0 t),
                    λ m. (k d).1 (m.0, (keep_iff F P q d).1 m.1),
                  ),
                  l,
                ),
              )
        ]
      ]

  -- What is filtered once stays as it is.
  filter_geojson_again :
      (ds r : List (Feature Num)) (filter : Option (Filter F))
      (state_coords : Option (List (Value Num))) (mvs : Option (Selection Num))
      → filter_geojson F P ds filter state_coords mvs ≡ some r
      → filter_geojson F P r filter state_coords mvs ≡ some r
  unfolding filter_geojson
  filter_geojson_again ds r filter state_coords mvs h =
      let q = demands F filter state_coords mvs in
      elim (Bool-cases (idle F P q)) [
        | inl e ↦ rw e refl
        | inr e ↦ rw e (filter_all_again q r (filter_all-All q ds r (rw e at h)))
      ]
