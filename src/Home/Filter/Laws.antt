-- ===== src/Home/Filter/Laws.antt =====
-- What `filterGeojson` lets through.
use tgvejs.Prelude.{
  ◌≤◌, ◌≡◌, ◌≢◌, refl, sym, ap, subst, ◌∙◌, ◌⊎◌, inl, inr, ◌↔◌, Bool, true, false, false≢true, none,
  some, List, [], ◌∷◌, length, In, All, eq_iff, arith, Option-cases, if◌then◌else◌,
}
use tgvejs.Js.{Value, str, Floats, to_text}
use tgvejs.Js.Collection.{contains}
use tgvejs.Geojson.{Feature, Geometry, read, flat, sf_type}
use tgvejs.Utils.Numbers.{Box}
use tgvejs.Home.Filter.{
  Selection, Demand, off, missing, on, Packages, Demands, chosen, is_empty, at_coords, in_box,
  keep_values, keep_coords, keep_box, keep, filter_all, idle,
}

module _ (F : Floats) (P : Packages F) where
  open F use {Num}

  -- A value of each column of the selection, as a text, is in the column's set.
  abbrev pub Chosen : Selection Num → Feature Num → Type 0
  Chosen [] d = Unit
  Chosen ((each, set) ∷ rest) d =
      (contains F set (str (to_text F (read d.properties each))) ≡ true) × Chosen rest d

  abbrev pub PassesValues : Demand (Selection Num) → Feature Num → Type 0
  PassesValues off d = Unit
  PassesValues missing d = ⊥
  PassesValues (on s) d = Chosen s d

  -- The coordinates name all that is wanted.
  abbrev pub PassesCoords : Demand (List (Value Num)) → Feature Num → Type 0
  PassesCoords off d = Unit
  PassesCoords missing d = Unit
  PassesCoords (on vs) d =
      (g : Geometry Num) × (d.geometry ≡ some g) × (P.difference vs (flat g.coordinates) ≡ [])

  -- A null geometry and a multipolygon are not held against the box.
  abbrev pub PassesBox : Demand (Box F) → Feature Num → Type 0
  PassesBox off d = Unit
  PassesBox missing d = Unit
  PassesBox (on box) d =
      (d.geometry ≡ none) ⊎ (sf_type d ≡ "MultiPolygon") ⊎ (P.contains_box box d ≡ some true)

  pub record Passes (q : Demands F) (d : Feature Num) : Type 0 where
    pub values : PassesValues q.values d
    pub at : PassesCoords q.at d
    pub inside : PassesBox q.inside d

  chosen_iff : (s : Selection Num) (d : Feature Num) → (chosen F s d ≡ true) ↔ Chosen s d
  unfolding chosen
  chosen_iff [] d = ground arith
  chosen_iff ((each, set) ∷ rest) d =
      let (there, back) = chosen_iff rest d in
      (λ h. (ground arith, there (ground arith)), λ h. ground (arith, h.0, back h.1))

  pub keep_values_iff :
      (q : Demand (Selection Num)) (d : Feature Num)
      → (keep_values F P q d ≡ some true) ↔ PassesValues q d
  unfolding keep_values
  keep_values_iff off d = (λ h. tt, λ h. refl)
  keep_values_iff missing d = (λ h. cc, λ h. absurd h)
  keep_values_iff (on s) d =
      let (there, back) = chosen_iff s d in (λ h. there (ground arith), λ h. ap some (back h))

  is_empty_iff : (vs : List (Value Num)) → (is_empty F vs ≡ true) ↔ (vs ≡ [])
  is_empty_iff [] = (λ h. refl, λ h. refl)
  is_empty_iff (v ∷ vs) = (λ h. cc, λ h. cc)

  pub keep_coords_iff :
      (q : Demand (List (Value Num))) (d : Feature Num)
      → (keep_coords F P q d ≡ some true) ↔ PassesCoords q d
  unfolding keep_coords
  keep_coords_iff off d = (λ h. tt, λ h. refl)
  keep_coords_iff missing d = (λ h. tt, λ h. refl)
  keep_coords_iff (on vs) d = elim (Option-cases d.geometry) [
    | inl e ↦ (
      λ h. absurd (ground (arith, e, h)),
      λ h. let (g, p, z) = h in absurd (ground (arith, e, p)),
    )
    | inr (g, e) ↦ (
      λ h. (g, e, (is_empty_iff _).0 (ground (arith, e, h))),
      λ h.
          let (g', p, z) = h in
          rw (e, at_coords)
            (ap some (
              (is_empty_iff _).1 (
                let same : g ≡ g' = cc (e, p) in
                subst (λ u. P.difference vs (flat u.coordinates) ≡ []) (sym same) z))),
    )
  ]

  keep_box_iff :
      (q : Demand (Box F)) (d : Feature Num) → (keep_box F P q d ≡ some true) ↔ PassesBox q d
  unfolding keep_box
  keep_box_iff off d = (λ h. tt, λ h. refl)
  keep_box_iff missing d = (λ h. tt, λ h. refl)
  keep_box_iff (on box) d = elim (Option-cases d.geometry) [
    | inl e ↦ (λ h. inl e, λ h. rw (e, in_box) refl)
    | inr (g, e) ↦ (
      λ h. ground (arith, e, eq_iff (sf_type d) "MultiPolygon"),
      λ h. ground (arith, e, eq_iff (sf_type d) "MultiPolygon"),
    )
  ]

  -- The parts of a kept feature, with the parts of `keep` shut.
  keep_parts :
      (q : Demands F) (d : Feature Num)
      → keep F P q d ≡ some true
      → (keep_values F P q.values d ≡ some true)
        × (keep_coords F P q.at d ≡ some true)
        × (keep_box F P q.inside d ≡ some true)
  unfolding keep
  keep_parts q d h = (ground arith, ground arith, ground arith)

  keep_of_parts :
      (q : Demands F) (d : Feature Num)
      → keep_values F P q.values d ≡ some true
      → keep_coords F P q.at d ≡ some true
      → keep_box F P q.inside d ≡ some true
      → keep F P q d ≡ some true
  unfolding keep
  keep_of_parts q d v c b = ground arith

  pub keep_iff : (q : Demands F) (d : Feature Num) → (keep F P q d ≡ some true) ↔ Passes q d
  keep_iff q d = (
    λ h.
        let (v, c, b) = keep_parts q d h in
        record {
          values = (keep_values_iff q.values d).0 v;
          at = (keep_coords_iff q.at d).0 c;
          inside = (keep_box_iff q.inside d).0 b;
        },
    λ h.
        keep_of_parts q d ((keep_values_iff q.values d).1 h.values)
          ((keep_coords_iff q.at d).1 h.at) ((keep_box_iff q.inside d).1 h.inside),
  )

  abbrev pub Kept : Demands F → List (Feature Num) → List (Feature Num) → Type 0
  Kept q ds r = (d : Feature Num) → In d r ↔ (In d ds × (keep F P q d ≡ some true))

  Kept-cons :
      (q : Demands F) (e : Feature Num) (ds r : List (Feature Num)) (b : Bool)
      → keep F P q e ≡ some b
      → Kept q ds r
      → Kept q (e ∷ ds) (if b then e ∷ r else r)
  Kept-cons q e ds r true k h d = (
    elim [ inl p ↦ (inl p, ap (keep F P q) p ∙ k) | inr m ↦ let (i, t) = (h d).0 m in (inr i, t) ],
    λ m. elim m.0 [ inl p ↦ inl p | inr i ↦ inr ((h d).1 (i, m.1)) ],
  )
  Kept-cons q e ds r false k h d = (
    λ m. let (i, t) = (h d).0 m in (inr i, t),
    λ m. elim m.0 [
      | inl p ↦ absurd (not_both (sym k ∙ ap (keep F P q) (sym p) ∙ m.1))
      | inr i ↦ (h d).1 (i, m.1)
    ],
  )
    where
      not_both : ¬ (some false ≡ some true)
      not_both z = cc

  pub filter_all-cons :
      (q : Demands F) (e : Feature Num) (ds r : List (Feature Num)) (b : Bool)
      → keep F P q e ≡ some b
      → filter_all F P q ds ≡ some r
      → filter_all F P q (e ∷ ds) ≡ some (if b then e ∷ r else r)
  unfolding filter_all
  filter_all-cons q e ds r b k h = ground arith

  pub filter_all-nil : (q : Demands F) → filter_all F P q [] ≡ some []
  unfolding filter_all
  filter_all-nil q = refl

  length-if :
      (b : Bool) (e : Feature Num) (r ds : List (Feature Num))
      → length r ≤ length ds
      → length (if b then e ∷ r else r) ≤ length (e ∷ ds)
  length-if b e r ds h = ground arith

  pub filter_all-Kept :
      (q : Demands F) (ds : List (Feature Num))
      → All (λ d. keep F P q d ≢ none) ds
      → (r : List (Feature Num)) × (filter_all F P q ds ≡ some r)
        × Kept q ds r
        × (length r ≤ length ds)
  filter_all-Kept q [] h =
      ([], filter_all-nil q, λ d. (λ m. elim m [ ], λ m. elim m.0 [ ]), omega arith)
  filter_all-Kept q (e ∷ ds) h =
      let (r, p, k, l) = filter_all-Kept q ds h.1 in
      elim (Option-cases (keep F P q e)) [
        | inl n ↦ absurd (h.0 n)
        | inr (b, t) ↦ (
          if b then e ∷ r else r,
          filter_all-cons q e ds r b t p,
          Kept-cons q e ds r b t k,
          length-if b e r ds l,
        )
      ]

  idle_off :
      (v : Demand (Selection Num)) (c : Demand (List (Value Num))) (b : Demand (Box F))
      → idle F P (record { values = v; at = c; inside = b }) ≡ true
      → (v ≡ off) × (c ≡ off) × (b ≡ off)
  idle_off off off off h = (refl, refl, refl)
  idle_off off off missing h = absurd (false≢true h)
  idle_off off off (on b) h = absurd (false≢true h)
  idle_off off missing b h = absurd (false≢true h)
  idle_off off (on c) b h = absurd (false≢true h)
  idle_off missing c b h = absurd (false≢true h)
  idle_off (on v) c b h = absurd (false≢true h)

  pub idle-Passes : (q : Demands F) (d : Feature Num) → idle F P q ≡ true → Passes q d
  idle-Passes q d h =
      let (v, c, b) = idle_off q.values q.at q.inside h in
      record {
        values = subst (λ u. PassesValues u d) (sym v) tt;
        at = subst (λ u. PassesCoords u d) (sym c) tt;
        inside = subst (λ u. PassesBox u d) (sym b) tt;
      }
