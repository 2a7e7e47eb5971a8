-- ===== src/Plots/Years.antt =====
-- What `arrayOfYearAndProperty` of src/components/showcases/plots.jsx shows.
use tgvejs.Prelude.{
  ℕ, ◌+◌, ◌<◌, String, ◌≡◌, refl, sym, ap, subst, ◌∙◌, ◌⊎◌, inl, inr, ◌↔◌, true, false, ltb, Option,
  none, some, List, [], ◌∷◌, ◌++◌, map, length, filter, get_elem?, str_eq, eq_iff, In, In-filter,
  arith, append-nil, append_assoc, Bool-cases, Option-cases, false≢true, fun_ext, if◌then◌else◌,
}
use tgvejs.Js.{Value, Floats}
use tgvejs.Js.Dict.{Dict, get, keys, keys_of_get}
use tgvejs.Geojson.{Feature}
use tgvejs.Geojson.Counts.{
  count_at, pairs, property_count_by_property, property_count_by_property-pairs,
}
use tgvejs.Geojson.Groups.{IsGrouped, other_key, property_count_by_property-IsGrouped}
use tgvejs.Plots.{
  Luxon, YearPoint, Series, no_series, has_both, push_year, push_years, if_any, years, time_cols,
  row_to_read, array_of_year_and_property,
}

-- The points over some years, as high as `count` says.
abbrev pub points : (String → ℕ) → List String → List YearPoint
points count = map (λ y. record { x = y; y = count y })

-- The three series over some years, from the counts of each.
abbrev pub series : (String → String → ℕ) → List String → Series
series count ys = record {
  males = points (λ y. count y "Male") ys;
  females = points (λ y. count y "Female") ys;
  totals = points (λ y. count y "Male" + count y "Female") ys;
}

abbrev joined : Series → Series → Series
joined s r = record {
  males = s.males ++ r.males;
  females = s.females ++ r.females;
  totals = s.totals ++ r.totals;
}

abbrev of_counts : Dict (Dict ℕ) → String → String → ℕ
of_counts mf y v = count_at y v mf

push_year_of_both :
    (mf : Dict (Dict ℕ)) (s : Series) (y : String)
    → has_both mf y ≡ true
    → push_year mf s y ≡ joined s (series (of_counts mf) (y ∷ []))
unfolding push_year
push_year_of_both mf s y e = rw e refl

push_year_of_other :
    (mf : Dict (Dict ℕ)) (s : Series) (y : String) → has_both mf y ≡ false → push_year mf s y ≡ s
unfolding push_year
push_year_of_other mf s y e = rw e refl

joined-joined : (a b c : Series) → joined (joined a b) c ≡ joined a (joined b c)
joined-joined a b c = simp (append_assoc)

joined-push_year :
    (mf : Dict (Dict ℕ)) (s : Series) (y : String) (ys : List String)
    → joined (push_year mf s y) (series (of_counts mf) (filter (has_both mf) ys))
      ≡ joined s (series (of_counts mf) (filter (has_both mf) (y ∷ ys)))
unfolding filter
joined-push_year mf s y ys = elim (Bool-cases (has_both mf y)) [
  | inl e ↦
      rw (e, push_year_of_both mf s y e)
        (joined-joined s (series (of_counts mf) (y ∷ []))
          (series (of_counts mf) (filter (has_both mf) ys)))
  | inr e ↦ rw (e, push_year_of_other mf s y e) refl
]

push_years-series :
    (mf : Dict (Dict ℕ)) (s : Series) (ys : List String)
    → push_years mf s ys ≡ joined s (series (of_counts mf) (filter (has_both mf) ys))
unfolding push_years filter
push_years-series mf s [] = simp (append-nil)
push_years-series mf s (y ∷ ys) =
    push_years-series mf (push_year mf s y) ys ∙ joined-push_year mf s y ys

-- A group with a count is a key.
In-count_at : (y v : String) (mf : Dict (Dict ℕ)) → 0 < count_at y v mf → In y (keys mf)
unfolding count_at get
In-count_at y v mf h = elim (Option-cases (get y mf)) [
  | inl e ↦ absurd (omega (arith, (rw e at h)))
  | inr (d, e) ↦ keys_of_get y mf e
]

-- A list with two different elements is no shorter than two.
two_in :
    (y z : String) (l : List String)
    → str_eq y z ≡ false
    → In y l
    → In z l
    → ltb 1 (length l) ≡ true
two_in y z [] h m n = elim m [ ]
two_in y z (x ∷ []) h m n = ground (arith, eq_iff y z)
two_in y z (x ∷ w ∷ l) h m n = ground arith

if_any-none : if_any no_series ≡ none
unfolding if_any
if_any-none = refl

has_both_iff :
    (mf : Dict (Dict ℕ)) (y : String)
    → (has_both mf y ≡ true)
      ↔ ((str_eq y "" ≡ false) × (0 < count_at y "Male" mf) × (0 < count_at y "Female" mf))
unfolding has_both
has_both_iff mf y = ground arith

module _ (F : Floats) (full_year : Value F.Num → F.Num) (L : Luxon F.Num) where
  open F use {Num}

  -- The features of the group have both values.
  abbrev pub Shown : List (Feature Num) → String → String → String → Type 0
  Shown fs column t y =
      (str_eq y "" ≡ false)
      × (0 < pairs F full_year column t true y "Male" fs)
      × (0 < pairs F full_year column t true y "Female" fs)

  -- There is another group.
  abbrev pub IsOneOfMore : List (Feature Num) → String → String → String → Type 0
  IsOneOfMore fs column t y =
      (z : String) × (v : String) × (str_eq y z ≡ false)
      × (0 < pairs F full_year column t true z v fs)

  -- What is to be drawn: nothing where no year is to be shown that is one of several; else the three
  -- series over all such years.
  abbrev pub IsYears : List (Feature Num) → String → String → Option Series → Type 0
  IsYears fs column t r =
      ((r ≡ none) × ((y : String) → Shown fs column t y → IsOneOfMore fs column t y → ⊥))
      ⊎ ((y : String) × (ys : List String) × (r
            ≡ some (series (λ k v. pairs F full_year column t true k v fs) (y ∷ ys)))
          × ((k : String) → In k (y ∷ ys) ↔ (Shown fs column t k × IsOneOfMore fs column t k)))

  module _ (fs : List (Feature Num)) (column t : String) (mf : Dict (Dict ℕ))
      (counts : (k v : String) → count_at k v mf ≡ pairs F full_year column t true k v fs)
      (grouped : IsGrouped mf) where
    In-shown : (y : String) → In y (filter (has_both mf) (keys mf)) ↔ Shown fs column t y
    In-shown y = (
      λ m.
          let b = (has_both_iff mf y).0 ((In-filter (has_both mf) y (keys mf)).0 m).1 in
          (b.0, omega (arith, counts y "Male"), omega (arith, counts y "Female")),
      λ s.
          let male : 0 < count_at y "Male" mf = omega (arith, counts y "Male") in
          let female : 0 < count_at y "Female" mf = omega (arith, counts y "Female") in
          (In-filter (has_both mf) y (keys mf)).1
            (In-count_at y "Male" mf male, (has_both_iff mf y).1 (s.0, male, female)),
    )

    shown : List String
    shown = filter (has_both mf) (keys mf)

    more : (y : String) → ltb 1 (length (keys mf)) ≡ true → IsOneOfMore fs column t y
    more y h =
        let (z, m, n) = other_key y mf grouped.0 h in
        let (v, p) = grouped.1 z m in (z, v, n, omega (arith, counts z v, p))

    if_any-shown :
        (l : List String)
        → ltb 1 (length (keys mf)) ≡ true
        → shown ≡ l
        → IsYears fs column t (if_any (series (of_counts mf) l))
    unfolding shown if_any
    if_any-shown [] h e = inl (refl, λ y s o. elim (subst (λ m. In y m) e ((In-shown y).1 s)) [ ])
    if_any-shown (y ∷ ys) h e = inr (
      y,
      ys,
      ap (λ c. some (series c (y ∷ ys))) (fun_ext (λ k. fun_ext (λ v. counts k v))),
      λ k.
          let (there, back) = subst (λ m. In k m ↔ Shown fs column t k) e (In-shown k) in
          (λ m. (there m, more k h), λ s. back s.0),
    )

    pushed-IsYears :
        IsYears fs column t (
          if_any
            (if ltb 1 (length (keys mf)) then push_years mf no_series (keys mf) else no_series))
    unfolding shown
    pushed-IsYears = elim (Bool-cases (ltb 1 (length (keys mf)))) [
      | inl e ↦ rw (e, push_years-series mf no_series (keys mf)) (if_any-shown shown e refl)
      | inr e ↦ rw e (
          inl (
            if_any-none,
            λ y s (z, v, n, p).
                let here : 0 < count_at y "Male" mf = omega (arith, counts y "Male", s.1) in
                let there : 0 < count_at z v mf = omega (arith, counts z v) in
                false≢true (
                  sym e
                  ∙ two_in y z (keys mf) n (In-count_at y "Male" mf here)
                      (In-count_at z v mf there)),
          ))
    ]

  years_of_counts :
      (fs : List (Feature Num)) (column t : String) (ts : List String) (mf : Dict (Dict ℕ))
      → property_count_by_property F full_year (some fs) column t true ≡ some mf
      → years F full_year L fs column (t ∷ ts)
        ≡ (if ltb 1 (length (keys mf)) then push_years mf no_series (keys mf) else no_series)
  unfolding years
  years_of_counts fs column t ts mf e = rw (years, e) refl

  -- Where the column has a name, and the row that is read has a column of dates with another name,
  -- the first of which is `t`: `arrayOfYearAndProperty` returns nothing where no year is to be shown
  -- that is one of several, and else the three series over all such years, as high as the features
  -- have the values.
  pub array_of_year_and_property-IsYears :
      (random : ℕ → ℕ) (fs : List (Feature Num)) (column t : String) (ts : List String)
      (row : Feature Num)
      → get_elem? fs (row_to_read F full_year L random fs) ≡ some row
      → time_cols F full_year L row ≡ t ∷ ts
      → str_eq column "" ≡ false
      → str_eq t "" ≡ false
      → str_eq column t ≡ false
      → IsYears fs column t (array_of_year_and_property F full_year L random fs (some column))
  unfolding array_of_year_and_property
  array_of_year_and_property-IsYears random (f ∷ fs) column t ts row there dates named timed
        differ =
      let (mf, e, counts) =
        property_count_by_property-pairs F full_year (f ∷ fs) column t true named timed differ in
      rw (named, there, dates, years_of_counts (f ∷ fs) column t ts mf e)
        (pushed-IsYears (f ∷ fs) column t mf counts (
          property_count_by_property-IsGrouped F full_year (f ∷ fs) column t true mf named timed
            differ e))
  array_of_year_and_property-IsYears random [] column t ts row there dates named timed differ = cc
