-- ===== src/Utils/Xy/Bars.antt =====
-- What `xyObjectByProperty` draws.
use tgvejs.Prelude.{
  ℕ, ◌+◌, String, ◌≡◌, ◌≢◌, refl, sym, ap, subst, ◌∙◌, ◌⊎◌, inl, inr, Bool, true, false, ◌&&◌, none,
  some, List, [], ◌∷◌, length, str_eq, arith, Bool-cases, if◌then◌else◌,
}
use tgvejs.Js.{Value, Floats, same_value, same_value_iff}
use tgvejs.Js.Collection.{
  contains, Distinct, unique, unique-Distinct, contains-unique, All-of_contains, same_value_refl,
}
use tgvejs.Js.Counter.{
  Counter, keys, count, bump, tally, occurrences, total, count-tally, total-tally, keys-tally,
  sum_by, sum_by-count, count_of_absent,
}
use tgvejs.Js.Sort.{
  sort, IsSorted, IsComparison, sort-IsSorted, sort-Distinct, contains-sort, sum_by-sort,
}
use tgvejs.JsUtils.{is_null_undefined_nan}
use tgvejs.Geojson.{Feature, read}
use tgvejs.Utils.Xy.{Point, plain, xy_scan, points, chart, xy_object_by_property}

module _ (F : Floats) (after : Value F.Num → Value F.Num → Bool) where
  open F use {Num}

  -- The values that the chart counts, feature by feature.
  unfoldable pub counted : Bool → String → List (Feature Num) → List (Value Num)
  counted no_nulls property [] = []
  counted no_nulls property (f ∷ fs) =
      let value = read f.properties property in
      let rest = counted no_nulls property fs in
      if no_nulls && is_null_undefined_nan F value then rest else plain F after value ∷ rest

  xy_scan-eq-tally :
      (no_nulls : Bool) (p : String) (m : Counter F) (fs : List (Feature Num))
      → xy_scan F after no_nulls p m fs ≡ tally F m (counted no_nulls p fs)
  unfolding xy_scan counted tally
  xy_scan-eq-tally no_nulls p m [] = refl
  xy_scan-eq-tally no_nulls p m (f ∷ fs) =
      let value = read f.properties p in
      ground (
        arith,
        xy_scan-eq-tally no_nulls p m fs,
        xy_scan-eq-tally no_nulls p (bump F m (plain F after value)) fs,
      )

  -- The height of the chart at a value: the sum over the points that stand there.
  unfoldable pub height : Value Num → List (Point Num) → ℕ
  height v [] = 0
  height v (q ∷ qs) = (if same_value F q.x v then q.y else 0) + height v qs

  unfoldable pub heights : List (Point Num) → ℕ
  heights [] = 0
  heights (q ∷ qs) = q.y + heights qs

  unfoldable pub xs : List (Point Num) → List (Value Num)
  xs [] = []
  xs (q ∷ qs) = q.x ∷ xs qs

  xs-points : (m : Counter F) (ks : List (Value Num)) → xs (points F after m ks) ≡ ks
  unfolding xs points
  xs-points m [] = refl
  xs-points m (k ∷ ks) = ap (k ∷◌) (xs-points m ks)

  heights-points :
      (m : Counter F) (ks : List (Value Num))
      → heights (points F after m ks) ≡ sum_by F (λ k. count F k m) ks
  unfolding heights points sum_by
  heights-points m [] = refl
  heights-points m (k ∷ ks) = omega (arith, heights-points m ks)

  height-points_absent :
      (m : Counter F) (v : Value Num) (ks : List (Value Num))
      → contains F ks v ≡ false
      → height v (points F after m ks) ≡ 0
  unfolding height points contains
  height-points_absent m v [] h = refl
  height-points_absent m v (k ∷ ks) h = ground (arith, height-points_absent m v ks)

  height-points :
      (m : Counter F) (v : Value Num) (ks : List (Value Num))
      → Distinct F ks
      → contains F ks v ≡ true
      → height v (points F after m ks) ≡ count F v m
  unfolding height points contains
  height-points m v [] d h = cc
  height-points m v (k ∷ ks) d h = elim (Bool-cases (same_value F k v)) [
    | inl e ↦
        let p = (same_value_iff F k v).0 e in
        ground (
          arith,
          e,
          ap (λ u. count F u m) p,
          ap (contains F ks) p,
          d.0,
          height-points_absent m v ks,
        )
    | inr e ↦ rw e (omega (arith, height-points m v ks d.1 (rw e at h)))
  ]

  -- The points of a chart: one for each value that is counted, in order;
  -- each as high as the value occurs often, all together as high as there are values.
  pub record Charts (vs : List (Value Num)) (r : List (Point Num)) : Type 0 where
    pub distinct : Distinct F (xs r)
    pub member : (v : Value Num) → contains F (xs r) v ≡ contains F vs v
    pub height_at : (v : Value Num) → height v r ≡ occurrences F v vs
    pub height_sum : heights r ≡ length vs
    pub ordered : IsSorted after (xs r)

  keys-unique : (vs : List (Value Num)) → keys F (tally F [] vs) ≡ unique F vs
  unfolding unique keys
  keys-unique vs = keys-tally F [] vs

  occurrences-tally :
      (vs : List (Value Num)) (v : Value Num) → count F v (tally F [] vs) ≡ occurrences F v vs
  unfolding count
  occurrences-tally vs v = omega (arith, count-tally F [] vs v)

  total-tally_nil : (vs : List (Value Num)) → total F (tally F [] vs) ≡ length vs
  unfolding total
  total-tally_nil vs = omega (arith, total-tally F [] vs)

  height-sorted :
      (m : Counter F) (v : Value Num) (ks : List (Value Num))
      → keys F m ≡ ks
      → Distinct F ks
      → height v (points F after m (sort after ks)) ≡ count F v m
  height-sorted m v ks e d = elim (Bool-cases (contains F ks v)) [
    | inl old ↦
        height-points m v (sort after ks) (sort-Distinct F after ks d)
          (contains-sort F after ks v ∙ old)
    | inr new ↦
        height-points_absent m v (sort after ks) (contains-sort F after ks v ∙ new)
        ∙ sym (count_of_absent F v m (ap (λ l. contains F l v) e ∙ new))
  ]

  Charts-sort :
      (vs : List (Value Num))
      → IsComparison after (λ v. contains F vs v ≡ true)
      → Charts vs (points F after (tally F [] vs) (sort after (keys F (tally F [] vs))))
  Charts-sort vs laws =
      let m = tally F [] vs in
      let ks = keys F m in
      let same : ks ≡ unique F vs = keys-unique vs in
      let d : Distinct F ks = subst (Distinct F) (sym same) (unique-Distinct F vs) in
      let here = xs-points m (sort after ks) in
      record {
        distinct = subst (Distinct F) (sym here) (sort-Distinct F after ks d);
        member = λ v.
            ap (λ l. contains F l v) here
            ∙ contains-sort F after ks v
            ∙ ap (λ l. contains F l v) same
            ∙ contains-unique F vs v;
        height_at = λ v. height-sorted m v ks refl d ∙ occurrences-tally vs v;
        height_sum =
            heights-points m (sort after ks)
            ∙ sum_by-sort F after (λ k. count F k m) ks
            ∙ sum_by-count F m d
            ∙ total-tally_nil vs;
        ordered = subst (IsSorted after) (sym here) (
            sort-IsSorted after (λ v. contains F vs v ≡ true) laws ks
              (All-of_contains F _ ks
                (λ v h. sym (ap (λ l. contains F l v) same ∙ contains-unique F vs v) ∙ h)));
      }

  chart-some :
      (m : Counter F) (k : Value Num) (ks : List (Value Num))
      → keys F m ≡ k ∷ ks
      → chart F after m ≡ some (points F after m (sort after (keys F m)))
  unfolding chart
  chart-some m k ks e = ground arith

  chart-tally :
      (vs : List (Value Num))
      → IsComparison after (λ v. contains F vs v ≡ true)
      → ((vs ≡ []) × (chart F after (tally F [] vs) ≡ none))
        ⊎ ((vs ≢ [])
            × ((r : List (Point Num)) × (chart F after (tally F [] vs) ≡ some r) × Charts vs r))
  unfolding chart contains tally keys
  chart-tally [] laws = inl (refl, refl)
  chart-tally (v ∷ vs) laws = at (keys F m) refl
    where
      m : Counter F
      m = tally F [] (v ∷ vs)

      at :
          (ks : List (Value Num))
          → keys F m ≡ ks
          → ((v ∷ vs ≡ []) × (chart F after m ≡ none))
            ⊎ ((v ∷ vs ≢ [])
                × ((r : List (Point Num)) × (chart F after m ≡ some r) × Charts (v ∷ vs) r))
      at [] e = absurd (
          ground (
            arith,
            ap (λ l. contains F l v) (sym e ∙ keys-unique (v ∷ vs)),
            contains-unique F (v ∷ vs) v,
            same_value_refl F v,
          ))
      at (k ∷ ks) e = inr (
        (λ n. cc),
        (points F after m (sort after (keys F m)), chart-some m k ks e, Charts-sort (v ∷ vs) laws),
      )

  -- For any property that has a name, if `ascending` compares the values that are counted,
  -- `xyObjectByProperty` returns nothing where no value is counted, and else a chart of them.
  pub xy_object_by_property-Charts :
      (fs : List (Feature Num)) (p : String) (no_nulls : Bool)
      → str_eq p "" ≡ false
      → IsComparison after (λ v. contains F (counted no_nulls p fs) v ≡ true)
      → ((counted no_nulls p fs ≡ [])
          × (xy_object_by_property F after (some fs) (some p) no_nulls ≡ none))
        ⊎ ((counted no_nulls p fs ≢ [])
            × ((r : List (Point Num)) × (xy_object_by_property F after (some fs) (some p) no_nulls
                  ≡ some r)
                × Charts (counted no_nulls p fs) r))
  unfolding xy_object_by_property
  xy_object_by_property-Charts fs p no_nulls named laws =
      rw (named, xy_scan-eq-tally no_nulls p [] fs) (chart-tally (counted no_nulls p fs) laws)
