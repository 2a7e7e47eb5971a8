-- ===== src/Geojson/Groups.antt =====
-- The groups that `propertyCountByProperty` of src/utils/geojsonutils.js makes: different ones, each
-- with a count.
use tgvejs.Prelude.{
  ℕ, ◌<◌, String, ◌≡◌, refl, sym, subst, ◌⊎◌, inl, inr, Bool, true, false, some, List, [], ◌∷◌,
  length, ltb, In, str_eq, eq_iff, eq_refl, some_inj, arith, Bool-cases,
}
use tgvejs.Js.{Value, Floats, to_text}
use tgvejs.Js.Dict.{Dict, put, has, keys, Keyed, Keyed-put}
use tgvejs.Geojson.{Feature, read}
use tgvejs.Geojson.Counts.{
  count_at, count_step, count_step-put, count_at-step, count_keys, count_features, group_of,
  property_count_by_property,
}

In-keys-put :
    {V : Type 0} (k j : String) (v : V) (d : Dict V)
    → In j (keys (put k v d))
    → (j ≡ k) ⊎ In j (keys d)
unfolding keys put
In-keys-put k j v [] m = elim m [ inl e ↦ inl e | inr n ↦ elim n [ ] ]
In-keys-put k j v ((i, w) ∷ d) m = elim (Bool-cases (str_eq i k)) [
  | inl e ↦ inr (rw e at m)
  | inr e ↦ elim (rw e at m) [
    | inl p ↦ inr (inl p)
    | inr n ↦ elim (In-keys-put k j v d n) [ inl p ↦ inl p | inr r ↦ inr (inr r) ]
  ]
]

-- A key of several is not the only one.
pub other_key :
    {V : Type 0} (y : String) (d : Dict V)
    → Keyed d
    → ltb 1 (length (keys d)) ≡ true
    → (z : String) × In z (keys d) × (str_eq y z ≡ false)
unfolding keys has
other_key y [] k h = cc
other_key y ((a, v) ∷ []) k h = cc
other_key y ((a, v) ∷ (b, w) ∷ d) k h = elim (Bool-cases (str_eq y a)) [
  | inl e ↦ (b, inr (inl refl), ground (arith, k.0, eq_iff y a, eq_iff y b, eq_iff b a))
  | inr e ↦ (a, inl refl, e)
]

-- The keys differ, and each has a count that is not 0.
abbrev pub IsGrouped : Dict (Dict ℕ) → Type 0
IsGrouped d = Keyed d × ((k : String) → In k (keys d) → (v : String) × (0 < count_at k v d))

module _ (F : Floats) (full_year : Value F.Num → F.Num) where
  open F use {Num}

  step-IsGrouped : (k2 v : String) (d : Dict (Dict ℕ)) → IsGrouped d → IsGrouped (count_step k2 v d)
  step-IsGrouped k2 v d (keyed, counted) = (
    subst Keyed (sym (count_step-put F full_year k2 v d)) (Keyed-put k2 _ d keyed),
    λ k m.
        elim (In-keys-put k2 k _ d
          (subst (λ e. In k (keys e)) (count_step-put F full_year k2 v d) m)) [
            | inl e ↦
                (v, ground (arith, e, eq_refl k2, eq_refl v, count_at-step F full_year k2 v k v d))
            | inr n ↦
                let (w, p) = counted k n in
                (w, ground (arith, p, count_at-step F full_year k2 v k w d))
          ],
  )

  count_keys-IsGrouped :
      (key k2 : String) (f : Feature Num) (ks : List String) (d : Dict (Dict ℕ))
      → IsGrouped d
      → IsGrouped (count_keys F full_year key k2 f ks d)
  unfolding count_keys
  count_keys-IsGrouped key k2 f [] d h = h
  count_keys-IsGrouped key k2 f (each ∷ ks) d h = elim (Bool-cases (str_eq each key)) [
    | inl e ↦ rw e (
        count_keys-IsGrouped key k2 f ks _
          (step-IsGrouped k2 (to_text F (read f.properties each)) d h))
    | inr e ↦ rw e (count_keys-IsGrouped key k2 f ks d h)
  ]

  pub count_features-IsGrouped :
      (key key2 : String) (year : Bool) (fs : List (Feature Num)) (d : Dict (Dict ℕ))
      → IsGrouped d
      → IsGrouped (count_features F full_year key key2 year fs d)
  unfolding count_features
  count_features-IsGrouped key key2 year [] d h = h
  count_features-IsGrouped key key2 year (f ∷ fs) d h =
      let k2 = to_text F (group_of F full_year year (read f.properties key2)) in
      count_features-IsGrouped key key2 year fs
        (count_keys F full_year key k2 f (keys f.properties) d)
        (count_keys-IsGrouped key k2 f (keys f.properties) d h)

  pub property_count_by_property-IsGrouped :
      (fs : List (Feature Num)) (key key2 : String) (year : Bool) (d : Dict (Dict ℕ))
      → str_eq key "" ≡ false
      → str_eq key2 "" ≡ false
      → str_eq key key2 ≡ false
      → property_count_by_property F full_year (some fs) key key2 year ≡ some d
      → IsGrouped d
  unfolding property_count_by_property
  property_count_by_property-IsGrouped fs key key2 year d a b c h =
      subst IsGrouped (some_inj (rw (a, b, c) at h))
        (count_features-IsGrouped key key2 year fs [] (tt, (λ k m. elim m [ ])))
