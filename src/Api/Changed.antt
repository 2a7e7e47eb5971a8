-- ===== src/Api/Changed.antt =====
-- `hasAPIChanged` of src/utils/api.js: whether the parameters differ. It goes over the objects that
-- the parameters refer to, so that a store tells what stands under a reference.
use tgvejs.Prelude.{
  ◌∙◌, some_inj, ℕ, String, ◌≡◌, ◌≢◌, refl, sym, subst, if_true, ap, ◌⊎◌, inl, inr, ◌↔◌, Bool, true,
  false, not, false≢true, ◌||◌, Option, none, some, List, [], ◌∷◌, length, get_elem?, str_eq, In,
  arith, Bool-cases, if◌then◌else◌,
}
use tgvejs.Js.{Value, undefined, ref, object, array, Floats, strict_eq}
use tgvejs.Js.Dict.{Dict, has}
use tgvejs.JsUtils.{is_object}
use tgvejs.Api.Params.{
  Expected, string, object_, boolean, select_, data_, react, callback, tgve_api, read_value,
}

-- The keys of an object and what it has under each, the elements of an array, `JSON.stringify` of a value (none is undefined),
-- and `Math.floor(Math.random() * n)`.
pub record Store (F : Floats) : Type 0 where
  pub keys_of : ℕ → List String
  pub value_at : ℕ → String → Value F.Num
  pub elements : ℕ → List (Value F.Num)
  pub stringify : Value F.Num → Option String
  pub random : ℕ → ℕ

module _ (F : Floats) (S : Store F) where
  open F use {Num}

  abbrev pub same_text : Option String → Option String → Bool
  same_text none none = true
  same_text (some s) (some t) = str_eq s t
  same_text _ _ = false

  -- array[r]
  element : List (Value Num) → ℕ → Value Num
  element vs r = elim (get_elem? vs r) [ none ↦ undefined | some v ↦ v ]

  -- `areEqualFeatureArrays` of src/utils/geojsonutils.js; `none` is undefined.
  unfoldable pub are_equal_feature_arrays : Value Num → Value Num → Option Bool
  unfolding element
  are_equal_feature_arrays (ref array a) (ref array b) =
      let r = S.random (length (S.elements a)) in
      some (
        same_text (S.stringify (element (S.elements a) r)) (S.stringify (element (S.elements b) r)))
  are_equal_feature_arrays v w = none

  -- `isObject(a[e]) && a[e].forEach(…)`: a set is no plain object and is not looked into, and a plain
  -- object has no `forEach`, so that the call throws.
  unfoldable pub has_plain : ℕ → List String → Bool
  unfolding is_object
  has_plain a [] = false
  has_plain a (e ∷ es) = is_object F (S.value_at a e) || has_plain a es

  unfoldable pub select_throws : Value Num → Bool
  unfolding has_plain
  select_throws (ref object a) = has_plain a (S.keys_of a)
  select_throws v = false

  unfoldable pub any_throws : Dict (Value Num) → Dict Expected → Bool
  unfolding select_throws read_value
  any_throws values [] = false
  any_throws values ((k, select_) ∷ api) =
      select_throws (read_value F values k) || any_throws values api
  any_throws values ((k, e) ∷ api) = any_throws values api

  -- A key of the selection that is no parameter.
  unfoldable pub missing_key : List String → Dict (Value Num) → Bool
  unfolding has
  missing_key [] compare = false
  missing_key (e ∷ es) compare = not (has e compare) || missing_key es compare

  unfoldable pub select_changed : Value Num → Dict (Value Num) → Bool
  unfolding missing_key
  select_changed (ref object a) compare = missing_key (S.keys_of a) compare
  select_changed v compare = false

  -- One round of the loop: whether it sets `r`.
  unfoldable pub entry_changed : Dict (Value Num) → Dict (Value Num) → String → Expected → Bool
  unfolding are_equal_feature_arrays select_changed read_value
  entry_changed values compare k react = false
  entry_changed values compare k callback = false
  entry_changed values compare k select_ = select_changed (read_value F values k) compare
  entry_changed values compare k data_ =
      elim (are_equal_feature_arrays (read_value F values k) (read_value F compare k)) [
        | some true ↦ true
        | _ ↦ false
      ]
  -- JSON.stringify(values[k]) !== JSON.stringify[k]
  entry_changed values compare k object_ = elim (S.stringify (read_value F values k)) [
    | none ↦ false
    | some s ↦ true
  ]
  entry_changed values compare k string =
      not (strict_eq F (read_value F values k) (read_value F compare k))
  entry_changed values compare k boolean =
      not (strict_eq F (read_value F values k) (read_value F compare k))

  unfoldable pub any_changed : Dict (Value Num) → Dict (Value Num) → Dict Expected → Bool → Bool
  unfolding entry_changed
  any_changed values compare [] r = r
  any_changed values compare ((k, e) ∷ api) r =
      any_changed values compare api (if entry_changed values compare k e then true else r)

  -- On two objects; on other values the function returns null. `none` is a TypeError.
  unfoldable pub has_api_changed : Dict (Value Num) → Dict (Value Num) → Option Bool
  unfolding any_throws any_changed
  has_api_changed values compare =
      if any_throws values tgve_api then none else some (any_changed values compare tgve_api false)

  any_changed-true :
      (values compare : Dict (Value Num)) (api : Dict Expected)
      → any_changed values compare api true ≡ true
  unfolding any_changed
  any_changed-true values compare [] = refl
  any_changed-true values compare ((k, e) ∷ api) =
      ground (arith, any_changed-true values compare api)

  -- What counts as a change of a parameter.
  abbrev pub Differs : Dict (Value Num) → Dict (Value Num) → String × Expected → Type 0
  Differs values compare (k, e) = elim e [
    | react ↦ ⊥
    | callback ↦ ⊥
    | select_ ↦
        (a : ℕ) × (j : String) × (read_value F values k ≡ ref object a)
        × In j (S.keys_of a)
        × (has j compare ≡ false)
    | data_ ↦ are_equal_feature_arrays (read_value F values k) (read_value F compare k) ≡ some true
    | object_ ↦ S.stringify (read_value F values k) ≢ none
    | string ↦ strict_eq F (read_value F values k) (read_value F compare k) ≡ false
    | boolean ↦ strict_eq F (read_value F values k) (read_value F compare k) ≡ false
  ]

  missing_key-In :
      (es : List String) (compare : Dict (Value Num))
      → missing_key es compare ≡ true
      → (j : String) × In j es × (has j compare ≡ false)
  unfolding missing_key
  missing_key-In [] compare h = cc
  missing_key-In (e ∷ es) compare h = elim (Bool-cases (has e compare)) [
    | inr q ↦ (e, inl refl, q)
    | inl q ↦ let (j, m, f) = missing_key-In es compare (ground arith) in (j, inr m, f)
  ]

  In-missing_key :
      (es : List String) (compare : Dict (Value Num)) (j : String)
      → In j es
      → has j compare ≡ false
      → missing_key es compare ≡ true
  unfolding missing_key
  In-missing_key [] compare j m h = elim m [ ]
  In-missing_key (e ∷ es) compare j (inl p) h = ground (arith, ap (λ u. has u compare) p)
  In-missing_key (e ∷ es) compare j (inr m) h = ground (arith, In-missing_key es compare j m h)

  is_some-true :
      (o : Option Bool) → (elim o [ some true ↦ true | _ ↦ false ] ≡ true) ↔ (o ≡ some true)
  is_some-true none = (λ h. cc, λ h. cc)
  is_some-true (some true) = (λ h. refl, λ h. refl)
  is_some-true (some false) = (λ h. cc, λ h. cc)

  select_changed-In :
      (v : Value Num) (compare : Dict (Value Num))
      → (select_changed v compare ≡ true) ↔ (
          (a : ℕ) × (j : String) × (v ≡ ref object a)
          × In j (S.keys_of a)
          × (has j compare ≡ false))
  unfolding select_changed
  select_changed-In (ref object a) compare = (
    λ h. let (j, m, f) = missing_key-In (S.keys_of a) compare h in (a, j, refl, m, f),
    λ h.
        let (b, j, p, m, f) = h in
        let same : a ≡ b = cc p in
        In-missing_key (S.keys_of a) compare j (subst (λ u. In j (S.keys_of u)) (sym same) m) f,
  )
  select_changed-In v compare = (λ h. ground arith, λ h. let (b, j, p, m, f) = h in ground arith)

  entry_changed-Differs :
      (values compare : Dict (Value Num)) (k : String) (e : Expected)
      → (entry_changed values compare k e ≡ true) ↔ Differs values compare (k, e)
  unfolding entry_changed
  entry_changed-Differs values compare k react = (λ h. cc, λ h. absurd h)
  entry_changed-Differs values compare k callback = (λ h. cc, λ h. absurd h)
  entry_changed-Differs values compare k string = (λ h. ground arith, λ h. ground arith)
  entry_changed-Differs values compare k boolean = (λ h. ground arith, λ h. ground arith)
  entry_changed-Differs values compare k object_ = at (S.stringify (read_value F values k)) refl
    where
      at :
          (o : Option String)
          → S.stringify (read_value F values k) ≡ o
          → (entry_changed values compare k object_ ≡ true) ↔ Differs values compare (k, object_)
      at none e = (λ h. absurd (ground arith), λ h. absurd (h e))
      at (some s) e = (λ h n. cc (e, n), λ h. ground arith)
  entry_changed-Differs values compare k data_ =
      is_some-true (are_equal_feature_arrays (read_value F values k) (read_value F compare k))
  entry_changed-Differs values compare k select_ = select_changed-In (read_value F values k) compare

  any_changed_iff :
      (values compare : Dict (Value Num)) (api : Dict Expected) (r : Bool)
      → (any_changed values compare api r ≡ true)
        ↔ ((r ≡ true) ⊎ ((c : String × Expected) × In c api × Differs values compare c))
  unfolding any_changed
  any_changed_iff values compare [] r =
      (λ h. inl h, λ h. elim h [ inl q ↦ q | inr (c, m, d) ↦ elim m [ ] ])
  any_changed_iff values compare ((k, e) ∷ api) r =
      let (there, back) =
        any_changed_iff values compare api (if entry_changed values compare k e then true else r) in
      let (seen, sets) = entry_changed-Differs values compare k e in
      (
        λ h. elim (there h) [
          | inl q ↦ elim (Bool-cases (entry_changed values compare k e)) [
            | inl t ↦ inr ((k, e), inl refl, seen t)
            | inr f ↦ inl (rw f at q)
          ]
          | inr (c, m, d) ↦ inr (c, inr m, d)
        ],
        λ h. elim h [
          | inl q ↦ back (inl (ground arith))
          | inr (c, inl p, d) ↦
              back (inl (if_true _ true r (sets (subst (Differs values compare) p d))))
          | inr (c, inr m, d) ↦ back (inr (c, m, d))
        ],
      )

  has_plain-In :
      (a : ℕ) (es : List String)
      → (has_plain a es ≡ true) ↔ ((j : String) × In j es × (is_object F (S.value_at a j) ≡ true))
  unfolding has_plain
  has_plain-In a [] = (λ h. cc, λ h. elim (h.1) [ ])
  has_plain-In a (e ∷ es) = elim (Bool-cases (is_object F (S.value_at a e))) [
    | inl p ↦ rw p (λ h. (e, inl refl, p), λ h. refl)
    | inr p ↦ rw p (
      λ h. let (j, m, q) = (has_plain-In a es).0 h in (j, inr m, q),
      λ h.
          let (j, m, q) = h in
          elim m [
            | inl w ↦
                absurd (false≢true (sym p ∙ ap (λ u. is_object F (S.value_at a u)) (sym w) ∙ q))
            | inr n ↦ (has_plain-In a es).1 (j, n, q)
          ],
    )
  ]

  -- A selection that has a plain object where a set should be.
  abbrev pub IsMalformed : Value Num → Type 0
  IsMalformed v =
      (a : ℕ) × (v ≡ ref object a)
      × ((j : String) × In j (S.keys_of a) × (is_object F (S.value_at a j) ≡ true))

  select_throws-IsMalformed : (v : Value Num) → (select_throws v ≡ true) ↔ IsMalformed v
  unfolding select_throws
  select_throws-IsMalformed (ref object a) = (
    λ h. (a, refl, (has_plain-In a (S.keys_of a)).0 h),
    λ h.
        let (b, p, r) = h in
        let same : b ≡ a = cc p in
        (has_plain-In a (S.keys_of a)).1 (
          subst (λ u. (j : String) × In j (S.keys_of u) × (is_object F (S.value_at u j) ≡ true))
            same r),
  )
  select_throws-IsMalformed v = (λ h. ground arith, λ h. let (b, p, r) = h in ground arith)

  any_throws-IsMalformed :
      (values : Dict (Value Num))
      → (any_throws values tgve_api ≡ true) ↔ IsMalformed (read_value F values "select")
  unfolding any_throws
  any_throws-IsMalformed values =
      let (there, back) = select_throws-IsMalformed (read_value F values "select") in
      (λ h. there (ground arith), λ h. rw (back h) refl)

  -- `hasAPIChanged` of two objects throws exactly if the selection has a plain object where a set should
  -- be. It is true exactly if it does not throw and some parameter differs: a text or a flag that is not
  -- the same; two arrays of data that look equal; an object whose text is not undefined; a column of
  -- the selection that is no key of the other object.
  pub has_api_changed_iff :
      (values compare : Dict (Value Num))
      → ((has_api_changed values compare ≡ none) ↔ IsMalformed (read_value F values "select"))
        × ((has_api_changed values compare ≡ some true) ↔ (
            ¬ (IsMalformed (read_value F values "select"))
            × ((c : String × Expected) × In c tgve_api × Differs values compare c)))
  unfolding has_api_changed
  has_api_changed_iff values compare =
      let (there, back) = any_changed_iff values compare tgve_api false in
      let (bad, throws) = any_throws-IsMalformed values in
      elim (Bool-cases (any_throws values tgve_api)) [
        | inl e ↦ rw e ((λ h. bad e, λ h. refl), (λ h. cc, λ h. absurd (h.0 (bad e))))
        | inr e ↦ rw e (
          (λ h. cc, λ h. absurd (false≢true (sym e ∙ throws h))),
          (
            λ h. (
              λ m. false≢true (sym e ∙ throws m),
              elim (there (some_inj h)) [ inl q ↦ absurd (false≢true q) | inr d ↦ d ],
            ),
            λ h. ap some (back (inr h.1)),
          ),
        )
      ]
