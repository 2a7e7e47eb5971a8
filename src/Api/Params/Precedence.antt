-- ===== src/Api/Params/Precedence.antt =====
-- Which source of a parameter comes first, and what `params` promises of the flags.
use tgvejs.Prelude.{
  String, ◌≡◌, ◌≢◌, refl, ap, sym, subst, ◌∙◌, ◌⊎◌, inl, inr, Bool, true, false, Option, none, some,
  [], ◌∷◌, str_eq, eq_iff, arith, Bool-cases, Option-cases,
}
use tgvejs.Js.{Value, undefined, bool, str, Floats, truthy}
use tgvejs.Js.Dict.{Dict, get}
use tgvejs.Api.Select.{Item, items, scalar}
use tgvejs.Api.Params.{
  Expected, boolean, string, item, tgve_api, Sources, bool_str, read_value, settings, env_value,
  usable_prop, converted, api_value, expected, param_of, collect, params,
}

module _ (F : Floats) where
  open F use {Num}

  get-collect :
      (s : Sources F) (k : String) (e : Expected) (api : Dict Expected)
      → get k api ≡ some e
      → get k (collect F s api) ≡ some (param_of F s k e)
  unfolding collect get
  get-collect s k e [] h = cc
  get-collect s k e ((j, x) ∷ api) h = elim (Bool-cases (str_eq j k)) [
    | inl q ↦
        let same = (eq_iff j k).0 q in
        let here : some x ≡ some e = rw q at h in rw q (cc (same, here))
    | inr q ↦ rw q (get-collect s k e api (rw q at h))
  ]

  get-params :
      (s : Sources F) (k : String) (e : Expected)
      → get k tgve_api ≡ some e
      → get k (params F s) ≡ some (param_of F s k e)
  unfolding params
  get-params s k e h = get-collect s k e tgve_api h

  -- A Boolean, or undefined.
  abbrev pub IsFlag : Value Num → Type 0
  IsFlag v = ((b : Bool) × (v ≡ bool b)) ⊎ (v ≡ undefined)

  Flagged : Item F → Type 0
  Flagged i = (v : Value Num) × (i ≡ scalar v) × IsFlag v

  bool_str-IsFlag : (i : Item F) → IsFlag (bool_str F i)
  unfolding bool_str
  bool_str-IsFlag (items vs) = inr refl
  bool_str-IsFlag (scalar (str s)) = elim (Bool-cases (str_eq s "true")) [
    | inl e ↦ rw e (inl (true, refl))
    | inr e ↦ elim (Bool-cases (str_eq s "false")) [
      | inl f ↦ rw (e, f) (inl (false, refl))
      | inr f ↦ rw (e, f) (inr refl)
    ]
  ]
  bool_str-IsFlag (scalar v) = inr refl

  converted-Flagged : (i : Item F) → Flagged (converted F true i)
  unfolding converted Flagged
  converted-Flagged i = (bool_str F i, refl, bool_str-IsFlag i)

  usable_prop-Flagged : (v : Value Num) → usable_prop F true v ≡ true → Flagged (scalar v)
  unfolding usable_prop Flagged
  usable_prop-Flagged (bool b) h = (bool b, refl, inl (b, refl))
  usable_prop-Flagged v h = ground arith

  undefined-Flagged : Flagged (scalar undefined)
  unfolding Flagged
  undefined-Flagged = (undefined, refl, inr refl)

  module _ (b : Bool) (s : Sources F) (k : String) where
    value_of_query :
        (v : Value Num) → get k s.query ≡ some v → api_value F b s k ≡ converted F b (scalar v)
    unfolding api_value
    value_of_query v e = ground arith

    value_of_prop :
        get k s.query ≡ none
        → usable_prop F b (read_value F s.props k) ≡ true
        → api_value F b s k ≡ scalar (read_value F s.props k)
    unfolding api_value
    value_of_prop e u = ground arith

    value_of_setting :
        (v : Item F)
        → get k s.query ≡ none
        → usable_prop F b (read_value F s.props k) ≡ false
        → get k (settings F s) ≡ some v
        → api_value F b s k ≡ converted F b v
    unfolding api_value
    value_of_setting v e u f = ground arith

    value_of_env :
        get k s.query ≡ none
        → usable_prop F b (read_value F s.props k) ≡ false
        → get k (settings F s) ≡ none
        → api_value F b s k
          ≡ elim (env_value F s k) [ some v ↦ converted F b (scalar v) | none ↦ scalar undefined ]
    unfolding api_value
    value_of_env e u f = ground arith

  env-Flagged :
      (o : Option (Value Num))
      → Flagged (elim o [ some v ↦ converted F true (scalar v) | none ↦ scalar undefined ])
  env-Flagged (some v) = converted-Flagged (scalar v)
  env-Flagged none = undefined-Flagged

  api_value-Flagged : (s : Sources F) (k : String) → Flagged (api_value F true s k)
  api_value-Flagged s k = elim (Option-cases (get k s.query)) [
    | inr (v, e) ↦ subst Flagged (sym (value_of_query true s k v e)) (converted-Flagged (scalar v))
    | inl e ↦ elim (Bool-cases (usable_prop F true (read_value F s.props k))) [
      | inl u ↦
          subst Flagged (sym (value_of_prop true s k e u))
            (usable_prop-Flagged (read_value F s.props k) u)
      | inr u ↦ elim (Option-cases (get k (settings F s))) [
        | inr (v, f) ↦ subst Flagged (sym (value_of_setting true s k v e u f)) (converted-Flagged v)
        | inl f ↦ subst Flagged (sym (value_of_env true s k e u f)) (env-Flagged (env_value F s k))
      ]
    ]
  ]

  -- A parameter of type boolean is a Boolean or undefined, whatever the sources say, and `dark` is
  -- a Boolean in any case.
  params_flags :
      (s : Sources F) (k : String)
      → get k tgve_api ≡ some boolean
      → (v : Value Num) × (get k (params F s) ≡ some (item (scalar v)))
        × IsFlag v
        × ((str_eq k "dark" ≡ false) ⊎ (v ≢ undefined))
  unfolding param_of Flagged expected
  params_flags s k h =
      let (v, e, f) = api_value-Flagged s k in
      let here = get-params s k boolean h in
      elim (Bool-cases (str_eq k "dark")) [
        | inr q ↦ (v, here ∙ ground arith, f, inl q)
        | inl q ↦ elim f [
          | inl (b, p) ↦ (bool b, here ∙ ground arith, inl (b, refl), inr (λ x. cc))
          | inr p ↦ (bool true, here ∙ ground arith, inl (true, refl), inr (λ x. cc))
        ]
      ]

  prop_truthy : (v : Value Num) → usable_prop F false v ≡ truthy F v
  unfolding usable_prop
  prop_truthy v = refl

  module _ (s t : Sources F) (k : String) (e : get k s.query ≡ none) (f : get k t.query ≡ none)
      (p : read_value F s.props k ≡ read_value F t.props k) where
    same_by_prop :
        truthy F (read_value F s.props k) ≡ true → api_value F false s k ≡ api_value F false t k
    same_by_prop u =
        value_of_prop false s k e (prop_truthy (read_value F s.props k) ∙ u)
        ∙ ap scalar p
        ∙ sym (
            value_of_prop false t k f
              (prop_truthy (read_value F t.props k) ∙ ap (truthy F) (sym p) ∙ u))

    same_by_setting :
        (v : Item F)
        → get k (settings F s) ≡ some v
        → get k (settings F t) ≡ some v
        → truthy F (read_value F s.props k) ≡ false
        → api_value F false s k ≡ api_value F false t k
    same_by_setting v a b u =
        value_of_setting false s k v e (prop_truthy (read_value F s.props k) ∙ u) a
        ∙ sym (
            value_of_setting false t k v f
              (prop_truthy (read_value F t.props k) ∙ ap (truthy F) (sym p) ∙ u) b)

    same_with_setting :
        get k (settings F s) ≡ get k (settings F t)
        → get k (settings F s) ≢ none
        → api_value F false s k ≡ api_value F false t k
    same_with_setting r n = elim (Bool-cases (truthy F (read_value F s.props k))) [
      | inl u ↦ same_by_prop u
      | inr u ↦ elim (Option-cases (get k (settings F s))) [
        | inl g ↦ absurd (n g)
        | inr (v, g) ↦ same_by_setting v g (sym r ∙ g) u
      ]
    ]

  -- The first source that has the parameter is the same in both.
  abbrev pub SameFirst : Sources F → Sources F → String → Type 0
  SameFirst s t k =
      (get k s.query ≢ none)
      ⊎ ((read_value F s.props k ≡ read_value F t.props k)
          × (truthy F (read_value F s.props k) ≡ true))
      ⊎ ((read_value F s.props k ≡ read_value F t.props k)
          × (get k (settings F s) ≡ get k (settings F t))
          × (get k (settings F s) ≢ none))

  same_value :
      (s t : Sources F) (k : String)
      → get k s.query ≡ get k t.query
      → SameFirst s t k
      → api_value F false s k ≡ api_value F false t k
  same_value s t k q first = elim (Option-cases (get k s.query)) [
    | inr (v, e) ↦ value_of_query false s k v e ∙ sym (value_of_query false t k v (sym q ∙ e))
    | inl e ↦ elim first [
      | inl n ↦ absurd (n e)
      | inr (inl (p, u)) ↦ same_by_prop s t k e (sym q ∙ e) p u
      | inr (inr (p, r, n)) ↦ same_with_setting s t k e (sym q ∙ e) p r n
    ]
  ]

  -- The sources are looked at in order: the query, the props, the settings. A parameter that is a
  -- text does not depend on what the sources behind the first one that has it say.
  pub params_precedence :
      (s t : Sources F) (k : String)
      → get k tgve_api ≡ some string
      → get k s.query ≡ get k t.query
      → SameFirst s t k
      → get k (params F s) ≡ get k (params F t)
  unfolding param_of
  params_precedence s t k h q first =
      get-params s k string h
      ∙ ap (λ v. some (item v)) (same_value s t k q first)
      ∙ sym (get-params t k string h)
