-- ===== src/Home/Loading/Runs.antt =====
-- Runs of the loading of data: each answer to a request is a step.
use tgvejs.Prelude.{
  ℕ, ◌+◌, ◌<◌, String, ◌≡◌, ◌≢◌, refl, sym, subst, ap, ◌∙◌, ◌⊎◌, inl, inr, Bool, true, false, not,
  ◌&&◌, Option, none, some, List, [], ◌∷◌, ◌++◌, str_eq, arith, Bool-cases, Option-cases,
}
use tgvejs.Geojson.{FeatureCollection}
use tgvejs.Home.Loading.{
  Alert, invalid_url, Props, Request, for_data, for_geography, State, constructed, send,
  fetch_and_update_state, has_features, init_data_state, update_state_and_layers, init_with_geojson,
  on_data, or_alert, answer,
}

module _ (N : Type 0) (is_url : String → Bool) where
  abbrev without : List (Request N is_url) → State N is_url → State N is_url
  without rs s = record s { pending = rs }

  -- A step: the props have changed and the data is initialised again, or one of the requests, in
  -- any order, is answered, with data or an error.
  pub data Step (p : Props N is_url) : State N is_url → State N is_url → Type 0 where
    init : (s : State N is_url) → Step p s (init_data_state N is_url p s)
    answered :
        (s : State N is_url) (before after : List (Request N is_url)) (r : Request N is_url)
        (result : Option (FeatureCollection N))
        → s.pending ≡ before ++ r ∷ after
        → Step p s (answer N is_url p r result (record s { pending = before ++ after }))

  -- The states that a component comes to once it is mounted; the props may change at any time.
  pub data Reached : State N is_url → Type 0 where
    mounted : (p : Props N is_url) → Reached (init_data_state N is_url p (constructed N is_url))
    next : {s t : State N is_url} (p : Props N is_url) → Reached s → Step p s t → Reached t

  -- The spinner is off, or there is something to wait for.
  abbrev pub Waits : State N is_url → Type 0
  Waits s = (s.loading ≡ false) ⊎ (s.pending ≢ [])

  snoc≢nil : {A : Type 0} (xs : List A) (x : A) → xs ++ x ∷ [] ≢ []
  snoc≢nil [] x h = cc
  snoc≢nil (y ∷ ys) x h = cc

  fetch-Waits :
      (url : String) (c : Option Alert) (s : State N is_url)
      → Waits (fetch_and_update_state N is_url url c s)
  unfolding fetch_and_update_state
  fetch-Waits url c s = elim (Bool-cases (not (str_eq url "") && not (is_url url))) [
    | inl e ↦ inl (ground arith)
    | inr e ↦ rw e (inr (snoc≢nil s.pending (for_data url c)))
  ]

  pub init-fetch :
      (p : Props N is_url) (s : State N is_url) (url : String)
      → has_features N is_url p.data_prop ≡ false
      → p.default_url ≡ some url
      → str_eq url "" ≡ false
      → init_data_state N is_url p s ≡ fetch_and_update_state N is_url url none s
  unfolding init_data_state
  init-fetch p s url e d z = ground arith

  init_data_state-Waits :
      (p : Props N is_url) (s : State N is_url) → Waits (init_data_state N is_url p s)
  unfolding init_data_state
  init_data_state-Waits p s = elim (Bool-cases (has_features N is_url p.data_prop)) [
    | inl e ↦ inl (ground arith)
    | inr e ↦ elim (Option-cases p.default_url) [
      | inl d ↦ inl (ground arith)
      | inr (url, d) ↦ elim (Bool-cases (str_eq url "")) [
        | inl z ↦ inl (ground arith)
        | inr z ↦ subst Waits (sym (init-fetch p s url e d z)) (fetch-Waits url none s)
      ]
    ]
  ]

  shown-Waits :
      (c : Option Alert) (url : String) (result : Option (FeatureCollection N)) (s : State N is_url)
      → (init_with_geojson N is_url result c url s).loading ≡ false
  unfolding init_with_geojson
  shown-Waits c url (some d) s = refl
  shown-Waits c url none s = refl

  pub on_data-send :
      (p : Props N is_url) (url u : String) (c : Option Alert)
      (result : Option (FeatureCollection N)) (s : State N is_url)
      → p.geography_url ≡ some u
      → is_url u ≡ true
      → on_data N is_url p url c result s ≡ send N is_url (for_geography u result c) s
  unfolding on_data
  on_data-send p url u c result s e v = ground arith

  -- Without the URL of a geography, the data is shown, or the error.
  on_data-show :
      (p : Props N is_url) (url : String) (c : Option Alert) (result : Option (FeatureCollection N))
      (s : State N is_url)
      → ((u : String) → p.geography_url ≡ some u → is_url u ≡ false)
      → (d : Option Alert) × (on_data N is_url p url c result s
          ≡ init_with_geojson N is_url result d url s)
  unfolding on_data
  on_data-show p url c result s no_url = at p.geography_url refl
    where
      at :
          (o : Option String)
          → p.geography_url ≡ o
          → (d : Option Alert) × (on_data N is_url p url c result s
              ≡ init_with_geojson N is_url result d url s)
      at none e = (c, ground arith)
      at (some u) e =
          let v = no_url u e in
          elim (Bool-cases (str_eq u "")) [
            | inl z ↦ (c, ground arith)
            | inr z ↦ (or_alert N is_url c (invalid_url u), ground arith)
          ]

  -- A new request for the geography, or a result.
  on_data-cases :
      (p : Props N is_url) (url : String) (c : Option Alert) (result : Option (FeatureCollection N))
      (s : State N is_url)
      → ((u : String) × (on_data N is_url p url c result s
            ≡ send N is_url (for_geography u result c) s))
        ⊎ ((d : Option Alert) × (on_data N is_url p url c result s
              ≡ init_with_geojson N is_url result d url s))
  on_data-cases p url c result s = elim (Option-cases p.geography_url) [
    | inl e ↦ inr (on_data-show p url c result s (λ u f. absurd (cc (e, f))))
    | inr (u, e) ↦ elim (Bool-cases (is_url u)) [
      | inl v ↦ inl (u, on_data-send p url u c result s e v)
      | inr v ↦ inr (
          on_data-show p url c result s
            (λ w f. let same : u ≡ w = cc (e, f) in ap is_url (sym same) ∙ v))
    ]
  ]

  on_data-Waits :
      (p : Props N is_url) (url : String) (c : Option Alert) (result : Option (FeatureCollection N))
      (s : State N is_url)
      → Waits (on_data N is_url p url c result s)
  on_data-Waits p url c result s = elim (on_data-cases p url c result s) [
    | inl (u, e) ↦ subst Waits (sym e) (inr (snoc≢nil s.pending (for_geography u result c)))
    | inr (d, e) ↦ subst Waits (sym e) (inl (shown-Waits d url result s))
  ]

  answer-Waits :
      (p : Props N is_url) (r : Request N is_url) (result : Option (FeatureCollection N))
      (s : State N is_url)
      → Waits (answer N is_url p r result s)
  unfolding answer update_state_and_layers
  answer-Waits p (for_data url c) result s = on_data-Waits p url c result s
  answer-Waits p (for_geography url d c) (some g) s = inl refl
  answer-Waits p (for_geography url d c) none s = inl refl

  Step-Waits : (p : Props N is_url) {s t : State N is_url} → Step p s t → Waits t
  Step-Waits p (init s) = init_data_state-Waits p s
  Step-Waits p (answered s before after r result e) =
      answer-Waits p r result (record s { pending = before ++ after })

  Reached-Waits : {s : State N is_url} → Reached s → Waits s
  Reached-Waits (mounted p) = init_data_state-Waits p (constructed N is_url)
  Reached-Waits (next p r step) = Step-Waits p step

  -- A mounted component that waits for no answer does not show that it is loading, in whatever
  -- order its requests were answered.
  pub loading_ends : (s : State N is_url) → Reached s → s.pending ≡ [] → s.loading ≡ false
  loading_ends s r e = elim (Reached-Waits r) [ inl l ↦ l | inr n ↦ absurd (n e) ]

  -- The answers that are still to come: two for a request for data.
  abbrev pub to_come : List (Request N is_url) → ℕ
  to_come [] = 0
  to_come (for_data url c ∷ rs) = 2 + to_come rs
  to_come (for_geography url d c ∷ rs) = 1 + to_come rs

  to_come-append : (rs ts : List (Request N is_url)) → to_come (rs ++ ts) ≡ to_come rs + to_come ts
  to_come-append [] ts = omega arith
  to_come-append (for_data url c ∷ rs) ts = omega (arith, to_come-append rs ts)
  to_come-append (for_geography url d c ∷ rs) ts = omega (arith, to_come-append rs ts)

  shown-pending :
      (c : Option Alert) (url : String) (result : Option (FeatureCollection N)) (s : State N is_url)
      → (init_with_geojson N is_url result c url s).pending ≡ s.pending
  unfolding init_with_geojson
  shown-pending c url (some d) s = refl
  shown-pending c url none s = refl

  to_come-answer :
      (p : Props N is_url) (r : Request N is_url) (result : Option (FeatureCollection N))
      (s : State N is_url)
      → to_come (answer N is_url p r result s).pending < to_come s.pending + to_come (r ∷ [])
  unfolding answer update_state_and_layers
  to_come-answer p (for_data url c) result s = elim (on_data-cases p url c result s) [
    | inl (u, e) ↦ omega (
      arith,
      ap (λ (t : State N is_url). to_come t.pending) e,
      to_come-append s.pending (for_geography u result c ∷ []),
    )
    | inr (d, e) ↦ omega (
      arith,
      ap (λ (t : State N is_url). to_come t.pending) e,
      ap to_come (shown-pending d url result s),
    )
  ]
  to_come-answer p (for_geography url d c) (some g) s = omega arith
  to_come-answer p (for_geography url d c) none s = omega arith

  -- With each answer there are fewer to come, so that loading takes no more answers than that.
  pub answers_end :
      (p : Props N is_url) (s : State N is_url) (before after : List (Request N is_url))
      (r : Request N is_url) (result : Option (FeatureCollection N))
      → s.pending ≡ before ++ r ∷ after
      → to_come (answer N is_url p r result (record s { pending = before ++ after })).pending
        < to_come s.pending
  answers_end p s before after r result e = omega (
    arith,
    to_come-answer p r result (record s { pending = before ++ after }),
    ap to_come e,
    to_come-append before (r ∷ after),
    to_come-append before after,
    to_come-append (r ∷ []) after,
  )
