-- ===== src/Home/Loading/Quiet.antt =====
-- The alerts of loading with the URL of a geography, in src/home/index.js.
use tgvejs.Prelude.{
  String, ◌≡◌, refl, sym, ap, subst, ◌⊎◌, inl, inr, Bool, true, not, ◌&&◌, Option, none, some, List,
  [], ◌∷◌, ◌++◌, All, str_eq, Bool-cases, Option-cases,
}
use tgvejs.Geojson.{FeatureCollection}
use tgvejs.Home.Loading.{
  Alert, could_not_reach, Props, Request, for_data, for_geography, State, constructed,
  fetch_and_update_state, has_features, init_data_state, update_state_and_layers, answer,
}
use tgvejs.Home.Loading.Runs.{Step, init, answered, init-fetch, on_data-send}

module _ {A : Type 0} (P : A → Type 0) where
  All-snoc : (xs : List A) (x : A) → All P xs → P x → All P (xs ++ x ∷ [])
  All-snoc [] x h p = (p, tt)
  All-snoc (y ∷ ys) x h p = (h.0, All-snoc ys x h.1 p)

  -- The element in the middle, and the others.
  All-middle : (xs : List A) (x : A) (ys : List A) → All P (xs ++ x ∷ ys) → P x × All P (xs ++ ys)
  All-middle [] x ys h = h
  All-middle (z ∷ zs) x ys h = let (p, q) = All-middle zs x ys h.1 in (p, (h.0, q))

module _ (N : Type 0) (is_url : String → Bool) (p : Props N is_url) where
  -- The states that come of one and the same props.
  pub data Stays : State N is_url → Type 0 where
    begins : Stays (init_data_state N is_url p (constructed N is_url))
    follows : {s t : State N is_url} → Stays s → Step N is_url p s t → Stays t

  -- An alert is about the geography, if there is one.
  abbrev pub IsAbout : String → Option Alert → Type 0
  IsAbout u a = (a ≡ none) ⊎ (a ≡ some (could_not_reach u))

  abbrev IsPlain : String → Request N is_url → Type 0
  IsPlain u (for_data url c) = c ≡ none
  IsPlain u (for_geography url d c) = (url ≡ u) × (c ≡ none)

  abbrev Quiet : String → State N is_url → Type 0
  Quiet u s = IsAbout u s.alert × All (IsPlain u) s.pending

  fetch-Quiet :
      (u url : String) (s : State N is_url)
      → Quiet u s
      → Quiet u (fetch_and_update_state N is_url url none s)
  unfolding fetch_and_update_state
  fetch-Quiet u url s h = elim (Bool-cases (not (str_eq url "") && not (is_url url))) [
    | inl e ↦ rw e h
    | inr e ↦ rw e (h.0, All-snoc (IsPlain u) s.pending (for_data url none) h.1 refl)
  ]

  init-Quiet :
      (u : String) (s : State N is_url) → Quiet u s → Quiet u (init_data_state N is_url p s)
  unfolding init_data_state
  init-Quiet u s h = elim (Bool-cases (has_features N is_url p.data_prop)) [
    | inl e ↦ rw (init_data_state, e) h
    | inr e ↦ elim (Option-cases p.default_url) [
      | inl d ↦ rw (init_data_state, e, d) h
      | inr (url, d) ↦ elim (Bool-cases (str_eq url "")) [
        | inl z ↦ rw (init_data_state, e, d, z) h
        | inr z ↦ subst (Quiet u) (sym (init-fetch N is_url p s url e d z)) (fetch-Quiet u url s h)
      ]
    ]
  ]

  module _ (u : String) (named : p.geography_url ≡ some u) (valid : is_url u ≡ true) where
    answer-Quiet :
        (r : Request N is_url) (result : Option (FeatureCollection N)) (s : State N is_url)
        → IsPlain u r
        → Quiet u s
        → Quiet u (answer N is_url p r result s)
    unfolding answer update_state_and_layers
    answer-Quiet (for_data url c) result s q h =
        subst (Quiet u) (sym (on_data-send N is_url p url u c result s named valid))
          (h.0, All-snoc (IsPlain u) s.pending (for_geography u result c) h.1 (refl, q))
    answer-Quiet (for_geography url d c) (some g) s q h = (inl q.1, h.1)
    answer-Quiet (for_geography url d c) none s q h =
        (inr (ap (λ w. some (could_not_reach w)) q.0), h.1)

    Step-Quiet : (s t : State N is_url) → Step N is_url p s t → Quiet u s → Quiet u t
    Step-Quiet s t (init w) h = init-Quiet u s h
    Step-Quiet s t (answered w before after r result e) h =
        let (q, rest) = All-middle (IsPlain u) before r after (subst (All (IsPlain u)) e h.1) in
        answer-Quiet r result (record s { pending = before ++ after }) q (h.0, rest)

    Stays-Quiet : (s : State N is_url) → Stays s → Quiet u s
    Stays-Quiet s begins = init-Quiet u (constructed N is_url) (inl refl, tt)
    Stays-Quiet s (follows {s = w} r m) = Step-Quiet w s m (Stays-Quiet w r)

  -- While the props stay the same and name a valid URL of a geography, and the user gives no other
  -- data, loading sets no alert but that this URL could not be reached, whatever the answers to the
  -- requests are and in which order they come: an error in loading the data makes no alert. (What
  -- generateLayer itself may show, when loading calls it, is not part of this.)
  pub alert-IsAbout :
      (u : String) (s : State N is_url)
      → p.geography_url ≡ some u
      → is_url u ≡ true
      → Stays s
      → IsAbout u s.alert
  alert-IsAbout u s named valid r = (Stays-Quiet u named valid s r).0
