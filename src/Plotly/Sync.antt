-- ===== src/Plotly/Sync.antt =====
-- `syncEventHandlers` brings the handlers and the listeners in step with the props.
use tgvejs.Prelude.{
  ℕ, ◌+◌, String, ◌≡◌, refl, sym, ap, subst, ◌∙◌, false, ◌==◌, ==_iff, Option, none, some, List, [],
  ◌∷◌, ◌⊎◌, inl, inr, In, All, All-self, str_eq, eq_iff, eq_refl, arith, Bool-cases, if◌then◌else◌,
}
use tgvejs.Js.Dict.{get, get-put, get-remove}
use tgvejs.Plotly.{
  Emitter, Props, Component, event_names, plotly_name, add_event_handler, remove_event_handler,
  sync_event, sync_events, sync_event_handlers,
}
use tgvejs.Plotly.Names.{plotly_name_test}

-- How often a handler is to be registered, for what stands under its event.
abbrev pub holds : Option ℕ → ℕ → ℕ
holds none h = 0
holds (some k) h = if k == h then 1 else 0

module _ (P : Emitter) where
  open P use {El}

  -- Every event's handler is registered once, on top of what others have registered.
  abbrev pub Balanced : (String → ℕ → ℕ) → Component P → Type 0
  Balanced base s =
      (e : String)
      → In e event_names
      → (h : ℕ) → P.count s.el (plotly_name e) h ≡ base e h + holds (get e s.handlers) h

  module _ (e : String) where
    remove_event_handler-get :
        (s : Component P) → get e (remove_event_handler P e s).handlers ≡ none
    unfolding remove_event_handler
    remove_event_handler-get s = ground (arith, get-remove e e s.handlers, eq_refl e)

    -- The four branches of the loop's body.
    get-remove_event :
        (f : String) (s : Component P)
        → get f (remove_event_handler P e s).handlers
          ≡ (if str_eq e f then none else get f s.handlers)
    unfolding remove_event_handler
    get-remove_event f s =
        ground
          (arith, get-remove e f s.handlers, eq_iff e f, ap (λ u. get u s.handlers) {x = e} {y = f})

    pub sync_event_idle :
        (p : Props) (s : Component P) → p.on e ≡ get e s.handlers → sync_event P p s e ≡ s
    unfolding sync_event
    sync_event_idle p s q = at (p.on e) refl (get e s.handlers) refl
      where
        at :
            (o : Option ℕ)
            → p.on e ≡ o
            → (g : Option ℕ) → get e s.handlers ≡ g
            → sync_event P p s e ≡ s
        at none a none b = rw (a, b, sync_event) refl
        at none a (some h) b = absurd (cc (a, b, q))
        at (some k) a none b = absurd (cc (a, b, q))
        at (some k) a (some h) b = rw (a, b, sync_event) (rw ((==_iff k h).1 (cc (a, b, q))) refl)

    sync_event_gone :
        (p : Props) (s : Component P) (h : ℕ)
        → p.on e ≡ none
        → get e s.handlers ≡ some h
        → sync_event P p s e ≡ remove_event_handler P e s
    unfolding sync_event
    sync_event_gone p s h a b = rw (a, b, sync_event) refl

    sync_event_new :
        (p : Props) (s : Component P) (k : ℕ)
        → p.on e ≡ some k
        → get e s.handlers ≡ none
        → sync_event P p s e ≡ add_event_handler P e k s
    unfolding sync_event
    sync_event_new p s k a b = rw (a, b, sync_event) refl

    sync_event_other :
        (p : Props) (s : Component P) (k h : ℕ)
        → p.on e ≡ some k
        → get e s.handlers ≡ some h
        → (k == h) ≡ false
        → sync_event P p s e ≡ add_event_handler P e k (remove_event_handler P e s)
    unfolding sync_event
    sync_event_other p s k h a b t = rw (a, b, sync_event) (rw t refl)

    SyncCase : Props → Component P → Type 0
    SyncCase p s =
        ((p.on e ≡ get e s.handlers) × (sync_event P p s e ≡ s))
        ⊎ ((p.on e ≡ none) × (sync_event P p s e ≡ remove_event_handler P e s))
        ⊎ ((k : ℕ) × (p.on e ≡ some k)
            × (get e s.handlers ≡ none)
            × (sync_event P p s e ≡ add_event_handler P e k s))
        ⊎ ((k : ℕ) × (p.on e ≡ some k)
            × (sync_event P p s e ≡ add_event_handler P e k (remove_event_handler P e s)))

    sync_event_cases : (p : Props) (s : Component P) → SyncCase p s
    unfolding SyncCase
    sync_event_cases p s = at (p.on e) refl (get e s.handlers) refl
      where
        at : (o : Option ℕ) → p.on e ≡ o → (g : Option ℕ) → get e s.handlers ≡ g → SyncCase p s
        at none a none b = inl (a ∙ sym b, sync_event_idle p s (a ∙ sym b))
        at none a (some h) b = inr (inl (a, sync_event_gone p s h a b))
        at (some k) a none b = inr (inr (inl (k, a, b, sync_event_new p s k a b)))
        at (some k) a (some h) b = elim (Bool-cases (k == h)) [
          | inl t ↦
              let q : p.on e ≡ get e s.handlers = a ∙ ap some ((==_iff k h).0 t) ∙ sym b in
              inl (q, sync_event_idle p s q)
          | inr t ↦ inr (inr (inr (k, a, sync_event_other p s k h a b t)))
        ]

    -- What stands under an event after a pass for `e`.
    get-sync_event :
        (p : Props) (s : Component P) (f : String)
        → get f (sync_event P p s e).handlers ≡ (if str_eq e f then p.on f else get f s.handlers)
    unfolding SyncCase add_event_handler
    get-sync_event p s f = elim (sync_event_cases p s) [
      | inl (q, z) ↦ rw z (
          ground (
            arith,
            eq_iff e f,
            ap p.on {x = e} {y = f},
            ap (λ u. get u s.handlers) {x = e} {y = f},
          ))
      | inr (inl (q, z)) ↦
          rw z (ground (arith, eq_iff e f, ap p.on {x = e} {y = f}, get-remove_event f s))
      | inr (inr (inl (k, a, g, z))) ↦
          rw z (ground (arith, eq_iff e f, ap p.on {x = e} {y = f}, get-put e f k s.handlers))
      | inr (inr (inr (k, a, z))) ↦ rw z (
          ground (
            arith,
            eq_iff e f,
            ap p.on {x = e} {y = f},
            get-remove_event f s,
            get-put e f k (remove_event_handler P e s).handlers,
          ))
    ]

  module _ (base : String → ℕ → ℕ) (e : String) (listed : In e event_names) where
    add-Balanced :
        (prop : ℕ) (s : Component P)
        → get e s.handlers ≡ none
        → Balanced base s
        → Balanced base (add_event_handler P e prop s)
    unfolding add_event_handler
    add-Balanced prop s free b f m h = ground (
      arith,
      b f m h,
      P.count-on (plotly_name e) (plotly_name f) prop h s.el,
      get-put e f prop s.handlers,
      plotly_name_test e f listed m,
      eq_iff e f,
      ap (λ u. get u s.handlers) {x = e} {y = f},
    )

    remove-Balanced :
        (s : Component P) → Balanced base s → Balanced base (remove_event_handler P e s)
    unfolding remove_event_handler
    remove-Balanced s b f m h = at (get e s.handlers) refl
      where
        at :
            (o : Option ℕ)
            → get e s.handlers ≡ o
            → P.count (remove_event_handler P e s).el (plotly_name f) h
              ≡ base f h + holds (get f (remove_event_handler P e s).handlers) h
        at none q = rw (q, remove_event_handler) (b f m h)
        at (some k) q = ground (
          arith,
          b f m h,
          P.count-remove_listener (plotly_name e) (plotly_name f) k h s.el,
          get-remove e f s.handlers,
          plotly_name_test e f listed m,
          eq_iff e f,
          ap (λ u. get u s.handlers) {x = e} {y = f},
        )

    sync_event-Balanced :
        (p : Props) (s : Component P) → Balanced base s → Balanced base (sync_event P p s e)
    unfolding SyncCase
    sync_event-Balanced p s b = elim (sync_event_cases e p s) [
      | inl (q, z) ↦ subst (Balanced base) (sym z) b
      | inr (inl (q, z)) ↦ subst (Balanced base) (sym z) (remove-Balanced s b)
      | inr (inr (inl (k, a, g, z))) ↦ subst (Balanced base) (sym z) (add-Balanced k s g b)
      | inr (inr (inr (k, a, z))) ↦ subst (Balanced base) (sym z) (
          add-Balanced k (remove_event_handler P e s) (remove_event_handler-get e s)
            (remove-Balanced s b))
    ]

  module _ (p : Props) where
    sync_events-Balanced :
        (base : String → ℕ → ℕ) (s : Component P) (es : List String)
        → All (λ e. In e event_names) es
        → Balanced base s
        → Balanced base (sync_events P p s es)
    unfolding sync_events
    sync_events-Balanced base s [] l b = b
    sync_events-Balanced base s (e ∷ es) l b =
        sync_events-Balanced base (sync_event P p s e) es l.1 (sync_event-Balanced base e l.0 p s b)

    pub get-sync_events :
        (s : Component P) (f : String) (es : List String)
        → In f es ⊎ (get f s.handlers ≡ p.on f)
        → get f (sync_events P p s es).handlers ≡ p.on f
    unfolding sync_events
    get-sync_events s f [] (inl m) = elim m [ ]
    get-sync_events s f [] (inr h) = h
    get-sync_events s f (e ∷ es) m = get-sync_events (sync_event P p s e) f es (next m)
      where
        next :
            In f (e ∷ es) ⊎ (get f s.handlers ≡ p.on f)
            → In f es ⊎ (get f (sync_event P p s e).handlers ≡ p.on f)
        next (inl (inl q)) = inr (ground (arith, get-sync_event e p s f, eq_iff e f))
        next (inl (inr m)) = inl m
        next (inr h) = inr (ground (arith, get-sync_event e p s f))

  All-listed : All (λ e. In e event_names) event_names
  All-listed = All-self event_names

  -- After `syncEventHandlers` the handler of every event is the prop's, and each is registered on
  -- the element exactly once beside what others have registered there.
  pub sync_event_handlers_lem :
      (base : String → ℕ → ℕ) (p : Props) (s : Component P)
      → Balanced base s
      → (e : String) → In e event_names
      → (get e (sync_event_handlers P p s).handlers ≡ p.on e)
        × ((h : ℕ)
            → P.count (sync_event_handlers P p s).el (plotly_name e) h
              ≡ base e h + holds (p.on e) h)
  unfolding sync_event_handlers
  sync_event_handlers_lem base p s b e m =
      let got = get-sync_events p s e event_names (inl m) in
      (
        got,
        λ h.
            sync_events-Balanced p base s event_names All-listed b e m h
            ∙ ap (λ o. base e h + holds o h) got,
      )
