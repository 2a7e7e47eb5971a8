-- ===== src/Plotly/Lifecycle.antt =====
-- Mounting, updating and unmounting the Plotly component.
use tgvejs.Prelude.{
  ℕ, ◌+◌, ◌-◌, ◌<◌, String, ◌≡◌, refl, sym, ap, subst, false≢true, ◌∙◌, Bool, false, ◌&&◌, ◌==◌,
  Option, none, some, List, [], ◌∷◌, ◌++◌, ◌⊎◌, inl, inr, ◌↔◌, In, All, All-map, All-self, codes,
  text_eq, arith, Bool-cases, if◌then◌else◌,
}
use tgvejs.Js.Dict.{get}
use tgvejs.Plotly.{
  Emitter, Props, Component, event_names, update_events, sync_events, sync_event_handlers,
  sync_window_resize, remove_ref, register, unregister, attach_update_events, remove_update_events,
  then_react, then_sync, needs_update, component_will_unmount,
}
use tgvejs.Plotly.Sync.{sync_event_idle, get-sync_events}

module _ (P : Emitter) where
  open P use {El}

  sync_events_idle :
      (p : Props) (s : Component P) (es : List String)
      → All (λ e. p.on e ≡ get e s.handlers) es
      → sync_events P p s es ≡ s
  unfolding sync_events
  sync_events_idle p s [] h = refl
  sync_events_idle p s (e ∷ es) h =
      ap (λ t. sync_events P p t es) (sync_event_idle P e p s h.0) ∙ sync_events_idle p s es h.1

  -- A second `syncEventHandlers` under the same props changes nothing.
  sync_event_handlers_again :
      (p : Props) (s : Component P)
      → sync_event_handlers P p (sync_event_handlers P p s) ≡ sync_event_handlers P p s
  unfolding sync_event_handlers
  sync_event_handlers_again p s =
      let t = sync_events P p s event_names in
      sync_events_idle p t event_names (
        All-map (λ e. In e event_names) (λ e. p.on e ≡ get e t.handlers)
          (λ e m. sym (get-sync_events P p s e event_names (inl m))) event_names
          (All-self event_names))

  -- How often `h` is registered for an event by one round over the events `es`.
  times : ℕ → List String → List ℕ → ℕ → ℕ
  times u [] n h = 0
  times u (e ∷ es) n h = (if text_eq (codes e) n && u == h then 1 else 0) + times u es n h

  count-register :
      (u : ℕ) (es : List String) (el : El) (n : List ℕ) (h : ℕ)
      → P.count (register P u es el) n h ≡ P.count el n h + times u es n h
  unfolding register times
  count-register u [] el n h = omega arith
  count-register u (e ∷ es) el n h =
      omega (arith, count-register u es (P.on (codes e) u el) n h, P.count-on (codes e) n u h el)

  count-unregister :
      (u : ℕ) (es : List String) (el : El) (n : List ℕ) (h : ℕ)
      → P.count (unregister P u es el) n h ≡ P.count el n h - times u es n h
  unfolding unregister times
  count-unregister u [] el n h = omega arith
  count-unregister u (e ∷ es) el n h = omega (
    arith,
    count-unregister u es (P.remove_listener (codes e) u el) n h,
    P.count-remove_listener (codes e) n u h el,
  )

  -- `removeUpdateEvents` takes away exactly what `attachUpdateEvents` registered.
  pub remove_update_events-attach :
      (u : ℕ) (s : Component P) (n : List ℕ) (h : ℕ)
      → P.count (remove_update_events P u (attach_update_events P u s)).el n h ≡ P.count s.el n h
  unfolding remove_update_events attach_update_events
  remove_update_events-attach u s n h = omega (
    arith,
    count-unregister u update_events (register P u update_events s.el) n h,
    count-register u update_events s.el n h,
  )

  -- The window has the component's resize listener, if there is one, behind the others'; the
  -- next closure is new.
  abbrev with_handler : List ℕ → Option ℕ → List ℕ
  with_handler others none = others
  with_handler others (some h) = others ++ h ∷ []

  abbrev Below : ℕ → Option ℕ → Type 0
  Below n none = Unit
  Below n (some h) = h < n

  abbrev Apart : List ℕ → Option ℕ → Type 0
  Apart others none = Unit
  Apart others (some h) = All (λ k. (k == h) ≡ false) others

  pub record Listens (others : List ℕ) (s : Component P) : Type 0 where
    pub window : s.window ≡ with_handler others s.resize_handler
    pub foreign : Apart others s.resize_handler
    pub fresh : All (λ k. k < s.next) others

  remove_ref-last :
      (h : ℕ) (others : List ℕ)
      → All (λ k. (k == h) ≡ false) others
      → remove_ref h (others ++ h ∷ []) ≡ others
  unfolding remove_ref
  remove_ref-last h [] a = ground arith
  remove_ref-last h (k ∷ ks) a = ground (arith, a.0, remove_ref-last h ks a.1)

  ne_of_lt :
      (n : ℕ) (others : List ℕ) → All (λ k. k < n) others → All (λ k. (k == n) ≡ false) others
  ne_of_lt n [] h = tt
  ne_of_lt n (k ∷ ks) h = (ground (arith, h.0), ne_of_lt n ks h.1)

  lt_suc : (n : ℕ) (others : List ℕ) → All (λ k. k < n) others → All (λ k. k < n + 1) others
  lt_suc n [] h = tt
  lt_suc n (k ∷ ks) h = (omega (arith, h.0), lt_suc n ks h.1)

  listening : Bool → Component P → Component P
  listening invoke s = record s {
    resize_handler = some s.next;
    window = s.window ++ s.next ∷ [];
    next = s.next + 1;
    resizes = if invoke then s.resizes + 1 else s.resizes;
  }

  silent : ℕ → Component P → Component P
  silent h s = record s { resize_handler = none; window = remove_ref h s.window }

  listening-Listens :
      (invoke : Bool) (others : List ℕ) (s : Component P)
      → Listens others s
      → s.resize_handler ≡ none
      → Listens others (listening invoke s)
  unfolding listening
  listening-Listens invoke others s l q = record {
    window = ap (λ w. w ++ s.next ∷ []) (l.window ∙ ap (with_handler others) q);
    foreign = ne_of_lt s.next others l.fresh;
    fresh = lt_suc s.next others l.fresh;
  }

  silent-Listens :
      (h : ℕ) (others : List ℕ) (s : Component P)
      → Listens others s
      → s.resize_handler ≡ some h
      → Listens others (silent h s)
  unfolding silent
  silent-Listens h others s l q = record {
    window =
        ap (remove_ref h) (l.window ∙ ap (with_handler others) q)
        ∙ remove_ref-last h others (subst (Apart others) q l.foreign);
    foreign = tt;
    fresh = l.fresh;
  }

  -- `syncWindowResize` keeps the listeners in order, and afterwards the component listens exactly
  -- if the prop `useResizeHandler` says so.
  pub sync_window_resize-Listens :
      (p : Props) (invoke : Bool) (others : List ℕ) (s : Component P)
      → Listens others s
      → Listens others (sync_window_resize P p invoke s)
        × (((sync_window_resize P p invoke s).resize_handler ≡ none)
            ↔ (p.use_resize_handler ≡ false))
  unfolding sync_window_resize listening silent
  sync_window_resize-Listens p invoke others s l = at s.resize_handler refl
    where
      at :
          (o : Option ℕ)
          → s.resize_handler ≡ o
          → Listens others (sync_window_resize P p invoke s)
            × (((sync_window_resize P p invoke s).resize_handler ≡ none)
                ↔ (p.use_resize_handler ≡ false))
      at none q = elim (Bool-cases p.use_resize_handler) [
        | inl u ↦
            let z : sync_window_resize P p invoke s ≡ listening invoke s = ground arith in
            rw z (
              listening-Listens invoke others s l q,
              (λ h. cc, λ h. absurd (false≢true (sym h ∙ u))),
            )
        | inr u ↦
            let z : sync_window_resize P p invoke s ≡ s = ground arith in rw z (l, (λ h. u, λ h. q))
      ]
      at (some k) q = elim (Bool-cases p.use_resize_handler) [
        | inl u ↦
            let z : sync_window_resize P p invoke s ≡ s = ground arith in
            rw z (l, (λ h. absurd (cc (q, h)), λ h. absurd (false≢true (sym h ∙ u))))
        | inr u ↦
            let z : sync_window_resize P p invoke s ≡ silent k s = ground arith in
            rw z (silent-Listens k others s l q, (λ h. u, λ h. refl))
      ]

  unmount-window :
      (u : ℕ) (p : Props) (others : List ℕ) (s : Component P)
      → Listens others s
      → (component_will_unmount P u p s).window ≡ others
  unfolding component_will_unmount
  unmount-window u p others s l = at s.resize_handler refl
    where
      at : (o : Option ℕ) → s.resize_handler ≡ o → (component_will_unmount P u p s).window ≡ others
      at none q = let w = l.window ∙ ap (with_handler others) q in ground arith
      at (some h) q =
          let w =
            ap (remove_ref h) (l.window ∙ ap (with_handler others) q)
            ∙ remove_ref-last h others (subst (Apart others) q l.foreign) in
          ground arith

  -- Unmounting takes the resize listener off the window and leaves the others, calls `onPurge`, and
  -- an update that was still on its way then changes nothing.
  pub component_will_unmount_lem :
      (u : ℕ) (p q : Props) (others : List ℕ) (s : Component P) (react : El → Option El)
      (invoke attach : Bool) (callback : Option ℕ)
      → Listens others s
      → ((component_will_unmount P u p s).window ≡ others)
        × ((component_will_unmount P u p s).resize_handler ≡ none)
        × ((component_will_unmount P u p s).calls
            ≡ elim p.on_purge [ none ↦ s.calls | some f ↦ f ∷ s.calls ])
        × (then_react P react (component_will_unmount P u p s)
            ≡ some (component_will_unmount P u p s))
        × (then_sync P u q invoke callback attach (component_will_unmount P u p s)
            ≡ component_will_unmount P u p s)
  unfolding component_will_unmount then_react then_sync
  component_will_unmount_lem u p q others s react invoke attach callback l =
      (unmount-window u p others s l, ground arith, ground arith, ground arith, ground arith)

-- An update is skipped exactly when the figure is the same and there is no revision, or the same.
needs_update_iff :
    (prev p : Props)
    → (needs_update prev p ≡ false) ↔ (
        (prev.layout ≡ p.layout)
        × (prev.traces ≡ p.traces)
        × (prev.config ≡ p.config)
        × (prev.frames ≡ p.frames)
        × ((prev.revision ≡ none) ⊎ (prev.revision ≡ p.revision)))
unfolding needs_update
needs_update_iff prev p = (λ h. ground arith, λ h. ground arith)
