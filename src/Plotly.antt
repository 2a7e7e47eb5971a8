-- ===== src/Plotly.antt =====
-- src/components/showcases/factory.js: the React component that keeps a Plotly element, the event
-- handlers on it and the resize listener of the window in step with its props.
pub mod Names
pub mod Sync
pub mod Lifecycle
use tgvejs.Prelude.{
  ℕ, suc, ◌+◌, ◌-◌, String, ◌≡◌, Bool, true, false, not, ◌&&◌, ◌||◌, ◌==◌, Option, none, some, List,
  [], ◌∷◌, ◌++◌, codes, map, leb, text_eq, if◌then◌else◌,
}
use tgvejs.Js.Dict.{Dict, get, put, remove}

-- The element that Plotly draws on, an event emitter: `count` says how often a handler is
-- registered for an event. `on` registers it once more; `removeListener` takes one registration
-- away.
pub record Emitter : Type 1 where
  pub El : Type 0
  pub count : El → List ℕ → ℕ → ℕ
  pub on : List ℕ → ℕ → El → El
  pub remove_listener : List ℕ → ℕ → El → El
  pub purge : El → El
  pub count-on :
      (n m : List ℕ) (h k : ℕ) (e : El)
      → count (on n h e) m k ≡ count e m k + (if text_eq n m && h == k then 1 else 0)
  pub count-remove_listener :
      (n m : List ℕ) (h k : ℕ) (e : El)
      → count (remove_listener n h e) m k ≡ count e m k - (if text_eq n m && h == k then 1 else 0)

abbrev pub event_names : List String
event_names =
    "AfterExport" ∷ "AfterPlot" ∷ "Animated" ∷ "AnimatingFrame" ∷ "AnimationInterrupted"
    ∷ "AutoSize" ∷ "BeforeExport" ∷ "BeforeHover" ∷ "ButtonClicked" ∷ "Click" ∷ "ClickAnnotation"
    ∷ "Deselect" ∷ "DoubleClick" ∷ "Framework" ∷ "Hover" ∷ "LegendClick" ∷ "LegendDoubleClick"
    ∷ "Relayout" ∷ "Relayouting" ∷ "Restyle" ∷ "Redraw" ∷ "Selected" ∷ "Selecting" ∷ "SliderChange"
    ∷ "SliderEnd" ∷ "SliderStart" ∷ "SunburstClick" ∷ "Transitioning" ∷ "TransitionInterrupted"
    ∷ "Unhover" ∷ "WebGlContextLost" ∷ []

abbrev pub update_events : List String
update_events =
    "plotly_restyle" ∷ "plotly_redraw" ∷ "plotly_relayout" ∷ "plotly_relayouting"
    ∷ "plotly_doubleclick" ∷ "plotly_animated" ∷ "plotly_sunburstclick" ∷ []

unfoldable pub to_lower : ℕ → ℕ
to_lower c = if leb b'A' c && leb c b'Z' then c + 32 else c

-- 'plotly_' + eventName.toLowerCase()
unfoldable pub plotly_name : String → List ℕ
unfolding to_lower
plotly_name event_name = codes "plotly_" ++ map to_lower (codes event_name)

-- The props that the component reads. Functions and figures are references (`traces` is the
-- prop `data`, `frames` the number of frames); `on e` is the prop 'on' + e.
pub record Props : Type 0 where
  pub on : String → Option ℕ
  pub use_resize_handler : Bool
  pub on_initialized : Option ℕ
  pub on_update : Option ℕ
  pub on_purge : Option ℕ
  pub on_error : Option ℕ
  pub layout : ℕ
  pub traces : ℕ
  pub config : ℕ
  pub frames : ℕ
  pub revision : Option ℕ

-- `window.removeEventListener('resize', h)`
unfoldable pub remove_ref : ℕ → List ℕ → List ℕ
remove_ref h [] = []
remove_ref h (k ∷ ks) = let rest = remove_ref h ks in if k == h then rest else k ∷ rest

-- figureChanged, or a revision that is defined and has changed
unfoldable pub needs_update : Props → Props → Bool
needs_update prev p =
    not (
      prev.layout == p.layout
      && prev.traces == p.traces
      && prev.config == p.config
      && p.frames == prev.frames)
    || elim prev.revision [
      | none ↦ false
      | some r ↦ elim p.revision [ none ↦ true | some q ↦ not (r == q) ]
    ]

module _ (P : Emitter) where
  open P use {El}

  -- `window` has the listeners of the window's resize event; `next` is the reference of the next
  -- closure; `calls` are the callbacks that were called with the figure, the latest first, and
  -- `resizes` counts the calls of `Plotly.Plots.resize`;
  -- `errors` are the callbacks that were called with an error.
  pub record Component : Type 0 where
    pub el : El
    pub handlers : Dict ℕ
    pub resize_handler : Option ℕ
    pub unmounting : Bool
    pub window : List ℕ
    pub next : ℕ
    pub calls : List ℕ
    pub resizes : ℕ
    pub errors : List ℕ

  unfoldable pub add_event_handler : String → ℕ → Component → Component
  add_event_handler e prop s = record s {
    handlers = put e prop s.handlers;
    el = P.on (plotly_name e) prop s.el;
  }

  unfoldable pub remove_event_handler : String → Component → Component
  remove_event_handler e s = elim (get e s.handlers) [
    | none ↦ s
    | some h ↦ record s {
      el = P.remove_listener (plotly_name e) h s.el;
      handlers = remove e s.handlers;
    }
  ]

  -- the body of the loop of `syncEventHandlers`
  unfoldable pub sync_event : Props → Component → String → Component
  unfolding add_event_handler remove_event_handler
  sync_event p s e = elim (p.on e) [
    | none ↦ elim (get e s.handlers) [ none ↦ s | some h ↦ remove_event_handler e s ]
    | some prop ↦ elim (get e s.handlers) [
      | none ↦ add_event_handler e prop s
      | some h ↦ if prop == h then s else add_event_handler e prop (remove_event_handler e s)
    ]
  ]

  unfoldable pub sync_events : Props → Component → List String → Component
  unfolding sync_event
  sync_events p s [] = s
  sync_events p s (e ∷ es) = sync_events p (sync_event p s e) es

  unfoldable pub sync_event_handlers : Props → Component → Component
  unfolding sync_events
  sync_event_handlers p s = sync_events p s event_names

  -- in a browser
  unfoldable pub sync_window_resize : Props → Bool → Component → Component
  unfolding remove_ref
  sync_window_resize p invoke s = elim s.resize_handler [
    | none ↦
        if p.use_resize_handler
        then record s {
          resize_handler = some s.next;
          window = s.window ++ s.next ∷ [];
          next = s.next + 1;
          resizes = if invoke then s.resizes + 1 else s.resizes;
        }
        else s
    | some h ↦
        if p.use_resize_handler
        then s
        else record s { resize_handler = none; window = remove_ref h s.window }
  ]

  unfoldable pub figure_callback : Option ℕ → Component → Component
  figure_callback none s = s
  figure_callback (some callback) s = record s { calls = callback ∷ s.calls }

  -- `handle_update` is the reference of the bound method `handleUpdate`.
  unfoldable pub register : ℕ → List String → El → El
  register handle_update [] el = el
  register handle_update (e ∷ es) el = register handle_update es (P.on (codes e) handle_update el)

  unfoldable pub unregister : ℕ → List String → El → El
  unregister handle_update [] el = el
  unregister handle_update (e ∷ es) el =
      unregister handle_update es (P.remove_listener (codes e) handle_update el)

  unfoldable pub attach_update_events : ℕ → Component → Component
  unfolding register
  attach_update_events handle_update s = record s { el = register handle_update update_events s.el }

  unfoldable pub remove_update_events : ℕ → Component → Component
  unfolding unregister
  remove_update_events handle_update s = record s {
    el = unregister handle_update update_events s.el;
  }

  -- The two continuations of `updatePlotly`. `react` is `Plotly.react`: a new element, or `none`
  -- where the promise is rejected.
  unfoldable pub then_react : (El → Option El) → Component → Option Component
  then_react react s =
      if s.unmounting
      then some s
      else elim (react s.el) [ none ↦ none | some el ↦ some (record s { el = el }) ]

  unfoldable pub then_sync : ℕ → Props → Bool → Option ℕ → Bool → Component → Component
  unfolding sync_window_resize sync_event_handlers figure_callback attach_update_events
  then_sync handle_update p invoke callback attach s =
      if s.unmounting
      then s
      else (let s1 = sync_window_resize p invoke s in
          let s2 = sync_event_handlers p s1 in
          let s3 = figure_callback callback s2 in
          if attach then attach_update_events handle_update s3 else s3)

  -- the chain when nothing comes between its parts
  unfoldable pub update_plotly :
      ℕ → Props → (El → Option El) → Bool → Option ℕ → Bool → Component → Component
  unfolding then_react then_sync
  update_plotly handle_update p react invoke callback attach s = elim (then_react react s) [
    | none ↦ elim p.on_error [ none ↦ s | some h ↦ record s { errors = h ∷ s.errors } ]
    | some t ↦ then_sync handle_update p invoke callback attach t
  ]

  unfoldable pub component_did_mount : ℕ → Props → (El → Option El) → Component → Component
  unfolding update_plotly
  component_did_mount handle_update p react s =
      update_plotly handle_update p react true p.on_initialized true
        (record s { unmounting = false })

  unfoldable pub component_did_update : ℕ → Props → Props → (El → Option El) → Component → Component
  unfolding update_plotly needs_update
  component_did_update handle_update prev p react s =
      let t = record s { unmounting = false } in
      if needs_update prev p
      then update_plotly handle_update p react false p.on_update false t
      else t

  unfoldable pub component_will_unmount : ℕ → Props → Component → Component
  unfolding figure_callback remove_update_events remove_ref
  component_will_unmount handle_update p s =
      let s1 = figure_callback p.on_purge (record s { unmounting = true }) in
      let s2 : Component = elim s1.resize_handler [
        | none ↦ s1
        | some h ↦ record s1 { window = remove_ref h s1.window; resize_handler = none }
      ] in
      let s3 = remove_update_events handle_update s2 in record s3 { el = P.purge s3.el }
