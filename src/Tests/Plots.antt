-- ===== src/Tests/Plots.antt =====
-- The theorems on the Plotly component at concrete inputs.
use tgvejs.Prelude.{ℕ, ◌+◌, ◌≡◌, refl, inl, inr, true, false, none, some, [], ◌∷◌, codes, In, arith}
use tgvejs.Js.Dict.{get}
use tgvejs.Plotly.{
  sync_event_handlers, attach_update_events, remove_update_events, sync_window_resize,
  component_will_unmount, then_react, then_sync, Component, event_names, plotly_name,
}
use tgvejs.Plotly.Sync.{holds, sync_event_handlers_lem}
use tgvejs.Plotly.Lifecycle.{
  sync_window_resize-Listens, Listens, remove_update_events-attach, component_will_unmount_lem,
}
use tgvejs.Samples.{table, clicked, constructed}

click : In "Click" event_names
click = inr (inr (inr (inr (inr (inr (inr (inr (inr (inl refl)))))))))

sync_event_handlers_lem_example :
    (get "Click" (sync_event_handlers table clicked constructed).handlers ≡ some 5)
    × ((h : ℕ)
        → table.count (sync_event_handlers table clicked constructed).el (plotly_name "Click") h
          ≡ 0 + holds (some 5) h)
unfolding get
sync_event_handlers_lem_example =
    sync_event_handlers_lem table (λ e h. 0) clicked constructed (λ e m h. refl) "Click" click

-- Another listener in the window, and then the component's own.
listens : Listens table (0 ∷ []) constructed
listens = record { window = refl; foreign = tt; fresh = (omega arith, tt) }

remove_update_events-attach_example :
    (remove_update_events table 9 (attach_update_events table 9 constructed)).el
      (codes "plotly_redraw")
      9
    ≡ 0
remove_update_events-attach_example =
    remove_update_events-attach table 9 constructed (codes "plotly_redraw") 9

abbrev mounted : Component table
mounted = sync_window_resize table clicked true constructed

component_will_unmount_lem_example :
    ((component_will_unmount table 9 clicked mounted).window ≡ 0 ∷ [])
    × ((component_will_unmount table 9 clicked mounted).resize_handler ≡ none)
    × ((component_will_unmount table 9 clicked mounted).calls ≡ 8 ∷ mounted.calls)
    × (then_react table some (component_will_unmount table 9 clicked mounted)
        ≡ some (component_will_unmount table 9 clicked mounted))
    × (then_sync table 9 clicked false none false (component_will_unmount table 9 clicked mounted)
        ≡ component_will_unmount table 9 clicked mounted)
component_will_unmount_lem_example =
    component_will_unmount_lem table 9 clicked clicked (0 ∷ []) mounted some false false none
      (sync_window_resize-Listens table clicked true (0 ∷ []) constructed listens).0
