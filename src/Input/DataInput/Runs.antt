-- ===== src/Input/DataInput/Runs.antt =====
-- What the form has sent, and what it waits with, whatever the user does.
use tgvejs.Prelude.{
  ℕ, ◌+◌, ◌<◌, ◌≤◌, String, ◌≡◌, ◌≢◌, refl, inl, inr, subst, true, false, Option, none, some, List,
  [], ◌∷◌, length, All, In, arith, ◌==◌, ==_iff, Bool-cases, Option-cases,
}
use tgvejs.Geojson.{Feature, Geometry, FeatureCollection}
use tgvejs.Input.DataInput.{
  Message, Kind, json, zip, csv, kind_of, invalid, no_shp, read, failed, not_loaded, Parsed,
  DataFile, Sent, Form, opened, no_geo_count, keep_file, send, call_back_json, call_back_geography,
  call_back_and_close, process_text_or_buffer, content_callback, Action, reads, toggles, closes,
  discards, types_column, act, toggle_self_and_parent, clean_alert,
}

module _ (N : Type 0) where
  -- Some feature of the file has a geometry.
  abbrev pub Placed : FeatureCollection N → Type 0
  Placed file =
      (fs : List (Feature N)) × (file.features ≡ some fs)
      × (e : Feature N) × In e fs
      × (e.geometry ≢ none)

  -- None has.
  abbrev pub Placeless : FeatureCollection N → Type 0
  Placeless file =
      (fs : List (Feature N)) × (file.features ≡ some fs)
      × All (λ (e : Feature N). e.geometry ≡ none) fs

  pub count-without :
      (e : Feature N) (es : List (Feature N))
      → e.geometry ≡ none
      → no_geo_count N (e ∷ es) ≡ no_geo_count N es + 1
  unfolding no_geo_count
  count-without e es h = rw h refl

  pub count-with :
      (e : Feature N) (es : List (Feature N)) (g : Geometry N)
      → e.geometry ≡ some g
      → no_geo_count N (e ∷ es) ≡ no_geo_count N es
  unfolding no_geo_count
  count-with e es g h = rw h refl

  pub count_at_most : (fs : List (Feature N)) → no_geo_count N fs ≤ length fs
  unfolding no_geo_count
  count_at_most [] = omega arith
  count_at_most (e ∷ es) = elim (Option-cases e.geometry) [
    | inl h ↦ omega (arith, count_at_most es, count-without e es h)
    | inr (g, h) ↦ omega (arith, count_at_most es, count-with e es g h)
  ]

  -- A count is either all or leaves one out.
  none_placed :
      (fs : List (Feature N))
      → no_geo_count N fs ≡ length fs
      → All (λ (e : Feature N). e.geometry ≡ none) fs
  none_placed [] h = tt
  none_placed (e ∷ es) h = elim (Option-cases e.geometry) [
    | inl n ↦ (n, none_placed es (omega (arith, count-without e es n)))
    | inr (g, n) ↦ absurd (omega (arith, count_at_most es, count-with e es g n))
  ]

  some_with :
      (fs : List (Feature N))
      → no_geo_count N fs < length fs
      → (e : Feature N) × In e fs × (e.geometry ≢ none)
  some_with [] h = absurd (omega arith)
  some_with (e ∷ es) h = elim (Option-cases e.geometry) [
    | inr (g, n) ↦ (e, inl refl, λ x. cc)
    | inl n ↦ let (f, m, w) = some_with es (omega (arith, count-without e es n)) in (f, inr m, w)
  ]

  split_count :
      (fs : List (Feature N))
      → ((no_geo_count N fs == length fs) ≡ true → All (λ (e : Feature N). e.geometry ≡ none) fs)
        × ((no_geo_count N fs == length fs) ≡ false
            → (e : Feature N) × In e fs × (e.geometry ≢ none))
  split_count fs = (
    λ h. none_placed fs ((==_iff (no_geo_count N fs) (length fs)).0 h),
    λ h. some_with fs (ground (arith, count_at_most fs)),
  )

  -- What was sent has places: a file has, or a file without came with a geography that has.
  abbrev pub Sendable : Sent N → Type 0
  Sendable m = elim m.geography [
    | none ↦ Placed m.geojson
    | some g ↦ Placeless m.geojson × Placed g
  ]

  -- A file that waits for its geography has no places.
  abbrev pub Waiting : Option (DataFile N) → Type 0
  Waiting none = Unit
  Waiting (some d) = Placeless d.json

  pub record Sound (s : Form N) : Type 0 where
    pub sent : All Sendable s.sent
    pub waiting : Waiting s.data_file

  call_back_json-Sound :
      (type : List ℕ) (name : String) (file : FeatureCollection N) (s : Form N)
      → s.data_file ≡ none
      → Sound s
      → Sound (call_back_json N type name file s)
  unfolding call_back_json keep_file send toggle_self_and_parent
  call_back_json-Sound type name file s d h = elim (Option-cases file.features) [
    | inl e ↦ rw (call_back_json, e) h
    | inr (fs, e) ↦ elim (Bool-cases (no_geo_count N fs == length fs)) [
      | inl c ↦
          rw (call_back_json, e, c)
            (rw (keep_file, d) (record { sent = h.sent; waiting = (fs, e, (split_count fs).0 c) }))
      | inr c ↦
          let (f, m, g) = (split_count fs).1 c in
          rw (call_back_json, e, c) (record { sent = ((fs, e, f, m, g), h.sent); waiting = tt })
    ]
  ]

  call_back_geography-Sound :
      (type : List ℕ) (name : String) (d : DataFile N) (file : FeatureCollection N) (s : Form N)
      → s.data_file ≡ some d
      → Sound s
      → Sound (call_back_geography N type name d file s)
  unfolding call_back_geography keep_file send toggle_self_and_parent
  call_back_geography-Sound type name d file s w h = elim (Option-cases file.features) [
    | inl e ↦ rw (call_back_geography, e) h
    | inr (fs, e) ↦ elim (Bool-cases (no_geo_count N fs == length fs)) [
      | inl c ↦
          rw (call_back_geography, e, c)
            (rw (keep_file, w) (record { sent = h.sent; waiting = h.waiting }))
      | inr c ↦
          let (f, m, g) = (split_count fs).1 c in
          rw (call_back_geography, e, c)
            (record {
              sent = ((subst Waiting w h.waiting, (fs, e, f, m, g)), h.sent);
              waiting = tt;
            })
    ]
  ]

  call_back_and_close-Sound :
      (type : List ℕ) (name : String) (file : FeatureCollection N) (s : Form N)
      → Sound s
      → Sound (call_back_and_close N type name file s)
  unfolding call_back_and_close
  call_back_and_close-Sound type name file s h = elim (Option-cases s.data_file) [
    | inl d ↦ rw (call_back_and_close, d) (call_back_json-Sound type name file s d h)
    | inr (d, e) ↦ rw (call_back_and_close, e) (call_back_geography-Sound type name d file s e h)
  ]

  alert-Sound : (m : Message) (s : Form N) → Sound s → Sound (clean_alert N m s)
  alert-Sound m s h = record { sent = h.sent; waiting = h.waiting }

  failed-Sound :
      (kind : Kind) (message : Option String) (s : Form N)
      → Sound s
      → Sound (elim kind [ json ↦ s | zip ↦ s | csv ↦ clean_alert N (invalid message) s ])
  failed-Sound json message s h = h
  failed-Sound zip message s h = h
  failed-Sound csv message s h = alert-Sound (invalid message) s h

  not_loaded-Sound :
      (kind : Kind) (s : Form N)
      → Sound s
      → Sound (elim kind [ json ↦ s | zip ↦ clean_alert N no_shp s | csv ↦ s ])
  not_loaded-Sound json s h = h
  not_loaded-Sound zip s h = alert-Sound no_shp s h
  not_loaded-Sound csv s h = h

  content_callback-Sound :
      (type : List ℕ) (name : String) (parsed : Parsed (FeatureCollection N)) (s : Form N)
      → Sound s
      → Sound (content_callback N type name parsed s)
  unfolding content_callback process_text_or_buffer
  content_callback-Sound type name (read file) s h = call_back_and_close-Sound type name file s h
  content_callback-Sound type name (failed message) s h = failed-Sound (kind_of type) message s h
  content_callback-Sound type name not_loaded s h = not_loaded-Sound (kind_of type) s h

  act-Sound : (a : Action N) (s : Form N) → Sound s → Sound (act N a s)
  unfolding act toggle_self_and_parent
  act-Sound (reads type name parsed) s h = content_callback-Sound type name parsed s h
  act-Sound toggles s h = record { sent = h.sent; waiting = h.waiting }
  act-Sound closes s h = record { sent = h.sent; waiting = h.waiting }
  act-Sound discards s h = record { sent = h.sent; waiting = tt }
  act-Sound (types_column value) s h = record { sent = h.sent; waiting = h.waiting }

  abbrev pub act_all : List (Action N) → Form N → Form N
  act_all [] s = s
  act_all (a ∷ actions) s = act_all actions (act N a s)

  act_all-Sound : (actions : List (Action N)) (s : Form N) → Sound s → Sound (act_all actions s)
  act_all-Sound [] s h = h
  act_all-Sound (a ∷ actions) s h = act_all-Sound actions (act N a s) (act-Sound a s h)

  -- Whatever the user does with the form: all that it sends has a geometry, in a file of its own or in
  -- the geography of a file without any, and a file that waits for its geography has none.
  pub opened-Sound : (actions : List (Action N)) → Sound (act_all actions (opened N))
  unfolding opened
  opened-Sound actions = act_all-Sound actions (opened N) (record { sent = tt; waiting = tt })
