-- ===== src/Input/DataInput/Pairs.antt =====
-- The two files of the form: data without places, and its geography.
use tgvejs.Prelude.{
  ℕ, ◌+◌, ◌<◌, String, ◌≡◌, ◌≢◌, refl, ap, ◌∙◌, inl, inr, not, true, false, none, some, List, [],
  ◌∷◌, length, All, In, arith, ◌==◌, Option-cases,
}
use tgvejs.Geojson.{Feature, FeatureCollection}
use tgvejs.Input.DataInput.{
  read, DataFile, Form, no_geo_count, keep_file, send, call_back_json, call_back_geography,
  call_back_and_close, content_callback, process_text_or_buffer, toggle_self_and_parent,
  no_geography,
}
use tgvejs.Input.DataInput.Runs.{Placed, Placeless, count-without, count-with, count_at_most}

module _ (N : Type 0) where
  whole_count :
      (fs : List (Feature N))
      → All (λ (e : Feature N). e.geometry ≡ none) fs
      → no_geo_count N fs ≡ length fs
  unfolding no_geo_count
  whole_count [] h = refl
  whole_count (e ∷ es) h = omega (arith, whole_count es h.1, count-without N e es h.0)

  count_less :
      (fs : List (Feature N)) (e : Feature N)
      → In e fs
      → e.geometry ≢ none
      → no_geo_count N fs < length fs
  count_less [] e m h = elim m [ ]
  count_less (f ∷ fs) e m h = elim (Option-cases f.geometry) [
    | inr (g, n) ↦ omega (arith, count_at_most N fs, count-with N f fs g n)
    | inl n ↦ elim m [
      | inl p ↦ absurd (h (ap (λ (x : Feature N). x.geometry) p ∙ n))
      | inr m ↦ omega (arith, count_less fs e m h, count-without N f fs n)
    ]
  ]

  json_branch :
      (type : List ℕ) (name : String) (file : FeatureCollection N) (s : Form N)
      (fs : List (Feature N))
      → file.features ≡ some fs
      → (no_geo_count N fs == length fs) ≡ true
      → call_back_json N type name file s ≡ keep_file N type name file none s
  unfolding call_back_json
  json_branch type name file s fs e c = ground arith

  geography_branch :
      (type : List ℕ) (name : String) (d : DataFile N) (file : FeatureCollection N) (s : Form N)
      (fs : List (Feature N))
      → file.features ≡ some fs
      → (no_geo_count N fs == length fs) ≡ false
      → call_back_geography N type name d file s ≡ send N name d.json (some file) s
  unfolding call_back_geography
  geography_branch type name d file s fs e c = ground arith

  first_file :
      (type : List ℕ) (name : String) (file : FeatureCollection N) (s : Form N)
      → s.data_file ≡ none
      → content_callback N type name (read file) s ≡ call_back_json N type name file s
  unfolding content_callback process_text_or_buffer call_back_and_close
  first_file type name file s d = ground arith

  second_file :
      (type : List ℕ) (name : String) (d : DataFile N) (file : FeatureCollection N) (s : Form N)
      → s.data_file ≡ some d
      → content_callback N type name (read file) s ≡ call_back_geography N type name d file s
  unfolding content_callback process_text_or_buffer call_back_and_close
  second_file type name d file s w = ground arith

  kept_file :
      (type : List ℕ) (name : String) (file : FeatureCollection N) (s : Form N)
      → s.data_file ≡ none
      → keep_file N type name file none s ≡ record s {
        alert = some no_geography;
        data_file = some (record { json = file; name = name; type = type });
      }
  unfolding keep_file
  kept_file type name file s d = rw (keep_file, d) refl

  keeps_json :
      (type : List ℕ) (name : String) (file : FeatureCollection N) (s : Form N)
      → s.data_file ≡ none
      → Placeless N file
      → content_callback N type name (read file) s ≡ record s {
        alert = some no_geography;
        data_file = some (record { json = file; name = name; type = type });
      }
  keeps_json type name file s d (fs, e, w) =
      first_file type name file s d
      ∙ json_branch type name file s fs e (ground (arith, whole_count fs w))
      ∙ kept_file type name file s d

  sends_both :
      (type : List ℕ) (name : String) (d : DataFile N) (file : FeatureCollection N) (s : Form N)
      → s.data_file ≡ some d
      → Placed N file
      → content_callback N type name (read file) s ≡ send N name d.json (some file) s
  sends_both type name d file s w (fs, e, f, m, g) =
      second_file type name d file s w
      ∙ geography_branch type name d file s fs e (ground (arith, count_less fs f m g))

  -- A file without places, and after it a geography with some, read by a form that waits for nothing:
  -- the form sends the two together, under the name of the second, with the column that was typed, and
  -- then waits for nothing, without an alert, closed if it was open.
  pub content_callback-pair :
      (type other_type : List ℕ) (name other_name : String) (file geography : FeatureCollection N)
      (s : Form N)
      → s.data_file ≡ none
      → Placeless N file
      → Placed N geography
      → content_callback N other_type other_name
          (read geography)
          (content_callback N type name (read file) s)
        ≡ record s {
          is_open = not s.is_open;
          alert = none;
          data_file = none;
          sent =
              record {
                geojson = file;
                name = other_name;
                geography = some geography;
                geo_column = s.geo_column;
              }
              ∷ s.sent;
          toggles = s.toggles + 1;
        }
  unfolding send toggle_self_and_parent
  content_callback-pair type other_type name other_name file geography s d w p =
      let d1 : DataFile N = record { json = file; name = name; type = type } in
      let waits : Form N = record s { alert = some no_geography; data_file = some d1 } in
      ap (content_callback N other_type other_name (read geography))
        (keeps_json type name file s d w)
      ∙ sends_both other_type other_name d1 geography waits refl p
