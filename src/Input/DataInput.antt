-- ===== src/Input/DataInput.antt =====
-- src/components/input/DataInput.jsx: a form that reads a file with places, or a file without and then
-- its geography. A state is what the hooks hold; a step is what a callback does with it. `setState`
-- takes effect at once.
pub mod Runs
pub mod Pairs
use tgvejs.Prelude.{
  ℕ, zero, ◌+◌, String, ◌≡◌, Bool, true, false, not, ◌&&◌, ◌||◌, Option, none, some, List, [], ◌∷◌,
  length, codes, ◌==◌, if◌then◌else◌,
}
use tgvejs.Geojson.{Feature, FeatureCollection}
use tgvejs.Layers.Deck.{occurs}

-- The texts of the alert, each shown for five seconds.
pub data Message : Type 0 where
  no_geography geography_without no_shp : Message
  invalid : Option String → Message

-- How the parser of a file ends: JSON.parse, shp (where it is loaded) or csv2geojson.
pub data Parsed (A : Type 0) : Type 0 where
  read : A → Parsed A
  failed : Option String → Parsed A
  not_loaded : Parsed A

pub data Kind : Type 0 where
  json zip csv : Kind

-- type.match(/zip/), whose letters are small
abbrev pub starts : List ℕ → List ℕ → Bool
starts [] s = true
starts (c ∷ w) [] = false
starts (c ∷ w) (d ∷ s) = c == d && starts w s

unfoldable pub matches : List ℕ → List ℕ → Bool
matches w [] = starts w []
matches w (c ∷ s) = starts w (c ∷ s) || matches w s

unfoldable pub kind_of : List ℕ → Kind
unfolding occurs matches
kind_of type =
    if occurs (codes "json") type || occurs (codes "geo") type
    then json
    else if matches (codes "zip") type
    then zip
    else csv

module _ (N : Type 0) where
  pub record DataFile : Type 0 where
    pub json : FeatureCollection N
    pub name : String
    pub type : List ℕ

  -- What `urlCallback` is called with.
  pub record Sent : Type 0 where
    pub geojson : FeatureCollection N
    pub name : String
    pub geography : Option (FeatureCollection N)
    pub geo_column : Option String

  pub record Form : Type 0 where
    pub is_open : Bool
    pub alert : Option Message
    pub data_file : Option DataFile
    pub geo_column : Option String
    -- the calls of `urlCallback`, the last one first, and the number of those of `toggleOpen`
    pub sent : List Sent
    pub toggles : ℕ

  unfoldable pub opened : Form
  opened = record {
    is_open = false;
    alert = none;
    data_file = none;
    geo_column = none;
    sent = [];
    toggles = 0;
  }

  unfoldable pub toggle_self_and_parent : Form → Form
  toggle_self_and_parent s = record s {
    alert = none;
    is_open = not s.is_open;
    toggles = s.toggles + 1;
  }

  abbrev pub clean_alert : Message → Form → Form
  clean_alert m s = record s { alert = some m }

  -- file.features.forEach(e => { if (!e.geometry) noGeoCount += 1 })
  unfoldable pub no_geo_count : List (Feature N) → ℕ
  no_geo_count [] = 0
  no_geo_count (e ∷ es) =
      let rest = no_geo_count es in elim e.geometry [ none ↦ rest + 1 | some g ↦ rest ]

  -- The file is data without places, or a geography without.
  unfoldable pub keep_file :
      List ℕ → String → FeatureCollection N → Option (FeatureCollection N) → Form → Form
  keep_file type name file geography s =
      let alert : Message = elim geography [ none ↦ no_geography | some g ↦ geography_without ] in
      elim s.data_file [
        | some d ↦ clean_alert alert s
        | none ↦
            clean_alert alert
              (record s { data_file = some (record { json = file; name = name; type = type }) })
      ]

  unfoldable pub send : String → FeatureCollection N → Option (FeatureCollection N) → Form → Form
  unfolding toggle_self_and_parent
  send name geojson geography s = toggle_self_and_parent (record s {
    sent =
        record { geojson = geojson; name = name; geography = geography; geo_column = s.geo_column }
        ∷ s.sent;
    data_file = none;
  })

  -- `callBackAndClose` of the first file; the read of the length of missing features throws, and
  -- leaves the state as it is.
  unfoldable pub call_back_json : List ℕ → String → FeatureCollection N → Form → Form
  unfolding no_geo_count keep_file send
  call_back_json type name file s = elim file.features [
    | none ↦ s
    | some fs ↦
        if no_geo_count fs == length fs
        then keep_file type name file none s
        else send name file none s
  ]

  -- `callBackAndClose` of the geography for a data file.
  unfoldable pub call_back_geography :
      List ℕ → String → DataFile → FeatureCollection N → Form → Form
  unfolding no_geo_count keep_file send
  call_back_geography type name d geography s = elim geography.features [
    | none ↦ s
    | some fs ↦
        if no_geo_count fs == length fs
        then keep_file type name d.json (some geography) s
        else send name d.json (some geography) s
  ]

  unfoldable pub call_back_and_close : List ℕ → String → FeatureCollection N → Form → Form
  unfolding call_back_json call_back_geography
  call_back_and_close type name file s = elim s.data_file [
    | none ↦ call_back_json type name file s
    | some d ↦ call_back_geography type name d file s
  ]

  -- `processTextOrBuffer`: a JSON that cannot be read is logged, and a zip that shp rejects is not
  -- heard of.
  unfoldable pub process_text_or_buffer :
      List ℕ → Parsed (FeatureCollection N) → (FeatureCollection N → Form → Form) → Form → Form
  unfolding kind_of
  process_text_or_buffer type (read file) callback s = callback file s
  process_text_or_buffer type (failed message) callback s = elim (kind_of type) [
    | json ↦ s
    | zip ↦ s
    | csv ↦ clean_alert (invalid message) s
  ]
  process_text_or_buffer type not_loaded callback s = elim (kind_of type) [
    | json ↦ s
    | zip ↦ clean_alert no_shp s
    | csv ↦ s
  ]

  unfoldable pub content_callback : List ℕ → String → Parsed (FeatureCollection N) → Form → Form
  unfolding process_text_or_buffer call_back_and_close
  content_callback type name parsed s =
      process_text_or_buffer type parsed (call_back_and_close type name) s

  -- What a user can do: read a file, open or close the form, close it with its button, throw the data
  -- file away, and type the column.
  pub data Action : Type 0 where
    reads : List ℕ → String → Parsed (FeatureCollection N) → Action
    toggles closes discards : Action
    types_column : String → Action

  unfoldable pub act : Action → Form → Form
  unfolding content_callback toggle_self_and_parent
  act (reads type name parsed) s = content_callback type name parsed s
  act toggles s = toggle_self_and_parent s
  act closes s = record s { is_open = false; toggles = s.toggles + 1 }
  act discards s = record s { data_file = none; alert = none }
  act (types_column value) s = record s { geo_column = some value }
