-- ===== src/Home/Loading.antt =====
-- How the main component comes by its data: `_initDataState`, `_fetchAndUpdateState`,
-- `_updateStateAndLayers` and `_initWithGeojson` of src/home/index.js, with `fetchData` of
-- src/utils/utils.js. The requests that are on their way are part of the state, and an answer may
-- come to any of them. `setState` takes effect at once.
pub mod Runs
pub mod Quiet
use tgvejs.Prelude.{
  ℕ, suc, ◌+◌, String, ◌≡◌, refl, Bool, true, false, not, ◌&&◌, Option, none, some, List, [], ◌∷◌,
  ◌++◌, str_eq, if◌then◌else◌,
}
use tgvejs.Geojson.{Feature, FeatureCollection}

-- `alert` of the state: an error that a caller has given, or one of the texts.
pub data Alert : Type 0 where
  custom : ℕ → Alert
  could_not_reach : String → Alert
  invalid_url : String → Alert

-- What is known of an URL by its end.
pub data Format : Type 0 where
  zip csv json : Format

-- How the promise of `fetch` ends: it is rejected, or there is a text, which the parser of the
-- format reads or not; `without_shp` is a zip without the library for it.
pub data Fetched (A : Type 0) : Type 0 where
  rejected : Fetched A
  without_shp : Fetched A
  parsed : A → Fetched A
  unparsed : Fetched A

-- Whether the callback of `fetchData` is called, and with data or an error.
pub data Callback (A : Type 0) : Type 0 where
  silent : Callback A
  with_error : Callback A
  with_data : A → Callback A

-- `fetchData`: for a csv that csv2geojson cannot read, and a zip that shp rejects, nothing is called.
unfoldable pub fetch_data : {A : Type 0} → Format → Fetched A → Callback A
fetch_data format rejected = with_error
fetch_data format (parsed a) = with_data a
fetch_data json unparsed = with_error
fetch_data zip unparsed = silent
fetch_data csv unparsed = silent
fetch_data zip without_shp = with_error
fetch_data format without_shp = silent

module _ (N : Type 0) (is_url : String → Bool) where
  -- The props that decide where the data comes from.
  pub record Props : Type 0 where
    pub data_prop : Option (FeatureCollection N)
    pub default_url : Option String
    pub geography_url : Option String

  -- A request for data, or for the geography of data.
  pub data Request : Type 0 where
    for_data : String → Option Alert → Request
    for_geography : String → Option (FeatureCollection N) → Option Alert → Request

  -- Calls of `_fitViewport` and `_callGenerateLayer`.
  pub data Call : Type 0 where
    fit : Option (FeatureCollection N) → Call
    generate : Option Alert → Call

  pub record State : Type 0 where
    pub loading : Bool
    pub shown : Option (FeatureCollection N)
    pub geography : Option (FeatureCollection N)
    pub alert : Option Alert
    pub calls : List Call
    pub pending : List Request

  -- The state that the constructor makes.
  abbrev pub constructed : State
  constructed = record {
    loading = true;
    shown = none;
    geography = none;
    alert = none;
    calls = [];
    pending = [];
  }

  abbrev pub send : Request → State → State
  send r s = record s { pending = s.pending ++ r ∷ [] }

  unfoldable pub fetch_and_update_state : String → Option Alert → State → State
  fetch_and_update_state a_url custom_error s =
      if not (str_eq a_url "") && not (is_url a_url)
      then record s { loading = false }
      else send (for_data a_url custom_error) s

  -- isObject(data) && data.features && data.features.length
  abbrev pub has_features : Option (FeatureCollection N) → Bool
  has_features none = false
  has_features (some g) = elim g.features [ none ↦ false | some [] ↦ false | some (f ∷ fs) ↦ true ]

  unfoldable pub init_data_state : Props → State → State
  unfolding fetch_and_update_state
  init_data_state p s =
      let given = record s {
        loading = false;
        shown = p.data_prop;
        calls = s.calls ++ fit none ∷ generate none ∷ [];
      } in
      let waiting : State = elim p.default_url [
        | none ↦ record s { loading = false }
        | some url ↦
            if str_eq url ""
            then record s { loading = false }
            else fetch_and_update_state url none s
      ] in
      if has_features p.data_prop then given else waiting

  unfoldable pub update_state_and_layers :
      Option (FeatureCollection N)
      → Option (FeatureCollection N)
      → Option Alert
      → String
      → State
      → State
  update_state_and_layers (some geojson) data_ custom_error url s = record s {
    loading = false;
    geography = some geojson;
    shown = data_;
    alert = custom_error;
    calls = s.calls ++ fit (some geojson) ∷ generate none ∷ [];
  }
  update_state_and_layers none data_ custom_error url s = record s {
    loading = false;
    alert = some (could_not_reach url);
  }

  unfoldable pub init_with_geojson :
      Option (FeatureCollection N) → Option Alert → String → State → State
  init_with_geojson (some data_) custom_error full_url s = record s {
    loading = false;
    shown = some data_;
    calls = s.calls ++ fit (some data_) ∷ generate custom_error ∷ [];
  }
  init_with_geojson none custom_error full_url s = record s {
    loading = false;
    alert = some (could_not_reach full_url);
  }

  abbrev pub or_alert : Option Alert → Alert → Option Alert
  or_alert none a = some a
  or_alert (some b) a = some b

  -- The callback of the request for data: `none` is an error.
  unfoldable pub on_data :
      Props → String → Option Alert → Option (FeatureCollection N) → State → State
  unfolding init_with_geojson
  on_data p a_url custom_error result s = elim p.geography_url [
    | none ↦ init_with_geojson result custom_error a_url s
    | some url ↦
        if is_url url
        then send (for_geography url result custom_error) s
        else if str_eq url ""
        then init_with_geojson result custom_error a_url s
        else init_with_geojson result (or_alert custom_error (invalid_url url)) a_url s
  ]

  -- The callback of a request.
  unfoldable pub answer : Props → Request → Option (FeatureCollection N) → State → State
  unfolding on_data update_state_and_layers
  answer p (for_data url custom_error) result s = on_data p url custom_error result s
  answer p (for_geography url data_ custom_error) result s =
      update_state_and_layers result data_ custom_error url s
