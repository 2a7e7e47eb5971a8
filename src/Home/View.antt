-- ===== src/Home/View.antt =====
-- The view of the map: `getViewportParams` of src/utils/utils.js, and `initViewState` and `getViewPort`
-- of src/home/util.js. `DECKGL_INIT` is an object that all calls share and write to.
pub mod Laws
use tgvejs.Prelude.{
  ℕ, String, ◌≡◌, Bool, true, false, not, ◌&&◌, ◌||◌, Option, none, some, List, [], ◌∷◌, codes,
  ◌==◌, str_eq, if◌then◌else◌,
}
use tgvejs.Js.{Floats}
use tgvejs.Js.Dict.{Dict, get, put, keys}
use tgvejs.Geojson.{FeatureCollection}
use tgvejs.Layers.Settings.{add_options_to_object}
use tgvejs.Layers.Deck.{occurs}

-- iKey.startsWith(key)
abbrev pub starts : List ℕ → List ℕ → Bool
starts s [] = true
starts [] (d ∷ w) = false
starts (c ∷ s) (d ∷ w) = c == d && starts s w

abbrev pub any_starts : List String → String → Bool
any_starts [] key = false
any_starts (k ∷ ks) key = starts (codes k) (codes key) || any_starts ks key

-- new RegExp(LAYERS_2D_REGEX, "i").test(layerName)
unfoldable pub is_2d : List ℕ → Bool
unfolding occurs
is_2d name =
    occurs (codes "sgrid") name
    || occurs (codes "scatter") name
    || occurs (codes "geojson") name
    || occurs (codes "line") name
    || occurs (codes "path") name

module _ (F : Floats) where
  open F use {Num}

  -- What the code takes from qs and from turf: `parse` reads a query, with or without its question
  -- mark, and `fixed` is `toFixed(3)`. `centroid` throws, `none`, where there are no coordinates. The
  -- bounds of the data are not used, as `fit_bounds` shows.
  pub record Page : Type 0 where
    pub parse : String → Dict String
    pub without_mark : String → String
    pub fixed : Num → String
    pub centroid : FeatureCollection Num → Option (Num × Num)

  -- The defaults of the code, as the language reads them.
  abbrev pub literal : String → Num
  literal s = F.number s

  -- Number(o), which is NaN for undefined
  abbrev pub number_of : Option String → Num
  number_of o = elim o [ none ↦ F.nan | some s ↦ F.number s ]

  module _ (G : Page) where
    -- !isNaN(lat) ? Number(lat) : …, of a number with three decimals
    unfoldable pub coordinate : Option String → Num → Num
    coordinate o default =
        let n = F.number (G.fixed (number_of o)) in if F.is_nan n then default else n

    -- Number(o) || default
    unfoldable pub or_default : Option String → Num → Num
    or_default o default =
        let n = number_of o in if F.is_nan n || F.same n F.zero then default else n

    unfoldable pub params_in : String → Dict Num
    unfolding coordinate or_default get
    params_in search =
        let at = G.parse (G.without_mark search) in
        let rest = G.parse search in
        ("latitude", coordinate (get "lat" at) (literal "53.8321"))
        ∷ ("longitude", coordinate (get "lng" at) (literal "-1.6362"))
        ∷ ("zoom", or_default (get "zoom" rest) (F.of_nat 10))
        ∷ ("pit", or_default (get "pit" rest) (F.of_nat 55))
        ∷ ("bea", or_default (get "bea" rest) F.zero)
        ∷ ("alt", or_default (get "alt" rest) (literal "1.5"))
        ∷ []

    unfoldable pub get_viewport_params : String → Option (Dict Num)
    unfolding params_in
    get_viewport_params search = if str_eq search "" then none else some (params_in search)

    -- init[key] = param[key], if a key of `init` starts with it
    unfoldable pub set_params : Dict Num → Dict Num → Dict Num
    unfolding put keys
    set_params [] init = init
    set_params ((key, v) ∷ params) init =
        set_params params (if any_starts (keys init) key then put key v init else init)

    unfoldable pub with_params : Option (Dict Num) → Dict Num → Dict Num
    unfolding set_params
    with_params none init = init
    with_params (some params) init = set_params params init

    -- `shared` is what `DECKGL_INIT` is; the result is what it then is, and what is returned.
    unfoldable pub init_view_state :
        Dict Num → Option (Dict Num) → Option String → String → Dict Num
    unfolding add_options_to_object get_viewport_params with_params put is_2d
    init_view_state shared viewport layer_name search =
        let init : Dict Num = elim viewport [
          | none ↦ shared
          | some v ↦ add_options_to_object v shared
        ] in
        let read = with_params (get_viewport_params search) init in
        let flat : Bool = elim layer_name [ none ↦ false | some n ↦ is_2d (codes n) ] in
        if flat then put "pitch" F.zero read else read

    -- The box that a search finds, with its middle.
    pub record Found : Type 0 where
      pub lon : Num
      pub lat : Num

    -- `state.data` and `newData`: nothing, the empty array of a reset, or a collection.
    pub data Held : Type 0 where
      absent no_rows : Held
      collection : FeatureCollection Num → Held

    -- The new place of the view; the transition is left out.
    pub record ViewPort : Type 0 where
      pub longitude : Num
      pub latitude : Num

    pub data Result : Type 0 where
      unchanged exception : Result
      moved : ViewPort → Result

    -- map || map.fitBounds(bounds, …): without a map the read of `fitBounds` throws, and with one it is
    -- not reached.
    unfoldable pub fit_bounds : Bool → Num × Num → Result
    fit_bounds false center = exception
    fit_bounds true center = moved (record { longitude = center.0; latitude = center.1 })

    -- newData || state.data; an array is truthy
    unfoldable pub data_of : Held → Held → Held
    data_of absent shown = shown
    data_of new_data shown = new_data

    unfoldable pub get_view_port : Held → Held → Option Found → Bool → Result
    unfolding data_of fit_bounds
    get_view_port shown new_data (some b) has_map = fit_bounds has_map (b.lon, b.lat)
    get_view_port shown new_data none has_map = elim (data_of new_data shown) [
      | absent ↦ unchanged
      | no_rows ↦ unchanged
      | collection g ↦ elim (G.centroid g) [
        | none ↦ exception
        | some center ↦ fit_bounds has_map center
      ]
    ]

-- `DECKGL_INIT` of src/Constants.js, before the first call
unfoldable pub deckgl_init : (F : Floats) → Dict (F.Num)
deckgl_init F =
    ("longitude", F.number "-1.6362")
    ∷ ("latitude", F.number "53.8321")
    ∷ ("zoom", F.of_nat 10)
    ∷ ("pitch", F.of_nat 55)
    ∷ ("bearing", F.zero)
    ∷ []
