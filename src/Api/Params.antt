-- ===== src/Api/Params.antt =====
-- `params` of src/utils/api.js: where the value of each parameter comes from.
pub mod Precedence
use tgvejs.Prelude.{
  ℕ, String, ◌≡◌, ◌≢◌, refl, ap, sym, subst, ◌∙◌, ◌⊎◌, inl, inr, Bool, true, false, not, ◌&&◌,
  Option, none, some, List, [], ◌∷◌, codes, str_eq, eq_iff, arith, Bool-cases, Option-cases,
  if◌then◌else◌,
}
use tgvejs.Js.{Value, undefined, bool, str, Floats, truthy}
use tgvejs.Js.Dict.{Dict, get, has}
use tgvejs.Api.Names.{api_to_react_app}
use tgvejs.Api.Select.{Item, items, scalar, Parsed, object, other, failed, json_str, key_set_object}

-- The types in `TGVE_API`.
pub data Expected : Type 0 where
  string object_ boolean select_ data_ react callback : Expected

-- `TGVE_API`, in its order; `select` and `data`, which `params` tells apart by name, have types of
-- their own here.
abbrev pub tgve_api : Dict Expected
tgve_api =
    ("defaultURL", string)
    ∷ ("geographyURL", string)
    ∷ ("geographyColumn", string)
    ∷ ("column", string)
    ∷ ("layerName", string)
    ∷ ("tooltipColumns", object_)
    ∷ ("viewport", object_)
    ∷ ("data", data_)
    ∷ ("dark", boolean)
    ∷ ("hideChartGenerator", boolean)
    ∷ ("hideCharts", boolean)
    ∷ ("hideSidebar", boolean)
    ∷ ("select", select_)
    ∷ ("leftSidebarContent", react)
    ∷ ("onViewStateChange", callback)
    ∷ ("onStateChange", callback)
    ∷ []

module _ (F : Floats) where
  open F use {Num}

  -- The value of a parameter: a value, a JSON object or array, or an object of sets.
  pub data Param : Type 0 where
    item : Item F → Param
    json : Dict (Item F) → Param
    selection : Dict (List (Value Num)) → Param

  -- What `params` reads: the query, parsed; the props; the texts of the two elements of the page;
  -- `process.env`, by name; and `JSON.parse`.
  pub record Sources : Type 0 where
    pub query : Dict (Value Num)
    pub props : Dict (Value Num)
    pub data_text : Option String
    pub settings_text : Option String
    pub env : List ℕ → Option (Value Num)
    pub parse : Value Num → Parsed F

  unfoldable pub bool_str : Item F → Value Num
  bool_str (scalar (str s)) =
      if str_eq s "true" then bool true else if str_eq s "false" then bool false else undefined
  bool_str v = undefined

  unfoldable pub read_value : Dict (Value Num) → String → Value Num
  unfolding get
  read_value d k = elim (get k d) [ none ↦ undefined | some v ↦ v ]

  abbrev pub truthy_item : Item F → Bool
  truthy_item (items vs) = true
  truthy_item (scalar v) = truthy F v

  abbrev pub of_parsed : Parsed F → Param
  of_parsed (object d) = json d
  of_parsed (other v) = item (scalar v)
  of_parsed failed = item (scalar undefined)

  -- a || b
  abbrev pub or_param : Param → Param → Param
  or_param (item v) b = if truthy_item v then item v else b
  or_param a b = a

  -- (textContent && jsonStr(textContent)) || {}; what is no object has none of the names
  unfoldable pub settings : Sources → Dict (Item F)
  unfolding json_str
  settings s = elim s.settings_text [
    | none ↦ []
    | some t ↦
        if str_eq t "" then [] else elim (json_str F (s.parse (str t))) [ object d ↦ d | _ ↦ [] ]
  ]

  -- getElementById(…) && textContent && jsonStr(textContent)
  unfoldable pub static_data : Sources → Param
  unfolding json_str
  static_data s = elim s.data_text [
    | none ↦ item (scalar Value.null)
    | some t ↦
        if str_eq t "" then item (scalar (str "")) else of_parsed (json_str F (s.parse (str t)))
  ]

  pub env_value : Sources → String → Option (Value Num)
  unfolding api_to_react_app
  env_value s k = elim (api_to_react_app (codes k)) [ none ↦ none | some name ↦ s.env name ]

  -- typeof param === 'boolean', or a truthy param
  unfoldable pub usable_prop : Bool → Value Num → Bool
  usable_prop true (bool b) = true
  usable_prop true v = false
  usable_prop false v = truthy F v

  unfoldable pub converted : Bool → Item F → Item F
  unfolding bool_str
  converted true v = scalar (bool_str v)
  converted false v = v

  unfoldable pub api_value : Bool → Sources → String → Item F
  unfolding read_value settings env_value usable_prop converted
  api_value is_bool s k = elim (get k s.query) [
    | some v ↦ converted is_bool (scalar v)
    | none ↦
        if usable_prop is_bool (read_value s.props k)
        then scalar (read_value s.props k)
        else elim (get k (settings s)) [
          | some v ↦ converted is_bool v
          | none ↦ elim (env_value s k) [
            | some v ↦ converted is_bool (scalar v)
            | none ↦ scalar undefined
          ]
        ]
  ]

  -- typeof found === 'boolean' ? found : def
  unfoldable pub expected : Item F → Value Num → Item F
  expected (scalar (bool b)) def = scalar (bool b)
  expected found def = scalar def

  -- qsr[k] || props[k]
  asked : Sources → String → Value Num
  unfolding read_value
  asked s k = if truthy F (read_value s.query k) then read_value s.query k else read_value s.props k

  -- jsonStr(qsr[k]) || props[k]
  parsed_or_prop : Sources → String → Param
  unfolding json_str read_value
  parsed_or_prop s k =
      or_param (of_parsed (json_str F (s.parse (read_value s.query k))))
        (item (scalar (read_value s.props k)))

  setting : Sources → String → Item F
  unfolding settings
  setting s k = elim (get k (settings s)) [ none ↦ scalar undefined | some v ↦ v ]

  -- The branches of the loop of `params`.
  unfoldable pub param_of : Sources → String → Expected → Param
  unfolding api_value expected asked parsed_or_prop setting static_data key_set_object read_value
  param_of s k string = item (api_value false s k)
  param_of s k boolean =
      let v = api_value true s k in
      if str_eq k "dark" then item (expected v (bool true)) else item v
  param_of s k object_ = or_param (parsed_or_prop s k) (item (setting s k))
  param_of s k data_ = or_param (parsed_or_prop s k) (static_data s)
  param_of s k select_ = elim (key_set_object F s.parse (asked s k)) [
    | some d ↦ selection d
    | none ↦ item (scalar (read_value s.props k))
  ]
  param_of s k react = item (scalar (read_value s.props k))
  param_of s k callback = item (scalar (read_value s.props k))

  unfoldable pub collect : Sources → Dict Expected → Dict Param
  unfolding param_of
  collect s [] = []
  collect s ((k, e) ∷ api) = (k, param_of s k e) ∷ collect s api

  unfoldable pub params : Sources → Dict Param
  unfolding collect
  params s = collect s tgve_api
