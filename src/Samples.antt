-- ===== src/Samples.antt =====
-- Concrete data for the tests: whole numbers with the special doubles, an element whose listeners
-- are counted in a table, the packages, and a geography with rows to join.
use tgvejs.Prelude.{
  ℕ, ◌+◌, ◌-◌, ◌*◌, ◌/◌, String, ◌≡◌, refl, ◌↔◌, Bool, true, false, not, ◌&&◌, Option, none, some,
  List, [], ◌∷◌, ◌==◌, ==_iff, ltb, leb, codes, filter, get_elem?, text_eq, str_eq, sym, inl, inr,
  Bool-cases, arith, if◌then◌else◌,
}
use tgvejs.Js.{Value, undefined, bool, num, str, Floats, to_number, same_value, same_value_iff}
use tgvejs.Js.Sort.{IsComparison}
use tgvejs.Js.Dict.{Dict}
use tgvejs.Js.Collection.{contains}
use tgvejs.Geojson.{Coord, Geometry, Feature, flat}
use tgvejs.Utils.Numbers.{Box}
use tgvejs.Color.{Palette}
use tgvejs.Layers.{Engine}
use tgvejs.Utils.Extremes.{IsOrder}
use tgvejs.Home.Filter.{Packages}
use tgvejs.Api.Select.{object, scalar}
use tgvejs.Api.Params.{Sources}
use tgvejs.Api.Changed.{Store}
use tgvejs.Plotly.{Emitter, Props, Component}

pub data Whole : Type 0 where
  not_a_number minus_infinity infinity : Whole
  whole : ℕ → Whole

abbrev same : Whole → Whole → Bool
same not_a_number not_a_number = true
same minus_infinity minus_infinity = true
same infinity infinity = true
same (whole a) (whole b) = a == b
same _ _ = false

pub same_iff : (a b : Whole) → (same a b ≡ true) ↔ (a ≡ b)
same_iff (whole a) (whole b) = ground (arith, ==_iff a b)
same_iff a b = ground arith

abbrev is_nan : Whole → Bool
is_nan not_a_number = true
is_nan a = false

abbrev pub lt : Whole → Whole → Bool
lt (whole a) (whole b) = ltb a b
lt minus_infinity (whole b) = true
lt minus_infinity infinity = true
lt (whole a) infinity = true
lt _ _ = false

ltb_asym : (a b : ℕ) → ltb a b ≡ true → ltb b a ≡ false
ltb_asym a b h = ground arith

pub lt_asym : (a b : Whole) → lt a b ≡ true → lt b a ≡ false
lt_asym (whole a) (whole b) h = ltb_asym a b h
lt_asym a b h = ground arith

ltb_trans : (a b c : ℕ) → ltb b a ≡ false → ltb c b ≡ false → ltb c a ≡ false
ltb_trans a b c h k = ground arith

abbrev lift : (ℕ → ℕ → ℕ) → Whole → Whole → Whole
lift f (whole a) (whole b) = whole (f a b)
lift f _ _ = not_a_number

abbrev digits : Whole → List ℕ → Whole
digits (whole n) (c ∷ s) =
    digits (if leb b'0' c && leb c b'9' then whole (10 * n + (c - b'0')) else not_a_number) s
digits n s = n

abbrev number : String → Whole
number s = digits (whole 0) (codes s)

-- whole digits or nothing
abbrev parse : String → Whole
parse s = elim (codes s) [ [] ↦ not_a_number | c ∷ cs ↦ digits (whole 0) (c ∷ cs) ]

abbrev names : List String
names = "0" ∷ "1" ∷ "2" ∷ "3" ∷ "4" ∷ "5" ∷ "6" ∷ "7" ∷ "8" ∷ "9" ∷ []

-- the digits, and one text for all else
abbrev show : Whole → String
show not_a_number = "NaN"
show (whole n) = elim (get_elem? names n) [ none ↦ "Infinity" | some s ↦ s ]
show _ = "Infinity"

abbrev array_index : String → Option ℕ
array_index s = elim (parse s) [ whole n ↦ some n | _ ↦ none ]

abbrev pub wholes : Floats
wholes = record {
  Num = Whole;
  same = same;
  same_iff = same_iff;
  is_nan = is_nan;
  zero = whole 0;
  nan = not_a_number;
  nan-is_nan = refl;
  zero-is_nan = refl;
  infinity = infinity;
  minus_infinity = minus_infinity;
  of_nat = whole;
  lt = lt;
  add = lift (λ a b. a + b);
  sub = lift (λ a b. a - b);
  mul = lift (λ a b. a * b);
  div = lift (λ a b. a / b);
  floor = λ a. a;
  number = number;
  parse_float = parse;
  parse_int = parse;
  show = show;
  array_index = array_index;
  show_ref = λ a. "[object Object]";
  number_ref = λ a. not_a_number;
}

abbrev difference : List (Value Whole) → List (Value Whole) → List (Value Whole)
difference vs ws = filter (λ v. not (contains wholes ws v)) vs

-- whether a point lies in a box; a MultiLineString is not supported
abbrev contains_box : Box wholes → Feature Whole → Option Bool
contains_box box d = elim d.geometry [
  | none ↦ some true
  | some g ↦ if str_eq g.type "MultiLineString" then none else elim (flat g.coordinates) [
    | num x ∷ num y ∷ vs ↦ some (lt box.xmin x && lt x box.xmax && lt box.ymin y && lt y box.ymax)
    | vs ↦ some true
  ]
]

abbrev pub packages : Packages wholes
packages = record { contains_box = contains_box; difference = difference }

-- `count e n h` is the entry of the table.
abbrev pub table : Emitter
table = record {
  El = List ℕ → ℕ → ℕ;
  count = λ e n h. e n h;
  on = λ n h e m k. e m k + (if text_eq n m && h == k then 1 else 0);
  remove_listener = λ n h e m k. e m k - (if text_eq n m && h == k then 1 else 0);
  purge = λ e m k. 0;
  count-on = λ n m h k e. refl;
  count-remove_listener = λ n m h k e. refl;
}

abbrev pub point : Whole → Whole → Option (Geometry Whole)
point x y =
    some (record { type = "Point"; coordinates = Coord.scalar (num x) ∷ Coord.scalar (num y) ∷ [] })

abbrev pub place : Option (Geometry Whole) → Dict (Value Whole) → Feature Whole
place g d = record { type = "Feature"; geometry = g; properties = d }

-- Two areas with codes, and the numbers of accidents in them.
abbrev pub leeds : Feature Whole
leeds = place (point (whole 1) (whole 2)) (("code", str "E1") ∷ ("name", str "Leeds") ∷ [])

abbrev pub york : Feature Whole
york = place (point (whole 3) (whole 4)) (("code", str "E2") ∷ ("name", str "York") ∷ [])

abbrev pub accidents : Feature Whole
accidents = place none (("area", str "E1") ∷ ("total", str "7") ∷ [])

abbrev pub more_accidents : Feature Whole
more_accidents = place none (("area", str "E2") ∷ ("total", str "4") ∷ [])

-- Its one column is in capitals.
abbrev pub shouting : Feature Whole
shouting = place none (("CODE", str "E1") ∷ [])

-- The props of a plot that is clicked.
abbrev pub clicked : Props
clicked = record {
  on = λ e. if str_eq e "Click" then some 5 else none;
  use_resize_handler = true;
  on_initialized = none;
  on_update = none;
  on_purge = some 8;
  on_error = none;
  layout = 1;
  traces = 2;
  config = 3;
  frames = 0;
  revision = some 1;
}

-- A component that has just been constructed, in a window with one listener of somebody else.
abbrev pub constructed : Component table
constructed = record {
  el = λ n h. 0;
  handlers = [];
  resize_handler = none;
  unmounting = false;
  window = 0 ∷ [];
  next = 1;
  calls = [];
  resizes = 0;
  errors = [];
}

-- Subtraction, as in `(a, b) => a - b`, and what it keeps on whole numbers.
abbrev pub differs : Value Whole → Value Whole → Bool
differs v w = lt (to_number wholes w) (to_number wholes v)

abbrev pub IsWhole : Value Whole → Type 0
IsWhole v = (a : ℕ) × (v ≡ num (whole a))

pub whole-IsComparison :
    (P : Value Whole → Type 0) → ((v : Value Whole) → P v → IsWhole v) → IsComparison differs P
whole-IsComparison P are = record {
  asym = λ v w p q. let (a, e) = are v p in let (b, f) = are w q in rw (e, f) (ltb_asym b a);
  trans = λ v w u p q r.
      let (a, e) = are v p in
      let (b, f) = are w q in let (c, g) = are u r in rw (e, f, g) (ltb_trans a b c);
}

-- The numbers of a list of two.
pub IsWhole-of_two :
    (a b : ℕ) (v : Value Whole)
    → contains wholes (num (whole a) ∷ num (whole b) ∷ []) v ≡ true
    → IsWhole v
unfolding contains
IsWhole-of_two a b v h = elim (Bool-cases (same_value wholes (num (whole a)) v)) [
  | inl e ↦ (a, sym ((same_value_iff wholes (num (whole a)) v).0 e))
  | inr e ↦ (b, sym ((same_value_iff wholes (num (whole b)) v).0 (ground arith)))
]

-- The page's sources: a column in the query, settings with a flag, no environment.
abbrev pub sources : List ℕ → Sources wholes
sources name = record {
  query = ("column", str "total") ∷ [];
  props = ("dark", bool false) ∷ [];
  data_text = none;
  settings_text = some "{}";
  env = λ n. if text_eq n name then some (str "true") else none;
  parse = λ v. object (("hideCharts", scalar (str "true")) ∷ []);
}

-- Nothing stands under a reference, and every value has the same text.
abbrev pub store : Store wholes
store = record {
  keys_of = λ a. [];
  value_at = λ a k. undefined;
  elements = λ a. [];
  stringify = λ v. some "{}";
  random = λ n. 0;
}

lt_trans :
    (a b c : Whole)
    → is_nan a ≡ false
    → is_nan b ≡ false
    → is_nan c ≡ false
    → lt a b ≡ false
    → lt b c ≡ false
    → lt a c ≡ false
lt_trans (whole a) (whole b) (whole c) x y z h k = ltb_trans c b a k h
lt_trans a b c x y z h k = ground arith

pub wholes-IsOrder : IsOrder wholes
wholes-IsOrder = record { asym = lt_asym; trans = lt_trans; minus_infinity-is_nan = refl }

-- `schemeSet1` of d3-scale-chromatic, and an interpolator that is always black.
abbrev pub set1 : Palette wholes
set1 = record {
  scheme_set1 =
      codes "#e41a1c"
      ∷ codes "#377eb8"
      ∷ codes "#4daf4a"
      ∷ codes "#984ea3"
      ∷ codes "#ff7f00"
      ∷ codes "#ffff33"
      ∷ codes "#a65628"
      ∷ codes "#f781bf"
      ∷ codes "#999999"
      ∷ [];
  interpolate = λ i a. codes "rgb(0, 0, 0)";
  number = λ s. whole 0;
}

-- Rounding does nothing, the page's functions give 5, the first of several is chosen, and texts are in
-- small letters already.
abbrev pub engine : Engine wholes
engine = record {
  round = λ a. a;
  call = λ a d. num (whole 5);
  random = λ n. 0;
  lower = λ s. s;
  slice_end = λ a n. n;
}
