-- ===== src/Sidebar.antt =====
-- What the side bar does to the selection: src/components/Variables.jsx and
-- src/components/MultiSelect.jsx, as src/components/decksidebar/Tabs.jsx puts them together, and the
-- clicks of src/components/decksidebar/Charts.jsx.
pub mod Runs
pub mod Columns
use tgvejs.Prelude.{
  String, Bool, true, false, ◌||◌, Option, none, some, List, [], ◌∷◌, ◌++◌, map, str_eq,
  if◌then◌else◌,
}
use tgvejs.Js.{Value, str, Floats, truthy, to_text}
use tgvejs.Js.Dict.{Dict, get, put, remove, has, keys}
use tgvejs.Js.Collection.{contains, unique}
use tgvejs.Home.Filter.{Selection, Filter, multi, other}

-- `columnsArray.includes(key)`
unfoldable pub includes : List String → String → Bool
includes [] k = false
includes (c ∷ cs) k = str_eq c k || includes cs k

module _ (F : Floats) where
  open F use {Num}

  -- What `onSelectCallback` is called with: a filter, or the selection itself.
  pub data Told : Type 0 where
    tell : Filter F → Told
    tell_selection : Selection Num → Told

  -- `multiVarSelect` is an object that the home component and Charts share: Charts takes it from the
  -- props when it is made. `own` is that of Charts once the home component has made another one.
  -- The latest message stands first.
  pub record Side : Type 0 where
    pub shared : Selection Num
    pub own : Option (Selection Num)
    pub columns : List String
    pub told : List Told

  -- Object.keys(s).length === 0 ? { what: '' } : { what: 'multi', selected: s }
  unfoldable pub message : Selection Num → Filter F
  message [] = other ""
  message (e ∷ es) = multi (some (e ∷ es))

  -- `filter.selected || {}`
  unfoldable pub selected_of : Filter F → Selection Num
  selected_of (multi (some s)) = s
  selected_of m = []

  -- `onChange` of MultiSelect, with a selection: the values chosen in a column.
  unfoldable pub select_values : String → List (Value Num) → Selection Num → Selection Num
  unfolding unique put remove
  select_values column [] s = remove column s
  select_values column (v ∷ vs) s = put column (unique F (v ∷ vs)) s

  -- The callbacks of Variables and of Tabs around it.
  unfoldable pub change_values : String → List (Value Num) → Side → Side
  unfolding select_values message selected_of
  change_values column vs b =
      let s = select_values column vs b.shared in
      record b { shared = s; told = tell (message (selected_of (message s))) ∷ b.told }

  -- One pass of the loop over the keys; a set is truthy.
  unfoldable pub drop_column : List String → Side → String → Side
  unfolding includes get remove message
  drop_column cols b k = if includes cols k then b else elim (get k b.shared) [
    | none ↦ b
    | some vs ↦
        let s = remove k b.shared in record b { shared = s; told = tell (message s) ∷ b.told }
  ]

  unfoldable pub drop_columns : List String → Side → List String → Side
  unfolding drop_column
  drop_columns cols b [] = b
  drop_columns cols b (k ∷ ks) = drop_columns cols (drop_column cols b k) ks

  -- `onChange` of Variables: the columns that are to be filtered by.
  unfoldable pub change_columns : List String → Side → Side
  unfolding drop_columns keys
  change_columns cols b = record (drop_columns cols b (keys b.shared)) { columns = cols }

  -- The columns that Variables shows.
  unfoldable pub sync_columns : Side → List (Value Num)
  unfolding unique keys
  sync_columns b = unique F (map str (b.columns ++ keys b.shared))

  -- The object that Charts has at hand, and what becomes of it.
  abbrev pub at_hand : Side → Selection Num
  at_hand b = elim b.own [ none ↦ b.shared | some s ↦ s ]

  abbrev pub with_hand : Selection Num → Side → Side
  with_hand s b = elim b.own [ none ↦ record b { shared = s } | some o ↦ record b { own = some s } ]

  -- The home component takes the selection of the message over, if it does not end with an alert.
  abbrev pub taken_over : Bool → Side → Side
  taken_over false b = b
  taken_over true b = record b { shared = at_hand b; own = none }

  -- `filterOrReset` of Charts, of the places of the points that were clicked.
  unfoldable pub filter_or_reset : String → Bool → List (Value Num) → Side → Side
  unfolding has remove put unique
  filter_or_reset column taken [] b = b
  filter_or_reset column taken (x ∷ xs) b =
      let s = at_hand b in
      let gone = remove column s in
      let made = put column (unique F (map (λ v. str (to_text F v)) (x ∷ xs))) s in
      if truthy F x
      then if has column s
        then record (with_hand gone b) { told = tell_selection gone ∷ b.told }
        else record (taken_over taken (with_hand made b)) {
          told = tell (multi (some made)) ∷ b.told;
        }
      else b

  -- `accident_severity` has the value
  unfoldable pub has_severity : Value Num → Selection Num → Bool
  unfolding get contains
  has_severity v s = elim (get "accident_severity" s) [ none ↦ false | some vs ↦ contains F vs v ]

  -- The selection of Charts after the click, and its message.
  unfoldable pub toggled : Bool → Selection Num → Side → Side
  unfolding message
  toggled taken [] b = record (with_hand [] b) { told = tell (message []) ∷ b.told }
  toggled taken (e ∷ es) b = record (taken_over taken (with_hand (e ∷ es) b)) {
    told = tell (message (e ∷ es)) ∷ b.told;
  }

  -- The click on a bar of the severity of accidents.
  unfoldable pub toggle_severity : Bool → Value Num → Side → Side
  unfolding has_severity remove put toggled
  toggle_severity taken v b =
      let s = at_hand b in
      toggled taken
        (if has_severity v s
          then remove "accident_severity" s
          else put "accident_severity" (v ∷ []) s)
        b

  -- A reset makes a new, empty object for the home component; Charts keeps the one that it has.
  unfoldable pub reset : Side → Side
  reset b = record b { shared = []; own = some (at_hand b) }

  -- `make_charts` is a Charts made anew, with the selection of the props.
  pub data Action : Type 0 where
    choose_values : String → List (Value Num) → Action
    choose_columns : List String → Action
    click_bar : String → Bool → List (Value Num) → Action
    click_severity : Bool → Value Num → Action
    start_anew : Action
    make_charts : Action

  unfoldable pub act : Action → Side → Side
  unfolding change_values change_columns filter_or_reset toggle_severity reset
  act (choose_values c vs) b = change_values c vs b
  act (choose_columns cs) b = change_columns cs b
  act (click_bar c taken xs) b = filter_or_reset c taken xs b
  act (click_severity taken v) b = toggle_severity taken v b
  act start_anew b = reset b
  act make_charts b = record b { own = none }

  -- The side bar of a component with a selection.
  abbrev pub mounted : Selection Num → Side
  mounted s = record { shared = s; own = none; columns = keys s; told = [] }
