-- ===== src/Utils/Domain.antt =====
-- `generateDomain` of src/utils/utils.js: the values that the colours of a map are chosen from.
pub mod Laws
use tgvejs.Prelude.{
  append-nil, append_assoc, String, ◌≡◌, refl, sym, ap, subst, false≢true, ◌∙◌, ◌⊎◌, inl, inr, Bool,
  true, false, not, ◌&&◌, ◌||◌, Option, none, some, List, [], ◌∷◌, ◌++◌, get_elem?, str_eq, arith,
  Bool-cases, if◌then◌else◌,
}
use tgvejs.Js.{Value, num, Floats, to_number, truthy, same_value, same_value_iff}
use tgvejs.Js.Dict.{keys}
use tgvejs.Js.Collection.{
  contains, Distinct, unique, unique-Distinct, contains-unique, All-of_contains, contains-append,
}
use tgvejs.Js.Sort.{sort, IsSorted, IsComparison, sort-IsSorted, sort-Distinct, contains-sort}
use tgvejs.Geojson.{Feature, read}

module _ (F : Floats) where
  open F use {Num}

  -- `(a, b) => a - b` is positive.
  unfoldable pub subtracts : Value Num → Value Num → Bool
  subtracts v w = F.lt (to_number F w) (to_number F v)

  -- Object.keys(properties)[column], whose `undefined` is read as a key
  unfoldable pub key_at : Feature Num → String → String
  unfolding keys
  key_at f column = elim (F.array_index column) [
    | none ↦ "undefined"
    | some i ↦ elim (get_elem? (keys f.properties) i) [ none ↦ "undefined" | some k ↦ k ]
  ]

  -- +(column) ? Object.keys(feature.properties)[column] : column
  unfoldable pub domain_key : Feature Num → String → String
  unfolding key_at
  domain_key f column = if truthy F (num (F.number column)) then key_at f column else column

  pub record Domain : Type 0 where
    pub numeric : Bool
    pub domain : List (Value Num)

  -- One pass of the loop; the values are collected in reverse.
  unfoldable pub domain_step : String → Domain → Feature Num → Domain
  unfolding domain_key
  domain_step column s f =
      let i = read f.properties (domain_key f column) in
      let n = to_number F i in
      if not (truthy F i)
      then s
      else if truthy F (num n) && str_eq column "Mean.Travel.Time..Seconds."
      then record s { domain = s.domain ++ num (F.floor (F.div n (F.of_nat 300))) ∷ [] }
      else if truthy F (num n)
      then record s { domain = s.domain ++ num n ∷ [] }
      else record { numeric = false; domain = s.domain ++ i ∷ [] }

  unfoldable pub domain_scan : String → Domain → List (Feature Num) → Domain
  unfolding domain_step
  domain_scan column s [] = s
  domain_scan column s (f ∷ fs) = domain_scan column (domain_step column s f) fs

  -- `none` is undefined.
  unfoldable pub generate_domain : Option (List (Feature Num)) → String → Option (List (Value Num))
  unfolding domain_scan subtracts
  generate_domain none column = none
  generate_domain (some []) column = none
  generate_domain (some (f ∷ fs)) column =
      let s = domain_scan column (record { numeric = true; domain = [] }) (f ∷ fs) in
      if str_eq column ""
      then none
      else if s.numeric
      then some (sort subtracts (unique F s.domain))
      else some (unique F s.domain)
