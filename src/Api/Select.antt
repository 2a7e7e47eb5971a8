-- ===== src/Api/Select.antt =====
-- `jsonStr`, `keySetObject` and `jsonFromKeySetObject` of src/utils/api.js: the selection of a query
-- string, written as JSON or as key:val1,val2.
use tgvejs.Prelude.{
  ℕ, String, ◌≡◌, refl, ◌∙◌, Bool, false, ◌&&◌, ◌||◌, ◌==◌, leb, Option, none, some, List, [], ◌∷◌,
  str_eq, eq_iff, codes, arith, if◌then◌else◌,
}
use tgvejs.Js.{Value, bool, str, Floats}
use tgvejs.Js.Dict.{Dict, get, put, has, get-put, get_of_has}
use tgvejs.Js.Collection.{unique, unique_of_Distinct, Distinct}
use tgvejs.Js.Text.{split}

module _ (F : Floats) where
  open F use {Num}

  -- What a property of a JSON object holds: an array, or another value.
  pub data Item : Type 0 where
    items : List (Value Num) → Item
    scalar : Value Num → Item

  -- What `JSON.parse` gives: an object, another value, or an error.
  pub data Parsed : Type 0 where
    object : Dict Item → Parsed
    other : Value Num → Parsed
    failed : Parsed

  -- `jsonStr`: an error gives false.
  unfoldable pub json_str : Parsed → Parsed
  json_str failed = other (bool false)
  json_str json = json

  unfoldable pub key_sets : Dict Item → Dict (List (Value Num)) → Dict (List (Value Num))
  unfolding unique
  key_sets [] result = result
  key_sets ((key, items vs) ∷ d) result = key_sets d (put key (unique F vs) result)
  key_sets ((key, scalar v) ∷ d) result = key_sets d result

  texts : List String → List (Value Num)
  texts [] = []
  texts (s ∷ ss) = str s ∷ texts ss

  -- for (let i = 0; i < array.length; i += 2) …
  unfoldable pub pair_sets : List String → Dict (List (Value Num)) → Dict (List (Value Num))
  unfolding split unique texts
  pair_sets [] result = result
  pair_sets (key ∷ []) result = result
  pair_sets (key ∷ s ∷ rest) result =
      pair_sets rest
        (if str_eq s "" then result else put key (unique F (texts (split "," s))) result)

  -- the class [\w+._-\s\\(\\)] of the expression
  is_word_code : ℕ → Bool
  is_word_code c =
      (leb b'a' c && leb c b'z')
      || (leb b'A' c && leb c b'Z')
      || (leb b'0' c && leb c b'9')
      || c == b'_'
      || c == b'+'
      || c == b'.'
      || c == b'-'
      || c == 92
      || c == b'('
      || c == b')'
      || (leb 9 c && leb c 13)
      || c == 32
      || c == 160
      || c == 0x1680
      || (leb 0x2000 c && leb c 0x200a)
      || c == 0x2028
      || c == 0x2029
      || c == 0x202f
      || c == 0x205f
      || c == 0x3000
      || c == 0xfeff

  -- a colon, and a character of the class behind it
  is_value_part : List ℕ → Bool
  unfolding is_word_code
  is_value_part [] = false
  is_value_part (c ∷ []) = false
  is_value_part (c ∷ d ∷ s) = c == b':' && is_word_code d

  -- behind the first character: more of the class, then the value
  is_key_part : List ℕ → Bool
  unfolding is_value_part is_word_code
  is_key_part [] = false
  is_key_part (c ∷ s) = if is_word_code c then is_key_part s else is_value_part (c ∷ s)

  unfoldable pub is_key_values : List ℕ → Bool
  unfolding is_key_part is_word_code
  is_key_values [] = false
  is_key_values (c ∷ s) = is_word_code c && is_key_part s

  -- `none` is null. `parse` is `JSON.parse` of the argument converted to a text.
  unfoldable pub key_set_object :
      (Value Num → Parsed) → Value Num → Option (Dict (List (Value Num)))
  unfolding json_str key_sets pair_sets is_key_values split
  key_set_object parse v = elim (json_str (parse v)) [
    | object d ↦ some (key_sets d [])
    | _ ↦ elim v [
      | str s ↦ if is_key_values (codes s) then some (pair_sets (split ":" s) []) else none
      | _ ↦ none
    ]
  ]

  unfoldable pub json_from_key_set_object : Option (Dict (List (Value Num))) → Dict Item
  json_from_key_set_object none = []
  json_from_key_set_object (some []) = []
  json_from_key_set_object (some ((key, set) ∷ d)) =
      (key, items set) ∷ json_from_key_set_object (some d)

  -- A selection as the application keeps it: keys that differ, and sets.
  abbrev pub IsSelection : Dict (List (Value Num)) → Type 0
  IsSelection [] = Unit
  IsSelection ((key, set) ∷ d) = (has key d ≡ false) × Distinct F set × IsSelection d

  or_else : Option (List (Value Num)) → Option (List (Value Num)) → Option (List (Value Num))
  or_else none y = y
  or_else (some s) y = some s

  or_else-none : (x : Option (List (Value Num))) → or_else x none ≡ x
  unfolding or_else
  or_else-none none = refl
  or_else-none (some s) = refl

  get-key_sets :
      (d : Dict (List (Value Num))) (result : Dict (List (Value Num))) (k : String)
      → IsSelection d
      → get k (key_sets (json_from_key_set_object (some d)) result)
        ≡ or_else (get k d) (get k result)
  unfolding key_sets json_from_key_set_object or_else get
  get-key_sets [] result k h = refl
  get-key_sets ((key, set) ∷ d) result k h = ground (
    arith,
    get-key_sets d (put key (unique F set) result) k h.2,
    get-put key k (unique F set) result,
    unique_of_Distinct F set h.1,
    get_of_has key d h.0,
    eq_iff key k,
  )

  -- The selection that is handed to `onStateChange` as an object of arrays comes back as the same
  -- sets, if `JSON.parse` reads that object off the text.
  pub key_set_object-json_from :
      (parse : Value Num → Parsed) (v : Value Num) (d : Dict (List (Value Num)))
      → IsSelection d
      → parse v ≡ object (json_from_key_set_object (some d))
      → (r : Dict (List (Value Num))) × (key_set_object parse v ≡ some r)
        × ((k : String) → get k r ≡ get k d)
  unfolding key_set_object json_str get
  key_set_object-json_from parse v d h e = (
    key_sets (json_from_key_set_object (some d)) [],
    rw (e, key_set_object) refl,
    λ k. get-key_sets d [] k h ∙ or_else-none (get k d),
  )
