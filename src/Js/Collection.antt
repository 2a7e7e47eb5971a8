-- ===== src/Js/Collection.antt =====
-- `Set` and `Map` of JavaScript values: insertion order, keys compared by SameValueZero. A set is
-- the list of its elements, a map to counters the list of its entries.
use tgvejs.Prelude.{
  append-nil, append_assoc, sym, ◌∙◌, ◌+◌, ◌≤◌, length, All, length-append, ◌≡◌, refl, ap, inl, inr,
  Bool, true, false, ◌||◌, List, [], ◌∷◌, ◌++◌, arith, Bool-cases, if◌then◌else◌,
}
use tgvejs.Js.{Value, Floats, same_value, same_value_iff}

module _ (F : Floats) where
  open F use {Num}

  -- `set.has(v)`, `array.includes(v)`
  unfoldable pub contains : List (Value Num) → Value Num → Bool
  contains [] v = false
  contains (x ∷ xs) v = same_value F x v || contains xs v

  -- `set.add(v)`
  unfoldable pub add : List (Value Num) → Value Num → List (Value Num)
  unfolding contains
  add xs v = if contains xs v then xs else xs ++ v ∷ []

  -- the elements of `array` added one by one
  unfoldable pub add_all : List (Value Num) → List (Value Num) → List (Value Num)
  unfolding add
  add_all acc [] = acc
  add_all acc (v ∷ vs) = add_all (add acc v) vs

  -- `Array.from(new Set(array))`
  unfoldable pub unique : List (Value Num) → List (Value Num)
  unfolding add_all
  unique vs = add_all [] vs

  -- No element occurs twice.
  abbrev pub Distinct : List (Value Num) → Type 0
  Distinct [] = Unit
  Distinct (x ∷ xs) = (contains xs x ≡ false) × Distinct xs

  pub same_value_refl : (v : Value Num) → same_value F v v ≡ true
  same_value_refl v = (same_value_iff F v v).1 refl

  pub contains-append :
      (xs ys : List (Value Num)) (v : Value Num)
      → contains (xs ++ ys) v ≡ (contains xs v || contains ys v)
  unfolding contains
  contains-append [] ys v = refl
  contains-append (x ∷ xs) ys v = ground (arith, contains-append xs ys v)

  contains_of_same :
      (xs : List (Value Num)) (v w : Value Num)
      → same_value F v w ≡ true
      → contains xs v ≡ contains xs w
  contains_of_same xs v w h = ap (contains xs) ((same_value_iff F v w).0 h)

  pub same_value_comm : (v w : Value Num) → same_value F v w ≡ same_value F w v
  same_value_comm v w = ground (arith, same_value_iff F v w, same_value_iff F w v)

  contains_one : (v w : Value Num) → contains (v ∷ []) w ≡ same_value F v w
  unfolding contains
  contains_one v w = ground arith

  contains-add :
      (xs : List (Value Num)) (v w : Value Num)
      → contains (add xs v) w ≡ (contains xs w || same_value F v w)
  unfolding add
  contains-add xs v w =
      ground (arith, contains_of_same xs v w, contains-append xs (v ∷ []) w, contains_one v w)

  pub contains-add_all :
      (acc vs : List (Value Num)) (w : Value Num)
      → contains (add_all acc vs) w ≡ (contains acc w || contains vs w)
  unfolding add_all
  contains-add_all acc [] w = ground arith
  contains-add_all acc (v ∷ vs) w =
      ground (arith, contains-add_all (add acc v) vs w, contains-add acc v w)

  Distinct-snoc :
      (xs : List (Value Num)) (v : Value Num)
      → Distinct xs
      → contains xs v ≡ false
      → Distinct (xs ++ v ∷ [])
  unfolding contains
  Distinct-snoc [] v d h = (refl, tt)
  Distinct-snoc (x ∷ xs) v d h = (
    ground (arith, d.0, contains-append xs (v ∷ []) x, contains_one v x, same_value_comm v x),
    Distinct-snoc xs v d.1 (ground arith),
  )

  Distinct-add : (xs : List (Value Num)) (v : Value Num) → Distinct xs → Distinct (add xs v)
  unfolding add
  Distinct-add xs v d = elim (Bool-cases (contains xs v)) [
    | inl old ↦ rw old d
    | inr new ↦ rw new (Distinct-snoc xs v d new)
  ]

  Distinct-add_all : (acc vs : List (Value Num)) → Distinct acc → Distinct (add_all acc vs)
  unfolding add_all
  Distinct-add_all acc [] d = d
  Distinct-add_all acc (v ∷ vs) d = Distinct-add_all (add acc v) vs (Distinct-add acc v d)

  pub unique-Distinct : (vs : List (Value Num)) → Distinct (unique vs)
  unfolding unique
  unique-Distinct vs = Distinct-add_all [] vs tt

  pub contains-unique :
      (vs : List (Value Num)) (w : Value Num) → contains (unique vs) w ≡ contains vs w
  unfolding unique
  contains-unique vs w = contains-add_all [] vs w

  length-add : (xs : List (Value Num)) (v : Value Num) → length (add xs v) ≤ length xs + 1
  unfolding add
  length-add xs v = ground (arith, length-append xs (v ∷ []))

  pub length-add_all :
      (acc vs : List (Value Num)) → length (add_all acc vs) ≤ length acc + length vs
  unfolding add_all
  length-add_all acc [] = omega arith
  length-add_all acc (v ∷ vs) = omega (arith, length-add_all (add acc v) vs, length-add acc v)

  add_old : (acc : List (Value Num)) (v : Value Num) → contains acc v ≡ true → add acc v ≡ acc
  unfolding add
  add_old acc v h = rw h

  unseen :
      (acc : List (Value Num)) (v : Value Num) (vs : List (Value Num))
      → All (λ u. contains (add acc v) u ≡ false) vs
      → (contains vs v ≡ false) × All (λ u. contains acc u ≡ false) vs
  unfolding contains
  unseen acc v [] h = (refl, tt)
  unseen acc v (u ∷ us) h =
      let rest = unseen acc v us h.1 in
      (
        ground (arith, h.0, rest.0, contains-add acc v u, same_value_comm v u),
        (ground (arith, h.0, contains-add acc v u), rest.1),
      )

  -- If adding grows the set each time, no value was there before.
  pub add_all_grows :
      (acc vs : List (Value Num))
      → length (add_all acc vs) ≡ length acc + length vs
      → Distinct vs × All (λ v. contains acc v ≡ false) vs
  unfolding add_all
  add_all_grows acc [] h = (tt, tt)
  add_all_grows acc (v ∷ vs) h =
      let new : contains acc v ≡ false = ground (arith, length-add_all acc vs, add_old acc v) in
      let rest =
        add_all_grows (add acc v) vs
          (ground (arith, length-add_all (add acc v) vs, length-add acc v)) in
      let apart = unseen acc v vs rest.1 in ((apart.0, rest.0), (new, apart.1))

  -- A list as long as its set has no value twice.
  pub Distinct-of_length : (vs : List (Value Num)) → length (unique vs) ≡ length vs → Distinct vs
  unfolding unique
  Distinct-of_length vs h = (add_all_grows [] vs (omega arith)).0

  none_same :
      (vs : List (Value Num)) (v : Value Num)
      → contains vs v ≡ false
      → All (λ u. same_value F v u ≡ false) vs
  unfolding contains
  none_same [] v h = tt
  none_same (u ∷ us) v h = (ground (arith, same_value_comm v u), none_same us v (ground arith))

  still_new :
      (acc : List (Value Num)) (v : Value Num) (vs : List (Value Num))
      → contains acc v ≡ false
      → All (λ u. contains acc u ≡ false) vs
      → All (λ u. same_value F v u ≡ false) vs
      → All (λ u. contains (acc ++ v ∷ []) u ≡ false) vs
  still_new acc v [] new h k = tt
  still_new acc v (u ∷ us) new h k = (
    ground (arith, h.0, k.0, contains-append acc (v ∷ []) u, contains_one v u),
    still_new acc v us new h.1 k.1,
  )

  add_all_new :
      (acc vs : List (Value Num))
      → Distinct vs
      → All (λ v. contains acc v ≡ false) vs
      → add_all acc vs ≡ acc ++ vs
  unfolding add_all add
  add_all_new acc [] d h = sym (append-nil acc)
  add_all_new acc (v ∷ vs) d h = rw (h.0) (
      add_all_new (acc ++ v ∷ []) vs d.1 (still_new acc v vs h.0 h.1 (none_same vs v d.0))
      ∙ append_assoc acc (v ∷ []) vs)

  nothing_in : (vs : List (Value Num)) → All (λ v. contains [] v ≡ false) vs
  unfolding contains
  nothing_in [] = tt
  nothing_in (v ∷ vs) = (refl, nothing_in vs)

  -- A property of the elements, one by one.
  pub All-of_contains :
      (P : Value Num → Type 0) (xs : List (Value Num))
      → ((v : Value Num) → contains xs v ≡ true → P v)
      → All P xs
  unfolding contains
  All-of_contains P [] h = tt
  All-of_contains P (x ∷ xs) h =
      (h x (ground (arith, same_value_refl x)), All-of_contains P xs (λ v m. h v (ground arith)))

  -- A set made of the elements of a set is that set.
  pub unique_of_Distinct : (vs : List (Value Num)) → Distinct vs → unique vs ≡ vs
  unfolding unique
  unique_of_Distinct vs d = add_all_new [] vs d (nothing_in vs)
