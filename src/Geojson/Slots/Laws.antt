-- ===== src/Geojson/Slots/Laws.antt =====
-- What `propertyCount` counts.
use tgvejs.Prelude.{
  ℕ, zero, suc, ◌+◌, String, ◌≡◌, refl, ap, sym, subst, ◌∙◌, true, false, Option, none, some, List,
  [], ◌∷◌, ◌++◌, str_eq, get_elem?, arith, Bool-cases, inl, inr, if◌then◌else◌, if_true, if_false,
  false≢true,
}
use tgvejs.Js.{Value, Floats, strict_eq, same_value, same_value_iff}
use tgvejs.Js.Dict.{keys}
use tgvejs.Js.Collection.{unique}
use tgvejs.Js.Counter.{occurrences}
use tgvejs.Geojson.{Feature, read}
use tgvejs.Geojson.Values.{column, readings, get_property_values-values}
use tgvejs.Utils.Xy.{Point}
use tgvejs.Geojson.Slots.{
  same_position, same_position_iff, at, write, at-write, shift, index_of, count_slot, slot_keys,
  slot_features, found_values, list_copy, property_count,
}

module _ (F : Floats) where
  open F use {Num}

  -- A counter that is not 0.
  abbrev pub slot_of : Value Num → ℕ → Option (Point Num)
  slot_of v zero = none
  slot_of v (suc n) = some (record { x = v; y = suc n })

  slot_of-next : (v : Value Num) (n : ℕ) → some (record { x = v; y = n + 1 }) ≡ slot_of v (n + 1)
  slot_of-next v n =
      let next : suc n ≡ n + 1 = omega arith in
      subst (λ (m : ℕ). ◌≡◌ {A = Option (Point Num)} (some (record { x = v; y = m })) (slot_of v m))
        next refl

  strict_eq-same : (v w : Value Num) → strict_eq F v w ≡ true → v ≡ w
  strict_eq-same (Value.num a) (Value.num b) h =
      (same_value_iff F (Value.num a) (Value.num b)).0 (ground arith)
  strict_eq-same v w h = (same_value_iff F v w).0 (ground arith)

  shift-some : (o : Option ℕ) (i : ℕ) → shift F o ≡ some i → (j : ℕ) × (o ≡ some j) × (i ≡ suc j)
  unfolding shift
  shift-some none i h = cc
  shift-some (some j) i h = (j, refl, ground arith)

  index_of-hit :
      (x : Value Num) (xs : List (Value Num)) (v : Value Num)
      → strict_eq F x v ≡ true
      → index_of F (x ∷ xs) v ≡ some 0
  unfolding index_of
  index_of-hit x xs v h = ground arith

  index_of-miss :
      (x : Value Num) (xs : List (Value Num)) (v : Value Num)
      → strict_eq F x v ≡ false
      → index_of F (x ∷ xs) v ≡ shift F (index_of F xs v)
  unfolding index_of
  index_of-miss x xs v h = ground arith

  no_index : (v : Value Num) (i : ℕ) → ¬ (index_of F [] v ≡ some i)
  unfolding index_of
  no_index v i h = cc

  -- The value stands at its position, as `===` reads it.
  index_of-element :
      (list : List (Value Num)) (v : Value Num) (i : ℕ)
      → index_of F list v ≡ some i
      → (u : Value Num) × (get_elem? list i ≡ some u) × (strict_eq F u v ≡ true)
  index_of-element [] v i a = absurd (no_index v i a)
  index_of-element (x ∷ xs) v i a = elim (Bool-cases (strict_eq F x v)) [
    | inl e ↦ let first : some i ≡ some 0 = sym a ∙ index_of-hit x xs v e in (x, ground arith, e)
    | inr e ↦
        let (j, b, p) = shift-some (index_of F xs v) i (sym (index_of-miss x xs v e) ∙ a) in
        let (u, g, t) = index_of-element xs v j b in (u, ap (get_elem? (x ∷ xs)) p ∙ g, t)
  ]

  index_of-same :
      (list : List (Value Num)) (v w : Value Num) (i : ℕ)
      → index_of F list v ≡ some i
      → index_of F list w ≡ some i
      → v ≡ w
  index_of-same list v w i a b =
      let (u, g, t) = index_of-element list v i a in
      let (z, k, r) = index_of-element list w i b in
      let same : u ≡ z = cc (g, k) in sym (strict_eq-same u v t) ∙ same ∙ strict_eq-same z w r

  index_of-strict :
      (list : List (Value Num)) (v : Value Num) (i : ℕ)
      → index_of F list v ≡ some i
      → strict_eq F v v ≡ true
  index_of-strict list v i a =
      let (u, g, t) = index_of-element list v i a in
      subst (λ x. strict_eq F x v ≡ true) (strict_eq-same u v t) t

  count_slot-write :
      (list : List (Value Num)) (w : Value Num) (s : List (Option ℕ × Point Num))
      → (p : Point Num) × (count_slot F list w s ≡ write (index_of F list w) p s)
  unfolding count_slot
  count_slot-write list w s = go (at (index_of F list w) s) refl
    where
      go :
          (o : Option (Point Num))
          → at (index_of F list w) s ≡ o
          → (p : Point Num) × (count_slot F list w s ≡ write (index_of F list w) p s)
      go none e = (record { x = w; y = 1 }, ground arith)
      go (some p) e = elim (Bool-cases (strict_eq F p.x w)) [
        | inl t ↦ (record { x = p.x; y = p.y + 1 }, ground arith)
        | inr t ↦ (record { x = w; y = 1 }, ground arith)
      ]

  at-count_other :
      (list : List (Value Num)) (v w : Value Num) (i : ℕ) (s : List (Option ℕ × Point Num))
      → index_of F list v ≡ some i
      → same_value F w v ≡ false
      → at (some i) (count_slot F list w s) ≡ at (some i) s
  at-count_other list v w i s a d =
      let (p, e) = count_slot-write list w s in
      elim (Bool-cases (same_position (index_of F list w) (some i))) [
        | inl t ↦
            let b = (same_position_iff (index_of F list w) (some i)).0 t in
            absurd
              (false≢true (sym d ∙ (same_value_iff F w v).1 (sym (index_of-same list v w i a b))))
        | inr t ↦ ap (at (some i)) e ∙ at-write (index_of F list w) (some i) p s ∙ if_false _ _ _ t
      ]

  count_slot-new :
      (list : List (Value Num)) (v : Value Num) (s : List (Option ℕ × Point Num))
      → at (index_of F list v) s ≡ none
      → count_slot F list v s ≡ write (index_of F list v) (record { x = v; y = 1 }) s
  unfolding count_slot
  count_slot-new list v s e = ground arith

  count_slot-old :
      (list : List (Value Num)) (v : Value Num) (n : ℕ) (s : List (Option ℕ × Point Num))
      → at (index_of F list v) s ≡ some (record { x = v; y = n })
      → strict_eq F v v ≡ true
      → count_slot F list v s ≡ write (index_of F list v) (record { x = v; y = n + 1 }) s
  unfolding count_slot
  count_slot-old list v n s e t = ground arith

  at-write_self :
      (i : Option ℕ) (p : Point Num) (s : List (Option ℕ × Point Num)) → at i (write i p s) ≡ some p
  at-write_self i p s = at-write i i p s ∙ if_true _ _ _ ((same_position_iff i i).1 refl)

  at-count_self :
      (list : List (Value Num)) (v : Value Num) (i n : ℕ) (s : List (Option ℕ × Point Num))
      → index_of F list v ≡ some i
      → at (some i) s ≡ slot_of v n
      → at (some i) (count_slot F list v s) ≡ slot_of v (n + 1)
  at-count_self list v i zero s a h =
      subst (λ j. at j (count_slot F list v s) ≡ slot_of v 1) a
        (ap (at (index_of F list v)) (count_slot-new list v s (ap (λ j. at j s) a ∙ h))
          ∙ at-write_self (index_of F list v) (record { x = v; y = 1 }) s)
  at-count_self list v i (suc n) s a h =
      subst (λ j. at j (count_slot F list v s) ≡ slot_of v (suc n + 1)) a
        (ap (at (index_of F list v))
            (count_slot-old list v (suc n) s (ap (λ j. at j s) a ∙ h) (index_of-strict list v i a))
          ∙ at-write_self (index_of F list v) (record { x = v; y = suc n + 1 }) s
          ∙ slot_of-next v (suc n))

  at-count_slot :
      (list : List (Value Num)) (v w : Value Num) (i n : ℕ) (s : List (Option ℕ × Point Num))
      → index_of F list v ≡ some i
      → at (some i) s ≡ slot_of v n
      → at (some i) (count_slot F list w s) ≡ slot_of v (n + (if same_value F w v then 1 else 0))
  at-count_slot list v w i n s a h = elim (Bool-cases (same_value F w v)) [
    | inl e ↦
        let p : w ≡ v = (same_value_iff F w v).0 e in rw (e, p) (at-count_self list v i n s a h)
    | inr e ↦ rw e (at-count_other list v w i s a e ∙ h ∙ ap (slot_of v) (omega arith))
  ]

  at-slot_keys :
      (list : List (Value Num)) (v : Value Num) (i n : ℕ) (key : String) (f : Feature Num)
      (ks : List String) (s : List (Option ℕ × Point Num))
      → index_of F list v ≡ some i
      → at (some i) s ≡ slot_of v n
      → at (some i) (slot_keys F list key f ks s)
        ≡ slot_of v (n + occurrences F v (readings F key f ks))
  unfolding slot_keys readings occurrences
  at-slot_keys list v i n key f [] s a h = h ∙ ap (slot_of v) (omega arith)
  at-slot_keys list v i n key f (each ∷ ks) s a h = elim (Bool-cases (str_eq each key)) [
    | inr e ↦ rw e (at-slot_keys list v i n key f ks s a h)
    | inl e ↦
        let w = read f.properties each in
        let m = n + (if same_value F w v then 1 else 0) in
        rw e (
          at-slot_keys list v i m key f ks (count_slot F list w s) a
            (at-count_slot list v w i n s a h)
          ∙ ap (slot_of v) (omega arith))
  ]

  occurrences-append :
      (v : Value Num) (xs ys : List (Value Num))
      → occurrences F v (xs ++ ys) ≡ occurrences F v xs + occurrences F v ys
  unfolding occurrences
  occurrences-append v [] ys = omega arith
  occurrences-append v (x ∷ xs) ys = omega (arith, occurrences-append v xs ys)

  at-slot_features :
      (list : List (Value Num)) (v : Value Num) (i n : ℕ) (key : String) (fs : List (Feature Num))
      (s : List (Option ℕ × Point Num))
      → index_of F list v ≡ some i
      → at (some i) s ≡ slot_of v n
      → at (some i) (slot_features F list key fs s)
        ≡ slot_of v (n + occurrences F v (column F key fs))
  unfolding slot_features column occurrences
  at-slot_features list v i n key [] s a h = h ∙ ap (slot_of v) (omega arith)
  at-slot_features list v i n key (f ∷ fs) s a h =
      let vs = readings F key f (keys f.properties) in
      at-slot_features list v i (n + occurrences F v vs) key fs
        (slot_keys F list key f (keys f.properties) s) a
        (at-slot_keys list v i n key f (keys f.properties) s a h)
      ∙ ap (slot_of v) (omega (arith, occurrences-append v vs (column F key fs)))

  list_copy-none :
      (fs : List (Feature Num)) (key : String)
      → str_eq key "" ≡ false
      → list_copy F fs key none ≡ unique F (column F key fs)
  unfolding list_copy
  list_copy-none fs key named = ap (found_values F) (get_property_values-values F key named "" fs)

  -- For a property with a name, the array that `propertyCount` returns has at the position of each
  -- value of the list the value with the number of times that the features have it, or nothing
  -- where they do not; without a list, the list is that of the different values of the property.
  pub property_count-occurrences :
      (fs : List (Feature Num)) (key : String) (list : Option (List (Value Num)))
      → str_eq key "" ≡ false
      → (r : List (Option ℕ × Point Num)) × (property_count F (some fs) key list ≡ some r)
        × ((v : Value Num) (i : ℕ)
            → index_of F (list_copy F fs key list) v ≡ some i
            → at (some i) r ≡ slot_of v (occurrences F v (column F key fs)))
        × (list_copy F fs key none ≡ unique F (column F key fs))
  unfolding property_count at
  property_count-occurrences fs key list named = (
    slot_features F (list_copy F fs key list) key fs [],
    rw named refl,
    λ v i a.
        at-slot_features (list_copy F fs key list) v i 0 key fs [] a refl
        ∙ ap (slot_of v) (omega arith),
    list_copy-none fs key named,
  )
