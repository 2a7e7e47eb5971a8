-- ===== src/Js/Sort.antt =====
-- `array.sort(compare)`: the language promises a stable sort. It is modelled by insertion, where
-- `after a b` says that `compare(a, b)` is positive.
use tgvejs.Prelude.{
  ℕ, suc, ◌+◌, ◌≡◌, refl, ◌∙◌, inl, inr, Bool, true, false, ◌||◌, List, [], ◌∷◌, arith, Bool-cases,
  All, length, if◌then◌else◌,
}
use tgvejs.Js.{Value, Floats, same_value}
use tgvejs.Js.Counter.{sum_by}
use tgvejs.Js.Collection.{contains, Distinct, same_value_comm}

module _ {ℓ} {A : Type ℓ} (after : A → A → Bool) where
  insert : A → List A → List A
  insert x [] = x ∷ []
  insert x (y ∷ ys) = if after x y then y ∷ insert x ys else x ∷ y ∷ ys

  unfoldable pub sort : List A → List A
  unfolding insert
  sort [] = []
  sort (x ∷ xs) = insert x (sort xs)

  -- No element stands behind one that should follow it.
  abbrev pub IsSorted : List A → Type 0
  IsSorted [] = Unit
  IsSorted (x ∷ xs) = All (λ y. after x y ≡ false) xs × IsSorted xs

  length-insert : (x : A) (xs : List A) → length (insert x xs) ≡ suc (length xs)
  unfolding insert
  length-insert x [] = refl
  length-insert x (y ∷ ys) = ground (arith, length-insert x ys)

  pub length-sort : (xs : List A) → length (sort xs) ≡ length xs
  unfolding sort
  length-sort [] = refl
  length-sort (x ∷ xs) = omega (arith, length-insert x (sort xs), length-sort xs)

  All-insert {κ} : (P : A → Type κ) (x : A) (xs : List A) → P x → All P xs → All P (insert x xs)
  unfolding insert
  All-insert P x [] p h = (p, tt)
  All-insert P x (y ∷ ys) p h = elim (Bool-cases (after x y)) [
    | inl e ↦ rw e (h.0, All-insert P x ys p h.1)
    | inr e ↦ rw e (p, h)
  ]

  pub All-sort {κ} : (P : A → Type κ) (xs : List A) → All P xs → All P (sort xs)
  unfolding sort
  All-sort P [] h = h
  All-sort P (x ∷ xs) h = All-insert P x (sort xs) h.0 (All-sort P xs h.1)

  -- What the comparison has to keep, on the elements that `P` tells, for the result to be in order.
  pub record IsComparison (P : A → Type 0) : Type ℓ where
    pub asym : (a b : A) → P a → P b → after a b ≡ true → after b a ≡ false
    pub trans :
        (a b c : A) → P a → P b → P c → after a b ≡ false → after b c ≡ false → after a c ≡ false

  module _ (P : A → Type 0) (laws : IsComparison P) where
    All-trans :
        (x y : A) (ys : List A)
        → P x
        → P y
        → All P ys
        → after x y ≡ false
        → All (λ z. after y z ≡ false) ys
        → All (λ z. after x z ≡ false) ys
    All-trans x y [] p q ps h all = tt
    All-trans x y (z ∷ zs) p q ps h all =
        (laws.trans x y z p q ps.0 h all.0, All-trans x y zs p q ps.1 h all.1)

    insert-IsSorted : (x : A) (xs : List A) → P x → All P xs → IsSorted xs → IsSorted (insert x xs)
    unfolding insert
    insert-IsSorted x [] p ps s = (tt, tt)
    insert-IsSorted x (y ∷ ys) p ps s = elim (Bool-cases (after x y)) [
      | inl e ↦ rw e (
        All-insert (λ z. after y z ≡ false) x ys (laws.asym x y p ps.0 e) s.0,
        insert-IsSorted x ys p ps.1 s.1,
      )
      | inr e ↦ rw e ((e, All-trans x y ys p ps.0 ps.1 e s.0), s)
    ]

    pub sort-IsSorted : (xs : List A) → All P xs → IsSorted (sort xs)
    unfolding sort
    sort-IsSorted [] ps = tt
    sort-IsSorted (x ∷ xs) ps =
        insert-IsSorted x (sort xs) ps.0 (All-sort P xs ps.1) (sort-IsSorted xs ps.1)

module _ (F : Floats) (after : Value F.Num → Value F.Num → Bool) where
  open F use {Num}

  contains-insert :
      (x : Value Num) (xs : List (Value Num)) (v : Value Num)
      → contains F (insert after x xs) v ≡ (same_value F x v || contains F xs v)
  unfolding contains insert
  contains-insert x [] v = refl
  contains-insert x (y ∷ ys) v = ground (arith, contains-insert x ys v)

  -- Sorting keeps the elements.
  pub contains-sort :
      (xs : List (Value Num)) (v : Value Num) → contains F (sort after xs) v ≡ contains F xs v
  unfolding contains sort
  contains-sort [] v = refl
  contains-sort (x ∷ xs) v = ground (arith, contains-insert x (sort after xs) v, contains-sort xs v)

  insert-Distinct :
      (x : Value Num) (xs : List (Value Num))
      → contains F xs x ≡ false
      → Distinct F xs
      → Distinct F (insert after x xs)
  unfolding contains insert
  insert-Distinct x [] h d = (refl, tt)
  insert-Distinct x (y ∷ ys) h d = elim (Bool-cases (after x y)) [
    | inl e ↦ rw e (
      ground (arith, d.0, contains-insert x ys y, same_value_comm F x y),
      insert-Distinct x ys (ground arith) d.1,
    )
    | inr e ↦ rw e (h, d)
  ]

  pub sort-Distinct : (xs : List (Value Num)) → Distinct F xs → Distinct F (sort after xs)
  unfolding sort
  sort-Distinct [] d = tt
  sort-Distinct (x ∷ xs) d =
      insert-Distinct x (sort after xs) (contains-sort xs x ∙ d.0) (sort-Distinct xs d.1)

  sum_by-insert :
      (f : Value Num → ℕ) (x : Value Num) (xs : List (Value Num))
      → sum_by F f (insert after x xs) ≡ f x + sum_by F f xs
  unfolding insert sum_by
  sum_by-insert f x [] = refl
  sum_by-insert f x (y ∷ ys) = ground (arith, sum_by-insert f x ys)

  pub sum_by-sort :
      (f : Value Num → ℕ) (xs : List (Value Num)) → sum_by F f (sort after xs) ≡ sum_by F f xs
  unfolding sort sum_by
  sum_by-sort f [] = refl
  sum_by-sort f (x ∷ xs) = omega (arith, sum_by-insert f x (sort after xs), sum_by-sort f xs)
