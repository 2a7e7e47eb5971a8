-- ===== src/Js/Counter.antt =====
-- `Map` from JavaScript values to counters: entries in the order in which the keys were first set,
-- keys compared by SameValueZero.
use tgvejs.Prelude.{
  ℕ, zero, suc, ◌+◌, ◌≡◌, refl, ap, true, false, Option, none, some, List, [], ◌∷◌, ◌++◌, arith,
  length, if◌then◌else◌,
}
use tgvejs.Js.{Value, Floats, same_value, same_value_iff}
use tgvejs.Js.Collection.{Distinct, same_value_comm, same_value_refl, contains, add, add_all}

module _ (F : Floats) where
  open F use {Num}

  abbrev pub Counter : Type 0
  Counter = List (Value Num × ℕ)

  -- `map.get(v)`
  unfoldable pub get : Value Num → Counter → Option ℕ
  get v [] = none
  get v ((w, n) ∷ m) = if same_value F w v then some n else get v m

  -- `map.set(v, n)`
  unfoldable pub set : Value Num → ℕ → Counter → Counter
  set v n [] = (v, n) ∷ []
  set v n ((w, k) ∷ m) = if same_value F w v then (w, n) ∷ m else (w, k) ∷ set v n m

  -- `Array.from(map.keys())`
  unfoldable pub keys : Counter → List (Value Num)
  keys [] = []
  keys ((w, n) ∷ m) = w ∷ keys m

  -- The counter of a key, 0 where there is none.
  unfoldable pub count : Value Num → Counter → ℕ
  unfolding get
  count v m = elim (get v m) [ none ↦ 0 | some n ↦ n ]

  -- if (map.get(v)) map.set(v, map.get(v) + 1) else map.set(v, 1)
  unfoldable pub bump : Counter → Value Num → Counter
  unfolding get set
  bump m v = elim (get v m) [
    | none ↦ set v 1 m
    | some zero ↦ set v 1 m
    | some (suc n) ↦ set v (suc n + 1) m
  ]

  unfoldable pub tally : Counter → List (Value Num) → Counter
  unfolding bump
  tally m [] = m
  tally m (v ∷ vs) = tally (bump m v) vs

  -- How often `v` stands in a list.
  unfoldable pub occurrences : Value Num → List (Value Num) → ℕ
  occurrences v [] = 0
  occurrences v (w ∷ ws) = (if same_value F w v then 1 else 0) + occurrences v ws

  unfoldable pub total : Counter → ℕ
  total [] = 0
  total ((w, n) ∷ m) = n + total m

  get_of_same : (m : Counter) (v w : Value Num) → same_value F v w ≡ true → get v m ≡ get w m
  get_of_same m v w h = ap (λ u. get u m) ((same_value_iff F v w).0 h)

  get-set :
      (v w : Value Num) (n : ℕ) (m : Counter)
      → get w (set v n m) ≡ (if same_value F v w then some n else get w m)
  unfolding get set
  get-set v w n [] = refl
  get-set v w n ((u, k) ∷ m) =
      ground
        (arith, same_value_iff F v w, same_value_iff F u v, same_value_iff F u w, get-set v w n m)

  count-bump :
      (m : Counter) (v w : Value Num)
      → count w (bump m v) ≡ count w m + (if same_value F v w then 1 else 0)
  unfolding count bump
  count-bump m v w = at (get v m) refl
    where
      at :
          (o : Option ℕ)
          → get v m ≡ o
          → count w (bump m v) ≡ count w m + (if same_value F v w then 1 else 0)
      at none e = ground (arith, get_of_same m v w, get-set v w 1 m)
      at (some zero) e = ground (arith, get_of_same m v w, get-set v w 1 m)
      at (some (suc n)) e = ground (arith, get_of_same m v w, get-set v w (suc n + 1) m)

  -- Each value is counted as often as it occurs.
  pub count-tally :
      (m : Counter) (vs : List (Value Num)) (w : Value Num)
      → count w (tally m vs) ≡ count w m + occurrences w vs
  unfolding tally occurrences
  count-tally m [] w = omega arith
  count-tally m (v ∷ vs) w = omega (arith, count-tally (bump m v) vs w, count-bump m v w)

  total-set_new :
      (v : Value Num) (n : ℕ) (m : Counter) → get v m ≡ none → total (set v n m) ≡ n + total m
  unfolding get set total
  total-set_new v n [] h = refl
  total-set_new v n ((w, k) ∷ m) h = ground (arith, total-set_new v n m)

  total-set_old :
      (v : Value Num) (n k : ℕ) (m : Counter)
      → get v m ≡ some k
      → total (set v n m) + k ≡ n + total m
  unfolding get set total
  total-set_old v n k [] h = absurd (cc)
  total-set_old v n k ((w, j) ∷ m) h = ground (arith, total-set_old v n k m)

  total-bump : (m : Counter) (v : Value Num) → total (bump m v) ≡ total m + 1
  unfolding bump
  total-bump m v = at (get v m) refl
    where
      at : (o : Option ℕ) → get v m ≡ o → total (bump m v) ≡ total m + 1
      at none e = ground (arith, total-set_new v 1 m)
      at (some zero) e = ground (arith, total-set_old v 1 0 m)
      at (some (suc n)) e = ground (arith, total-set_old v (suc n + 1) (suc n) m)

  -- The counters add up to the number of values.
  pub total-tally : (m : Counter) (vs : List (Value Num)) → total (tally m vs) ≡ total m + length vs
  unfolding tally
  total-tally m [] = omega arith
  total-tally m (v ∷ vs) = omega (arith, total-tally (bump m v) vs, total-bump m v)

  contains-keys_of_none :
      (v : Value Num) (m : Counter) → get v m ≡ none → contains F (keys m) v ≡ false
  unfolding get keys contains
  contains-keys_of_none v [] h = refl
  contains-keys_of_none v ((w, n) ∷ m) h = ground (arith, contains-keys_of_none v m)

  contains-keys_of_some :
      (v : Value Num) (n : ℕ) (m : Counter) → get v m ≡ some n → contains F (keys m) v ≡ true
  unfolding get keys contains
  contains-keys_of_some v n [] h = cc
  contains-keys_of_some v n ((w, k) ∷ m) h = ground (arith, contains-keys_of_some v n m)

  keys-set_new :
      (v : Value Num) (n : ℕ) (m : Counter) → get v m ≡ none → keys (set v n m) ≡ keys m ++ v ∷ []
  unfolding get set keys
  keys-set_new v n [] h = refl
  keys-set_new v n ((w, k) ∷ m) h = ground (arith, keys-set_new v n m)

  keys-set_old :
      (v : Value Num) (n k : ℕ) (m : Counter) → get v m ≡ some k → keys (set v n m) ≡ keys m
  unfolding get set keys
  keys-set_old v n k [] h = cc
  keys-set_old v n k ((w, j) ∷ m) h = ground (arith, keys-set_old v n k m, same_value_iff F w v)

  keys-bump : (m : Counter) (v : Value Num) → keys (bump m v) ≡ add F (keys m) v
  unfolding bump add
  keys-bump m v = at (get v m) refl
    where
      at : (o : Option ℕ) → get v m ≡ o → keys (bump m v) ≡ add F (keys m) v
      at none e = ground (arith, keys-set_new v 1 m, contains-keys_of_none v m)
      at (some zero) e = ground (arith, keys-set_old v 1 0 m, contains-keys_of_some v 0 m)
      at (some (suc n)) e =
          ground (arith, keys-set_old v (suc n + 1) (suc n) m, contains-keys_of_some v (suc n) m)

  -- The keys are the elements of the set of the values, in the same order.
  pub keys-tally : (m : Counter) (vs : List (Value Num)) → keys (tally m vs) ≡ add_all F (keys m) vs
  unfolding tally add_all
  keys-tally m [] = refl
  keys-tally m (v ∷ vs) = rw (keys-tally (bump m v) vs, keys-bump m v)

  -- The sum of `f` over a list.
  unfoldable pub sum_by : (Value Num → ℕ) → List (Value Num) → ℕ
  sum_by f [] = 0
  sum_by f (v ∷ vs) = f v + sum_by f vs

  sum_by-skip :
      (w : Value Num) (n : ℕ) (m : Counter) (ks : List (Value Num))
      → contains F ks w ≡ false
      → sum_by (λ k. count k ((w, n) ∷ m)) ks ≡ sum_by (λ k. count k m) ks
  unfolding sum_by contains count
  sum_by-skip w n m [] h = refl
  sum_by-skip w n m (k ∷ ks) h = ground (arith, sum_by-skip w n m ks, same_value_comm F k w)

  -- Over a counter whose keys are distinct, the counters of the keys add up to the total.
  pub sum_by-count :
      (m : Counter) → Distinct F (keys m) → sum_by (λ k. count k m) (keys m) ≡ total m
  unfolding sum_by keys count total
  sum_by-count [] d = refl
  sum_by-count ((w, n) ∷ m) d =
      ground (arith, sum_by-skip w n m (keys m) d.0, sum_by-count m d.1, same_value_refl F w)

  -- A value that is no key has no counter.
  pub count_of_absent :
      (v : Value Num) (m : Counter) → contains F (keys m) v ≡ false → count v m ≡ 0
  unfolding count
  count_of_absent v m h = at (get v m) refl
    where
      at : (o : Option ℕ) → get v m ≡ o → count v m ≡ 0
      at none e = rw (e, count)
      at (some n) e = absurd (ground (arith, contains-keys_of_some v n m))
