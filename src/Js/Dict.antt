-- ===== src/Js/Dict.antt =====
-- Plain objects as association lists in the order in which their keys were first written. (The
-- engine lists keys that look like array indices first; no theorem here depends on that order.)
use tgvejs.Prelude.{
  In, sym, inl, inr, Bool-cases, String, ◌≡◌, refl, Bool, false, ◌||◌, Option, none, some, List, [],
  ◌∷◌, arith, str_eq, eq_iff, eq_refl, if◌then◌else◌,
}

abbrev pub Dict {ℓ} : Type ℓ → Type ℓ
Dict V = List (String × V)

module _ {ℓ} {V : Type ℓ} where
  -- `o[k]`, and `none` where there is no such key
  unfoldable pub get : String → Dict V → Option V
  get k [] = none
  get k ((j, v) ∷ d) = if str_eq j k then some v else get k d

  -- `o[k] = v`
  unfoldable pub put : String → V → Dict V → Dict V
  put k v [] = (k, v) ∷ []
  put k v ((j, w) ∷ d) = if str_eq j k then (j, v) ∷ d else (j, w) ∷ put k v d

  -- `delete o[k]`
  unfoldable pub remove : String → Dict V → Dict V
  remove k [] = []
  remove k ((j, w) ∷ d) = let rest = remove k d in if str_eq j k then rest else (j, w) ∷ rest

  -- `o.hasOwnProperty(k)`
  unfoldable pub has : String → Dict V → Bool
  has k [] = false
  has k ((j, w) ∷ d) = str_eq j k || has k d

  -- `Object.keys(o)`
  unfoldable pub keys : Dict V → List String
  keys [] = []
  keys ((j, w) ∷ d) = j ∷ keys d

  pub get-put :
      (k j : String) (v : V) (d : Dict V)
      → get j (put k v d) ≡ (if str_eq k j then some v else get j d)
  unfolding get put
  get-put k j v [] = refl
  get-put k j v ((i, w) ∷ d) = ground (arith, eq_iff k j, eq_iff i k, eq_iff i j, get-put k j v d)

  pub get-remove :
      (k j : String) (d : Dict V) → get j (remove k d) ≡ (if str_eq k j then none else get j d)
  unfolding get remove
  get-remove k j [] = ground arith
  get-remove k j ((i, w) ∷ d) = ground (arith, eq_iff k j, eq_iff i k, eq_iff i j, get-remove k j d)

  pub get-put_self : (k : String) (v : V) (d : Dict V) → get k (put k v d) ≡ some v
  get-put_self k v d = simp (get-put, eq_refl)

  -- A key that the object does not have reads as nothing.
  pub get_of_has : (k : String) (d : Dict V) → has k d ≡ false → get k d ≡ none
  unfolding get has
  get_of_has k [] h = refl
  get_of_has k ((j, w) ∷ d) h = ground (arith, get_of_has k d)

  -- A key with a value is listed.
  pub keys_of_get : (k : String) (d : Dict V) {v : V} → get k d ≡ some v → In k (keys d)
  unfolding get keys
  keys_of_get k [] h = cc
  keys_of_get k ((j, w) ∷ d) h = elim (Bool-cases (str_eq j k)) [
    | inl e ↦ inl (sym ((eq_iff j k).0 e))
    | inr e ↦ inr (keys_of_get k d (rw e at h))
  ]

-- No key stands twice.
abbrev pub Keyed {ℓ} : {V : Type ℓ} → Dict V → Type 0
Keyed [] = Unit
Keyed ((j, v) ∷ d) = (has j d ≡ false) × Keyed d

pub has-put :
    {V : Type 0} (k j : String) (v : V) (d : Dict V) → has j (put k v d) ≡ (str_eq k j || has j d)
unfolding has put
has-put k j v [] = ground arith
has-put k j v ((i, w) ∷ d) = ground (arith, eq_iff i k, eq_iff k j, eq_iff i j, has-put k j v d)

pub Keyed-put : {V : Type 0} (k : String) (v : V) (d : Dict V) → Keyed d → Keyed (put k v d)
unfolding has put
Keyed-put k v [] h = (refl, tt)
Keyed-put k v ((j, w) ∷ d) h = elim (Bool-cases (str_eq j k)) [
  | inl e ↦ rw e h
  | inr e ↦ rw e (ground (arith, h.0, has-put k j v d, eq_iff k j, eq_iff j k), Keyed-put k v d h.1)
]
