-- ===== src/Utils/Extremes.antt =====
-- What `getMax` and `getMin` of src/utils/utils.js find, and what NaN does to them.
use tgvejs.Prelude.{
  ◌≡◌, refl, sym, subst, ◌⊎◌, inl, inr, true, false, List, [], ◌∷◌, ◌++◌, In, All, All-In, arith,
  Bool-cases, if◌then◌else◌,
}
use tgvejs.Js.{Floats}
use tgvejs.Utils.Numbers.{ge, max_from, min_from, get_max, get_min}

-- Doubles that are no NaN are in a linear order from the smallest infinity on.
pub record IsOrder (F : Floats) : Type 0 where
  pub asym : (a b : F.Num) → F.lt a b ≡ true → F.lt b a ≡ false
  pub trans :
      (a b c : F.Num)
      → F.is_nan a ≡ false
      → F.is_nan b ≡ false
      → F.is_nan c ≡ false
      → F.lt a b ≡ false
      → F.lt b c ≡ false
      → F.lt a c ≡ false
  pub minus_infinity-is_nan : F.is_nan F.minus_infinity ≡ false

module _ (F : Floats) where
  open F use {Num}

  -- The greatest of the numbers.
  pub record IsMaximum (m : Num) (vs : List Num) : Type 0 where
    pub member : In m vs
    pub greatest : All (λ v. F.lt m v ≡ false) vs

  larger : Num → Num → Num
  larger m v = if ge F m v then m else v

  larger-cases :
      (laws : IsOrder F) (m v : Num)
      → F.is_nan m ≡ false
      → F.is_nan v ≡ false
      → ((larger m v ≡ m) × (F.lt m v ≡ false)) ⊎ ((larger m v ≡ v) × (F.lt v m ≡ false))
  unfolding larger
  larger-cases laws m v a b = elim (Bool-cases (F.lt m v)) [
    | inl e ↦ inr (ground arith, laws.asym m v e)
    | inr e ↦ inl (ground arith, e)
  ]

  irrefl : (laws : IsOrder F) (a : Num) → F.lt a a ≡ false
  irrefl laws a = elim (Bool-cases (F.lt a a)) [ inl e ↦ laws.asym a a e | inr e ↦ e ]

  max_from-IsMaximum :
      (laws : IsOrder F) (m : Num) (vs : List Num)
      → All (λ v. F.is_nan v ≡ false) (m ∷ vs)
      → IsMaximum (max_from F m vs) (m ∷ vs)
  unfolding max_from larger
  max_from-IsMaximum laws m [] h = record { member = inl refl; greatest = (irrefl laws m, tt) }
  max_from-IsMaximum laws m (v ∷ vs) h = elim (larger-cases laws m v h.0 h.1.0) [
    | inl (e, d) ↦
        let ih = max_from-IsMaximum laws m vs (h.0, h.1.1) in
        let r = max_from F m vs in
        let fine : F.is_nan r ≡ false =
          All-In (λ v. F.is_nan v ≡ false) r (m ∷ vs) (h.0, h.1.1) ih.member in
        subst (λ u. IsMaximum (max_from F u vs) (m ∷ v ∷ vs)) (sym e)
          (record {
            member = elim ih.member [ inl p ↦ inl p | inr q ↦ inr (inr q) ];
            greatest =
                (ih.greatest.0, (laws.trans r m v fine h.0 h.1.0 ih.greatest.0 d, ih.greatest.1));
          })
    | inr (e, d) ↦
        let ih = max_from-IsMaximum laws v vs h.1 in
        let r = max_from F v vs in
        let fine : F.is_nan r ≡ false = All-In (λ v. F.is_nan v ≡ false) r (v ∷ vs) h.1 ih.member in
        subst (λ u. IsMaximum (max_from F u vs) (m ∷ v ∷ vs)) (sym e)
          (record {
            member = inr ih.member;
            greatest = (laws.trans r v m fine h.1.0 h.0 ih.greatest.0 d, ih.greatest);
          })
  ]

  -- `getMax` of numbers that are no NaN is the greatest of them and of minus infinity, if doubles
  -- are in order.
  get_max-IsMaximum :
      (vs : List Num)
      → IsOrder F
      → All (λ v. F.is_nan v ≡ false) vs
      → IsMaximum (get_max F vs) (F.minus_infinity ∷ vs)
  unfolding get_max
  get_max-IsMaximum vs laws h =
      max_from-IsMaximum laws F.minus_infinity vs (laws.minus_infinity-is_nan, h)

  max_from-nan :
      (m v : Num) (xs vs : List Num) → max_from F m (xs ++ F.nan ∷ v ∷ vs) ≡ max_from F v vs
  unfolding max_from larger
  max_from-nan m v [] vs = ground (arith, F.nan-is_nan)
  max_from-nan m v (x ∷ xs) vs = max_from-nan (larger m x) v xs vs

  min_from-nan :
      (m v : Num) (xs vs : List Num) → min_from F m (xs ++ F.nan ∷ v ∷ vs) ≡ min_from F v vs
  unfolding min_from
  min_from-nan m v [] vs = ground (arith, F.nan-is_nan)
  min_from-nan m v (x ∷ xs) vs = min_from-nan (if ge F x m then m else x) v xs vs

  -- `getMax` and `getMin` forget the values that stand before a NaN.
  get_max_forgets :
      (v : Num) (xs vs : List Num)
      → (get_max F (xs ++ F.nan ∷ v ∷ vs) ≡ max_from F v vs)
        × (get_min F (xs ++ F.nan ∷ v ∷ vs) ≡ min_from F v vs)
  unfolding get_max get_min
  get_max_forgets v xs vs = (max_from-nan F.minus_infinity v xs vs, min_from-nan F.infinity v xs vs)
