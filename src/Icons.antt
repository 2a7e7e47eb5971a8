-- ===== src/Icons.antt =====
-- src/icon-cluster-layer.js: the icons of clusters, and when the clusters are computed again.
-- Supercluster is a parameter: the clusters of data at a zoom, for a radius.
use tgvejs.Prelude.{
  ℕ, ◌+◌, ◌/◌, ◌<◌, ◌≤◌, ◌≡◌, refl, sym, subst, ◌⊎◌, inl, inr, Bool, false, not, ◌||◌, Option, none,
  some, List, [], ◌∷◌, ◌++◌, codes, ltb, ◌==◌, In, arith, Bool-cases, if◌then◌else◌,
}

-- `marker-` and a digit, for the texts of the code
abbrev pub marker : List ℕ
marker = codes "marker-"

unfoldable pub get_icon_name : ℕ → List ℕ
get_icon_name size =
    if size == 0
    then []
    else if ltb size 10
    then marker ++ (b'0' + size) ∷ []
    else if ltb size 100
    then marker ++ (b'0' + size / 10) ∷ b'0' ∷ []
    else codes "marker-100"

-- `getIconSize`, in hundredths
unfoldable pub get_icon_size : ℕ → ℕ
get_icon_size size = (if ltb size 100 then size else 100) + 100

-- the names in src/location-icon-mapping.json that a cluster can have
abbrev pub icon_names : List (List ℕ)
icon_names =
    codes "marker-1"
    ∷ codes "marker-2"
    ∷ codes "marker-3"
    ∷ codes "marker-4"
    ∷ codes "marker-5"
    ∷ codes "marker-6"
    ∷ codes "marker-7"
    ∷ codes "marker-8"
    ∷ codes "marker-9"
    ∷ codes "marker-10"
    ∷ codes "marker-20"
    ∷ codes "marker-30"
    ∷ codes "marker-40"
    ∷ codes "marker-50"
    ∷ codes "marker-60"
    ∷ codes "marker-70"
    ∷ codes "marker-80"
    ∷ codes "marker-90"
    ∷ codes "marker-100"
    ∷ []

module _ (D Index Clusters : Type 0) where
  -- What the layer asks of Supercluster.
  pub record Engine : Type 0 where
    pub load : ℕ → D → Index
    pub get_clusters : Index → ℕ → Clusters

  pub record Layer : Type 0 where
    pub index : Option Index
    pub z : Option ℕ
    pub shown : Option Clusters

  abbrev pub same_zoom : Option ℕ → ℕ → Bool
  same_zoom none z = false
  same_zoom (some a) z = a == z

  -- `updateState`; without an index, the read of its clusters throws, and the state stays
  unfoldable pub update_state : Engine → Bool → ℕ → ℕ → D → ℕ → Layer → Layer
  update_state E data_changed size_scale old_scale rows z s =
      let rebuild_index = data_changed || not (size_scale == old_scale) in
      let indexed =
        if rebuild_index then record s { index = some (E.load size_scale rows) } else s in
      if rebuild_index || not (same_zoom s.z z)
      then elim indexed.index [
        | none ↦ indexed
        | some i ↦ record indexed { shown = some (E.get_clusters i z); z = some z }
      ]
      else indexed

-- The tenths of a size of two digits.
tenths : (size : ℕ) → 10 ≤ size → size < 100 → (1 ≤ size / 10) × (size / 10 ≤ 9)
tenths size h k = (omega arith, omega arith)

digits :
    (n : ℕ)
    → 1 ≤ n
    → n ≤ 9
    → (n ≡ 1) ⊎ (n ≡ 2) ⊎ (n ≡ 3) ⊎ (n ≡ 4) ⊎ (n ≡ 5) ⊎ (n ≡ 6) ⊎ (n ≡ 7) ⊎ (n ≡ 8) ⊎ (n ≡ 9)
digits n l u = ground arith

one_digit : (n : ℕ) → 1 ≤ n → n ≤ 9 → In (marker ++ (b'0' + n) ∷ []) icon_names
one_digit n l u = elim (digits n l u) [
  | inl e ↦ subst (λ m. In (marker ++ (b'0' + m) ∷ []) icon_names) (sym e) (inl refl)
  | inr (inl e) ↦ subst (λ m. In (marker ++ (b'0' + m) ∷ []) icon_names) (sym e) (inr (inl refl))
  | inr (inr (inl e)) ↦
      subst (λ m. In (marker ++ (b'0' + m) ∷ []) icon_names) (sym e) (inr (inr (inl refl)))
  | inr (inr (inr (inl e))) ↦
      subst (λ m. In (marker ++ (b'0' + m) ∷ []) icon_names) (sym e) (inr (inr (inr (inl refl))))
  | inr (inr (inr (inr (inl e)))) ↦
      subst (λ m. In (marker ++ (b'0' + m) ∷ []) icon_names) (sym e)
        (inr (inr (inr (inr (inl refl)))))
  | inr (inr (inr (inr (inr (inl e))))) ↦
      subst (λ m. In (marker ++ (b'0' + m) ∷ []) icon_names) (sym e)
        (inr (inr (inr (inr (inr (inl refl))))))
  | inr (inr (inr (inr (inr (inr (inl e)))))) ↦
      subst (λ m. In (marker ++ (b'0' + m) ∷ []) icon_names) (sym e)
        (inr (inr (inr (inr (inr (inr (inl refl)))))))
  | inr (inr (inr (inr (inr (inr (inr (inl e))))))) ↦
      subst (λ m. In (marker ++ (b'0' + m) ∷ []) icon_names) (sym e)
        (inr (inr (inr (inr (inr (inr (inr (inl refl))))))))
  | inr (inr (inr (inr (inr (inr (inr (inr (e)))))))) ↦
      subst (λ m. In (marker ++ (b'0' + m) ∷ []) icon_names) (sym e)
        (inr (inr (inr (inr (inr (inr (inr (inr (inl refl)))))))))
]

two_digits : (n : ℕ) → 1 ≤ n → n ≤ 9 → In (marker ++ (b'0' + n) ∷ b'0' ∷ []) icon_names
two_digits n l u = elim (digits n l u) [
  | inl e ↦
      subst (λ m. In (marker ++ (b'0' + m) ∷ b'0' ∷ []) icon_names) (sym e)
        (inr (inr (inr (inr (inr (inr (inr (inr (inr (inl refl))))))))))
  | inr (inl e) ↦
      subst (λ m. In (marker ++ (b'0' + m) ∷ b'0' ∷ []) icon_names) (sym e)
        (inr (inr (inr (inr (inr (inr (inr (inr (inr (inr (inl refl)))))))))))
  | inr (inr (inl e)) ↦
      subst (λ m. In (marker ++ (b'0' + m) ∷ b'0' ∷ []) icon_names) (sym e)
        (inr (inr (inr (inr (inr (inr (inr (inr (inr (inr (inr (inl refl))))))))))))
  | inr (inr (inr (inl e))) ↦
      subst (λ m. In (marker ++ (b'0' + m) ∷ b'0' ∷ []) icon_names) (sym e)
        (inr (inr (inr (inr (inr (inr (inr (inr (inr (inr (inr (inr (inl refl)))))))))))))
  | inr (inr (inr (inr (inl e)))) ↦
      subst (λ m. In (marker ++ (b'0' + m) ∷ b'0' ∷ []) icon_names) (sym e)
        (inr (inr (inr (inr (inr (inr (inr (inr (inr (inr (inr (inr (inr (inl refl))))))))))))))
  | inr (inr (inr (inr (inr (inl e))))) ↦
      subst (λ m. In (marker ++ (b'0' + m) ∷ b'0' ∷ []) icon_names) (sym e)
        (inr
          (inr (inr (inr (inr (inr (inr (inr (inr (inr (inr (inr (inr (inr (inl refl)))))))))))))))
  | inr (inr (inr (inr (inr (inr (inl e)))))) ↦
      subst (λ m. In (marker ++ (b'0' + m) ∷ b'0' ∷ []) icon_names) (sym e)
        (inr (
          inr (
            inr
              (inr (inr (inr (inr (inr (inr (inr (inr (inr (inr (inr (inr (inl refl))))))))))))))))
  | inr (inr (inr (inr (inr (inr (inr (inl e))))))) ↦
      subst (λ m. In (marker ++ (b'0' + m) ∷ b'0' ∷ []) icon_names) (sym e)
        (inr (
          inr (
            inr (
              inr (
                inr
                  (inr (inr (inr (inr (inr (inr (inr (inr (inr (inr (inr (inl refl)))))))))))))))))
  | inr (inr (inr (inr (inr (inr (inr (inr (e)))))))) ↦
      subst (λ m. In (marker ++ (b'0' + m) ∷ b'0' ∷ []) icon_names) (sym e)
        (inr (
          inr (
            inr (
              inr (
                inr (
                  inr (
                    inr
                      (inr (inr (inr (inr (inr (inr (inr (inr (inr (inr (inl refl))))))))))))))))))
]

-- Every cluster of at least one point has an icon that there is, and a size between 1 and 2.
get_icon_name-In :
    (size : ℕ)
    → 1 ≤ size
    → In (get_icon_name size) icon_names × (100 < get_icon_size size) × (get_icon_size size ≤ 200)
unfolding get_icon_name get_icon_size
get_icon_name-In size h =
    let low : 100 < get_icon_size size = ground arith in
    let high : get_icon_size size ≤ 200 = ground arith in
    let zero_no : (size == 0) ≡ false = ground arith in
    elim (Bool-cases (ltb size 10)) [
      | inl a ↦ (rw (zero_no, a) (one_digit size h (ground arith)), low, high)
      | inr a ↦ elim (Bool-cases (ltb size 100)) [
        | inl b ↦
            let (l, u) = tenths size (ground arith) (ground arith) in
            (rw (zero_no, a, b) (two_digits (size / 10) l u), low, high)
        | inr b ↦ (
          rw (zero_no, a, b)
              (inr (
                inr (
                  inr (
                    inr (
                      inr (
                        inr (
                          inr (
                            inr (
                              inr (
                                inr (
                                  inr
                                    (inr (inr (inr (inr (inr (inr (inr (inl refl))))))))))))))))))),
          low,
          high,
        )
      ]
    ]
