-- ===== src/AddVis/Throws.antt =====
-- When the button "Add" of src/components/AddVIS.jsx throws, and what it adds.
use tgvejs.Prelude.{
  none≢some, ℕ, ◌+◌, String, ◌≡◌, ◌≢◌, refl, sym, ◌∙◌, ◌↔◌, inl, inr, Bool, true, false, Option,
  none, some, List, [], ◌∷◌, ◌++◌, length, codes, str_eq, eq_iff, arith, Bool-cases, Option-cases,
}
use tgvejs.Js.{Value, str, Floats}
use tgvejs.Geojson.{Feature}
use tgvejs.Utils.Text.{humanize}
use tgvejs.Utils.Xy.{Point, xy_object_by_property}
use tgvejs.AddVis.{
  Marks, marks_of, Drawn, plot, drawn_of, generate_vis, Vis, add_vis, click_add, without,
  click_remove,
}

module _ (F : Floats) (after : Value F.Num → Value F.Num → Bool) where
  open F use {Num}

  without-append :
      (i j : ℕ) (l : List (Drawn F after)) (d : Drawn F after)
      → i ≡ j + length l
      → without F after i j (l ++ d ∷ []) ≡ l
  unfolding without
  without-append i j [] d h = ground arith
  without-append i j (e ∷ l) d h = ground (arith, without-append i (j + 1) l d)

  drawn_of_plot :
      (counts : Option (List (Point Num))) (rows : ℕ) (c v : String) (a b : Bool) (m : Marks)
      → str_eq v "Treemap" ≡ false
      → marks_of (codes v) ≡ some m
      → drawn_of F after counts rows c v a b ≡ some (plot m counts a b (humanize (codes c)))
  unfolding drawn_of
  drawn_of_plot counts rows c v a b m h k = rw (h, k) refl

  click_add_of_drawn :
      (fs : List (Feature Num)) (dark no_limit : Bool) (c v : Value Num) (cs vs : List (Value Num))
      (l : List (Drawn F after)) (d : Drawn F after)
      → generate_vis F after fs c v dark no_limit ≡ some d
      → click_add F after fs dark no_limit
          (record { column = some (c ∷ cs); vis = some (v ∷ vs); list = l })
        ≡ some (record { column = some (c ∷ cs); vis = some (v ∷ vs); list = l ++ d ∷ [] })
  unfolding click_add add_vis
  click_add_of_drawn fs dark no_limit c v cs vs l d h = rw (click_add, add_vis, h) refl

  -- With a column and a kind of bars or a line chosen, and some data, the button "Add" puts behind the
  -- list the plot of the counts, with `dark` for its `noLimit` and `noLimit` for its `dark`; the button
  -- "X" of that plot then gives the state before.
  pub click_remove-add :
      (fs : List (Feature Num)) (dark no_limit : Bool) (c v : String) (cs vs : List (Value Num))
      (l : List (Drawn F after)) (f : Feature Num) (m : Marks)
      → str_eq v "Treemap" ≡ false
      → marks_of (codes v) ≡ some m
      → (t : Vis F after) × (click_add F after
            (f ∷ fs)
            dark
            no_limit
            (record { column = some (str c ∷ cs); vis = some (str v ∷ vs); list = l })
          ≡ some t)
        × (t.list
            ≡ l
              ++ plot m
                  (xy_object_by_property F after (some (f ∷ fs)) (some c) true)
                  dark
                  no_limit
                  (humanize (codes c))
                ∷ [])
        × (click_remove F after (length l) t
            ≡ record { column = some (str c ∷ cs); vis = some (str v ∷ vs); list = l })
  unfolding generate_vis click_remove
  click_remove-add fs dark no_limit c v cs vs l f m h k =
      let d =
        plot m (xy_object_by_property F after (some (f ∷ fs)) (some c) true) dark no_limit
          (humanize (codes c)) in
      (
        record { column = some (str c ∷ cs); vis = some (str v ∷ vs); list = l ++ d ∷ [] },
        click_add_of_drawn (f ∷ fs) dark no_limit (str c) (str v) cs vs l d
            (drawn_of_plot _ (length (f ∷ fs)) c v dark no_limit m h k),
        refl,
        rw (without-append (length l) 0 l d (omega arith)) refl,
      )

  -- There is no chart of the column for a tree map to be made of.
  abbrev pub IsBare : List (Feature Num) → Value Num → Value Num → Type 0
  IsBare (f ∷ fs) (str c) (str v) =
      (v ≡ "Treemap") × (xy_object_by_property F after (some (f ∷ fs)) (some c) true ≡ none)
  IsBare fs c v = ⊥

  drawn_of-some :
      (ps : List (Point Num)) (rows : ℕ) (c v : String) (a b : Bool)
      → drawn_of F after (some ps) rows c v a b ≢ none
  unfolding drawn_of
  drawn_of-some ps rows c v a b = elim (Bool-cases (str_eq v "Treemap")) [
    | inl e ↦ rw e (λ h. cc)
    | inr e ↦ elim (Option-cases (marks_of (codes v))) [
      | inl k ↦ rw (e, k) (λ h. cc)
      | inr (m, k) ↦ rw (e, k) (λ h. cc)
    ]
  ]

  drawn_of_throws_iff :
      (counts : Option (List (Point Num))) (rows : ℕ) (c v : String) (a b : Bool)
      → (drawn_of F after counts rows c v a b ≡ none) ↔ ((v ≡ "Treemap") × (counts ≡ none))
  unfolding drawn_of
  drawn_of_throws_iff none rows c v a b = elim (Bool-cases (str_eq v "Treemap")) [
    | inl e ↦ rw e (λ h. ((eq_iff v "Treemap").0 e, refl), λ h. refl)
    | inr e ↦ elim (Option-cases (marks_of (codes v))) [
      | inl k ↦ rw (e, k) (λ h. cc, λ h. cc ((eq_iff v "Treemap").1 h.0))
      | inr (m, k) ↦ rw (e, k) (λ h. cc, λ h. cc ((eq_iff v "Treemap").1 h.0))
    ]
  ]
  drawn_of_throws_iff (some ps) rows c v a b =
      (λ h. absurd (drawn_of-some ps rows c v a b h), λ h. cc)

  generate_vis_throws_iff :
      (fs : List (Feature Num)) (c v : Value Num) (a b : Bool)
      → (generate_vis F after fs c v a b ≡ none) ↔ IsBare fs c v
  unfolding generate_vis
  generate_vis_throws_iff (f ∷ fs) (str c) (str v) a b =
      drawn_of_throws_iff (xy_object_by_property F after (some (f ∷ fs)) (some c) true)
        (length (f ∷ fs)) c v a b
  generate_vis_throws_iff fs c v a b = (λ h. cc, λ h. elim h [ ])

  -- A column is chosen, and either no kind was ever chosen or it is one that cannot be made.
  abbrev pub IsUnready :
      List (Feature Num) → Option (List (Value Num)) → Option (List (Value Num)) → Type 0
  IsUnready fs (some (c ∷ cs)) none = Unit
  IsUnready fs (some (c ∷ cs)) (some (v ∷ vs)) = IsBare fs c v
  IsUnready fs column vis = ⊥

  click_add-generate_vis :
      (fs : List (Feature Num)) (dark no_limit : Bool) (c v : Value Num) (cs vs : List (Value Num))
      (l : List (Drawn F after))
      → (click_add F after fs dark no_limit
            (record { column = some (c ∷ cs); vis = some (v ∷ vs); list = l })
          ≡ none)
        ↔ (generate_vis F after fs c v dark no_limit ≡ none)
  unfolding click_add
  click_add-generate_vis fs dark no_limit c v cs vs l =
      elim (Option-cases (generate_vis F after fs c v dark no_limit)) [
        | inl e ↦ (λ h. e, λ h. rw (click_add, add_vis, e) refl)
        | inr (d, e) ↦ (
          λ h. absurd (none≢some (sym h ∙ click_add_of_drawn fs dark no_limit c v cs vs l d e)),
          λ h. absurd (none≢some (sym h ∙ e)),
        )
      ]

  -- The button "Add" throws exactly if a column is chosen, and either no kind has ever been chosen, or
  -- it is the tree map and there is no count of the column.
  pub click_add_throws_iff :
      (fs : List (Feature Num)) (dark no_limit : Bool) (column vis : Option (List (Value Num)))
      (l : List (Drawn F after))
      → (click_add F after fs dark no_limit (record { column = column; vis = vis; list = l })
          ≡ none)
        ↔ IsUnready fs column vis
  unfolding click_add add_vis
  click_add_throws_iff fs dark no_limit none vis l = (λ h. cc, λ h. elim h [ ])
  click_add_throws_iff fs dark no_limit (some []) vis l = (λ h. cc, λ h. elim h [ ])
  click_add_throws_iff fs dark no_limit (some (c ∷ cs)) none l = (λ h. tt, λ h. refl)
  click_add_throws_iff fs dark no_limit (some (c ∷ cs)) (some []) l = (λ h. cc, λ h. elim h [ ])
  click_add_throws_iff fs dark no_limit (some (c ∷ cs)) (some (v ∷ vs)) l =
      let q = click_add-generate_vis fs dark no_limit c v cs vs l in
      let r = generate_vis_throws_iff fs c v dark no_limit in (λ h. r.0 (q.0 h), λ h. q.1 (r.1 h))
