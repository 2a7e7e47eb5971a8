-- ===== src/Tooltip/Empty.antt =====
-- When the tooltip of src/components/tooltip/utils.js shows a plot, and of what.
use tgvejs.Prelude.{
  ℕ, ◌<◌, ◌≤◌, ◌⊎◌, inl, inr, String, ◌≡◌, refl, ◌↔◌, true, false, Option, none, some, List, [],
  length, str_eq, arith, Bool-cases, Option-cases, if◌then◌else◌,
}
use tgvejs.Js.{Value, Floats}
use tgvejs.Tooltip.{
  Picked, Line, Row, listed, plotted, points_of, is_cluster, list_props_and_values, lines_of,
  body_of, generate_tooltip,
}

module _ (F : Floats) (full_year : Value F.Num → F.Num) where
  open F use {Num}

  is_cluster_iff :
      (s : Picked F full_year)
      → (is_cluster F full_year s ≡ true) ↔ (2 < length (points_of F full_year s))
  unfolding is_cluster
  is_cluster_iff s = ground arith

  at_most :
      (s : Picked F full_year)
      → is_cluster F full_year s ≡ false
      → length (points_of F full_year s) ≤ 2
  unfolding is_cluster
  at_most s h = ground arith

  generate_tooltip_of_cluster :
      (column1 column2 : String) (s : Picked F full_year)
      → is_cluster F full_year s ≡ true
      → generate_tooltip F full_year column1 column2 s
        ≡ some (record { total = s.count; body = plotted [] })
  unfolding generate_tooltip lines_of body_of
  generate_tooltip_of_cluster column1 column2 s h = ground arith

  -- What is counted of an object without a plot.
  abbrev pub few : Picked F full_year → ℕ
  few s = if str_eq s.type "Feature" then 1 else length (points_of F full_year s)

  body_of_few :
      (s : Picked F full_year) (ls : List (Option (Line F full_year)))
      → is_cluster F full_year s ≡ false
      → (body_of F full_year s ls ≡ none)
        ⊎ ((r : Option (List (Row F full_year))) × (body_of F full_year s ls ≡ some (listed r)))
  unfolding body_of is_cluster
  body_of_few s ls h = at (list_props_and_values F full_year s) refl
    where
      at :
          (o : Option (Option (List (Row F full_year))))
          → list_props_and_values F full_year s ≡ o
          → (body_of F full_year s ls ≡ none)
            ⊎ ((r : Option (List (Row F full_year))) × (body_of F full_year s ls ≡ some (listed r)))
      at none e = inl (ground arith)
      at (some r) e = inr (r, ground arith)

  tooltip_of_few :
      (column1 column2 : String) (s : Picked F full_year)
      → is_cluster F full_year s ≡ false
      → (generate_tooltip F full_year column1 column2 s ≡ none)
        ⊎ ((r : Option (List (Row F full_year))) × (generate_tooltip F full_year column1 column2 s
              ≡ some (record { total = few s; body = listed r })))
  unfolding generate_tooltip
  tooltip_of_few column1 column2 s h =
      elim (Option-cases (lines_of F full_year column1 column2 s)) [
        | inl e ↦ inl (rw (generate_tooltip, e) refl)
        | inr (ls, e) ↦ elim (body_of_few s ls h) [
          | inl q ↦ inl (rw (generate_tooltip, e, q) refl)
          | inr (r, q) ↦ inr (r, rw (generate_tooltip, e, q, h) refl)
        ]
      ]

  -- The tooltip of more than two points always comes, with the count of the object and a plot, which
  -- has no line; that of two points or less, if it does not throw, has the number of points, or 1 for a
  -- feature, and a list and no plot.
  pub generate_tooltip-body :
      (column1 column2 : String) (s : Picked F full_year)
      → ((2 < length (points_of F full_year s))
          × (generate_tooltip F full_year column1 column2 s
              ≡ some (record { total = s.count; body = plotted [] })))
        ⊎ ((length (points_of F full_year s) ≤ 2)
            × ((generate_tooltip F full_year column1 column2 s ≡ none)
                ⊎ ((r : Option (List (Row F full_year))) × (generate_tooltip F full_year column1
                        column2 s
                      ≡ some (record { total = few s; body = listed r })))))
  generate_tooltip-body column1 column2 s = elim (Bool-cases (is_cluster F full_year s)) [
    | inl e ↦ inl ((is_cluster_iff s).0 e, generate_tooltip_of_cluster column1 column2 s e)
    | inr e ↦ inr (at_most s e, tooltip_of_few column1 column2 s e)
  ]
