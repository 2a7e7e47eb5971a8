-- ===== src/Sidebar/Columns.antt =====
-- What the choice of columns and two clicks on a bar do to the selection.
use tgvejs.Prelude.{
  String, ◌≡◌, refl, sym, ap, ◌∙◌, ◌⊎◌, inl, inr, Bool, true, false, none, some, List, [], ◌∷◌, map,
  arith, In, str_eq, eq_iff, eq_refl, Bool-cases, Option-cases, if◌then◌else◌,
}
use tgvejs.Js.{Value, str, Floats, truthy, to_text}
use tgvejs.Js.Dict.{get, put, remove, has, keys, get-remove, keys_of_get}
use tgvejs.Js.Collection.{unique}
use tgvejs.Home.Filter.{Selection, multi}
use tgvejs.Sidebar.{
  Told, tell, tell_selection, Side, message, drop_column, drop_columns, change_columns,
  filter_or_reset, includes,
}

module _ (F : Floats) where
  open F use {Num}

  get-drop_column :
      (cols : List String) (b : Side F) (k j : String)
      → get j (drop_column F cols b k).shared
        ≡ (if includes cols k then get j b.shared else if str_eq k j then none else get j b.shared)
  unfolding drop_column
  get-drop_column cols b k j = elim (Bool-cases (includes cols k)) [
    | inl e ↦ rw e refl
    | inr e ↦ elim (Option-cases (get k b.shared)) [
      | inl q ↦ rw (e, q) (ground (arith, eq_iff k j))
      | inr (vs, q) ↦ rw (e, q) (get-remove k j b.shared)
    ]
  ]

  -- A column that is listed keeps its set.
  get-drop_columns_of_kept :
      (cols : List String) (b : Side F) (ks : List String) (j : String)
      → includes cols j ≡ true
      → get j (drop_columns F cols b ks).shared ≡ get j b.shared
  unfolding drop_columns
  get-drop_columns_of_kept cols b [] j h = refl
  get-drop_columns_of_kept cols b (k ∷ ks) j h =
      get-drop_columns_of_kept cols (drop_column F cols b k) ks j h
      ∙ ground (arith, get-drop_column cols b k j, eq_iff k j)

  -- Another one that is looked at, or has no set, has none in the end.
  get-drop_columns_of_other :
      (cols : List String) (b : Side F) (ks : List String) (j : String)
      → includes cols j ≡ false
      → (get j b.shared ≡ none) ⊎ In j ks
      → get j (drop_columns F cols b ks).shared ≡ none
  unfolding drop_columns
  get-drop_columns_of_other cols b [] j h (inl e) = e
  get-drop_columns_of_other cols b [] j h (inr m) = elim m [ ]
  get-drop_columns_of_other cols b (k ∷ ks) j h (inl e) =
      get-drop_columns_of_other cols (drop_column F cols b k) ks j h
        (inl (ground (arith, get-drop_column cols b k j)))
  get-drop_columns_of_other cols b (k ∷ ks) j h (inr (inl e)) =
      get-drop_columns_of_other cols (drop_column F cols b k) ks j h
        (inl (ground (arith, get-drop_column cols b k j, eq_iff k j)))
  get-drop_columns_of_other cols b (k ∷ ks) j h (inr (inr m)) =
      get-drop_columns_of_other cols (drop_column F cols b k) ks j h (inr m)

  -- The way from one state to a later one: nothing is changed or told, or the last message is that of
  -- the selection in the end.
  abbrev pub IsTold : Side F → Side F → Type 0
  IsTold b c =
      ((c.shared ≡ b.shared) × (c.told ≡ b.told))
      ⊎ ((l : List (Told F)) × (c.told ≡ tell (message F c.shared) ∷ l))

  drop_column-IsTold :
      (cols : List String) (b : Side F) (k : String) → IsTold b (drop_column F cols b k)
  unfolding drop_column
  drop_column-IsTold cols b k = elim (Bool-cases (includes cols k)) [
    | inl e ↦ rw e (inl (refl, refl))
    | inr e ↦ elim (Option-cases (get k b.shared)) [
      | inl q ↦ rw (e, q) (inl (refl, refl))
      | inr (vs, q) ↦ rw (e, q) (inr (b.told, refl))
    ]
  ]

  IsTold-trans : (b c d : Side F) → IsTold b c → IsTold c d → IsTold b d
  IsTold-trans b c d h (inr t) = inr t
  IsTold-trans b c d (inl h) (inl t) = inl (t.0 ∙ h.0, t.1 ∙ h.1)
  IsTold-trans b c d (inr (l, h)) (inl t) =
      inr (l, t.1 ∙ h ∙ ap (λ s. tell (message F s) ∷ l) (sym t.0))

  drop_columns-IsTold :
      (cols : List String) (b : Side F) (ks : List String) → IsTold b (drop_columns F cols b ks)
  unfolding drop_columns
  drop_columns-IsTold cols b [] = inl (refl, refl)
  drop_columns-IsTold cols b (k ∷ ks) =
      IsTold-trans b (drop_column F cols b k) (drop_columns F cols (drop_column F cols b k) ks)
        (drop_column-IsTold cols b k) (drop_columns-IsTold cols (drop_column F cols b k) ks)

  listed_or_none : (j : String) (s : Selection Num) → (get j s ≡ none) ⊎ In j (keys s)
  listed_or_none j s = elim (Option-cases (get j s)) [
    | inl e ↦ inl e
    | inr (vs, e) ↦ inr (keys_of_get j s e)
  ]

  -- After a choice of columns each of them has the set that it had, and no other has one; either
  -- nothing has changed and nothing is told, or the last message is that of the selection left.
  pub change_columns-Syncs :
      (cols : List String) (b : Side F)
      → ((j : String)
          → get j (change_columns F cols b).shared
            ≡ (if includes cols j then get j b.shared else none))
        × IsTold b (change_columns F cols b)
  unfolding change_columns
  change_columns-Syncs cols b = (
    λ j. elim (Bool-cases (includes cols j)) [
      | inl e ↦ rw e (get-drop_columns_of_kept cols b (keys b.shared) j e)
      | inr e ↦
          rw e (get-drop_columns_of_other cols b (keys b.shared) j e (listed_or_none j b.shared))
    ],
    drop_columns-IsTold cols b (keys b.shared),
  )

  remove-put :
      (k : String) (vs : List (Value Num)) (s : Selection Num)
      → has k s ≡ false
      → remove k (put k vs s) ≡ remove k s
  unfolding remove put has
  remove-put k vs [] h = ground (arith, eq_refl k)
  remove-put k vs ((j, ws) ∷ s) h = ground (arith, remove-put k vs s)

  remove_of_absent : (k : String) (s : Selection Num) → has k s ≡ false → remove k s ≡ s
  unfolding remove has
  remove_of_absent k [] h = refl
  remove_of_absent k ((j, ws) ∷ s) h = ground (arith, remove_of_absent k s)

  has-put_self :
      (k : String) (vs : List (Value Num)) (s : Selection Num) → has k (put k vs s) ≡ true
  unfolding put has
  has-put_self k vs [] = ground (arith, eq_refl k)
  has-put_self k vs ((j, ws) ∷ s) = ground (arith, has-put_self k vs s)

  -- If Charts shares the selection with the component, and a column has no set in it, two clicks on
  -- bars of the column leave the selection as it was: the first is told as a filter with the values
  -- clicked, the second with the selection itself in the place of a filter.
  pub filter_or_reset-again :
      (column : String) (x y : Value Num) (xs ys : List (Value Num)) (taken taken2 : Bool)
      (s : Selection Num) (cs : List String) (ts : List (Told F))
      → has column s ≡ false
      → truthy F x ≡ true
      → truthy F y ≡ true
      → filter_or_reset F column taken2 (y ∷ ys) (
          filter_or_reset F column taken
            (x ∷ xs)
            (record { shared = s; own = none; columns = cs; told = ts }))
        ≡ record {
          shared = s;
          own = none;
          columns = cs;
          told =
              tell_selection s
              ∷ tell
                  (multi (some (put column (unique F (map (λ v. str (to_text F v)) (x ∷ xs))) s)))
              ∷ ts;
        }
  unfolding filter_or_reset
  filter_or_reset-again column x y xs ys true taken2 s cs ts h p q =
      let vs = unique F (map (λ v. str (to_text F v)) (x ∷ xs)) in
      rw (p, q, h, has-put_self column vs s, remove-put column vs s h, remove_of_absent column s h)
        refl
  filter_or_reset-again column x y xs ys false taken2 s cs ts h p q =
      let vs = unique F (map (λ v. str (to_text F v)) (x ∷ xs)) in
      rw (p, q, h, has-put_self column vs s, remove-put column vs s h, remove_of_absent column s h)
        refl
