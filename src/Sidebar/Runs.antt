-- ===== src/Sidebar/Runs.antt =====
-- What the side bar keeps to, whatever is chosen in it.
use tgvejs.Prelude.{
  none≢some, some_inj, ◌<◌, String, ◌≡◌, refl, sym, subst, ◌∙◌, inl, inr, Bool, true, false, Option,
  none, some, List, [], ◌∷◌, map, length, All, arith, str_eq, Bool-cases, Option-cases, false≢true,
}
use tgvejs.Js.{Value, str, Floats, truthy, to_text}
use tgvejs.Js.Dict.{get, put, remove, has, keys, get-put, get-remove}
use tgvejs.Js.Collection.{
  contains, unique, Distinct, unique-Distinct, contains-unique, same_value_refl,
}
use tgvejs.Home.Filter.{Selection, multi, other}
use tgvejs.Sidebar.{
  Told, tell, tell_selection, Side, message, selected_of, select_values, change_values, drop_column,
  drop_columns, change_columns, at_hand, with_hand, taken_over, filter_or_reset, has_severity,
  toggle_severity, toggled, reset, Action, choose_values, choose_columns, click_bar, click_severity,
  start_anew, make_charts, act, mounted, includes,
}

module _ (F : Floats) where
  open F use {Num}

  -- A set with a value, and none twice.
  abbrev pub IsChoice : List (Value Num) → Type 0
  IsChoice vs = (0 < length vs) × Distinct F vs

  abbrev pub IsSelection : Selection Num → Type 0
  IsSelection s = (k : String) (vs : List (Value Num)) → get k s ≡ some vs → IsChoice vs

  IsSelection-put :
      (k : String) (vs : List (Value Num)) (s : Selection Num)
      → IsChoice vs
      → IsSelection s
      → IsSelection (put k vs s)
  IsSelection-put k vs s c h j ws e = elim (Bool-cases (str_eq k j)) [
    | inl q ↦ subst IsChoice (some_inj (sym (get-put k j vs s ∙ rw q refl) ∙ e)) c
    | inr q ↦ h j ws (sym (get-put k j vs s ∙ rw q refl) ∙ e)
  ]

  IsSelection-remove : (k : String) (s : Selection Num) → IsSelection s → IsSelection (remove k s)
  IsSelection-remove k s h j ws e = elim (Bool-cases (str_eq k j)) [
    | inl q ↦ absurd (none≢some (sym (get-remove k j s ∙ rw q refl) ∙ e))
    | inr q ↦ h j ws (sym (get-remove k j s ∙ rw q refl) ∙ e)
  ]

  contains_first : (v : Value Num) (vs : List (Value Num)) → contains F (v ∷ vs) v ≡ true
  unfolding contains
  contains_first v vs = rw (same_value_refl F v) refl

  contains_none : (v : Value Num) → contains F [] v ≡ false
  unfolding contains
  contains_none v = refl

  unique-IsChoice : (v : Value Num) (vs : List (Value Num)) → IsChoice (unique F (v ∷ vs))
  unique-IsChoice v vs = (
    at (unique F (v ∷ vs)) (contains-unique F (v ∷ vs) v ∙ contains_first v vs),
    unique-Distinct F (v ∷ vs),
  )
    where
      at : (us : List (Value Num)) → contains F us v ≡ true → 0 < length us
      at [] h = absurd (false≢true (sym (contains_none v) ∙ h))
      at (u ∷ us) h = omega arith

  IsSelection-select_values :
      (column : String) (vs : List (Value Num)) (s : Selection Num)
      → IsSelection s
      → IsSelection (select_values F column vs s)
  unfolding select_values
  IsSelection-select_values column [] s h = IsSelection-remove column s h
  IsSelection-select_values column (v ∷ vs) s h =
      IsSelection-put column (unique F (v ∷ vs)) s (unique-IsChoice v vs) h

  -- A message names a selection that is not empty, or tells that nothing is selected.
  abbrev pub IsTelling : Told F → Type 0
  IsTelling (tell (multi (some (e ∷ es)))) = IsSelection (e ∷ es)
  IsTelling (tell (other what)) = what ≡ ""
  IsTelling (tell_selection s) = IsSelection s
  IsTelling m = ⊥

  abbrev pub IsOwn : Option (Selection Num) → Type 0
  IsOwn none = Unit
  IsOwn (some s) = IsSelection s

  abbrev pub Sound : Side F → Type 0
  Sound b = IsSelection b.shared × IsOwn b.own × All IsTelling b.told

  message-IsTelling : (s : Selection Num) → IsSelection s → IsTelling (tell (message F s))
  unfolding message
  message-IsTelling [] h = refl
  message-IsTelling (e ∷ es) h = h

  selected_of-message : (s : Selection Num) → selected_of F (message F s) ≡ s
  unfolding selected_of message
  selected_of-message [] = refl
  selected_of-message (e ∷ es) = refl

  change_values-Sound :
      (column : String) (vs : List (Value Num)) (b : Side F)
      → Sound b
      → Sound (change_values F column vs b)
  unfolding change_values
  change_values-Sound column vs b h =
      let s = IsSelection-select_values column vs b.shared h.0 in
      (
        s,
        h.1,
        (
          subst (λ r. IsTelling (tell (message F r))) (sym (selected_of-message _))
              (message-IsTelling _ s),
          h.2,
        ),
      )

  drop_column-Sound :
      (cols : List String) (b : Side F) (k : String) → Sound b → Sound (drop_column F cols b k)
  unfolding drop_column
  drop_column-Sound cols b k h = elim (Bool-cases (includes cols k)) [
    | inl e ↦ rw e h
    | inr e ↦ rw e (elim (Option-cases (get k b.shared)) [
      | inl q ↦ rw q h
      | inr (vs, q) ↦
          rw q (let s = IsSelection-remove k b.shared h.0 in (s, h.1, (message-IsTelling _ s, h.2)))
    ])
  ]

  drop_columns-Sound :
      (cols : List String) (b : Side F) (ks : List String)
      → Sound b
      → Sound (drop_columns F cols b ks)
  unfolding drop_columns
  drop_columns-Sound cols b [] h = h
  drop_columns-Sound cols b (k ∷ ks) h =
      drop_columns-Sound cols (drop_column F cols b k) ks (drop_column-Sound cols b k h)

  none_chosen : IsSelection []
  unfolding get
  none_chosen k vs e = absurd (none≢some e)

  at_hand-IsSelection : (b : Side F) → Sound b → IsSelection (at_hand F b)
  at_hand-IsSelection b h = at b.own h.1
    where
      at :
          (o : Option (Selection Num))
          → IsOwn o
          → IsSelection (elim o [ none ↦ b.shared | some s ↦ s ])
      at none i = h.0
      at (some s) i = i

  with_hand-Sound :
      (s : Selection Num) (b : Side F) → IsSelection s → Sound b → Sound (with_hand F s b)
  with_hand-Sound s b i h = elim (Option-cases b.own) [
    | inl e ↦ rw e (i, tt, h.2)
    | inr (o, e) ↦ rw e (h.0, i, h.2)
  ]

  taken_over-Sound : (taken : Bool) (b : Side F) → Sound b → Sound (taken_over F taken b)
  taken_over-Sound false b h = h
  taken_over-Sound true b h = (at_hand-IsSelection b h, tt, h.2)

  chosen-Sound :
      (taken : Bool) (s : Selection Num) (b : Side F)
      → IsSelection s
      → Sound b
      → Sound (taken_over F taken (with_hand F s b))
  chosen-Sound taken s b i h = taken_over-Sound taken (with_hand F s b) (with_hand-Sound s b i h)

  -- A selection in which a value was put is not empty.
  message-put :
      (k : String) (vs : List (Value Num)) (s : Selection Num)
      → message F (put k vs s) ≡ multi (some (put k vs s))
  unfolding put message
  message-put k vs [] = refl
  message-put k vs ((j, ws) ∷ s) = elim (Bool-cases (str_eq j k)) [
    | inl e ↦ rw e refl
    | inr e ↦ rw e refl
  ]

  put-IsTelling :
      (k : String) (vs : List (Value Num)) (s : Selection Num)
      → IsSelection (put k vs s)
      → IsTelling (tell (multi (some (put k vs s))))
  put-IsTelling k vs s h =
      subst (λ m. IsTelling (tell m)) (message-put k vs s) (message-IsTelling (put k vs s) h)

  filter_or_reset-Sound :
      (column : String) (taken : Bool) (xs : List (Value Num)) (b : Side F)
      → Sound b
      → Sound (filter_or_reset F column taken xs b)
  unfolding filter_or_reset
  filter_or_reset-Sound column taken [] b h = h
  filter_or_reset-Sound column taken (x ∷ xs) b h =
      let i = at_hand-IsSelection b h in
      let gone = IsSelection-remove column (at_hand F b) i in
      let texts = map (λ v. str (to_text F v)) xs in
      let made =
        IsSelection-put column (unique F (str (to_text F x) ∷ texts)) (at_hand F b)
          (unique-IsChoice (str (to_text F x)) texts) i in
      elim (Bool-cases (truthy F x)) [
        | inl t ↦ elim (Bool-cases (has column (at_hand F b))) [
          | inl e ↦ let w = with_hand-Sound _ b gone h in rw (t, e) (w.0, w.1, (gone, h.2))
          | inr e ↦
              let w = chosen-Sound taken _ b made h in
              rw (t, e) (w.0, w.1, (put-IsTelling column _ (at_hand F b) made, h.2))
        ]
        | inr t ↦ rw t h
      ]

  toggled-Sound :
      (taken : Bool) (made : Selection Num) (b : Side F)
      → IsSelection made
      → Sound b
      → Sound (toggled F taken made b)
  unfolding toggled
  toggled-Sound taken [] b i h =
      let w = with_hand-Sound [] b i h in (w.0, w.1, (message-IsTelling [] i, h.2))
  toggled-Sound taken (e ∷ es) b i h =
      let w = chosen-Sound taken (e ∷ es) b i h in (w.0, w.1, (message-IsTelling (e ∷ es) i, h.2))

  one-IsChoice : (v : Value Num) → IsChoice (v ∷ [])
  one-IsChoice v = (omega arith, (contains_none v, tt))

  toggle_severity-Sound :
      (taken : Bool) (v : Value Num) (b : Side F) → Sound b → Sound (toggle_severity F taken v b)
  unfolding toggle_severity
  toggle_severity-Sound taken v b h =
      let i = at_hand-IsSelection b h in
      elim (Bool-cases (has_severity F v (at_hand F b))) [
        | inl e ↦
            rw e
              (toggled-Sound taken _ b (IsSelection-remove "accident_severity" (at_hand F b) i) h)
        | inr e ↦ rw e (
            toggled-Sound taken _ b
              (IsSelection-put "accident_severity" (v ∷ []) (at_hand F b) (one-IsChoice v) i) h)
      ]

  act-Sound : (a : Action F) (b : Side F) → Sound b → Sound (act F a b)
  unfolding act change_columns reset
  act-Sound (choose_values c vs) b h = change_values-Sound c vs b h
  act-Sound (choose_columns cs) b h = drop_columns-Sound cs b (keys b.shared) h
  act-Sound (click_bar c taken xs) b h = filter_or_reset-Sound c taken xs b h
  act-Sound (click_severity taken v) b h = toggle_severity-Sound taken v b h
  act-Sound start_anew b h = (none_chosen, at_hand-IsSelection b h, h.2)
  act-Sound make_charts b h = (h.0, tt, h.2)

  -- What is reached by actions, the last of which stands first.
  unfoldable pub run : List (Action F) → Side F → Side F
  run [] b = b
  run (a ∷ acts) b = act F a (run acts b)

  -- Whatever is done in the side bar of a component whose selection has for each column a set with a
  -- value and none twice: the selections of the component and of Charts stay such, and each message
  -- names such a selection, which is not empty if it stands in a filter, or is a filter whose `what`
  -- is empty.
  pub run-Sound :
      (acts : List (Action F)) (s : Selection Num) → IsSelection s → Sound (run acts (mounted F s))
  unfolding run
  run-Sound [] s h = (h, tt, tt)
  run-Sound (a ∷ acts) s h = act-Sound a (run acts (mounted F s)) (run-Sound acts s h)
