-- ===== src/Layers/Options/Laws.antt =====
-- When the options can be made, and what the keys have.
use tgvejs.Prelude.{
  ◌≡◌, ◌≢◌, refl, sym, ◌∙◌, ◌⊎◌, inl, inr, ◌↔◌, true, false, none, some, List, arith, Bool-cases,
  Option-cases, ℕ,
}
use tgvejs.Js.{Floats}
use tgvejs.Color.{Palette, color_ranges}
use tgvejs.Layers.{Engine}
use tgvejs.Layers.Options.{
  Look, Options, not_empty_domain, numeric_valid_domain, fill_or_constant_color, base_options,
  is_layer, arc_options, plain_options, sized_options, generate_options,
}

module _ (F : Floats) (E : Engine F) (P : Palette F) where
  open F use {Num}

  arc_options_iff :
      (l : Look F) (o : Options F)
      → color_ranges (some l.color_name) ≡ none
      → (arc_options F E P l o ≡ none) ↔ (numeric_valid_domain F l ≡ false)
  unfolding arc_options
  arc_options_iff l o k = ground arith

  arc_options_known :
      (l : Look F) (o : Options F) (cs : List (List ℕ))
      → color_ranges (some l.color_name) ≡ some cs
      → arc_options F E P l o ≢ none
  unfolding arc_options
  arc_options_known l o cs k = ground arith

  paint_known :
      (l : Look F) (cs : List (List ℕ))
      → color_ranges (some l.color_name) ≡ some cs
      → fill_or_constant_color F l ≢ none
  unfolding fill_or_constant_color
  paint_known l cs k = ground arith

  paint_iff :
      (l : Look F)
      → color_ranges (some l.color_name) ≡ none
      → (fill_or_constant_color F l ≡ none) ↔ (not_empty_domain F l ≡ false)
  unfolding fill_or_constant_color
  paint_iff l k = ground arith

  numeric_not_empty : (l : Look F) → not_empty_domain F l ≡ false → numeric_valid_domain F l ≡ false
  unfolding numeric_valid_domain
  numeric_not_empty l h = ground arith

  plain_arc :
      (l : Look F) (o : Options F)
      → is_layer F l "arc" ≡ true
      → plain_options F E P l o ≡ arc_options F E P l (sized_options F E P l o)
  unfolding plain_options
  plain_arc l o h = rw h refl

  plain_other :
      (l : Look F) (o : Options F)
      → is_layer F l "arc" ≡ false
      → plain_options F E P l o ≡ some (sized_options F E P l o)
  unfolding plain_options
  plain_other l o h = rw h refl

  generate_options_of :
      (l : Look F) (a b : Options F)
      → (generate_options F E P l a b ≡ none) ↔ (
          (plain_options F E P l (base_options F l a b) ≡ none)
          ⊎ (fill_or_constant_color F l ≡ none))
  unfolding generate_options
  generate_options_of l a b = ground arith

  -- `_generateOptions` throws exactly if the name of the colours is unknown and there is no domain
  -- of two values to paint by, or none of numbers for an arc.
  pub generate_options_throws_iff :
      (l : Look F) (a b : Options F)
      → (generate_options F E P l a b ≡ none) ↔ (
          (color_ranges (some l.color_name) ≡ none)
          × ((not_empty_domain F l ≡ false)
              ⊎ ((is_layer F l "arc" ≡ true) × (numeric_valid_domain F l ≡ false))))
  generate_options_throws_iff l a b =
      let (there, back) = generate_options_of l a b in
      let o = base_options F l a b in
      elim (Option-cases (color_ranges (some l.color_name))) [
        | inr (cs, k) ↦ (
          λ h. elim (there h) [
            | inl p ↦ elim (Bool-cases (is_layer F l "arc")) [
              | inl a ↦ let e = plain_arc l o a in absurd (arc_options_known l _ cs k (sym e ∙ p))
              | inr a ↦ let e = plain_other l o a in cc
            ]
            | inr p ↦ absurd (paint_known l cs k p)
          ],
          λ h. cc,
        )
        | inl k ↦ (
          λ h. (
            k,
            elim (there h) [
              | inl p ↦ elim (Bool-cases (is_layer F l "arc")) [
                | inl a ↦ let e = plain_arc l o a in inr (a, (arc_options_iff l _ k).0 (sym e ∙ p))
                | inr a ↦ let e = plain_other l o a in cc
              ]
              | inr p ↦ inl ((paint_iff l k).0 p)
            ],
          ),
          λ h. elim (h.1) [
            | inl p ↦ back (inr ((paint_iff l k).1 p))
            | inr (a, p) ↦ let e = plain_arc l o a in back (inl (e ∙ (arc_options_iff l _ k).1 p))
          ],
        )
      ]
