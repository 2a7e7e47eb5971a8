-- ===== src/Api/Names.antt =====
-- `apiSplit` and `apiToReactApp` of src/utils/api.js: the name of the environment variable of a
-- parameter. Texts are lists of code units, and letters those of ASCII, as the names of the API are.
use tgvejs.Prelude.{
  ℕ, zero, suc, ◌+◌, ◌-◌, ◌<◌, ◌≤◌, ◌≡◌, refl, sym, ap, subst, append-nil, ◌∙◌, Bool, true, false,
  ◌&&◌, Option, none, some, List, [], ◌∷◌, ◌++◌, map, length, codes, leb, text_eq, text_eq_iff,
  arith, Bool-cases, inl, inr, if◌then◌else◌,
}

unfoldable pub is_upper : ℕ → Bool
is_upper c = leb b'A' c && leb c b'Z'

-- `toUpperCase` and `toLowerCase` of one character
unfoldable pub to_upper : ℕ → ℕ
to_upper c = if leb b'a' c && leb c b'z' then c - 32 else c

unfoldable pub to_lower : ℕ → ℕ
unfolding is_upper
to_lower c = if is_upper c then c + 32 else c

unfoldable pub upper : List ℕ → List ℕ
unfolding to_upper
upper s = map to_upper s

-- A text, or two parts.
pub data Split : Type 0 where
  whole : List ℕ → Split
  parts : List ℕ → List ℕ → Split

-- str.slice(0, i) and str.slice(i), where i is the index of the first capital
unfoldable pub before_capital : List ℕ → List ℕ
unfolding is_upper
before_capital [] = []
before_capital (c ∷ s) = let rest = before_capital s in if is_upper c then [] else c ∷ rest

unfoldable pub from_capital : List ℕ → List ℕ
unfolding is_upper
from_capital [] = []
from_capital (c ∷ s) = let rest = from_capital s in if is_upper c then c ∷ s else rest

cut : List ℕ → List ℕ → Split
unfolding upper before_capital
cut [] s = whole (upper s)
cut (c ∷ rest) s = parts (before_capital s) (c ∷ rest)

-- `apiSplit` of a text that does not begin with a capital
unfoldable pub split_lower : List ℕ → Split
unfolding upper cut from_capital
split_lower s = if text_eq (upper s) s then whole s else cut (from_capital s) s

-- Where the first capital is at 0 the function calls itself once, on a text that begins with the
-- letter in lower case.
unfoldable pub api_split : List ℕ → Split
unfolding split_lower to_lower
api_split [] = whole []
api_split (c ∷ s) =
    if text_eq (upper (c ∷ s)) (c ∷ s)
    then whole (c ∷ s)
    else if is_upper c
    then split_lower (to_lower c ∷ s)
    else split_lower (c ∷ s)

-- The words of `apiToReactApp`; `none` where the fuel runs out.
unfoldable pub words : ℕ → List ℕ → Option (List (List ℕ))
unfolding api_split
words zero s = none
words (suc fuel) s = elim (api_split s) [
  | whole t ↦ some (t ∷ [])
  | parts a b ↦ elim (words fuel b) [ none ↦ none | some ws ↦ some (upper a ∷ ws) ]
]

-- w.join("_")
unfoldable pub join : List (List ℕ) → List ℕ
join [] = []
join (w ∷ []) = w
join (w ∷ v ∷ ws) = w ++ (b'_' ∷ join (v ∷ ws))

-- A text of n units has n words at most, so that n + 1 rounds are enough.
unfoldable pub api_to_react_app : List ℕ → Option (List ℕ)
unfolding words join
api_to_react_app s = elim (words (suc (length s)) s) [
  | none ↦ none
  | some ws ↦ some (codes "REACT_APP_" ++ join ws)
]

unfoldable pub flatten : List (List ℕ) → List ℕ
flatten [] = []
flatten (w ∷ ws) = w ++ flatten ws

upper-lower : (c : ℕ) → to_upper (to_lower c) ≡ to_upper c
unfolding to_upper to_lower is_upper
upper-lower c = ground arith

upper-append : (s t : List ℕ) → upper (s ++ t) ≡ upper s ++ upper t
unfolding upper
upper-append [] t = refl
upper-append (c ∷ s) t = ap (to_upper c ∷◌) (upper-append s t)

-- A split gives the text back, in upper case, and its second part is shorter.
SplitOf : List ℕ → Split → Type 0
SplitOf s (whole t) = t ≡ upper s
SplitOf s (parts a b) = (upper a ++ upper b ≡ upper s) × (length b < length s)

capital-append : (s : List ℕ) → before_capital s ++ from_capital s ≡ s
unfolding before_capital from_capital
capital-append [] = refl
capital-append (c ∷ s) = ground (arith, capital-append s)

length-from_capital : (s : List ℕ) → length (from_capital s) ≤ length s
unfolding from_capital
length-from_capital [] = omega arith
length-from_capital (c ∷ s) = ground (arith, length-from_capital s)

shorter : (c : ℕ) (s : List ℕ) → is_upper c ≡ false → length (from_capital (c ∷ s)) < length (c ∷ s)
unfolding from_capital
shorter c s h = ground (arith, length-from_capital s)

cut-SplitOf : (r s : List ℕ) → before_capital s ++ r ≡ s → length r < length s → SplitOf s (cut r s)
unfolding cut SplitOf
cut-SplitOf [] s e h = refl
cut-SplitOf (c ∷ r) s e h = (sym (upper-append (before_capital s) (c ∷ r)) ∙ ap upper e, h)

split_lower-SplitOf :
    (c : ℕ) (s : List ℕ) → is_upper c ≡ false → SplitOf (c ∷ s) (split_lower (c ∷ s))
unfolding split_lower SplitOf
split_lower-SplitOf c s h = elim (Bool-cases (text_eq (upper (c ∷ s)) (c ∷ s))) [
  | inl e ↦ rw e (sym ((text_eq_iff _ _).0 e))
  | inr e ↦
      rw e (cut-SplitOf (from_capital (c ∷ s)) (c ∷ s) (capital-append (c ∷ s)) (shorter c s h))
]

lowered : (c : ℕ) → is_upper c ≡ true → is_upper (to_lower c) ≡ false
unfolding is_upper to_lower
lowered c h = ground arith

SplitOf-lowered : (c : ℕ) (s : List ℕ) (r : Split) → SplitOf (to_lower c ∷ s) r → SplitOf (c ∷ s) r
unfolding SplitOf upper
SplitOf-lowered c s (whole t) h = h ∙ ap (λ d. d ∷ map to_upper s) (upper-lower c)
SplitOf-lowered c s (parts a b) h = (h.0 ∙ ap (λ d. d ∷ map to_upper s) (upper-lower c), h.1)

-- The clauses of `api_split`, with what they call shut.
api_split-cons :
    (c : ℕ) (s : List ℕ)
    → api_split (c ∷ s) ≡ (
        if text_eq (upper (c ∷ s)) (c ∷ s)
        then whole (c ∷ s)
        else if is_upper c
        then split_lower (to_lower c ∷ s)
        else split_lower (c ∷ s))
unfolding api_split
api_split-cons c s = refl

api_split-nil : api_split [] ≡ whole []
unfolding api_split
api_split-nil = refl

whole-SplitOf : (s : List ℕ) → text_eq (upper s) s ≡ true → SplitOf s (whole s)
unfolding SplitOf
whole-SplitOf s e = sym ((text_eq_iff (upper s) s).0 e)

nil-SplitOf : SplitOf [] (whole [])
unfolding SplitOf upper
nil-SplitOf = refl

api_split-SplitOf : (s : List ℕ) → SplitOf s (api_split s)
api_split-SplitOf [] = subst (SplitOf []) (sym api_split-nil) nil-SplitOf
api_split-SplitOf (c ∷ s) =
    subst (SplitOf (c ∷ s)) (sym (api_split-cons c s))
      (elim (Bool-cases (text_eq (upper (c ∷ s)) (c ∷ s))) [
        | inl e ↦ rw e (whole-SplitOf (c ∷ s) e)
        | inr e ↦ elim (Bool-cases (is_upper c)) [
          | inl u ↦
              rw (e, u)
                (SplitOf-lowered c s (split_lower (to_lower c ∷ s))
                  (split_lower-SplitOf (to_lower c) s (lowered c u)))
          | inr u ↦ rw (e, u) (split_lower-SplitOf c s u)
        ]
      ])

words-whole : (fuel : ℕ) (s t : List ℕ) → api_split s ≡ whole t → words (suc fuel) s ≡ some (t ∷ [])
unfolding words
words-whole fuel s t e = ground arith

words-parts :
    (fuel : ℕ) (s a b : List ℕ) (ws : List (List ℕ))
    → api_split s ≡ parts a b
    → words fuel b ≡ some ws
    → words (suc fuel) s ≡ some (upper a ∷ ws)
unfolding words
words-parts fuel s a b ws e h = ground arith

-- Enough fuel gives the words, and put together they are the text in upper case.
words_total :
    (fuel : ℕ) (s : List ℕ)
    → length s < fuel
    → (ws : List (List ℕ)) × (words fuel s ≡ some ws) × (flatten ws ≡ upper s)
unfolding flatten SplitOf
words_total zero s h = absurd (omega arith)
words_total (suc fuel) s h = at (api_split s) refl (api_split-SplitOf s) (words_total fuel)
  where
    at :
        (r : Split)
        → api_split s ≡ r
        → SplitOf s r
        → ((b : List ℕ)
            → length b < fuel
            → (ws : List (List ℕ)) × (words fuel b ≡ some ws) × (flatten ws ≡ upper b))
        → (ws : List (List ℕ)) × (words (suc fuel) s ≡ some ws) × (flatten ws ≡ upper s)
    at (whole t) e p ih = (t ∷ [], words-whole fuel s t e, append-nil t ∙ p)
    at (parts a b) e p ih =
        let (ws, q, f) = ih b (omega arith) in
        (upper a ∷ ws, words-parts fuel s a b ws e q, ap (λ t. upper a ++ t) f ∙ p.0)

-- `apiToReactApp` always gives a name: the prefix and then, joined by underscores, words that put
-- together are the parameter's name in upper case, with no letter lost.
pub api_to_react_app-words :
    (s : List ℕ)
    → (ws : List (List ℕ)) × (api_to_react_app s ≡ some (codes "REACT_APP_" ++ join ws))
      × (flatten ws ≡ upper s)
unfolding api_to_react_app
api_to_react_app-words s =
    let (ws, q, f) = words_total (suc (length s)) s (omega arith) in (ws, ground arith, f)
