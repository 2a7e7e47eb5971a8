-- ===== src/Utils/Text.antt =====
-- `humanize`, `shortenName` and `firstLastNCharacters` of src/utils/utils.js. Texts are lists of code
-- units, and letters those of ASCII.
use tgvejs.Prelude.{
  ℕ, zero, suc, ◌+◌, ◌-◌, ◌<◌, ◌≤◌, ◌≡◌, refl, ap, ◌⊎◌, inl, inr, Bool, true, false, ◌&&◌, List, [],
  ◌∷◌, ◌++◌, map, length, take, drop, codes, ltb, leb, ◌==◌, length-append, append-nil, arith,
  Bool-cases, if◌then◌else◌,
}
use tgvejs.Api.Names.{to_upper}
use tgvejs.Color.{split_codes}

-- frag.charAt(0).toUpperCase() + frag.slice(1)
unfoldable pub capitalized : List ℕ → List ℕ
unfolding to_upper
capitalized [] = []
capitalized (c ∷ s) = to_upper c ∷ s

-- frags.join(' ')
unfoldable pub join_words : List (List ℕ) → List ℕ
join_words [] = []
join_words (w ∷ []) = w
join_words (w ∷ v ∷ ws) = w ++ b' ' ∷ join_words (v ∷ ws)

unfoldable pub humanize : List ℕ → List ℕ
unfolding split_codes capitalized join_words
humanize s = join_words (map capitalized (split_codes b'_' s))

abbrev pub last_word : List (List ℕ) → List ℕ
last_word [] = []
last_word (w ∷ []) = w
last_word (w ∷ v ∷ ws) = last_word (v ∷ ws)

-- The extension, or nothing where it is false. A text has two parts at least if it has a point.
unfoldable pub extension : List ℕ → List ℕ
unfolding split_codes
extension name =
    let parts = split_codes b'.' name in
    if ltb 1 (length parts) && ltb (length (last_word parts)) 10 then last_word parts else []

-- `shortenName` of a text; `trim` is that of the language. The result of the `replace` in the
-- middle is not used.
unfoldable pub shorten_name : (List ℕ → List ℕ) → List ℕ → ℕ → List ℕ
unfolding extension
shorten_name trim name n =
    if leb (length name) n
    then name
    else if ltb 10 (length name)
    then take 10 (trim name) ++ codes "..." ++ extension name
    else trim name

unfoldable pub dots : List ℕ
dots = codes "..."

-- what stands behind the first `n` characters
unfoldable pub ending : List ℕ → ℕ → List ℕ
unfolding dots
ending str n =
    if ltb (n + n) (length str)
    then dots ++ drop (length str - n) str
    else if ltb n (length str)
    then dots
    else []

-- `numeric` says that `+str` is truthy.
unfoldable pub first_last_n_characters : (List ℕ → Bool) → List ℕ → ℕ → List ℕ
unfolding ending
first_last_n_characters numeric str n =
    if numeric str then str else if length str == 0 then str else take n str ++ ending str n

length-take : (n : ℕ) (s : List ℕ) → length (take n s) ≤ n
length-take zero s = omega arith
length-take (suc n) [] = omega arith
length-take (suc n) (c ∷ s) = omega (arith, length-take n s)

length-drop : (n : ℕ) (s : List ℕ) → length (drop n s) ≡ length s - n
length-drop zero s = omega arith
length-drop (suc n) [] = omega arith
length-drop (suc n) (c ∷ s) = omega (arith, length-drop n s)

take_all : (n : ℕ) (s : List ℕ) → length s ≤ n → take n s ≡ s
take_all zero [] h = refl
take_all zero (c ∷ s) h = absurd (omega arith)
take_all (suc n) [] h = refl
take_all (suc n) (c ∷ s) h = ap (c ∷◌) (take_all n s (omega arith))

length-dots : length dots ≡ 3
unfolding dots
length-dots = refl

ending-long :
    (s : List ℕ) (n : ℕ)
    → ltb (n + n) (length s) ≡ true
    → ending s n ≡ dots ++ drop (length s - n) s
unfolding ending
ending-long s n h = rw h refl

ending-middle :
    (s : List ℕ) (n : ℕ)
    → ltb (n + n) (length s) ≡ false
    → ltb n (length s) ≡ true
    → ending s n ≡ dots
unfolding ending
ending-middle s n h k = rw (h, k) refl

ending-short :
    (s : List ℕ) (n : ℕ)
    → ltb (n + n) (length s) ≡ false
    → ltb n (length s) ≡ false
    → ending s n ≡ []
unfolding ending
ending-short s n h k = rw (h, k) refl

cut_of :
    (numeric : List ℕ → Bool) (s : List ℕ) (n : ℕ)
    → numeric s ≡ false
    → n < length s
    → first_last_n_characters numeric s n ≡ take n s ++ ending s n
unfolding first_last_n_characters
cut_of numeric s n a h = ground arith

cut_short :
    (numeric : List ℕ → Bool) (s : List ℕ) (n : ℕ)
    → numeric s ≡ false
    → length s ≤ n
    → first_last_n_characters numeric s n ≡ s
unfolding first_last_n_characters
cut_short numeric s n a k =
    ground
      (arith, take_all n s k, append-nil (take n s), ending-short s n (ground arith) (ground arith))

length-ending : (s : List ℕ) (n : ℕ) → ltb n (length s) ≡ true → length (ending s n) ≤ n + 3
length-ending s n h = elim (Bool-cases (ltb (n + n) (length s))) [
  | inl d ↦
      let far : n + n < length s = ground arith in
      omega (
        arith,
        ap length (ending-long s n d),
        length-append dots (drop (length s - n) s),
        length-dots,
        length-drop (length s - n) s,
      )
  | inr d ↦ omega (arith, ap length (ending-middle s n d h), length-dots)
]

-- Of a text that is no number, `firstLastNCharacters` gives the text itself if it has at most `n`
-- characters, and else at most 2n + 3.
first_last_n_characters-length :
    (numeric : List ℕ → Bool) (s : List ℕ) (n : ℕ)
    → numeric s ≡ false
    → ((length s ≤ n) × (first_last_n_characters numeric s n ≡ s))
      ⊎ ((n < length s) × (length (first_last_n_characters numeric s n) ≤ n + n + 3))
first_last_n_characters-length numeric s n a = elim (Bool-cases (ltb n (length s))) [
  | inr e ↦ inl (ground arith, cut_short numeric s n a (ground arith))
  | inl e ↦
      let long : n < length s = ground arith in
      inr (
        long,
        omega (
          arith,
          ap length (cut_of numeric s n a long),
          length-append (take n s) (ending s n),
          length-take n s,
          length-ending s n e,
        ),
      )
]
