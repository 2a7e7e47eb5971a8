-- ===== src/Color/Laws.antt =====
-- Bytes of colours, the tables of colours, and where `colorScale` has no colour.
use tgvejs.Prelude.{
  ℕ, zero, suc, ◌+◌, ◌*◌, ◌/◌, ◌%◌, ◌<◌, ◌≤◌, String, ◌≡◌, refl, ap, ◌∙◌, Bool, true, ◌&&◌, none,
  some, List, [], ◌∷◌, ◌++◌, length, get_elem?, In, All, ltb, ◌==◌, arith, Bool-cases, All-In, ◌⊎◌,
  inl, inr, if◌then◌else◌,
}
use tgvejs.Js.{Value, Floats, truthy}
use tgvejs.Geojson.Slots.{index_of}
use tgvejs.Color.{
  of_nats, bytes, hex_value, parse_hex, hex_to_rgb, color_range_names, color_ranges, Shade, Palette,
  color_scale, scheme_shade,
}

-- A hexadecimal digit, and the two of a byte.
abbrev pub digit : ℕ → ℕ
digit d = if ltb d 10 then d + b'0' else d + 87

abbrev pub byte : ℕ → List ℕ
byte n = digit (n / 16) ∷ digit (n % 16) ∷ []

hex_value-digit : (d : ℕ) → d < 16 → hex_value (digit d) ≡ some d
unfolding hex_value
hex_value-digit d h = ground arith

parse_hex-next :
    (n c d : ℕ) (s : List ℕ) → hex_value c ≡ some d → parse_hex n (c ∷ s) ≡ parse_hex (16 * n + d) s
unfolding parse_hex
parse_hex-next n c d s h = ground arith

parse_hex-digit :
    (n d : ℕ) (s : List ℕ) → d < 16 → parse_hex n (digit d ∷ s) ≡ parse_hex (16 * n + d) s
parse_hex-digit n d s h = parse_hex-next n (digit d) d s (hex_value-digit d h)

parse_hex-byte :
    (n b : ℕ) (s : List ℕ) → b < 256 → parse_hex n (byte b ++ s) ≡ parse_hex (256 * n + b) s
parse_hex-byte n b s h =
    parse_hex-digit n (b / 16) (digit (b % 16) ∷ s) (omega arith)
    ∙ parse_hex-digit (16 * n + b / 16) (b % 16) s (omega arith)
    ∙ ap (λ m. parse_hex m s) (omega arith)

parse_hex-bytes :
    (r g b : ℕ)
    → r < 256
    → g < 256
    → b < 256
    → parse_hex 0 (byte r ++ byte g ++ byte b) ≡ 65536 * r + 256 * g + b
unfolding parse_hex
parse_hex-bytes r g b hr hg hb =
    parse_hex-byte 0 r (byte g ++ byte b) hr
    ∙ parse_hex-byte (256 * 0 + r) g (byte b) hg
    ∙ parse_hex-byte (256 * (256 * 0 + r) + g) b [] hb
    ∙ omega arith

three :
    (a b c x y z : ℕ) → a ≡ x → b ≡ y → c ≡ z → ◌≡◌ {A = List ℕ} (a ∷ b ∷ c ∷ []) (x ∷ y ∷ z ∷ [])
three a b c x y z p q r = cc (p, q, r)

bytes_of :
    (r g b : ℕ) → r < 256 → g < 256 → b < 256 → bytes (65536 * r + 256 * g + b) ≡ r ∷ g ∷ b ∷ []
bytes_of r g b hr hg hb = three _ _ _ r g b (omega arith) (omega arith) (omega arith)

-- `hexToRgb` reads the three bytes back that a colour is written with.
pub hex_to_rgb-byte :
    (r g b : ℕ)
    → r < 256
    → g < 256
    → b < 256
    → hex_to_rgb (b'#' ∷ byte r ++ byte g ++ byte b) ≡ r ∷ g ∷ b ∷ []
unfolding hex_to_rgb
hex_to_rgb-byte r g b hr hg hb = ap bytes (parse_hex-bytes r g b hr hg hb) ∙ bytes_of r g b hr hg hb

-- Three components of a byte each.
abbrev pub IsRgb : List ℕ → Type 0
IsRgb c = (length c ≡ 3) × All (λ n. n < 256) c

bytes_only : List ℕ → Bool
bytes_only [] = true
bytes_only (n ∷ ns) = ltb n 256 && bytes_only ns

all_rgb : List (List ℕ) → Bool
all_rgb [] = true
all_rgb (c ∷ cs) = (length c == 3 && bytes_only c) && all_rgb cs

bytes_only-All : (c : List ℕ) → bytes_only c ≡ true → All (λ n. n < 256) c
unfolding bytes_only
bytes_only-All [] h = tt
bytes_only-All (n ∷ ns) h = (ground arith, bytes_only-All ns (ground arith))

all_rgb-All : (cs : List (List ℕ)) → all_rgb cs ≡ true → All IsRgb cs
unfolding all_rgb
all_rgb-All [] h = tt
all_rgb-All (c ∷ cs) h =
    ((ground arith, bytes_only-All c (ground arith)), all_rgb-All cs (ground arith))

abbrev pub HasRange : String → Type 0
HasRange name =
    (cs : List (List ℕ)) × (color_ranges (some name) ≡ some cs) × (length cs ≡ 6) × All IsRgb cs

range :
    (name : String) (cs : List (List ℕ))
    → color_ranges (some name) ≡ some cs
    → length cs ≡ 6
    → all_rgb cs ≡ true
    → HasRange name
range name cs e l h = (cs, e, l, all_rgb-All cs h)

every_range : All HasRange color_range_names
unfolding color_ranges all_rgb bytes_only
every_range = (
  range "inverseDefault" _ refl refl refl,
  (
    range "yellowblue" _ refl refl refl,
    (
      range "greens" _ refl refl refl,
      (
        range "oranges" _ refl refl refl,
        (range "diverge" _ refl refl refl, (range "default" _ refl refl refl, tt)),
      ),
    ),
  ),
)

-- A name that is in `colorRangeNames` has six colours in `colorRanges`, of three bytes each.
color_ranges-names :
    (name : String)
    → In name color_range_names
    → (cs : List (List ℕ)) × (color_ranges (some name) ≡ some cs) × (length cs ≡ 6) × All IsRgb cs
color_ranges-names name m = All-In HasRange name color_range_names every_range m

get_elem?_in :
    {A : Type 0} (xs : List A) (i : ℕ) → i < length xs → (x : A) × (get_elem? xs i ≡ some x)
get_elem?_in [] i h = absurd (omega arith)
get_elem?_in (x ∷ xs) zero h = (x, refl)
get_elem?_in (x ∷ xs) (suc i) h = get_elem?_in xs i (omega arith)

get_elem?_out : {A : Type 0} (xs : List A) (i : ℕ) → length xs ≤ i → get_elem? xs i ≡ none
get_elem?_out [] i h = refl
get_elem?_out (x ∷ xs) zero h = absurd (omega arith)
get_elem?_out (x ∷ xs) (suc i) h = get_elem?_out xs i (omega arith)

module _ (F : Floats) (P : Palette F) where
  open F use {Num}

  by_scheme :
      (v : Value Num) (domain : List (Value Num)) (alpha : Num)
      → truthy F v ≡ true
      → 0 < length domain
      → length domain ≤ 10
      → color_scale F P v domain alpha (some "default") ≡ scheme_shade F P domain v alpha
  unfolding color_scale
  by_scheme v domain alpha t l m = ground arith

  shade_in :
      (v : Value Num) (domain : List (Value Num)) (alpha : Num) (i : ℕ) (hex : List ℕ)
      → index_of F domain v ≡ some i
      → get_elem? P.scheme_set1 i ≡ some hex
      → scheme_shade F P domain v alpha ≡ Shade.rgba (of_nats F P (hex_to_rgb hex)) alpha
  unfolding scheme_shade
  shade_in v domain alpha i hex a e = ground arith

  shade_out :
      (v : Value Num) (domain : List (Value Num)) (alpha : Num) (i : ℕ)
      → index_of F domain v ≡ some i
      → get_elem? P.scheme_set1 i ≡ none
      → scheme_shade F P domain v alpha ≡ Shade.undefined
  unfolding scheme_shade
  shade_out v domain alpha i a e = ground arith

  -- With the name "default", a domain of at most ten values and a scheme of nine colours, a truthy
  -- value at a position below nine has the colour of the scheme there, and a value at a position
  -- from nine on has no colour.
  color_scale-scheme :
      (v : Value Num) (domain : List (Value Num)) (alpha : Num) (i : ℕ)
      → length P.scheme_set1 ≡ 9
      → truthy F v ≡ true
      → 0 < length domain
      → length domain ≤ 10
      → index_of F domain v ≡ some i
      → ((i < 9)
          × (hex : List ℕ) × (get_elem? P.scheme_set1 i ≡ some hex)
          × (color_scale F P v domain alpha (some "default")
              ≡ Shade.rgba (of_nats F P (hex_to_rgb hex)) alpha))
        ⊎ ((9 ≤ i) × (color_scale F P v domain alpha (some "default") ≡ Shade.undefined))
  color_scale-scheme v domain alpha i nine t l m a = elim (Bool-cases (ltb i 9)) [
    | inl e ↦
        let (hex, g) = get_elem?_in P.scheme_set1 i (ground arith) in
        inl
          (ground arith, hex, g, by_scheme v domain alpha t l m ∙ shade_in v domain alpha i hex a g)
    | inr e ↦
        let g = get_elem?_out P.scheme_set1 i (ground arith) in
        inr (ground arith, by_scheme v domain alpha t l m ∙ shade_out v domain alpha i a g)
  ]
