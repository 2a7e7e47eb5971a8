-- ===== src/Color.antt =====
-- src/utils/color.js: the colours of the map.
pub mod Laws
use tgvejs.Prelude.{
  ℕ, zero, suc, ◌+◌, ◌-◌, ◌*◌, ◌/◌, ◌%◌, String, ◌≡◌, Bool, true, false, not, ◌&&◌, Option, none,
  some, List, [], ◌∷◌, ◌++◌, map, length, get_elem?, filter, drop, take, codes, leb, ltb, ◌==◌,
  str_eq, if◌then◌else◌,
}
use tgvejs.Js.{Value, str, Floats, truthy}
use tgvejs.Js.Dict.{Dict, get}
use tgvejs.Geojson.Slots.{index_of}

-- The value of a hexadecimal digit.
unfoldable pub hex_value : ℕ → Option ℕ
hex_value c =
    if leb b'0' c && leb c b'9'
    then some (c - b'0')
    else if leb b'a' c && leb c b'f'
    then some (c - 87)
    else if leb b'A' c && leb c b'F'
    then some (c - 55)
    else none

-- `parseInt(s, 16)`, up to the first character that is no digit; where there is none, the 0 that
-- the shifts make of NaN. A sign, spaces or 0x in front do not occur in a colour.
unfoldable pub parse_hex : ℕ → List ℕ → ℕ
unfolding hex_value
parse_hex n [] = n
parse_hex n (c ∷ s) = elim (hex_value c) [ none ↦ n | some d ↦ parse_hex (16 * n + d) s ]

-- The shifts and masks of `hexToRgb` take the three low bytes of the number.
abbrev pub bytes : ℕ → List ℕ
bytes bigint = (bigint / 65536 % 256) ∷ (bigint / 256 % 256) ∷ (bigint % 256) ∷ []

-- hexToRgb(hex, true)
unfoldable pub hex_to_rgb : List ℕ → List ℕ
unfolding parse_hex
hex_to_rgb hex = bytes (parse_hex 0 (drop 1 hex))

-- The decimal digits of a byte.
abbrev pub show_byte : ℕ → List ℕ
show_byte n =
    if ltb n 10
    then (b'0' + n) ∷ []
    else if ltb n 100
    then (b'0' + n / 10) ∷ (b'0' + n % 10) ∷ []
    else (b'0' + n / 100) ∷ (b'0' + n / 10 % 10) ∷ (b'0' + n % 10) ∷ []

abbrev pub with_commas : List ℕ → List ℕ
with_commas [] = []
with_commas (n ∷ []) = show_byte n
with_commas (n ∷ m ∷ ns) = show_byte n ++ b',' ∷ with_commas (m ∷ ns)

-- hexToRgb(hex), a text
unfoldable pub hex_to_rgb_text : List ℕ → List ℕ
unfolding hex_to_rgb
hex_to_rgb_text hex = codes "rgb(" ++ with_commas (hex_to_rgb hex) ++ codes ")"

abbrev pub color_range_names : List String
color_range_names =
    "inverseDefault" ∷ "yellowblue" ∷ "greens" ∷ "oranges" ∷ "diverge" ∷ "default" ∷ []

-- The interpolators of d3-scale-chromatic, by name.
pub data Interpolator : Type 0 where
  or_rd reds yl_gn_bu greens oranges sinebow : Interpolator

-- `colorRangeNamesToInterpolate`
unfoldable pub color_range_names_to_interpolate : String → Interpolator
color_range_names_to_interpolate name =
    if str_eq name ""
    then or_rd
    else if str_eq name "inverseDefault"
    then reds
    else if str_eq name "yellowblue"
    then yl_gn_bu
    else if str_eq name "greens"
    then greens
    else if str_eq name "oranges"
    then oranges
    else if str_eq name "diverge"
    then sinebow
    else or_rd

abbrev rgb : ℕ → ℕ → ℕ → List ℕ
rgb r g b = r ∷ g ∷ b ∷ []

-- the object `colors` of `colorRanges`
abbrev pub range_colors : Dict (List (List ℕ))
range_colors =
    (
      "yellowblue",
      rgb 255 255 204
          ∷ rgb 199 233 180
          ∷ rgb 127 205 187
          ∷ rgb 65 182 196
          ∷ rgb 44 127 184
          ∷ rgb 37 52 148
          ∷ [],
    )
    ∷ (
      "greens",
      rgb 237 248 233
          ∷ rgb 199 233 192
          ∷ rgb 161 217 155
          ∷ rgb 116 196 118
          ∷ rgb 49 163 84
          ∷ rgb 0 109 44
          ∷ [],
    )
    ∷ (
      "oranges",
      rgb 254 237 222
          ∷ rgb 253 208 162
          ∷ rgb 253 174 107
          ∷ rgb 253 141 60
          ∷ rgb 230 85 13
          ∷ rgb 166 54 3
          ∷ [],
    )
    ∷ (
      "diverge",
      rgb 140 81 10
          ∷ rgb 216 179 101
          ∷ rgb 246 232 195
          ∷ rgb 199 234 229
          ∷ rgb 90 180 172
          ∷ rgb 1 102 94
          ∷ [],
    )
    ∷ (
      "inverseDefault",
      rgb 189 0 38
          ∷ rgb 240 59 32
          ∷ rgb 253 141 60
          ∷ rgb 254 178 76
          ∷ rgb 254 217 118
          ∷ rgb 255 255 178
          ∷ [],
    )
    ∷ (
      "default",
      rgb 255 255 178
          ∷ rgb 254 217 118
          ∷ rgb 254 178 76
          ∷ rgb 253 141 60
          ∷ rgb 240 59 32
          ∷ rgb 189 0 38
          ∷ [],
    )
    ∷ []

-- `colorRanges`; the argument is `none` where it is no text, the result where it is undefined.
unfoldable pub color_ranges : Option String → Option (List (List ℕ))
unfolding get
color_ranges none = get "default" range_colors
color_ranges (some name) = get name range_colors

-- `getColorArray`
unfoldable pub get_color_array : Option String → Option (List ℕ)
unfolding get
get_color_array none = none
get_color_array (some name) = get name (
    ("yellowblue", rgb 0 52 148)
    ∷ ("greens", rgb 0 255 0)
    ∷ ("oranges", rgb 166 166 0)
    ∷ ("diverge", rgb 255 102 94)
    ∷ ("inverseDefault", rgb 255 255 178)
    ∷ ("default", rgb 189 0 38)
    ∷ [])

-- What `colorScale` returns.
pub data Shade (N : Type 0) : Type 0 where
  null undefined : Shade N
  rgba : List N → N → Shade N

-- The splitting of a text by one code unit.
unfoldable pub split_codes : ℕ → List ℕ → List (List ℕ)
split_codes sep [] = [] ∷ []
split_codes sep (c ∷ s) = elim (split_codes sep s) [
  | [] ↦ [] ∷ []
  | w ∷ ws ↦ if c == sep then [] ∷ w ∷ ws else (c ∷ w) ∷ ws
]

module _ (F : Floats) where
  open F use {Num}

  -- What the code takes from d3: the colours of `schemeSet1`, and the text "rgb(r, g, b)" of an
  -- interpolator; `number` is `+x`.
  pub record Palette : Type 0 where
    pub scheme_set1 : List (List ℕ)
    pub interpolate : Interpolator → Num → List ℕ
    pub number : List ℕ → Num

  module _ (P : Palette) where
    abbrev pub of_nats : List ℕ → List Num
    of_nats ns = map F.of_nat ns

    -- the colour of a value of at most ten, from the scheme
    unfoldable pub scheme_shade : List (Value Num) → Value Num → Num → Shade Num
    unfolding index_of hex_to_rgb
    scheme_shade domain v alpha = elim (index_of F domain v) [
      | none ↦ undefined
      | some i ↦ elim (get_elem? P.scheme_set1 i) [
        | none ↦ undefined
        | some hex ↦ rgba (of_nats (hex_to_rgb hex)) alpha
      ]
    ]

    -- index / domain.length, where -1 is the index of a value that is not there
    unfoldable pub fraction : List (Value Num) → Value Num → Num
    unfolding index_of
    fraction domain v = elim (index_of F domain v) [
      | none ↦ F.div (F.sub F.zero (F.of_nat 1)) (F.of_nat (length domain))
      | some i ↦ F.div (F.of_nat i) (F.of_nat (length domain))
    ]

    -- rgb.substring(4, rgb.length - 1).replace(/ /g, '').split(',').map(x => +x)
    unfoldable pub components : List ℕ → List Num
    unfolding split_codes filter
    components text = map P.number (
        split_codes b',' (filter (λ c. not (c == b' ')) (take (length text - 1 - 4) (drop 4 text))))

    -- The colour's name is `none` where it is no text.
    unfoldable pub color_scale : Value Num → List (Value Num) → Num → Option String → Shade Num
    unfolding scheme_shade fraction components color_range_names_to_interpolate
    color_scale v domain alpha color_name =
        let name : String = elim color_name [ none ↦ "" | some s ↦ s ] in
        let shade = P.interpolate (color_range_names_to_interpolate name) (fraction domain v) in
        if not (truthy F v)
        then null
        else if length domain == 0
        then null
        else if str_eq name "default" && leb (length domain) 10
        then scheme_shade domain v alpha
        else rgba (components shade) alpha
