-- ===== src/Tests/Color.antt =====
-- The theorems on colours at concrete inputs.
use tgvejs.Prelude.{◌≡◌, List, [], ◌∷◌, codes, arith}
use tgvejs.Js.{Value, num}
use tgvejs.Color.{hex_to_rgb}
use tgvejs.Color.Laws.{hex_to_rgb-byte}
use tgvejs.Samples.{Whole, whole}

hex_to_rgb-byte_example : hex_to_rgb (codes "#4daf4a") ≡ 77 ∷ 175 ∷ 74 ∷ []
unfolding hex_to_rgb
hex_to_rgb-byte_example = hex_to_rgb-byte 77 175 74 (omega arith) (omega arith) (omega arith)

-- Ten values.
abbrev ten : List (Value Whole)
ten =
    num (whole 10)
    ∷ num (whole 11)
    ∷ num (whole 12)
    ∷ num (whole 13)
    ∷ num (whole 14)
    ∷ num (whole 15)
    ∷ num (whole 16)
    ∷ num (whole 17)
    ∷ num (whole 18)
    ∷ num (whole 19)
    ∷ []
