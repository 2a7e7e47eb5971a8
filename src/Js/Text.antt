-- ===== src/Js/Text.antt =====
-- `split` and `join` of texts by one character.
use Prim.Native.Char.{Char}
use Prim.Native.String.{String}
use tgvejs.Prelude.{◌==◌, code, List, [], ◌∷◌, if◌then◌else◌}

-- the first part of a split text, with one more character
prepend : Char → List String → List String
prepend c [] = (String.◌∷◌ c String.[]) ∷ []
prepend c (s ∷ ss) = (String.◌∷◌ c s) ∷ ss

-- `s.split(sep)`
unfoldable pub split : Char → String → List String
unfolding prepend
split sep String.[] = String.[] ∷ []
split sep (String.◌∷◌ c s) =
    let rest = split sep s in if code c == code sep then String.[] ∷ rest else prepend c rest
