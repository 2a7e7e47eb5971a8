-- ===== src/Layers/Settings/Laws.antt =====
-- The sliders of the layers' properties, and what options written over other options read as.
use tgvejs.Prelude.{
  ◌+◌, ◌≤◌, ◌<◌, String, ◌≡◌, refl, Bool, true, not, ◌&&◌, Option, none, some, [], ◌∷◌, All, leb,
  ltb, arith, eq_iff,
}
use tgvejs.Js.Dict.{Keyed, Dict, get, put, has, get-put, get_of_has}
use tgvejs.Layers.Settings.{Prop, number, add_options_to_object, layers, get_layer_props}

abbrev pub or_else : {A : Type 0} → Option A → Option A → Option A
or_else none b = b
or_else (some a) b = some a

-- An object with different keys, written over another.
pub get-add_options_to_object :
    {A : Type 0} (k : String) (opt obj : Dict A)
    → Keyed opt
    → get k (add_options_to_object opt obj) ≡ or_else (get k opt) (get k obj)
unfolding add_options_to_object get
get-add_options_to_object k [] obj h = refl
get-add_options_to_object k ((key, v) ∷ opt) obj h = ground (
  arith,
  get-add_options_to_object k opt (put key v obj) h.1,
  get-put key k v obj,
  get_of_has key opt h.0,
  eq_iff key k,
)

-- The default is a position of the slider, and there is room for a step.
abbrev pub IsSlider : Prop → Type 0
IsSlider (number s) =
    (s.min ≤ s.default) × (s.default ≤ s.max) × (0 < s.step) × (s.min + s.step ≤ s.max)
IsSlider p = Unit

abbrev slides : Prop → Bool
slides (number s) =
    leb s.min s.default && leb s.default s.max && ltb 0 s.step && leb (s.min + s.step) s.max
slides p = true

slides-IsSlider : (p : Prop) → slides p ≡ true → IsSlider p
slides-IsSlider (number s) h = (ground arith, ground arith, ground arith, ground arith)
slides-IsSlider p h = tt

abbrev all_slide : Dict Prop → Bool
all_slide [] = true
all_slide ((key, p) ∷ d) = slides p && all_slide d

all_slide-All : (d : Dict Prop) → all_slide d ≡ true → All (λ e. IsSlider e.1) d
all_slide-All [] h = tt
all_slide-All ((key, p) ∷ d) h = (slides-IsSlider p (ground arith), all_slide-All d (ground arith))

abbrev pub every : (Dict Prop → Bool) → Dict (Dict Prop) → Bool
every test [] = true
every test ((name, d) ∷ t) = test d && every test t

every-get :
    (test : Dict Prop → Bool) (name : String) (t : Dict (Dict Prop)) (d : Dict Prop)
    → every test t ≡ true
    → get name t ≡ some d
    → test d ≡ true
unfolding get
every-get test name [] d h e = cc
every-get test name ((n, c) ∷ t) d h e = ground (arith, every-get test name t d)

-- What a test finds of all the layers holds of the properties of each.
pub every_layer :
    (test : Dict Prop → Bool) (name : Option String) (props : Dict Prop)
    → every test layers ≡ true
    → get_layer_props name ≡ some props
    → test props ≡ true
unfolding get_layer_props
every_layer test none props h e = cc
every_layer test (some name) props h e = every-get test name layers props h e

layers_slide : every all_slide layers ≡ true
unfolding layers
layers_slide = refl

abbrev pub keyed : Dict Prop → Bool
keyed [] = true
keyed ((key, p) ∷ d) = not (has key d) && keyed d

keyed-Keyed : (d : Dict Prop) → keyed d ≡ true → Keyed d
keyed-Keyed [] h = tt
keyed-Keyed ((key, p) ∷ d) h = (ground arith, keyed-Keyed d (ground arith))

layers_keyed : every keyed layers ≡ true
unfolding layers has
layers_keyed = refl

pub get_layer_props-Keyed :
    (name : Option String) (props : Dict Prop) → get_layer_props name ≡ some props → Keyed props
get_layer_props-Keyed name props h = keyed-Keyed props (every_layer keyed name props layers_keyed h)

-- Every number among the properties of a layer has a default between its bounds, and a positive
-- step that fits between them.
pub get_layer_props-IsSlider :
    (name : Option String) (props : Dict Prop)
    → get_layer_props name ≡ some props
    → All (λ e. IsSlider e.1) props
get_layer_props-IsSlider name props h =
    all_slide-All props (every_layer all_slide name props layers_slide h)
