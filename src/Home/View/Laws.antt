-- ===== src/Home/View/Laws.antt =====
-- What the first view is made of.
use tgvejs.Prelude.{String, ◌≡◌, Bool, false, Option, none, some, codes, str_eq, if◌then◌else◌}
use tgvejs.Js.{Floats}
use tgvejs.Js.Dict.{Keyed, Dict, get}
use tgvejs.Layers.Settings.{add_options_to_object}
use tgvejs.Layers.Settings.Laws.{or_else}
use tgvejs.Home.View.{is_2d, Page, coordinate, with_params, get_viewport_params}

module _ (F : Floats) (G : Page F) where
  open F use {Num}

  -- What a key has before the query is read: the viewport's value, or the shared one.
  abbrev pub given : Dict Num → Option (Dict Num) → String → Option Num
  given shared viewport k = elim viewport [
    | none ↦ get k shared
    | some v ↦ or_else (get k v) (get k shared)
  ]

  abbrev initial : Dict Num → Option (Dict Num) → Dict Num
  initial shared viewport = elim viewport [
    | none ↦ shared
    | some v ↦ add_options_to_object v shared
  ]

  abbrev pub KeyedViewport : Option (Dict Num) → Type 0
  KeyedViewport none = Unit
  KeyedViewport (some v) = Keyed v

  abbrev pub is_flat : Option String → Bool
  is_flat name = elim name [ none ↦ false | some n ↦ is_2d (codes n) ]

  -- the state after the query
  abbrev read_in : Dict Num → Option (Dict Num) → String → Dict Num
  read_in shared viewport query =
      with_params F G (get_viewport_params F G query) (initial shared viewport)

  -- The view that the component starts with, key by key.
  pub record IsView (shared : Dict Num) (viewport : Option (Dict Num)) (layer_name : Option String)
      (query : String) (r : Dict Num) : Type 0 where
    -- the pitch and the bearing are never those of the query
    pub pitch :
        get "pitch" r ≡ (if is_flat layer_name then some F.zero else given shared viewport "pitch")
    pub bearing : get "bearing" r ≡ given shared viewport "bearing"
    pub latitude : get "latitude" r ≡ (
        if str_eq query ""
        then given shared viewport "latitude"
        else some
            (coordinate F G (get "lat" (G.parse (G.without_mark query))) (F.number "53.8321")))
