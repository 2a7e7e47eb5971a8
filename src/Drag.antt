-- ===== src/Drag.antt =====
-- src/utils/draggable.js: the throttle of mouse moves to one in a frame, and the place of what is
-- dragged. The browser's part is the list of the frames that are asked for.
pub mod Laws
use tgvejs.Prelude.{
  ℕ, suc, ◌+◌, ◌≡◌, Bool, true, false, not, ◌&&◌, ◌||◌, Option, none, some, List, [], ◌∷◌, ◌++◌,
  ◌==◌, filter, if◌then◌else◌,
}
use tgvejs.Js.{Floats}

module _ (A : Type 0) where
  -- The closure of `throttle(f)`: the calls of `f`, the last one first. A token is a positive number.
  pub record Throttle : Type 0 where
    pub token : Option ℕ
    pub last_args : Option A
    pub frames : List ℕ
    pub next_token : ℕ
    pub calls : List A

  unfoldable pub throttle : Throttle
  throttle = record { token = none; last_args = none; frames = []; next_token = 1; calls = [] }

  -- requestAnimationFrame(invoke)
  abbrev pub request_frame : Throttle → Throttle
  request_frame t = record t {
    token = some t.next_token;
    frames = t.frames ++ t.next_token ∷ [];
    next_token = suc t.next_token;
  }

  -- `result(...args)`
  unfoldable pub call : A → Throttle → Throttle
  call args t =
      let kept = record t { last_args = some args } in
      elim t.token [ none ↦ request_frame kept | some k ↦ kept ]

  -- f(...lastArgs); token = null
  unfoldable pub invoke : Throttle → Throttle
  invoke t = elim t.last_args [
    | none ↦ t
    | some args ↦ record t { calls = args ∷ t.calls; token = none }
  ]

  -- The browser calls the first of the frames asked for.
  unfoldable pub frame : Throttle → Throttle
  unfolding invoke
  frame t = elim t.frames [ [] ↦ t | k ∷ ks ↦ invoke (record t { frames = ks }) ]

  -- token && cancelAnimationFrame(token)
  unfoldable pub cancel : Throttle → Throttle
  unfolding filter
  cancel t = elim t.token [
    | none ↦ t
    | some k ↦ record t { frames = filter (λ j. not (j == k)) t.frames }
  ]

  pub data Event : Type 0 where
    called : A → Event
    framed cancelled : Event

  unfoldable pub step : Event → Throttle → Throttle
  unfolding call frame cancel
  step (called args) t = call args t
  step framed t = frame t
  step cancelled t = cancel t

module _ (F : Floats) where
  open F use {Num}

  pub record Place : Type 0 where
    pub x : Num
    pub y : Num

  pub record Dragged : Type 0 where
    pub position : Place
    -- the place in `elem.style.transform`, once there is one
    pub transform : Option Place

  -- Math.max(0, x)
  abbrev pub max_zero : Num → Num
  max_zero x = if F.is_nan x then F.nan else if F.lt x F.zero then F.zero else x

  unfoldable pub handle_drag : Place → Place
  handle_drag p = record { x = max_zero p.x; y = max_zero p.y }

  -- the move of a pressed element, by movementX and movementY
  unfoldable pub handle_mouse_move : Num → Num → Dragged → Dragged
  unfolding handle_drag
  handle_mouse_move movement_x movement_y d = record {
    position =
        handle_drag
          (record { x = F.add d.position.x movement_x; y = F.add d.position.y movement_y });
    transform = some d.position;
  }
