-- ===== src/Mouse.antt =====
-- The mouse that the sticks of a gamepad move: src/app/stream/input/session_virt_mouse.c, and its
-- use by src/app/stream/input/session_gamepad.c.
pub mod Follow
pub mod LeftButton
pub mod Rest
pub mod Pointer
mod Examples
use moonlight_tv.Base.{
  ℕ, zero, suc, ◌+◌, ◌-◌, ◌*◌, List, [], ◌∷◌, ◌++◌, Bool, true, false, not, ◌&&◌, ◌||◌, leb, ltb,
  ◌==◌, if◌then◌else◌,
}
use moonlight_tv.Base.Int.{ℤ, pos, negsuc}
use moonlight_tv.Gesture.{Button, left, right, HostCall, press, release}
use moonlight_tv.Pads.Buttons.{
  PadState, Call, vmouse_state, toggle_vmouse, capped, negated, magnitude,
}

-- `session_input_vmouse_t`, without the modifier, which nothing writes; `timer` says whether there
-- is a timer id.
pub record VirtualMouse : Type 0 where
  pub active : Bool
  pub x : ℤ
  pub y : ℤ
  pub scroll_x : ℤ
  pub scroll_y : ℤ
  pub l : Bool
  pub r : Bool
  pub timer : Bool

-- The whole part of a square root, which is what the conversion of `SDL_sqrt` to `short` leaves.
unfoldable pub square_root : ℕ → ℕ
square_root zero = 0
square_root (suc n) = let s = square_root n in if leb ((s + 1) * (s + 1)) (n + 1) then s + 1 else s

-- `calc_mouse_movement`; the magnitude of -32768 does not fit a `short`, and is below the threshold.
unfoldable pub calc_mouse_movement : ℤ → ℤ
unfolding square_root negated
calc_mouse_movement axis =
    let speed : ℤ = pos (square_root (magnitude axis - 4096)) in
    if ltb (magnitude axis) 4096 || leb 32768 (magnitude axis)
    then pos 0
    else elim axis [ pos n ↦ speed | negsuc n ↦ negated speed ]

unfoldable pub is_rest : ℤ → Bool
is_rest z = magnitude z == 0

-- The state asks for motion.
unfoldable pub moves : VirtualMouse → Bool
unfolding is_rest
moves v =
    not (is_rest v.x) || not (is_rest v.y) || not (is_rest v.scroll_x) || not (is_rest v.scroll_y)

-- `vmouse_set_trigger`; a trigger is a byte, `char` being unsigned on the devices.
abbrev pub is_down : ℕ → Bool
is_down t = ltb 64 t

abbrev pub button_calls : Button → Bool → Bool → List HostCall
button_calls b was is =
    if was then (if is then [] else release b ∷ []) else (if is then press b ∷ [] else [])

unfoldable pub set_trigger : VirtualMouse → ℕ → ℕ → VirtualMouse × List HostCall
set_trigger v tl tr = (
  record v { l = is_down tl; r = is_down tr },
  button_calls left v.l (is_down tl) ++ button_calls right v.r (is_down tr),
)

-- Whether SDL starts a timer, and the curve of the scroll in double precision, are arguments.
module _ (starts : Bool) (curve : ℤ → ℤ) where
  -- `vmouse_update_timer`
  unfoldable pub update_timer : VirtualMouse → VirtualMouse
  unfolding moves
  update_timer v =
      if moves v
      then (if v.timer then v else record v { timer = starts })
      else if v.timer
      then record v { timer = false }
      else v

  unfoldable pub set_vector : VirtualMouse → ℤ → ℤ → VirtualMouse
  unfolding update_timer calc_mouse_movement capped negated
  set_vector v ax ay =
      update_timer
        (record v { x = calc_mouse_movement ax; y = calc_mouse_movement (negated (capped ay)) })

  unfoldable pub calc_scroll_delta : ℤ → ℤ
  unfolding is_rest
  calc_scroll_delta axis = if is_rest axis then pos 0 else curve axis

  unfoldable pub set_scroll : VirtualMouse → ℤ → ℤ → VirtualMouse
  unfolding update_timer calc_scroll_delta
  set_scroll v ax ay =
      update_timer (record v { scroll_x = calc_scroll_delta ax; scroll_y = calc_scroll_delta ay })

  -- `session_input_set_vmouse_active`
  unfoldable pub set_active : VirtualMouse → Bool → VirtualMouse × List HostCall
  unfolding set_vector set_scroll set_trigger
  set_active v on =
      let v1 : VirtualMouse = record v { active = on } in
      if on
      then (v1, [])
      else set_trigger (set_scroll (set_vector v1 (pos 0) (pos 0)) (pos 0) (pos 0)) 0 0

  -- The three calls of `stream_input_handle_caxis` for a gamepad that is intercepted.
  unfoldable pub take_state : VirtualMouse → PadState → VirtualMouse × List HostCall
  unfolding set_vector set_scroll set_trigger
  take_state v p =
      set_trigger (set_scroll (set_vector v p.right_x p.right_y) p.left_x p.left_y) p.left_trigger
        p.right_trigger

  -- `session_toggle_vmouse`, where `allowed` is the session's setting.
  unfoldable pub toggle : Bool → VirtualMouse → VirtualMouse × List HostCall
  unfolding set_active
  toggle allowed v = set_active v (allowed && not v.active)

  -- What the calls of a handler do to the mouse.
  unfoldable pub deliver : Bool → VirtualMouse → List Call → VirtualMouse × List HostCall
  unfolding take_state toggle
  deliver allowed v [] = (v, [])
  deliver allowed v (vmouse_state p ∷ cs) =
      let (v1, calls1) = take_state v p in
      let (v2, calls2) = deliver allowed v1 cs in (v2, calls1 ++ calls2)
  deliver allowed v (toggle_vmouse ∷ cs) =
      let (v1, calls1) = toggle allowed v in
      let (v2, calls2) = deliver allowed v1 cs in (v2, calls1 ++ calls2)
  deliver allowed v (_ ∷ cs) = deliver allowed v cs
