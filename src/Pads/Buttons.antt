-- ===== src/Pads/Buttons.antt =====
-- The buttons and axes of a gamepad in a session, with the combinations that the program keeps for
-- itself: src/app/stream/input/session_gamepad.c.
pub mod Silence
use moonlight_tv.Base.{
  ℕ, zero, suc, ◌+◌, ◌-◌, ◌*◌, ◌/◌, ◌%◌, ◌^◌, List, [], ◌∷◌, ◌++◌, Option, none, some, Bool, true,
  false, not, ◌&&◌, ◌||◌, ltb, leb, ◌==◌, if◌then◌else◌,
}
use moonlight_tv.Base.Bits.{test_bit, set_bit, clear_bit}
use moonlight_tv.Base.Int.{ℤ, pos, negsuc, pos_part, neg_part}
use moonlight_tv.Pads.{Session, sends_moonlight}

-- The flags of the streaming library, and the buttons of SDL: those with a branch of their own, one
-- that the handler does not know, and the others by their flag.
pub data Flag : Type 0 where
  a b x y up down left right back play special ls_clk rs_clk lb rb touchpad misc : Flag
  paddle1 paddle2 paddle3 paddle4 : Flag

pub data SdlButton : Type 0 where
  sdl_a sdl_b sdl_x sdl_y sdl_left_stick unknown_button : SdlButton
  same_as : Flag → SdlButton

-- The button and axis fields of `app_gamepad_state_t`. A trigger is the byte that it holds.
pub record PadState : Type 0 where
  pub gs_id : ℕ
  pub buttons : ℕ
  pub left_trigger : ℕ
  pub right_trigger : ℕ
  pub left_x : ℤ
  pub left_y : ℤ
  pub right_x : ℤ
  pub right_y : ℤ

-- The flags of the file that remember which combination was pressed.
pub record Combos : Type 0 where
  pub quit : Bool
  pub vmouse : Bool
  pub keyboard : Bool
  pub stats : Bool

-- A call out of the handlers.
pub data Call : Type 0 where
  multi_controller : ℕ → ℕ → PadState → Call
  open_overlay open_soft_keyboard toggle_stats_pin toggle_vmouse : Call
  vmouse_modifier : Bool → Call
  vmouse_state : PadState → Call

unfoldable pub flag_of : Bool → SdlButton → Option Flag
flag_of swap sdl_a = some (if swap then b else a)
flag_of swap sdl_b = some (if swap then a else b)
flag_of swap sdl_y = some (if swap then x else y)
flag_of swap sdl_x = some (if swap then y else x)
flag_of swap sdl_left_stick = some ls_clk
flag_of swap unknown_button = none
flag_of swap (same_as f) = some f

unfoldable pub modifier_calls : SdlButton → Bool → List Call
modifier_calls sdl_left_stick pressed = vmouse_modifier pressed ∷ []
modifier_calls _ pressed = []

unfoldable pub cleared : PadState → PadState
cleared p = record p {
  buttons = 0;
  left_trigger = 0;
  right_trigger = 0;
  left_x = pos 0;
  left_y = pos 0;
  right_x = pos 0;
  right_y = pos 0;
}

-- The state as it is sent to the host, if the host is to hear of the gamepad.
unfoldable pub send_state : Session → PadState → List Call
unfolding sends_moonlight
send_state s p =
    if sends_moonlight s p.gs_id then multi_controller p.gs_id s.active_mask p ∷ [] else []

unfoldable pub release_buttons : Session → PadState → PadState × List Call
unfolding cleared send_state
release_buttons s p = (cleared p, send_state s (cleared p))

-- The positions of the flags in a mask are the library's, an argument here.
module _ (bit : Flag → ℕ) where
  unfoldable pub combo_check : ℕ → List Flag → Bool
  combo_check buttons [] = true
  combo_check buttons (f ∷ fs) = test_bit buttons (bit f) && combo_check buttons fs

  -- The end of the handler, when the buttons are recorded and no combination is held.
  unfoldable pub after_combos : Session → Combos → PadState → PadState × Combos × List Call
  unfolding release_buttons send_state
  after_combos s c p =
      let (p1, calls) = release_buttons s p in
      let plain : PadState × Combos × List Call = (p, c, send_state s p) in
      if not (p.buttons == 0)
      then plain
      else if c.quit
      then (p1, record c { quit = false }, calls ++ (open_overlay ∷ []))
      else if c.vmouse
      then (p1, record c { vmouse = false }, calls ++ (toggle_vmouse ∷ []))
      else if c.keyboard
      then (p1, record c { keyboard = false }, calls ++ (open_soft_keyboard ∷ []))
      else if c.stats
      then (p1, record c { stats = false }, calls ++ (toggle_stats_pin ∷ []))
      else plain

  unfoldable pub with_button : PadState → Flag → Bool → PadState
  with_button p f pressed = record p {
    buttons = if pressed then set_bit p.buttons (bit f) else clear_bit p.buttons (bit f);
  }

  unfoldable pub record_button : Session → Combos → PadState → PadState × Combos × List Call
  unfolding combo_check after_combos
  record_button s c p =
      if combo_check p.buttons (play ∷ back ∷ lb ∷ rb ∷ [])
      then (p, record c { quit = true }, [])
      else if combo_check p.buttons (lb ∷ rs_clk ∷ [])
      then (p, record c { vmouse = true }, [])
      else if combo_check p.buttons (rb ∷ rs_clk ∷ [])
      then (p, record c { keyboard = true }, [])
      else if combo_check p.buttons (lb ∷ ls_clk ∷ [])
      then (p, record c { stats = true }, [])
      else after_combos s c p

  -- `stream_input_handle_cbutton`, for a gamepad that has a slot; `swap` is `swap_abxy`.
  unfoldable pub handle_cbutton :
      Bool → Session → Combos → PadState → SdlButton → Bool → PadState × Combos × List Call
  unfolding flag_of modifier_calls with_button record_button
  handle_cbutton swap s c p button pressed = elim (flag_of swap button) [
    | none ↦ (p, c, [])
    | some f ↦
        let (p1, c1, calls) = record_button s c (with_button p f pressed) in
        (p1, c1, modifier_calls button pressed ++ calls)
  ]

pub data Axis : Type 0 where
  axis_left_x axis_left_y axis_right_x axis_right_y axis_trigger_left axis_trigger_right : Axis
  unknown_axis : Axis

-- `SDL_max(value, -32767)`, and its negation.
unfoldable pub capped : ℤ → ℤ
capped (pos n) = pos n
capped (negsuc n) = if ltb n 32767 then negsuc n else negsuc 32766

unfoldable pub negated : ℤ → ℤ
negated (pos zero) = pos 0
negated (pos (suc n)) = negsuc n
negated (negsuc n) = pos (n + 1)

-- `(char) (value * 255UL / 32767)` as a byte, with an `unsigned long` of 32 bits.
unfoldable pub trigger_byte : ℤ → ℕ
trigger_byte (pos n) = n * 255 % 2 ^ 32 / 32767 % 256
trigger_byte (negsuc n) = (2 ^ 32 - (n + 1) * 255 % 2 ^ 32) % 2 ^ 32 / 32767 % 256

abbrev pub magnitude : ℤ → ℕ
magnitude z = pos_part z + neg_part z

unfoldable pub in_deadzone : ℕ → ℤ → ℤ → Bool
in_deadzone stick_deadzone h v =
    let threshold : ℕ = 32768 * stick_deadzone / 100 in
    ltb ((magnitude h * magnitude h + magnitude v * magnitude v) % 2 ^ 32)
      (threshold * threshold % 2 ^ 32)

unfoldable pub filter_deadzone_2axis : ℕ → ℤ → ℤ → ℤ × ℤ
unfolding in_deadzone
filter_deadzone_2axis stick_deadzone h v =
    if in_deadzone stick_deadzone h v then (pos 0, pos 0) else (h, v)

unfoldable pub with_axis : PadState → Axis → ℤ → Option PadState
unfolding capped negated trigger_byte
with_axis p axis_left_x v = some (record p { left_x = capped v })
with_axis p axis_left_y v = some (record p { left_y = negated (capped v) })
with_axis p axis_right_x v = some (record p { right_x = capped v })
with_axis p axis_right_y v = some (record p { right_y = negated (capped v) })
with_axis p axis_trigger_left v = some (record p { left_trigger = trigger_byte v })
with_axis p axis_trigger_right v = some (record p { right_trigger = trigger_byte v })
with_axis p unknown_axis v = none

unfoldable pub filter_sticks : ℕ → PadState → PadState
unfolding filter_deadzone_2axis
filter_sticks dz p =
    let (lx, ly) = filter_deadzone_2axis dz p.left_x p.left_y in
    let (rx, ry) = filter_deadzone_2axis dz p.right_x p.right_y in
    record p { left_x = lx; left_y = ly; right_x = rx; right_y = ry }

-- `vmouse_intercepted`: the virtual mouse is on and an axis is not at rest.
unfoldable pub vmouse_intercepted : Bool → PadState → Bool
vmouse_intercepted active p =
    active
    && not (
        magnitude p.right_x == 0
        && magnitude p.right_y == 0
        && magnitude p.left_x == 0
        && magnitude p.left_y == 0
        && p.left_trigger == 0
        && p.right_trigger == 0)

unfoldable pub buttons_only : PadState → PadState
unfolding cleared
buttons_only p = record (cleared p) { buttons = p.buttons }

-- `stream_input_handle_caxis`, for a gamepad that has a slot; `active` is
-- `session_input_is_vmouse_active`.
unfoldable pub handle_caxis : Bool → ℕ → Session → PadState → Axis → ℤ → PadState × List Call
unfolding with_axis filter_sticks vmouse_intercepted buttons_only send_state
handle_caxis active dz s p axis v = elim (with_axis p axis v) [
  | none ↦ (p, [])
  | some p1 ↦
      let p2 = filter_sticks dz p1 in
      (
        p2,
        if vmouse_intercepted active p2
            then vmouse_state p2 ∷ send_state s (buttons_only p2)
            else send_state s p2,
      )
]
