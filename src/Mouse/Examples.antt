-- ===== src/Mouse/Examples.antt =====
-- The virtual mouse at concrete states of a gamepad.
use moonlight_tv.Base.{ℕ, List, Bool, [], ◌∷◌, some, true, false, ◌≡◌, refl, arith}
use moonlight_tv.Base.Int.{ℤ, pos}
use moonlight_tv.Gesture.{left, right, Gesture, World, ButtonEvent, available, eligible}
use moonlight_tv.Gesture
use moonlight_tv.Gesture.Buttons.{IsGesture}
use moonlight_tv.Mouse.Pointer.{
  button_left, button_middle, handle_mbutton, handle_mmotion, gesture_button,
}
use moonlight_tv.Mouse.LeftButton.{
  MouseEvent, button_event, motion_event, step, AllTaken, run-in_step,
}
use moonlight_tv.Mouse.LeftButton
use moonlight_tv.Pads.{Session}
use moonlight_tv.Pads.Buttons.{PadState, axis_right_x, capped, with_axis, handle_caxis}
use moonlight_tv.Mouse.{VirtualMouse, is_rest, moves, set_active, deliver}
use moonlight_tv.Mouse.Follow.{held_after, pad_state, run, IsStill, run-IsInStep}
use moonlight_tv.Mouse.Rest.{IsAtRest, handle_caxis_at_rest}

abbrev no_curve : ℤ → ℤ
no_curve z = z

abbrev switched_on : VirtualMouse
switched_on = record {
  active = true;
  x = pos 0;
  y = pos 0;
  scroll_x = pos 0;
  scroll_y = pos 0;
  l = false;
  r = false;
  timer = false;
}

abbrev pushed : PadState
pushed = record {
  gs_id = 0;
  buttons = 0;
  left_trigger = 200;
  right_trigger = 0;
  left_x = pos 0;
  left_y = pos 0;
  right_x = pos 4112;
  right_y = pos 0;
}

still : switched_on.timer ≡ moves switched_on
unfolding moves is_rest
still = refl

run-IsInStep_example :
    (held_after left false (run no_curve switched_on (pad_state pushed ∷ [])).1
      ≡ (run no_curve switched_on (pad_state pushed ∷ [])).0.l)
    × (held_after right false (run no_curve switched_on (pad_state pushed ∷ [])).1
        ≡ (run no_curve switched_on (pad_state pushed ∷ [])).0.r)
    × ((run no_curve switched_on (pad_state pushed ∷ [])).0.timer
        ≡ moves (run no_curve switched_on (pad_state pushed ∷ [])).0)
    × IsStill
        (set_active true no_curve (run no_curve switched_on (pad_state pushed ∷ [])).0 false).0
run-IsInStep_example = run-IsInStep no_curve switched_on (pad_state pushed ∷ []) still

-- The pointer moves and the left button is down.
abbrev moving : VirtualMouse
moving = record switched_on { x = pos 4; l = true; timer = true }

abbrev held : PadState
held = record pushed { left_trigger = 0 }

abbrev released : PadState
released = record held { right_x = pos 0 }

abbrev session : Session
session = record { started = true; view_only = false; active_mask = 1; announced = 1; excluded = 0 }

at_rest : IsAtRest released
at_rest = record {
  left_x_rests = refl;
  left_y_rests = refl;
  right_x_rests = refl;
  right_y_rests = refl;
  left_trigger_rests = refl;
  right_trigger_rests = refl;
}

released_x : with_axis held axis_right_x (pos 0) ≡ some released
unfolding with_axis capped
released_x = refl

handle_caxis_at_rest_example :
    deliver true no_curve true moving (handle_caxis true 10 session held axis_right_x (pos 0)).1
    ≡ (moving, [])
handle_caxis_at_rest_example =
    handle_caxis_at_rest true no_curve true moving 10 session held released axis_right_x (pos 0)
      released_x at_rest

abbrev idle_gesture : Gesture
idle_gesture = record {
  started = true;
  view_only = false;
  display_width = pos 1920;
  display_height = pos 1080;
  active = false;
  dragging = false;
  left_down = false;
  press_time = 0;
  start_x = pos 0;
  start_y = pos 0;
}

abbrev touched : Bool → ℕ → ButtonEvent
touched down t = record {
  button = left;
  pressed = down;
  is_touch = true;
  timestamp = t;
  x = pos 100;
  y = pos 100;
}

abbrev world : World
world = record { host_pen_touch = false; mouse_relative = false; webos = true; ticks = 40 }

-- A drag, during which the middle button of a mouse is pressed.
abbrev drag : List MouseEvent
drag =
    button_event world button_left (touched true 10)
    ∷ motion_event world false false
        (record { is_touch = true; x = pos 150; y = pos 100; xrel = pos 50; yrel = pos 0 })
    ∷ button_event world button_middle (record (touched true 20) { is_touch = false })
    ∷ button_event world button_left (touched false 30)
    ∷ []

idle_gesture-IsGesture : IsGesture idle_gesture
idle_gesture-IsGesture = ground arith

drag-AllTaken : AllTaken ℕ idle_gesture drag
unfolding step handle_mbutton handle_mmotion Gesture.handle_mbutton Gesture.handle_mmotion available
    eligible gesture_button
drag-AllTaken = (refl, (refl, (refl, (refl, tt))))

run-in_step_example :
    LeftButton.after_calls false (LeftButton.run {F = ℕ} idle_gesture drag).1
    ≡ (LeftButton.run {F = ℕ} idle_gesture drag).0.left_down
run-in_step_example = run-in_step ℕ idle_gesture drag refl idle_gesture-IsGesture drag-AllTaken
