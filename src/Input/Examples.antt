-- ===== src/Input/Examples.antt =====
-- A view-only session at concrete events.
use moonlight_tv.Base.{ℕ, List, [], ◌∷◌, none, some, true, false, ◌==◌, refl}
use moonlight_tv.Base.Int.{pos}
use moonlight_tv.Keyboard.{KeyEvent, no_mods}
use moonlight_tv.Keyboard.Codes.{unhandled}
use moonlight_tv.Keyboard.Remote.{remote_home}
use moonlight_tv.Pads.Buttons.{sdl_a, axis_left_y, PadState}
use moonlight_tv.Mouse.Pointer.{finger_down}
use moonlight_tv.Input.{
  InputState, Outside, InputEvent, key, pad_axis, pad_button, mouse_wheel, finger,
}
use moonlight_tv.Input.Sent.{NothingSent}
use moonlight_tv.Input.ViewOnly.{IsViewOnly, run, run-IsViewOnly}

abbrev outside : Outside ℕ
outside = record {
  world = record { host_pen_touch = false; mouse_relative = false; webos = true; ticks = 5 };
  screen = record {
    has_session = true;
    keyboard_shown = false;
    panel_shown = false;
    blocks_input = false;
  };
  bit = λ f. 0;
  same = λ a b. a == b;
  to_degrees = λ a. a;
  starts = true;
  curve = λ z. z;
  vmouse_allowed = false;
  blocked = false;
}

abbrev view_only : InputState
view_only = record {
  pads = record { started = true; view_only = true; active_mask = 1; announced = 0; excluded = 0 };
  keyboard = record {
    view_only = true;
    syskey_capture = false;
    pressed = [];
    keydown_count = pos 0;
    pending = none;
    ok_pressed = false;
    ok_pressed_at = 0;
    ok_modifiers = no_mods;
  };
  gesture = record {
    started = true;
    view_only = true;
    display_width = pos 1920;
    display_height = pos 1080;
    active = false;
    dragging = false;
    left_down = false;
    press_time = 0;
    start_x = pos 0;
    start_y = pos 0;
  };
  combos = record { quit = false; vmouse = false; keyboard = false; stats = false };
  mouse = record {
    active = false;
    x = pos 0;
    y = pos 0;
    scroll_x = pos 0;
    scroll_y = pos 0;
    l = false;
    r = false;
    timer = false;
  };
  no_sdl_mouse = false;
  stick_deadzone = 10;
  swap_abxy = false;
}

view_only-IsViewOnly : IsViewOnly view_only
view_only-IsViewOnly = record {
  of_pads = refl;
  of_keyboard = refl;
  of_gesture = refl;
  of_mouse = record { off = refl; no_left = refl; no_right = refl };
}

abbrev at_rest : PadState
at_rest = record {
  gs_id = 0;
  buttons = 0;
  left_trigger = 0;
  right_trigger = 0;
  left_x = pos 0;
  left_y = pos 0;
  right_x = pos 0;
  right_y = pos 0;
}

abbrev home_key : KeyEvent
home_key = record {
  is_down = false;
  repeat = false;
  mods = no_mods;
  scancode = unhandled;
  sym = 0;
  sym_is_enter = false;
  timestamp = 9;
  ticks = 9;
  any_down = false;
  preset = 0;
}

abbrev events : List (InputEvent ℕ)
events =
    key (some remote_home) home_key
    ∷ pad_axis (some at_rest) axis_left_y (pos 30000)
    ∷ pad_button (some at_rest) sdl_a true
    ∷ mouse_wheel false (pos 0) (pos 1)
    ∷ finger finger_down 1 2 3 4
    ∷ []

run-IsViewOnly_example :
    IsViewOnly (run outside view_only events).0 × NothingSent ℕ (run outside view_only events).1
run-IsViewOnly_example =
    run-IsViewOnly outside view_only events refl (refl, (refl, (refl, (refl, (refl, tt)))))
      view_only-IsViewOnly
