-- ===== src/Gesture/Examples.antt =====
-- The theorems about gestures at concrete events.
use moonlight_tv.Base.{ℕ, ◌++◌, Bool, true, false, ◌≡◌, refl}
use moonlight_tv.Base.Int.{pos}
use moonlight_tv.Gesture.{
  left, Gesture, World, ButtonEvent, available, eligible, reset, handle_mbutton,
}
use moonlight_tv.Gesture.Buttons.{after_calls, press_again_sticks}

abbrev idle_gesture : Gesture
idle_gesture = record {
  started = true;
  view_only = false;
  display_width = pos 1920;
  display_height = pos 1080;
  active = false;
  dragging = false;
  left_down = false;
  press_time = 0;
  start_x = pos 0;
  start_y = pos 0;
}

abbrev dragging_gesture : Gesture
dragging_gesture = record idle_gesture { active = true; dragging = true; left_down = true }

abbrev world : World
world = record { host_pen_touch = false; mouse_relative = false; webos = true; ticks = 40 }

abbrev touch : Bool → ℕ → ButtonEvent
touch down t = record {
  button = left;
  pressed = down;
  is_touch = true;
  timestamp = t;
  x = pos 100;
  y = pos 100;
}

press_again_sticks_example :
    let (g1, handled, calls) = handle_mbutton world dragging_gesture (touch true 50) in
    after_calls true (calls ++ (reset g1).1) ≡ true
unfolding available eligible
press_again_sticks_example =
    press_again_sticks world dragging_gesture (touch true 50) refl refl refl
