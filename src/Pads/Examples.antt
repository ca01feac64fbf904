-- ===== src/Pads/Examples.antt =====
-- The theorems about gamepads in a session at concrete events.
use moonlight_tv.Base.{ℕ, [], ◌∷◌, none, some, true, false, ◌≡◌, refl, arith}
use moonlight_tv.Base.Bits.{test_bit}
use moonlight_tv.Base.Int.{pos}
use moonlight_tv.Pads.{
  Pad, ps5, Session, added, handle_jdevice, handle_cdevice, session_started, sends_moonlight,
  is_moonlight_excluded,
}
use moonlight_tv.Pads.Announce.{Told, handle_jdevice-Told}
use moonlight_tv.Pads.Buttons.{Flag, PadState, Combos}
use moonlight_tv.Pads.Buttons.Silence.{InRange}

abbrev dualsense : Pad
dualsense = record {
  gs_id = 1;
  controller_type = ps5;
  has_rumble = true;
  has_rumble_triggers = false;
  has_accel = true;
  has_gyro = true;
  has_led = true;
}

abbrev streaming : Session
streaming = record {
  started = true;
  view_only = false;
  active_mask = 7;
  announced = 1;
  excluded = 4;
}

handle_jdevice-Told_example :
    Told 1 streaming (handle_jdevice streaming (added (some dualsense) false))
    × Told 1 streaming (handle_cdevice streaming true (some dualsense))
    × Told 1 streaming (session_started streaming (none ∷ some dualsense ∷ []))
handle_jdevice-Told_example =
    handle_jdevice-Told 1 streaming (added (some dualsense) false) (none ∷ some dualsense ∷ [])
      (some dualsense) true

abbrev held : PadState
held = record {
  gs_id = 2;
  buttons = 0;
  left_trigger = 0;
  right_trigger = 0;
  left_x = pos 0;
  left_y = pos 300;
  right_x = pos 0;
  right_y = pos 0;
}

abbrev quitting : Combos
quitting = record { quit = true; vmouse = false; keyboard = false; stats = false }

abbrev plain_bit : Flag → ℕ
plain_bit f = 3

passed_through : sends_moonlight streaming 2 ≡ false
unfolding sends_moonlight is_moonlight_excluded test_bit
passed_through = refl

held-InRange : InRange held
held-InRange = record {
  left_x = omega arith;
  left_y = omega arith;
  right_x = omega arith;
  right_y = omega arith;
}
