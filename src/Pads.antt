-- ===== src/Pads.antt =====
-- Which gamepads the streaming host knows of: the arrivals and removals that
-- src/app/stream/input/session_gamepad.c and src/app/stream/input/session_input.c send, for the
-- webOS build. What SDL says of a controller is part of the event.
pub mod Announce
pub mod Buttons
pub mod Sensors
mod Examples
use moonlight_tv.Base.{
  ℕ, ◌+◌, ◌*◌, List, [], ◌∷◌, ◌++◌, Option, none, some, Bool, true, false, not, ◌&&◌, ◌||◌,
  if◌then◌else◌,
}
use moonlight_tv.Base.Bits.{test_bit, set_bit, clear_bit, and_not}

-- `SDL_GameControllerGetType`
pub data ControllerType : Type 0 where
  joycon_pair joycon_left joycon_right switch_pro ps3 ps4 ps5 other_type : ControllerType

-- A connected gamepad: its number on the host and what SDL reports of it.
pub record Pad : Type 0 where
  pub gs_id : ℕ
  pub controller_type : ControllerType
  pub has_rumble : Bool
  pub has_rumble_triggers : Bool
  pub has_accel : Bool
  pub has_gyro : Bool
  pub has_led : Bool

-- The fields of `stream_input_t` that the announcements use, with `activeGamepadMask`.
pub record Session : Type 0 where
  pub started : Bool
  pub view_only : Bool
  pub active_mask : ℕ
  pub announced : ℕ
  pub excluded : ℕ

-- `LI_CTYPE_*`, and the `LI_CCAP_*` bits by name.
pub data HostType : Type 0 where
  xbox nintendo playstation : HostType

pub record Capabilities : Type 0 where
  pub analog_triggers : Bool
  pub touchpad : Bool
  pub rumble : Bool
  pub trigger_rumble : Bool
  pub accel : Bool
  pub gyro : Bool
  pub rgb_led : Bool

-- `LiSendControllerArrivalEvent`, and the `LiSendMultiControllerEvent` of a removal.
pub data PadCall : Type 0 where
  arrival : ℕ → ℕ → HostType → Capabilities → PadCall
  removal : ℕ → ℕ → PadCall

unfoldable pub is_moonlight_excluded : Session → ℕ → Bool
is_moonlight_excluded s gs_id = test_bit s.excluded gs_id

unfoldable pub sends_moonlight : Session → ℕ → Bool
unfolding is_moonlight_excluded
sends_moonlight s gs_id = if s.view_only then false else not (is_moonlight_excluded s gs_id)

unfoldable pub moonlight_active_mask : Session → ℕ
moonlight_active_mask s = and_not 16 s.active_mask s.excluded

unfoldable pub host_type : ControllerType → HostType
host_type joycon_pair = nintendo
host_type joycon_left = nintendo
host_type joycon_right = nintendo
host_type switch_pro = nintendo
host_type ps3 = playstation
host_type ps4 = playstation
host_type ps5 = playstation
host_type other_type = xbox

unfoldable pub has_analog_triggers : ControllerType → Bool
unfolding host_type
has_analog_triggers t = elim (host_type t) [ nintendo ↦ false | playstation ↦ true | xbox ↦ true ]

unfoldable pub has_touchpad : ControllerType → Bool
has_touchpad ps4 = true
has_touchpad ps5 = true
has_touchpad _ = false

unfoldable pub capabilities : Pad → Capabilities
unfolding has_analog_triggers has_touchpad
capabilities p = record {
  analog_triggers = has_analog_triggers p.controller_type;
  touchpad = has_touchpad p.controller_type;
  rumble = p.has_rumble;
  trigger_rumble = p.has_rumble_triggers;
  accel = p.has_accel;
  gyro = p.has_gyro;
  rgb_led = p.has_led;
}

unfoldable pub send_arrive : Session → Pad → Session × List PadCall
unfolding sends_moonlight moonlight_active_mask host_type capabilities
send_arrive s p =
    if not (sends_moonlight s p.gs_id)
    then (s, [])
    else if test_bit s.announced p.gs_id
    then (s, [])
    else (
      record s { announced = set_bit s.announced p.gs_id },
      arrival p.gs_id (moonlight_active_mask s) (host_type p.controller_type) (capabilities p) ∷ [],
    )

unfoldable pub send_remove : Session → Pad → Session × List PadCall
unfolding moonlight_active_mask
send_remove s p =
    if s.view_only then (s, []) else if not (test_bit s.announced p.gs_id) then (s, []) else (
      record s { announced = clear_bit s.announced p.gs_id },
      removal p.gs_id (clear_bit (moonlight_active_mask s) p.gs_id) ∷ [],
    )

-- The loops of `session_input_started` and `stream_input_send_unannounced_gamepads`, over the slots.
unfoldable pub announce_all : Session → List (Option Pad) → Session × List PadCall
unfolding send_arrive is_moonlight_excluded
announce_all s [] = (s, [])
announce_all s (none ∷ ps) = announce_all s ps
announce_all s (some p ∷ ps) =
    let (s1, calls1) = send_arrive s p in
    let skip = announce_all s ps in
    let (s2, calls2) = announce_all s1 ps in
    if is_moonlight_excluded s p.gs_id then skip else (s2, calls1 ++ calls2)

unfoldable pub send_unannounced : Session → List (Option Pad) → Session × List PadCall
unfolding announce_all
send_unannounced s ps = if s.view_only then (s, []) else announce_all s ps

unfoldable pub session_started : Session → List (Option Pad) → Session × List PadCall
unfolding announce_all
session_started s ps = announce_all (record s { started = true }) ps

unfoldable pub session_stopped : Session → Session
session_stopped s = record s { started = false; announced = 0; excluded = 0 }

-- `SDL_JoyDeviceEvent`: an added device with its instance id, or none where it is negative, the slot
-- it has and its auto-plug preference; or a removed one with its slot.
pub data JoyEvent : Type 0 where
  added_unknown : List (Option Pad) → JoyEvent
  added : Option Pad → Bool → JoyEvent
  removed : Option Pad → JoyEvent

-- The passthrough manager, which an auto-plugged device is left to, is not part of this model.
unfoldable pub handle_jdevice : Session → JoyEvent → Session × List PadCall
unfolding send_unannounced send_arrive send_remove sends_moonlight
handle_jdevice s (added_unknown ps) = send_unannounced s ps
handle_jdevice s (added none auto_plugin) = (s, [])
handle_jdevice s (added (some p) auto_plugin) =
    if s.view_only then (s, []) else if auto_plugin then (s, []) else send_arrive s p
handle_jdevice s (removed none) = (s, [])
handle_jdevice s (removed (some p)) =
    if s.view_only
    then (s, [])
    else if not (sends_moonlight s p.gs_id)
    then (s, [])
    else send_remove s p

-- `stream_input_handle_cdevice`
unfoldable pub handle_cdevice : Session → Bool → Option Pad → Session × List PadCall
unfolding send_remove sends_moonlight
handle_cdevice s was_removed none = (s, [])
handle_cdevice s was_removed (some p) =
    if not was_removed
    then (s, [])
    else if not (sends_moonlight s p.gs_id)
    then (s, [])
    else send_remove s p
