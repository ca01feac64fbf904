-- ===== src/Input.antt =====
-- The events of a session, as src/app/stream/session_events.c hands them to the handlers of the
-- gamepads, the keyboard and the mouse.
mod Keys
mod Pads
mod Off
mod Sent
pub mod ViewOnly
mod Examples
use moonlight_tv.Base.{
  ℕ, List, [], ◌∷◌, ◌++◌, map, Option, none, some, Bool, true, false, not, ◌&&◌, ◌||◌,
  if◌then◌else◌,
}
use moonlight_tv.Base.Int.{ℤ}
use moonlight_tv.Gesture.{Gesture, World, ButtonEvent, MotionEvent, HostCall}
use moonlight_tv.Keyboard.{Keyboard, KeyEvent, KeyCall, handle_text}
use moonlight_tv.Keyboard.Remote.{RemoteKey, RemoteCall, Screen, handle_event}
use moonlight_tv.Pads.{Pad, Session, PadCall, JoyEvent, handle_jdevice, handle_cdevice}
use moonlight_tv.Pads.Buttons.{
  Flag, SdlButton, PadState, Combos, Call, Axis, handle_cbutton, handle_caxis,
}
use moonlight_tv.Pads.Sensors.{
  Reading, Sensors, Sensor, PadTouch, SensorCall, handle_csensor, handle_ctouchpad,
}
use moonlight_tv.Mouse.{VirtualMouse, deliver}
use moonlight_tv.Mouse.Pointer.{
  MouseButton, TouchKind, PointerCall, handle_mbutton, handle_mwheel, handle_mmotion, handle_touch,
}

-- The parts of `session_t` and of the variables of the handlers that the events change.
pub record InputState : Type 0 where
  pub pads : Session
  pub keyboard : Keyboard
  pub gesture : Gesture
  pub combos : Combos
  pub mouse : VirtualMouse
  pub no_sdl_mouse : Bool
  pub stick_deadzone : ℕ
  pub swap_abxy : Bool

-- An event, with the gamepad that its instance id finds; none is found where an event of a gamepad
-- carries none. `F` is the type of floating-point numbers.
pub data InputEvent (F : Type 0) : Type 0 where
  key : Option RemoteKey → KeyEvent → InputEvent F
  pad_axis : Option PadState → Axis → ℤ → InputEvent F
  pad_button : Option PadState → SdlButton → Bool → InputEvent F
  pad_sensor : Option (ℕ × Sensors F) → Sensor → ℕ → Reading F → InputEvent F
  pad_touchpad : Option ℕ → ℕ → PadTouch → ℕ → F → F → F → InputEvent F
  joystick : JoyEvent → InputEvent F
  controller : Bool → Option Pad → InputEvent F
  mouse_motion : MotionEvent → InputEvent F
  mouse_wheel : Bool → ℤ → ℤ → InputEvent F
  mouse_press : MouseButton → ButtonEvent → InputEvent F
  text_input : List ℕ → InputEvent F
  finger : TouchKind → ℕ → F → F → F → InputEvent F
  other_event : InputEvent F

-- What goes out at an event, by the part that sends it.
pub data OutCall (F : Type 0) : Type 0 where
  by_key : KeyCall → OutCall F
  by_remote : RemoteCall → OutCall F
  by_pad : Call → OutCall F
  by_mouse : HostCall → OutCall F
  by_device : PadCall → OutCall F
  by_sensor : SensorCall F → OutCall F
  by_pointer : PointerCall F → OutCall F

-- The state, with the gamepad's and its sensors' where they are found, and the calls.
pub record Handled (F : Type 0) : Type 0 where
  pub state : InputState
  pub pad : Option PadState
  pub sensors : Option (Sensors F)
  pub calls : List (OutCall F)
  pub taken : Bool

-- What the handlers ask of other parts and libraries.
pub record Outside (F : Type 0) : Type 0 where
  pub world : World
  pub screen : Screen
  pub bit : Flag → ℕ
  pub same : F → F → Bool
  pub to_degrees : F → F
  pub starts : Bool
  pub curve : ℤ → ℤ
  pub vmouse_allowed : Bool
  pub blocked : Bool

module _ {F : Type 0} (o : Outside F) where
  abbrev pub plain : InputState → List (OutCall F) → Handled F
  plain s calls = record { state = s; pad = none; sensors = none; calls = calls; taken = true }

  unfoldable pub on_axis : InputState → Option PadState → Axis → ℤ → Handled F
  unfolding handle_caxis deliver
  on_axis s none axis v = plain s []
  on_axis s (some p) axis v =
      let (p1, calls) = handle_caxis s.mouse.active s.stick_deadzone s.pads p axis v in
      let (m1, hosts) = deliver o.starts o.curve o.vmouse_allowed s.mouse calls in
      record {
        state = record s { mouse = m1 };
        pad = some p1;
        sensors = none;
        calls = map by_mouse hosts ++ map by_pad calls;
        taken = true;
      }

  unfoldable pub on_button : InputState → Option PadState → SdlButton → Bool → Handled F
  unfolding handle_cbutton deliver
  on_button s none b pressed = plain s []
  on_button s (some p) b pressed =
      let (p1, c1, calls) = handle_cbutton o.bit s.swap_abxy s.pads s.combos p b pressed in
      let (m1, hosts) = deliver o.starts o.curve o.vmouse_allowed s.mouse calls in
      record {
        state = record s { combos = c1; mouse = m1 };
        pad = some p1;
        sensors = none;
        calls = map by_mouse hosts ++ map by_pad calls;
        taken = true;
      }

  unfoldable pub on_sensor :
      InputState → Option (ℕ × Sensors F) → Sensor → ℕ → Reading F → Handled F
  unfolding handle_csensor
  on_sensor s none k timestamp r = plain s []
  on_sensor s (some (gs_id, t)) k timestamp r =
      let (t1, calls) = handle_csensor o.same o.to_degrees s.pads gs_id t k timestamp r in
      record { state = s; pad = none; sensors = some t1; calls = map by_sensor calls; taken = true }

  unfoldable pub on_touchpad : InputState → Option ℕ → ℕ → PadTouch → ℕ → F → F → F → Handled F
  unfolding handle_ctouchpad
  on_touchpad s none touchpad k f x y pressure = plain s []
  on_touchpad s (some gs_id) touchpad k f x y pressure =
      plain s (map by_sensor (handle_ctouchpad s.pads gs_id touchpad k f x y pressure))

  -- The switch of `session_handle_input_event`.
  unfoldable pub dispatch : InputState → InputEvent F → Handled F
  unfolding on_axis on_button on_sensor on_touchpad
  dispatch s (key r e) =
      let ((k1, calls), remote) = handle_event o.screen s.keyboard r e in
      plain (record s { keyboard = k1 }) (map by_remote remote ++ map by_key calls)
  dispatch s (pad_axis p axis v) = on_axis s p axis v
  dispatch s (pad_button p b pressed) = on_button s p b pressed
  dispatch s (pad_sensor p k timestamp r) = on_sensor s p k timestamp r
  dispatch s (pad_touchpad p touchpad k f x y pressure) = on_touchpad s p touchpad k f x y pressure
  dispatch s (joystick e) =
      let (p1, calls) = handle_jdevice s.pads e in
      plain (record s { pads = p1 }) (map by_device calls)
  dispatch s (controller was_removed p) =
      let (p1, calls) = handle_cdevice s.pads was_removed p in
      plain (record s { pads = p1 }) (map by_device calls)
  dispatch s (mouse_motion e) =
      let (g1, calls) = handle_mmotion o.world s.gesture s.no_sdl_mouse false e in
      plain (record s { gesture = g1 }) (map by_pointer calls)
  dispatch s (mouse_wheel is_touch x y) =
      if s.pads.view_only || s.no_sdl_mouse
      then plain s []
      else plain s (map by_pointer (handle_mwheel o.world is_touch x y))
  dispatch s (mouse_press b e) =
      let (g1, calls) = handle_mbutton o.world s.gesture b e in
      if s.pads.view_only || s.no_sdl_mouse
      then plain s []
      else plain (record s { gesture = g1 }) (map by_pointer calls)
  dispatch s (text_input t) = plain s (map by_key (handle_text s.keyboard t))
  dispatch s (finger k f x y pressure) =
      plain s (map by_pointer (handle_touch s.pads.view_only k f x y pressure))
  dispatch s other_event = record {
    state = s;
    pad = none;
    sensors = none;
    calls = [];
    taken = false;
  }

  -- `session_handle_input_event`
  unfoldable pub handle_input_event : InputState → InputEvent F → Handled F
  unfolding dispatch
  handle_input_event s e =
      if not s.pads.started || o.blocked
      then record { state = s; pad = none; sensors = none; calls = []; taken = false }
      else dispatch s e
