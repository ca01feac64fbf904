-- ===== src/Input/Pads.antt =====
-- Gamepads, touch and the mouse of a view-only session, with the virtual mouse off:
-- src/app/stream/input/session_gamepad.c, src/app/stream/input/session_mouse.c and
-- src/app/stream/input/session_touch.c.
use moonlight_tv.Base.{
  ℕ, List, [], ◌∷◌, Option, none, some, Bool, true, false, not, if◌then◌else◌, ◌≡◌, refl, ap,
  if_both, then_of,
}
use moonlight_tv.Base.Int.{ℤ}
use moonlight_tv.Gesture.{Gesture, World, MotionEvent}
use moonlight_tv.Pads.{
  Pad, Session, JoyEvent, added_unknown, added, removed, send_unannounced, handle_jdevice,
  handle_cdevice, sends_moonlight,
}
use moonlight_tv.Pads.Buttons.{
  PadState, Call, Axis, multi_controller, with_axis, filter_sticks, vmouse_intercepted, send_state,
  handle_caxis,
}
use moonlight_tv.Pads.Sensors.{
  Reading, Sensors, Sensor, sensor_accel, sensor_gyro, sensor_unknown, PadTouch, touch_down,
  touch_up, touch_move, touch_unknown, SensorCall, handle_csensor, handle_ctouchpad,
}
use moonlight_tv.Mouse.Pointer.{
  TouchKind, finger_down, finger_up, finger_motion, finger_unknown, handle_mmotion, handle_touch,
}

pub unsent : (s : Session) (k : ℕ) → s.view_only ≡ true → sends_moonlight s k ≡ false
unfolding sends_moonlight
unsent s k v = then_of (λ b. b ≡ false) s.view_only _ v refl

-- With the mouse off, an axis event of a gamepad that the host is not to hear of calls nothing.
pub caxis_none :
    (dz : ℕ) (s : Session) (p : PadState) (axis : Axis) (v : ℤ)
    → s.view_only ≡ true
    → (handle_caxis false dz s p axis v).1 ≡ []
unfolding handle_caxis vmouse_intercepted send_state
caxis_none dz s p axis v e = go (with_axis p axis v)
  where
    go :
        (o : Option PadState)
        → (elim o as (λ _. PadState × List Call) [
          | none ↦ (p, [])
          | some p1 ↦ (
            filter_sticks dz p1,
            if sends_moonlight s (filter_sticks dz p1).gs_id
                then multi_controller
                    (filter_sticks dz p1).gs_id
                    s.active_mask
                    (filter_sticks dz p1)
                  ∷ []
                else [],
          )
        ]).1
          ≡ []
    go none = refl
    go (some p1) =
        ap
          (λ b.
            if b
            then multi_controller (filter_sticks dz p1).gs_id s.active_mask (filter_sticks dz p1)
              ∷ []
            else [])
          (unsent s (filter_sticks dz p1).gs_id e)

pub jdevice_view : (s : Session) (e : JoyEvent) → s.view_only ≡ true → handle_jdevice s e ≡ (s, [])
unfolding handle_jdevice send_unannounced
jdevice_view s (added_unknown ps) v = then_of (λ r. r ≡ (s, [])) s.view_only _ v refl
jdevice_view s (added none a) v = refl
jdevice_view s (added (some p) a) v = then_of (λ r. r ≡ (s, [])) s.view_only _ v refl
jdevice_view s (removed none) v = refl
jdevice_view s (removed (some p)) v = then_of (λ r. r ≡ (s, [])) s.view_only _ v refl

pub cdevice_view :
    (s : Session) (r : Bool) (p : Option Pad) → s.view_only ≡ true → handle_cdevice s r p ≡ (s, [])
unfolding handle_cdevice
cdevice_view s r none v = refl
cdevice_view s r (some p) v =
    if_both (λ q. q ≡ (s, [])) (not r) refl
      (then_of (λ q. q ≡ (s, [])) (not (sends_moonlight s p.gs_id)) _ (ap not (unsent s p.gs_id v))
        refl)

pub mmotion_view :
    {F : Type 0} (w : World) (g : Gesture) (no_sdl : Bool) (e : MotionEvent)
    → g.view_only ≡ true
    → handle_mmotion {F = F} w g no_sdl false e ≡ (g, [])
unfolding handle_mmotion
mmotion_view w g no_sdl e v = then_of (λ r. r ≡ (g, [])) g.view_only _ v refl

pub touch_view :
    {F : Type 0} (view_only : Bool) (k : TouchKind) (f : ℕ) (x y pressure : F)
    → view_only ≡ true
    → handle_touch view_only k f x y pressure ≡ []
unfolding handle_touch
touch_view b finger_unknown f x y pressure v = refl
touch_view b finger_down f x y pressure v = then_of (λ r. r ≡ []) b _ v refl
touch_view b finger_up f x y pressure v = then_of (λ r. r ≡ []) b _ v refl
touch_view b finger_motion f x y pressure v = then_of (λ r. r ≡ []) b _ v refl

pub csensor_none :
    {F : Type 0} (same : F → F → Bool) (to_degrees : F → F) (s : Session) (gs_id : ℕ)
    (t : Sensors F) (k : Sensor) (ts : ℕ) (r : Reading F)
    → s.view_only ≡ true
    → (handle_csensor same to_degrees s gs_id t k ts r).1 ≡ []
unfolding handle_csensor
csensor_none {F} same deg s gs_id t sensor_unknown ts r v = refl
csensor_none {F} same deg s gs_id t sensor_accel ts r v =
    then_of {A = Sensors F × List (SensorCall F)} (λ q. q.1 ≡ []) (not (sends_moonlight s gs_id)) _
      (ap not (unsent s gs_id v)) refl
csensor_none {F} same deg s gs_id t sensor_gyro ts r v =
    then_of {A = Sensors F × List (SensorCall F)} (λ q. q.1 ≡ []) (not (sends_moonlight s gs_id)) _
      (ap not (unsent s gs_id v)) refl

pub ctouchpad_none :
    {F : Type 0} (s : Session) (gs_id touchpad : ℕ) (k : PadTouch) (f : ℕ) (x y pressure : F)
    → s.view_only ≡ true
    → handle_ctouchpad s gs_id touchpad k f x y pressure ≡ []
unfolding handle_ctouchpad
ctouchpad_none s gs_id touchpad touch_unknown f x y pressure v = refl
ctouchpad_none s gs_id touchpad touch_down f x y pressure v =
    then_of (λ q. q ≡ []) (not (sends_moonlight s gs_id)) _ (ap not (unsent s gs_id v)) refl
ctouchpad_none s gs_id touchpad touch_up f x y pressure v =
    then_of (λ q. q ≡ []) (not (sends_moonlight s gs_id)) _ (ap not (unsent s gs_id v)) refl
ctouchpad_none s gs_id touchpad touch_move f x y pressure v =
    then_of (λ q. q ≡ []) (not (sends_moonlight s gs_id)) _ (ap not (unsent s gs_id v)) refl
