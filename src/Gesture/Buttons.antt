-- ===== src/Gesture/Buttons.antt =====
-- The left button that the host sees, against the flag that the program keeps.
use moonlight_tv.Base.{
  ℕ, ◌+◌, ◌-◌, ◌%◌, ◌^◌, List, [], ◌∷◌, ◌++◌, Bool, true, false, ◌&&◌, leb, if◌then◌else◌, ◌≡◌,
  arith,
}
use moonlight_tv.Gesture.{
  left, right, HostCall, press, release, Gesture, World, ButtonEvent, MotionEvent, available,
  eligible, event_time, reset, is_left, handle_mbutton, long_press_ms, send_position,
}

-- Whether the host holds the left button down after a call, and after a list of calls.
abbrev pub after_call : Bool → HostCall → Bool
after_call down (press left) = true
after_call down (release left) = false
after_call down _ = down

abbrev pub after_calls : Bool → List HostCall → Bool
after_calls down [] = down
after_calls down (c ∷ cs) = after_calls (after_call down c) cs

pub record IsGesture (g : Gesture) : Type 0 where
  pub down_drags : g.left_down ≡ true → g.dragging ≡ true
  pub drag_active : g.dragging ≡ true → g.active ≡ true

pub data PointerEvent : Type 0 where
  button_event : World → ButtonEvent → PointerEvent
  motion_event : World → MotionEvent → PointerEvent

-- A second press of the left button arrives while the first is held as a drag.
abbrev pub presses_again : Gesture → PointerEvent → Bool
presses_again g (button_event w e) = e.pressed && (is_left e.button && g.left_down)
presses_again g (motion_event w e) = false

-- Where gestures are available, a second eligible press during a drag loses the button: neither
-- the press nor the reset that ends the gesture releases the button that the host still holds.
pub press_again_sticks :
    (w : World) (g : Gesture) (e : ButtonEvent)
    → available w g ≡ true
    → eligible w e.is_touch ≡ true
    → presses_again g (button_event w e) ≡ true
    → let (g1, handled, calls) = handle_mbutton w g e in
      after_calls g.left_down (calls ++ (reset g1).1) ≡ true
unfolding handle_mbutton reset
press_again_sticks w g e a el p = ground arith

-- Where gestures are available, an eligible press and release of the left button without an event
-- between: the host gets the position and one click, right if the button was held a second or
-- longer and left otherwise, by timestamps that may wrap; the gesture is over.
pub click_lem :
    (w : World) (g : Gesture) (down up : ButtonEvent)
    → available w g ≡ true
    → eligible w down.is_touch ≡ true
    → eligible w up.is_touch ≡ true
    → down.button ≡ left
    → up.button ≡ left
    → down.pressed ≡ true
    → up.pressed ≡ false
    → let g1 = (handle_mbutton w g down).0 in
      let (g2, handled, calls) = handle_mbutton w g1 up in
      let held : ℕ = (event_time w up.timestamp + 2 ^ 32 - event_time w down.timestamp) % 2 ^ 32 in
      let b = if leb long_press_ms held then right else left in
      (calls ≡ send_position g up.x up.y ∷ press b ∷ release b ∷ []) × (g2.active ≡ false)
unfolding handle_mbutton
click_lem w g down up a e1 e2 b1 b2 p1 p2 = ground arith
