-- ===== src/Mouse/LeftButton.antt =====
-- The left button that the host sees, from the gestures and from the buttons that are passed on,
-- against the flag of the gesture: `stream_input_handle_mbutton` and `stream_input_handle_mmotion`
-- of src/app/stream/input/session_mouse.c over
-- src/app/stream/input/session_pointer_gesture.c.
use moonlight_tv.Base.{List, [], ◌∷◌, ◌++◌, Bool, true, false, not, ◌&&◌, ◌≡◌, refl, ap, ◌∙◌, arith}
use moonlight_tv.Gesture.{
  Button, left, right, other, HostCall, press, release, move_to, move_by, Gesture, World,
  ButtonEvent, MotionEvent, available, eligible,
}
use moonlight_tv.Gesture
use moonlight_tv.Gesture.Buttons.{IsGesture}
use moonlight_tv.Mouse.Pointer.{
  MouseButton, button_left, button_middle, button_right, button_x1, button_x2, button_unknown,
  PointerCall, of_gesture, mouse_button, handle_mbutton, handle_mmotion, gesture_button,
}

pub data MouseEvent : Type 0 where
  button_event : World → MouseButton → ButtonEvent → MouseEvent
  motion_event : World → Bool → Bool → MotionEvent → MouseEvent

-- What the gesture needs of an event: those of the left button reach it, which they do not where
-- the session is view-only, the host takes pen events or a mouse is in relative mode, and it is
-- not pressed again while it is held as a drag.
abbrev pub is_taken : Gesture → MouseEvent → Bool
is_taken g (button_event w button_left e) =
    available w g && (eligible w e.is_touch && not (e.pressed && g.left_down))
is_taken g _ = true

module _ {F : Type 0} where
  -- Whether the host holds the left button down after a call, and after some calls.
  abbrev pub after_call : Bool → PointerCall F → Bool
  after_call down (of_gesture (press left)) = true
  after_call down (of_gesture (release left)) = false
  after_call down (mouse_button d button_left) = d
  after_call down _ = down

  abbrev pub after_calls : Bool → List (PointerCall F) → Bool
  after_calls down [] = down
  after_calls down (c ∷ cs) = after_calls (after_call down c) cs

  unfoldable pub step : Gesture → MouseEvent → Gesture × List (PointerCall F)
  step g (button_event w b e) = handle_mbutton w g b e
  step g (motion_event w no_sdl_mouse hw_mouse e) = handle_mmotion w g no_sdl_mouse hw_mouse e

  unfoldable pub run : Gesture → List MouseEvent → Gesture × List (PointerCall F)
  run g [] = (g, [])
  run g (e ∷ es) = let (g1, calls) = step g e in let (g2, more) = run g1 es in (g2, calls ++ more)

module _ (F : Type 0) where
  button-in_step :
      (g : Gesture) (w : World) (b : MouseButton) (e : ButtonEvent)
      → g.started ≡ true
      → IsGesture g
      → is_taken g (button_event w b e) ≡ true
      → let (g1, calls) = handle_mbutton {F = F} w g b e in
        after_calls g.left_down calls ≡ g1.left_down
  unfolding handle_mbutton Gesture.handle_mbutton gesture_button
  button-in_step g w button_left e st v n = ground arith
  button-in_step g w button_middle e st v n = ground arith
  button-in_step g w button_right e st v n = ground arith
  button-in_step g w button_x1 e st v n = ground arith
  button-in_step g w button_x2 e st v n = ground arith
  button-in_step g w button_unknown e st v n = ground arith

  motion-in_step :
      (g : Gesture) (w : World) (n h : Bool) (e : MotionEvent)
      → IsGesture g
      → let (g1, calls) = handle_mmotion {F = F} w g n h e in
        after_calls g.left_down calls ≡ g1.left_down
  unfolding handle_mmotion Gesture.handle_mmotion
  motion-in_step g w n h e v = ground arith

  button-IsGesture :
      (g : Gesture) (w : World) (b : MouseButton) (e : ButtonEvent)
      → IsGesture g
      → let g1 = (handle_mbutton {F = F} w g b e).0 in IsGesture g1 × (g1.started ≡ g.started)
  unfolding handle_mbutton Gesture.handle_mbutton gesture_button
  button-IsGesture g w button_left e v = ground arith
  button-IsGesture g w button_middle e v = ground arith
  button-IsGesture g w button_right e v = ground arith
  button-IsGesture g w button_x1 e v = ground arith
  button-IsGesture g w button_x2 e v = ground arith
  button-IsGesture g w button_unknown e v = ground arith

  motion-IsGesture :
      (g : Gesture) (w : World) (n h : Bool) (e : MotionEvent)
      → IsGesture g
      → let g1 = (handle_mmotion {F = F} w g n h e).0 in IsGesture g1 × (g1.started ≡ g.started)
  unfolding handle_mmotion Gesture.handle_mmotion
  motion-IsGesture g w n h e v = ground arith

  step-IsGesture :
      (g : Gesture) (e : MouseEvent)
      → IsGesture g
      → IsGesture (step {F = F} g e).0 × ((step {F = F} g e).0.started ≡ g.started)
  unfolding step
  step-IsGesture g (button_event w b e) v = button-IsGesture g w b e v
  step-IsGesture g (motion_event w n h e) v = motion-IsGesture g w n h e v

  step-in_step :
      (g : Gesture) (e : MouseEvent)
      → g.started ≡ true
      → IsGesture g
      → is_taken g e ≡ true
      → after_calls g.left_down (step {F = F} g e).1 ≡ (step {F = F} g e).0.left_down
  unfolding step
  step-in_step g (button_event w b e) st v n = button-in_step g w b e st v n
  step-in_step g (motion_event w n h e) st v k = motion-in_step g w n h e v

  -- All left-button events of the list are taken.
  abbrev pub AllTaken : Gesture → List MouseEvent → Type 0
  AllTaken g [] = Unit {0}
  AllTaken g (e ∷ es) = (is_taken g e ≡ true) × AllTaken (step {F = F} g e).0 es

  after_calls-append :
      (down : Bool) (cs ds : List (PointerCall F))
      → after_calls down (cs ++ ds) ≡ after_calls (after_calls down cs) ds
  after_calls-append down [] ds = refl
  after_calls-append down (c ∷ cs) ds = after_calls-append (after_call down c) cs ds

  -- In a started session with a consistent gesture, over any mouse events of which those of the
  -- left button come where gestures are available and the event is eligible and are no second
  -- press during a drag, the host holds the left button at the end exactly if the flag of the
  -- gesture says so, where it did at the start; both the calls of the gestures and the buttons
  -- that are passed on count.
  pub run-in_step :
      (g : Gesture) (es : List MouseEvent)
      → g.started ≡ true
      → IsGesture g
      → AllTaken g es
      → after_calls g.left_down (run {F = F} g es).1 ≡ (run {F = F} g es).0.left_down
  unfolding run
  run-in_step g [] st v n = refl
  run-in_step g (e ∷ es) st v (n, ns) =
      let (w, same) = step-IsGesture g e v in
      let (g1, calls) = step {F = F} g e in
      after_calls-append g.left_down calls (run {F = F} g1 es).1
      ∙ ap (λ d. after_calls d (run {F = F} g1 es).1) (step-in_step g e st v n)
      ∙ run-in_step g1 es (same ∙ st) w ns
