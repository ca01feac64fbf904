-- ===== src/Mouse/Pointer.antt =====
-- The mouse and touch events of a session: src/app/stream/input/session_mouse.c and
-- src/app/stream/input/session_touch.c.
use moonlight_tv.Base.{
  ℕ, ◌-◌, ◌%◌, List, [], ◌∷◌, ◌++◌, map, Bool, true, false, not, ◌&&◌, ltb, ◌==◌, if◌then◌else◌,
}
use moonlight_tv.Base.Int.{ℤ, pos, negsuc, to_short}
use moonlight_tv.Gesture.{
  Button, left, right, other, HostCall, move_by, Gesture, World, ButtonEvent, MotionEvent,
  send_position,
}
use moonlight_tv.Gesture
use moonlight_tv.Pads.Buttons.{magnitude}

-- `SDL_BUTTON_*`
pub data MouseButton : Type 0 where
  button_left button_middle button_right button_x1 button_x2 button_unknown : MouseButton

pub data TouchKind : Type 0 where
  finger_down finger_up finger_motion finger_unknown : TouchKind

-- A call of the streaming library; the coordinates and the pressure of a touch are SDL's numbers,
-- which are passed on as they are.
pub data PointerCall (F : Type 0) : Type 0 where
  of_gesture : HostCall → PointerCall F
  mouse_button : Bool → MouseButton → PointerCall F
  scroll hscroll : ℤ → PointerCall F
  touch : TouchKind → ℕ → F → F → F → PointerCall F

unfoldable pub gesture_button : MouseButton → Button
gesture_button button_left = left
gesture_button button_right = right
gesture_button _ = other

abbrev pub is_known : MouseButton → Bool
is_known button_unknown = false
is_known _ = true

-- `(signed char)`
unfoldable pub to_char : ℤ → ℤ
to_char (pos n) = let u : ℕ = n % 256 in if ltb u 128 then pos u else negsuc (255 - u)
to_char (negsuc n) = let u : ℕ = 255 - n % 256 in if ltb u 128 then pos u else negsuc (255 - u)

module _ {F : Type 0} where
  abbrev pub sent : List HostCall → List (PointerCall F)
  sent cs = map of_gesture cs

  -- `stream_input_handle_mbutton`; the button of the gesture's event is that of the mouse.
  unfoldable pub handle_mbutton :
      World → Gesture → MouseButton → ButtonEvent → Gesture × List (PointerCall F)
  unfolding gesture_button
  handle_mbutton w g b e =
      let (g1, taken, calls) =
        Gesture.handle_mbutton w g (record e { button = gesture_button b }) in
      let press : List (PointerCall F) = mouse_button e.pressed b ∷ [] in
      if taken
      then (g1, sent calls)
      else if not (is_known b)
      then (g1, sent calls)
      else if not e.is_touch
      then (g1, sent calls ++ press)
      else if w.host_pen_touch
      then (g1, sent calls)
      else (g1, sent calls ++ (of_gesture (send_position g1 e.x e.y) ∷ press))

  -- `stream_input_handle_mwheel`
  unfoldable pub handle_mwheel : World → Bool → ℤ → ℤ → List (PointerCall F)
  unfolding to_char
  handle_mwheel w is_touch x y =
      let vertical : List (PointerCall F) =
        if magnitude y == 0 then [] else scroll (to_char y) ∷ [] in
      let horizontal : List (PointerCall F) =
        if magnitude x == 0 then [] else hscroll (to_char x) ∷ [] in
      if is_touch && w.host_pen_touch then [] else vertical ++ horizontal

  -- `stream_input_handle_mmotion`
  unfoldable pub handle_mmotion :
      World → Gesture → Bool → Bool → MotionEvent → Gesture × List (PointerCall F)
  handle_mmotion w g no_sdl_mouse hw_mouse e =
      let (g1, taken, calls) = Gesture.handle_mmotion w g e in
      let by : PointerCall F = of_gesture (move_by (to_short e.xrel) (to_short e.yrel)) in
      if g.view_only
      then (g, [])
      else if e.is_touch && w.host_pen_touch
      then (g, [])
      else if taken
      then (g1, sent calls)
      else if no_sdl_mouse
      then (if hw_mouse then (g1, sent calls ++ (by ∷ [])) else (g1, sent calls))
      else if w.mouse_relative && not e.is_touch
      then (g1, sent calls ++ (by ∷ []))
      else (g1, sent calls ++ (of_gesture (send_position g1 e.x e.y) ∷ []))

  -- `stream_input_handle_touch`
  unfoldable pub handle_touch : Bool → TouchKind → ℕ → F → F → F → List (PointerCall F)
  handle_touch view_only finger_unknown finger x y pressure = []
  handle_touch view_only k finger x y pressure =
      if view_only then [] else touch k finger x y pressure ∷ []
