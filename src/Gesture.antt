-- ===== src/Gesture.antt =====
-- The touch and pointer gestures of src/app/stream/input/session_pointer_gesture.c: a short press
-- is a left click, a long one a right click, and a move of ten pixels starts a drag.
pub mod Buttons
mod Examples
use moonlight_tv.Base.{
  ℕ, ◌+◌, ◌-◌, ◌*◌, ◌%◌, ◌^◌, List, [], ◌∷◌, ◌++◌, Bool, true, false, not, ◌&&◌, ◌||◌, leb, ltb,
  ◌==◌, if◌then◌else◌,
}
use moonlight_tv.Base.Int.{ℤ, pos, distance, to_short}

-- `GESTURE_LONG_PRESS_MS` and `GESTURE_DRAG_SLOP_PX`
abbrev pub long_press_ms : ℕ
long_press_ms = 1000

abbrev pub drag_slop_px : ℕ
drag_slop_px = 10

pub data Button : Type 0 where
  left right other : Button

-- A call of the streaming library.
pub data HostCall : Type 0 where
  press : Button → HostCall
  release : Button → HostCall
  move_to : ℤ → ℤ → ℤ → ℤ → HostCall
  move_by : ℤ → ℤ → HostCall

-- The gesture fields of `stream_input_t`, with those that the handlers read.
pub record Gesture : Type 0 where
  pub started : Bool
  pub view_only : Bool
  pub display_width : ℤ
  pub display_height : ℤ
  pub active : Bool
  pub dragging : Bool
  pub left_down : Bool
  pub press_time : ℕ
  pub start_x : ℤ
  pub start_y : ℤ

-- What is asked of other parts at an event: the host's pen feature, SDL's relative mouse mode, the
-- target, and `SDL_GetTicks`.
pub record World : Type 0 where
  pub host_pen_touch : Bool
  pub mouse_relative : Bool
  pub webos : Bool
  pub ticks : ℕ

-- `SDL_MouseButtonEvent`; `is_touch` is `which == SDL_TOUCH_MOUSEID`.
pub record ButtonEvent : Type 0 where
  pub button : Button
  pub pressed : Bool
  pub is_touch : Bool
  pub timestamp : ℕ
  pub x : ℤ
  pub y : ℤ

-- `SDL_MouseMotionEvent`
pub record MotionEvent : Type 0 where
  pub is_touch : Bool
  pub x : ℤ
  pub y : ℤ
  pub xrel : ℤ
  pub yrel : ℤ

unfoldable pub available : World → Gesture → Bool
available w g = not g.view_only && not w.host_pen_touch

unfoldable pub eligible : World → Bool → Bool
eligible w is_touch = is_touch || (w.webos && not w.mouse_relative)

unfoldable pub send_position : Gesture → ℤ → ℤ → HostCall
send_position g x y =
    move_to (to_short x) (to_short y) (to_short g.display_width) (to_short g.display_height)

unfoldable pub begin_drag : Gesture → ℤ → ℤ → Gesture × List HostCall
unfolding send_position
begin_drag g x y =
    (record g { dragging = true; left_down = true }, send_position g x y ∷ press left ∷ [])

unfoldable pub distance_sq : ℤ → ℤ → ℤ → ℤ → ℕ
distance_sq x0 y0 x1 y1 = distance x1 x0 * distance x1 x0 + distance y1 y0 * distance y1 y0

unfoldable pub reset : Gesture → Gesture × List HostCall
reset g = (
  record g {
    active = false;
    dragging = false;
    left_down = false;
    press_time = 0;
    start_x = pos 0;
    start_y = pos 0;
  },
  if g.started && g.left_down then release left ∷ [] else [],
)

unfoldable pub event_time : World → ℕ → ℕ
event_time w timestamp = if timestamp == 0 then w.ticks else timestamp

abbrev pub is_left : Button → Bool
is_left left = true
is_left _ = false

-- What a release sends: the end of a drag, a right click, or a left click.
unfoldable pub release_calls : Gesture → ℕ → List HostCall
release_calls g held =
    if g.dragging
    then (if g.left_down then release left ∷ [] else [])
    else if leb long_press_ms held
    then press right ∷ release right ∷ []
    else press left ∷ release left ∷ []

-- `pointer_gesture_handle_mbutton`; the flag is its result.
unfoldable pub handle_mbutton : World → Gesture → ButtonEvent → Gesture × Bool × List HostCall
unfolding available eligible event_time reset release_calls send_position
handle_mbutton w g e =
    let (g0, calls0) = reset g in
    let held : ℕ = (event_time w e.timestamp + 2 ^ 32 - g.press_time) % 2 ^ 32 in
    if not (available w g)
    then (g, false, [])
    else if not (is_left e.button)
    then (if e.pressed && g.active then (g0, false, calls0) else (g, false, []))
    else if not (eligible w e.is_touch)
    then (if g.active then (g0, false, calls0) else (g, false, []))
    else if e.pressed
    then (
      record g {
        active = true;
        dragging = false;
        left_down = false;
        press_time = event_time w e.timestamp;
        start_x = e.x;
        start_y = e.y;
      },
      true,
      [],
    )
    else if not g.active
    then (g, false, [])
    else (
      record g { active = false; dragging = false; left_down = false; press_time = 0 },
      true,
      send_position g e.x e.y ∷ release_calls g held,
    )

-- `pointer_gesture_handle_mmotion`
unfoldable pub handle_mmotion : World → Gesture → MotionEvent → Gesture × Bool × List HostCall
unfolding distance_sq begin_drag send_position
handle_mmotion w g e =
    let (g1, calls1) = begin_drag g e.x e.y in
    if not g.active || g.view_only
    then (g, false, [])
    else if w.host_pen_touch
    then (g, false, [])
    else if not g.dragging
    then (if leb (drag_slop_px * drag_slop_px) (distance_sq g.start_x g.start_y e.x e.y)
        then (g1, true, calls1)
        else (g, false, []))
    else if w.mouse_relative && not e.is_touch
    then (g, true, move_by (to_short e.xrel) (to_short e.yrel) ∷ [])
    else (g, true, send_position g e.x e.y ∷ [])
