-- ===== src/Mouse/Follow.antt =====
-- The timer of the virtual mouse and the host's view of its buttons:
-- src/app/stream/input/session_virt_mouse.c.
use moonlight_tv.Base.{
  ℕ, List, [], ◌∷◌, ◌++◌, Bool, true, false, if◌then◌else◌, ◌≡◌, refl, sym, subst, ap, ◌∙◌, arith,
}
use moonlight_tv.Base.Int.{ℤ, pos}
use moonlight_tv.Gesture.{Button, left, right, other, HostCall, press, release, move_to, move_by}
use moonlight_tv.Pads.Buttons.{PadState, capped, negated}
use moonlight_tv.Mouse.{
  VirtualMouse, calc_mouse_movement, is_rest, moves, is_down, button_calls, set_trigger,
  update_timer, set_vector, calc_scroll_delta, set_scroll, set_active, take_state,
}

abbrev same_button : Button → Button → Bool
same_button left left = true
same_button right right = true
same_button other other = true
same_button _ _ = false

-- Whether the host holds a button after some calls, if `down` was so before.
abbrev pub held_after : Button → Bool → List HostCall → Bool
held_after b down [] = down
held_after b down (press x ∷ cs) = held_after b (if same_button b x then true else down) cs
held_after b down (release x ∷ cs) = held_after b (if same_button b x then false else down) cs
held_after b down (_ ∷ cs) = held_after b down cs

held_after-append :
    (b : Button) (cs ds : List HostCall) (down : Bool)
    → held_after b down (cs ++ ds) ≡ held_after b (held_after b down cs) ds
held_after-append b [] ds down = refl
held_after-append b (press x ∷ cs) ds down =
    held_after-append b cs ds (if same_button b x then true else down)
held_after-append b (release x ∷ cs) ds down =
    held_after-append b cs ds (if same_button b x then false else down)
held_after-append b (move_to _ _ _ _ ∷ cs) ds down = held_after-append b cs ds down
held_after-append b (move_by _ _ ∷ cs) ds down = held_after-append b cs ds down

left_after :
    (a b c d : Bool) → held_after left a (button_calls left a b ++ button_calls right c d) ≡ b
left_after a b c d = ground arith

right_after :
    (a b c d : Bool) → held_after right c (button_calls left a b ++ button_calls right c d) ≡ d
right_after a b c d = ground arith

-- The host holds the buttons of the mouse, and the timer runs exactly if the mouse moves.
pub record IsInStep (held_left held_right : Bool) (v : VirtualMouse) : Type 0 where
  pub on_left : held_left ≡ v.l
  pub on_right : held_right ≡ v.r
  pub timed : v.timer ≡ moves v

-- What happens to the mouse: a gamepad's state, or the switch.
pub data MouseEvent : Type 0 where
  pad_state : PadState → MouseEvent
  switched : Bool → MouseEvent

-- No motion, no button, no timer.
abbrev pub IsStill : VirtualMouse → Type 0
IsStill v = (moves v ≡ false) × (v.timer ≡ false) × (v.l ≡ false) × (v.r ≡ false)

abbrev with_timer : VirtualMouse → Bool → VirtualMouse
with_timer v t = record v { timer = t }

moves-timer : (v : VirtualMouse) (t : Bool) → moves (with_timer v t) ≡ moves v
unfolding moves
moves-timer v t = refl

module _ (curve : ℤ → ℤ) where
  unfoldable pub step : VirtualMouse → MouseEvent → VirtualMouse × List HostCall
  step v (pad_state p) = take_state true curve v p
  step v (switched on) = set_active true curve v on

  unfoldable pub run : VirtualMouse → List MouseEvent → VirtualMouse × List HostCall
  unfolding step
  run v [] = (v, [])
  run v (e ∷ es) =
      let (v1, calls1) = step v e in let (v2, calls2) = run v1 es in (v2, calls1 ++ calls2)

  -- After a step the state and the host agree, if they did before.
  abbrev pub Follows : VirtualMouse → VirtualMouse × List HostCall → Type 0
  Follows v r = IsInStep (held_after left v.l r.1) (held_after right v.r r.1) r.0

  -- The update sets the timer as the motion asks, and nothing else.
  update_timer_as : (v : VirtualMouse) → update_timer true curve v ≡ with_timer v (moves v)
  unfolding update_timer
  update_timer_as v = pick (moves v) v.timer refl
    where
      pick :
          (b t : Bool)
          → v.timer ≡ t
          → (if b
              then (if t then v else with_timer v true)
              else if t
              then with_timer v false
              else v)
            ≡ with_timer v b
      pick true true e = ap (with_timer v) e
      pick true false e = refl
      pick false true e = refl
      pick false false e = ap (with_timer v) e

  scroll-timed :
      (v : VirtualMouse) (ax ay : ℤ)
      → (set_scroll true curve v ax ay).timer ≡ moves (set_scroll true curve v ax ay)
  unfolding set_scroll
  scroll-timed v ax ay =
      let v1 : VirtualMouse = record v {
        scroll_x = calc_scroll_delta true curve ax;
        scroll_y = calc_scroll_delta true curve ay;
      } in
      subst (λ u. u.timer ≡ moves u) (sym (update_timer_as v1)) (sym (moves-timer v1 (moves v1)))

  abbrev moved : VirtualMouse → ℤ → ℤ → ℤ → ℤ → VirtualMouse
  moved v x y sx sy = set_scroll true curve (set_vector true curve v x y) sx sy

  abbrev aimed : VirtualMouse → ℤ → ℤ → VirtualMouse
  aimed v x y = record v { x = calc_mouse_movement x; y = calc_mouse_movement (negated (capped y)) }

  abbrev scrolled : VirtualMouse → ℤ → ℤ → VirtualMouse
  scrolled v x y = record v {
    scroll_x = calc_scroll_delta true curve x;
    scroll_y = calc_scroll_delta true curve y;
  }

  moved_as :
      (v : VirtualMouse) (x y sx sy : ℤ)
      → moved v x y sx sy
        ≡ with_timer
            (scrolled (with_timer (aimed v x y) (moves (aimed v x y))) sx sy)
            (moves (scrolled (aimed v x y) sx sy))
  unfolding set_scroll set_vector moves
  moved_as v x y sx sy =
      update_timer_as (scrolled (set_vector true curve v x y) sx sy)
      ∙ ap (λ w. with_timer (scrolled w sx sy) (moves (scrolled w sx sy)))
          (update_timer_as (aimed v x y))

  set_trigger-Follows :
      (v : VirtualMouse) (tl tr : ℕ) → v.timer ≡ moves v → Follows v (set_trigger v tl tr)
  unfolding set_trigger moves
  set_trigger-Follows v tl tr h = record {
    on_left = left_after v.l (is_down tl) v.r (is_down tr);
    on_right = right_after v.l (is_down tl) v.r (is_down tr);
    timed = h;
  }

  moved-timed :
      (v : VirtualMouse) (x y sx sy : ℤ) → (moved v x y sx sy).timer ≡ moves (moved v x y sx sy)
  moved-timed v x y sx sy = scroll-timed (set_vector true curve v x y) sx sy

  moves-again :
      (v : VirtualMouse) (x y sx sy : ℤ)
      → moves (
          with_timer
            (scrolled (with_timer (aimed v x y) (moves (aimed v x y))) sx sy)
            (moves (scrolled (aimed v x y) sx sy)))
        ≡ moves (scrolled (aimed v x y) sx sy)
  unfolding moves
  moves-again v x y sx sy = refl

  rest-still :
      (v : VirtualMouse) → moves (scrolled (aimed v (pos 0) (pos 0)) (pos 0) (pos 0)) ≡ false
  unfolding moves calc_mouse_movement calc_scroll_delta negated capped is_rest
  rest-still v = refl

  rest-timer : (v : VirtualMouse) → (moved v (pos 0) (pos 0) (pos 0) (pos 0)).timer ≡ false
  rest-timer v = ap (λ u. u.timer) (moved_as v (pos 0) (pos 0) (pos 0) (pos 0)) ∙ rest-still v

  -- The buttons after a move, for any triggers.
  moved-Follows :
      (v : VirtualMouse) (x y sx sy : ℤ) (tl tr : ℕ)
      → Follows v (set_trigger (moved v x y sx sy) tl tr)
  moved-Follows v x y sx sy tl tr =
      subst (λ u. Follows v (set_trigger u tl tr)) (sym (moved_as v x y sx sy))
        (set_trigger-Follows
          (with_timer (scrolled (with_timer (aimed v x y) (moves (aimed v x y))) sx sy)
            (moves (scrolled (aimed v x y) sx sy)))
          tl tr (sym (moves-again v x y sx sy)))

  step-Follows : (v : VirtualMouse) (e : MouseEvent) → v.timer ≡ moves v → Follows v (step v e)
  unfolding step take_state set_active moves
  step-Follows v (pad_state p) h =
      moved-Follows v p.right_x p.right_y p.left_x p.left_y p.left_trigger p.right_trigger
  step-Follows v (switched true) h = record { on_left = refl; on_right = refl; timed = h }
  step-Follows v (switched false) h =
      moved-Follows (record v { active = false }) (pos 0) (pos 0) (pos 0) (pos 0) 0 0

  run-Follows : (v : VirtualMouse) (es : List MouseEvent) → v.timer ≡ moves v → Follows v (run v es)
  unfolding run
  run-Follows v [] h = record { on_left = refl; on_right = refl; timed = h }
  run-Follows v (e ∷ es) h =
      let r = step v e in
      let first = step-Follows v e h in
      let rest = run-Follows r.0 es first.timed in
      record {
        on_left =
            held_after-append left r.1 (run r.0 es).1 v.l
            ∙ ap (λ d. held_after left d (run r.0 es).1) first.on_left
            ∙ rest.on_left;
        on_right =
            held_after-append right r.1 (run r.0 es).1 v.r
            ∙ ap (λ d. held_after right d (run r.0 es).1) first.on_right
            ∙ rest.on_right;
        timed = rest.timed;
      }

  off-IsStill : (v : VirtualMouse) → IsStill (set_active true curve v false).0
  unfolding set_active set_trigger moves
  off-IsStill v =
      let u : VirtualMouse = record v { active = false } in
      let z : ℤ = pos 0 in (sym (moved-timed u z z z z) ∙ rest-timer u, rest-timer u, refl, refl)

  -- If the timer of the virtual mouse runs exactly if the mouse moves, and SDL can start timers,
  -- then after any states of the gamepad and any switching the host holds the buttons that the
  -- mouse has down, where it did at the start, and the timer runs exactly if the mouse moves;
  -- switched off then, it has no motion, no timer and no button down.
  pub run-IsInStep :
      (v : VirtualMouse) (es : List MouseEvent)
      → v.timer ≡ moves v
      → (held_after left v.l (run v es).1 ≡ (run v es).0.l)
        × (held_after right v.r (run v es).1 ≡ (run v es).0.r)
        × ((run v es).0.timer ≡ moves (run v es).0)
        × IsStill (set_active true curve (run v es).0 false).0
  run-IsInStep v es h =
      let f = run-Follows v es h in (f.on_left, f.on_right, f.timed, off-IsStill (run v es).0)
