-- ===== src/Input/Off.antt =====
-- The virtual mouse while it is off: src/app/stream/input/session_virt_mouse.c.
use moonlight_tv.Base.{List, [], ◌∷◌, ◌++◌, Bool, false, ◌≡◌, refl, ap, ap₂, ◌∙◌, if_both}
use moonlight_tv.Base.Int.{ℤ, pos}
use moonlight_tv.Gesture.{HostCall, left, right}
use moonlight_tv.Pads.Buttons.{
  Flag, SdlButton, PadState, Combos, Call, Axis, multi_controller, open_soft_keyboard,
  toggle_stats_pin, toggle_vmouse, vmouse_modifier, vmouse_state, with_axis, filter_sticks, capped,
  negated, vmouse_intercepted, send_state, handle_cbutton, handle_caxis,
}
use moonlight_tv.Pads.Buttons
use moonlight_tv.Pads.Buttons.Silence.{Silent}
use moonlight_tv.Mouse.{
  VirtualMouse, button_calls, calc_mouse_movement, calc_scroll_delta, moves, update_timer,
  set_vector, set_scroll, set_trigger, set_active, toggle, deliver,
}

-- A virtual mouse that is off, with no button down.
pub record IsOff (v : VirtualMouse) : Type 0 where
  pub off : v.active ≡ false
  pub no_left : v.l ≡ false
  pub no_right : v.r ≡ false

-- The mouse stays off, and no call of it goes out.
abbrev pub MouseQuiet : VirtualMouse × List HostCall → Type 0
MouseQuiet r = IsOff r.0 × (r.1 ≡ [])

-- The switch and the buttons are as they were.
abbrev SameButtons : VirtualMouse → VirtualMouse → Type 0
SameButtons v u = (u.active ≡ v.active) × (u.l ≡ v.l) × (u.r ≡ v.r)

module _ (starts : Bool) (curve : ℤ → ℤ) where
  timer-SameButtons : (v : VirtualMouse) → SameButtons v (update_timer starts curve v)
  unfolding update_timer
  timer-SameButtons v =
      if_both (SameButtons v) (moves v)
        (if_both (SameButtons v) v.timer (refl, refl, refl) (refl, refl, refl))
        (if_both (SameButtons v) v.timer (refl, refl, refl) (refl, refl, refl))

  vector-SameButtons : (v : VirtualMouse) (x y : ℤ) → SameButtons v (set_vector starts curve v x y)
  unfolding set_vector
  vector-SameButtons v x y =
      timer-SameButtons
        (record v { x = calc_mouse_movement x; y = calc_mouse_movement (negated (capped y)) })

  scroll-SameButtons : (v : VirtualMouse) (x y : ℤ) → SameButtons v (set_scroll starts curve v x y)
  unfolding set_scroll
  scroll-SameButtons v x y = timer-SameButtons (record v {
    scroll_x = calc_scroll_delta starts curve x;
    scroll_y = calc_scroll_delta starts curve y;
  })

  off-MouseQuiet : (v : VirtualMouse) → IsOff v → MouseQuiet (set_active starts curve v false)
  unfolding set_active set_trigger
  off-MouseQuiet v h =
      let v1 : VirtualMouse = record v { active = false } in
      let z : ℤ = pos 0 in
      let a = vector-SameButtons v1 z z in
      let b = scroll-SameButtons (set_vector starts curve v1 z z) z z in
      (
        record { off = b.0 ∙ a.0; no_left = refl; no_right = refl },
        ap₂ (λ l r. button_calls left l false ++ button_calls right r false) (b.1 ∙ a.1 ∙ h.no_left)
            (b.2 ∙ a.2 ∙ h.no_right),
      )

  pub deliver-MouseQuiet :
      (v : VirtualMouse) (cs : List Call)
      → IsOff v
      → Silent cs
      → MouseQuiet (deliver starts curve false v cs)
  unfolding deliver toggle
  deliver-MouseQuiet v [] h q = (h, refl)
  deliver-MouseQuiet v (multi_controller i m p ∷ cs) h q = elim q [ ]
  deliver-MouseQuiet v (vmouse_state p ∷ cs) h q = elim q [ ]
  deliver-MouseQuiet v (toggle_vmouse ∷ cs) h q =
      let a = off-MouseQuiet v h in
      let b = deliver-MouseQuiet (set_active starts curve v false).0 cs a.0 q in
      (
        b.0,
        ap (λ t. t ++ (deliver starts curve false (set_active starts curve v false).0 cs).1) a.1
            ∙ b.1,
      )
  deliver-MouseQuiet v (Buttons.open_overlay ∷ cs) h q = deliver-MouseQuiet v cs h q
  deliver-MouseQuiet v (open_soft_keyboard ∷ cs) h q = deliver-MouseQuiet v cs h q
  deliver-MouseQuiet v (toggle_stats_pin ∷ cs) h q = deliver-MouseQuiet v cs h q
  deliver-MouseQuiet v (vmouse_modifier b ∷ cs) h q = deliver-MouseQuiet v cs h q
