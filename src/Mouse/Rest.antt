-- ===== src/Mouse/Rest.antt =====
-- A gamepad that comes to rest under the virtual mouse: `stream_input_handle_caxis` of
-- src/app/stream/input/session_gamepad.c on the state of
-- src/app/stream/input/session_virt_mouse.c.
use moonlight_tv.Base.{
  ℕ, List, [], ◌∷◌, Option, none, some, Bool, true, false, if◌then◌else◌, ◌≡◌, refl, ap, ◌∙◌,
  if_both,
}
use moonlight_tv.Base.Int.{ℤ, pos}
use moonlight_tv.Pads.{Session, sends_moonlight}
use moonlight_tv.Pads.Buttons.{
  PadState, Axis, Call, vmouse_state, with_axis, filter_sticks, filter_deadzone_2axis, in_deadzone,
  vmouse_intercepted, buttons_only, send_state, handle_caxis,
}
use moonlight_tv.Mouse.{VirtualMouse, deliver}

-- Every stick is in the middle and no trigger is pulled.
pub record IsAtRest (p : PadState) : Type 0 where
  pub left_x_rests : p.left_x ≡ pos 0
  pub left_y_rests : p.left_y ≡ pos 0
  pub right_x_rests : p.right_x ≡ pos 0
  pub right_y_rests : p.right_y ≡ pos 0
  pub left_trigger_rests : p.left_trigger ≡ 0
  pub right_trigger_rests : p.right_trigger ≡ 0

filtered_zero :
    (dz : ℕ) (h v : ℤ) → h ≡ pos 0 → v ≡ pos 0 → filter_deadzone_2axis dz h v ≡ (pos 0, pos 0)
unfolding filter_deadzone_2axis
filtered_zero dz h v a b =
    rw (a, b)
      (if_both (λ (q : ℤ × ℤ). q ≡ (pos 0, pos 0)) (in_deadzone dz (pos 0) (pos 0)) refl refl)

-- A gamepad at rest is not intercepted, with any dead zone.
rest_is_not_intercepted :
    (dz : ℕ) (p : PadState) → IsAtRest p → vmouse_intercepted true (filter_sticks dz p) ≡ false
unfolding vmouse_intercepted filter_sticks
rest_is_not_intercepted dz p r =
    rw
      (
        filtered_zero dz p.left_x p.left_y r.left_x_rests r.left_y_rests,
        filtered_zero dz p.right_x p.right_y r.right_x_rests r.right_y_rests,
        r.left_trigger_rests,
        r.right_trigger_rests,
      )
      refl

module _ (starts : Bool) (curve : ℤ → ℤ) (allowed : Bool) where
  send_state-deliver :
      (m : VirtualMouse) (s : Session) (p : PadState)
      → deliver starts curve allowed m (send_state s p) ≡ (m, [])
  unfolding deliver send_state
  send_state-deliver m s p =
      if_both (λ cs. deliver starts curve allowed m cs ≡ (m, [])) (sends_moonlight s p.gs_id) refl
        refl

  abbrev after_axis : ℕ → Session → PadState → Option PadState → PadState × List Call
  after_axis dz s p o = elim o [
    | none ↦ (p, [])
    | some p1 ↦
        let p2 = filter_sticks dz p1 in
        (
          p2,
          if vmouse_intercepted true p2
              then vmouse_state p2 ∷ send_state s (buttons_only p2)
              else send_state s p2,
        )
  ]

  -- While the virtual mouse is on, the event of a known axis after which every stick is in the
  -- middle and no trigger is pulled leaves the virtual mouse as it was, moving and with its
  -- buttons down, and sends the host no mouse call.
  pub handle_caxis_at_rest :
      (m : VirtualMouse) (dz : ℕ) (s : Session) (p p1 : PadState) (axis : Axis) (v : ℤ)
      → with_axis p axis v ≡ some p1
      → IsAtRest p1
      → deliver starts curve allowed m (handle_caxis true dz s p axis v).1 ≡ (m, [])
  unfolding handle_caxis
  handle_caxis_at_rest m dz s p p1 axis v e rest =
      ap (λ o. deliver starts curve allowed m (after_axis dz s p o).1) e
      ∙ ap
          (λ b. deliver starts curve allowed m (
            if b
            then vmouse_state (filter_sticks dz p1)
              ∷ send_state s (buttons_only (filter_sticks dz p1))
            else send_state s (filter_sticks dz p1)))
          (rest_is_not_intercepted dz p1 rest)
      ∙ send_state-deliver m s (filter_sticks dz p1)
