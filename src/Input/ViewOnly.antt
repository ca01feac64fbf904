-- ===== src/Input/ViewOnly.antt =====
-- What a view-only session sends: src/app/stream/session_events.c and the handlers that it calls.
use moonlight_tv.Base.{
  ℕ, zero, List, [], ◌∷◌, ◌++◌, map, Option, none, some, Bool, true, false, not, ◌||◌,
  if◌then◌else◌, ◌≡◌, sym, subst, ap, ap₂, ◌∙◌, if_both, then_of,
}
use moonlight_tv.Base.Int.{ℤ, pos}
use moonlight_tv.Keyboard.{KeyCall, send_text, handle_text}
use moonlight_tv.Pads.Buttons.{SdlButton, PadState, Call, Axis, handle_cbutton, handle_caxis}
use moonlight_tv.Pads.Buttons.Silence.{Silent, handle_cbutton-Silent}
use moonlight_tv.Mouse.{deliver}
use moonlight_tv.Pads.Sensors.{Reading, Sensors, Sensor, PadTouch}
use moonlight_tv.Input.{
  key, pad_axis, pad_button, pad_sensor, pad_touchpad, joystick, controller, mouse_motion,
  mouse_wheel, mouse_press, finger, other_event, plain, InputState, InputEvent, OutCall, by_key,
  by_remote, by_pad, by_mouse, by_device, by_sensor, by_pointer, Handled, Outside, text_input,
  on_axis, on_button, on_sensor, on_touchpad, dispatch, handle_input_event,
}
use moonlight_tv.Input.Keys.{handle_event-KeyQuiet}
use moonlight_tv.Input.Pads.{
  unsent, caxis_none, jdevice_view, cdevice_view, mmotion_view, touch_view, csensor_none,
  ctouchpad_none,
}
use moonlight_tv.Input.Off.{IsOff, MouseQuiet, deliver-MouseQuiet}
use moonlight_tv.Input.Sent.{
  NothingSent, NothingSent-append, remote-NothingSent, keys-NothingSent, pads-NothingSent,
}
use moonlight_tv.Keyboard.Remote.{handle_event}

-- A state of a view-only session.
pub record IsViewOnly (s : InputState) : Type 0 where
  pub of_pads : s.pads.view_only ≡ true
  pub of_keyboard : s.keyboard.view_only ≡ true
  pub of_gesture : s.gesture.view_only ≡ true
  pub of_mouse : IsOff s.mouse

-- A session that is view-only still, after an event at which nothing goes to the host.
abbrev pub Kept : {F : Type 0} → Handled F → Type 0
Kept {F} r = IsViewOnly r.state × NothingSent F r.calls

abbrev pub is_text : {F : Type 0} → InputEvent F → Bool
is_text (text_input t) = true
is_text _ = false

-- No event of the list is a text.
abbrev pub NoText : {F : Type 0} → List (InputEvent F) → Type 0
NoText [] = Unit {0}
NoText (e ∷ es) = (is_text e ≡ false) × NoText es

-- What a session does with an event that it does not accept, and a text with this count of keys.
abbrev shut : {F : Type 0} → InputState → Handled F
shut s = record { state = s; pad = none; sensors = none; calls = []; taken = false }

abbrev text_when : List ℕ → ℤ → List KeyCall
text_when t z = elim z [ pos zero ↦ send_text t ∷ [] | _ ↦ [] ]

module _ {F : Type 0} (o : Outside F) where
  axis-Kept :
      (s : InputState) (p : Option PadState) (axis : Axis) (v : ℤ)
      → IsViewOnly s
      → Kept (on_axis o s p axis v)
  unfolding on_axis deliver
  axis-Kept s none axis v h = (h, tt)
  axis-Kept s (some p) axis v h =
      subst
        (λ cs.
          IsViewOnly (record s { mouse = (deliver o.starts o.curve o.vmouse_allowed s.mouse cs).0 })
          × NothingSent F (
              map by_mouse (deliver o.starts o.curve o.vmouse_allowed s.mouse cs).1
              ++ map by_pad cs))
        (sym none_called) (h, tt)
    where
      none_called : (handle_caxis s.mouse.active s.stick_deadzone s.pads p axis v).1 ≡ []
      none_called =
          ap (λ b. (handle_caxis b s.stick_deadzone s.pads p axis v).1) h.of_mouse.off
          ∙ caxis_none s.stick_deadzone s.pads p axis v h.of_pads

  button-Kept :
      (s : InputState) (p : Option PadState) (b : SdlButton) (d : Bool)
      → o.vmouse_allowed ≡ false
      → IsViewOnly s
      → Kept (on_button o s p b d)
  unfolding on_button
  button-Kept s none b d n h = (h, tt)
  button-Kept s (some p) b d n h = (
    record {
      of_pads = h.of_pads;
      of_keyboard = h.of_keyboard;
      of_gesture = h.of_gesture;
      of_mouse = mouse_quiet.0;
    },
    subst (λ hs. NothingSent F (map by_mouse hs ++ map by_pad calls)) (sym mouse_quiet.1)
        (pads-NothingSent F calls silent),
  )
    where
      calls : List Call
      calls = (handle_cbutton o.bit s.swap_abxy s.pads s.combos p b d).2

      silent : Silent calls
      silent =
          handle_cbutton-Silent o.bit s.swap_abxy s.pads s.combos p b d
            (unsent s.pads p.gs_id h.of_pads)

      mouse_quiet : MouseQuiet (deliver o.starts o.curve o.vmouse_allowed s.mouse calls)
      mouse_quiet =
          subst (λ a. MouseQuiet (deliver o.starts o.curve a s.mouse calls)) (sym n)
            (deliver-MouseQuiet o.starts o.curve s.mouse calls h.of_mouse silent)

  sensor-Kept :
      (s : InputState) (p : Option (ℕ × Sensors F)) (k : Sensor) (ts : ℕ) (r : Reading F)
      → IsViewOnly s
      → Kept (on_sensor o s p k ts r)
  unfolding on_sensor
  sensor-Kept s none k ts r h = (h, tt)
  sensor-Kept s (some (gs_id, t)) k ts r h = (
    h,
    subst (λ cs. NothingSent F (map by_sensor cs))
        (sym (csensor_none o.same o.to_degrees s.pads gs_id t k ts r h.of_pads)) tt,
  )

  touchpad-Kept :
      (s : InputState) (p : Option ℕ) (touchpad : ℕ) (k : PadTouch) (f : ℕ) (x y pressure : F)
      → IsViewOnly s
      → Kept (on_touchpad o s p touchpad k f x y pressure)
  unfolding on_touchpad
  touchpad-Kept s none touchpad k f x y pressure h = (h, tt)
  touchpad-Kept s (some gs_id) touchpad k f x y pressure h = (
    h,
    subst (λ cs. NothingSent F (map by_sensor cs))
        (sym (ctouchpad_none s.pads gs_id touchpad k f x y pressure h.of_pads)) tt,
  )

  barred : (s : InputState) → s.pads.view_only ≡ true → (s.pads.view_only || s.no_sdl_mouse) ≡ true
  barred s v = ap (λ b. b || s.no_sdl_mouse) v

  dispatch-Kept :
      (s : InputState) (e : InputEvent F)
      → o.vmouse_allowed ≡ false
      → is_text e ≡ false
      → IsViewOnly s
      → Kept (dispatch o s e)
  unfolding dispatch
  dispatch-Kept s (key r e) n t h =
      let q = handle_event-KeyQuiet o.screen s.keyboard r e h.of_keyboard in
      let calls = handle_event o.screen s.keyboard r e in
      (
        record {
          of_pads = h.of_pads;
          of_keyboard = q.0;
          of_gesture = h.of_gesture;
          of_mouse = h.of_mouse;
        },
        NothingSent-append F (map by_remote calls.1) (map by_key calls.0.1)
            (remote-NothingSent F calls.1) (keys-NothingSent F calls.0.1 q.1),
      )
  dispatch-Kept s (pad_axis p axis v) n t h = axis-Kept s p axis v h
  dispatch-Kept s (pad_button p b d) n t h = button-Kept s p b d n h
  dispatch-Kept s (pad_sensor p k ts r) n t h = sensor-Kept s p k ts r h
  dispatch-Kept s (pad_touchpad p touchpad k f x y pressure) n t h =
      touchpad-Kept s p touchpad k f x y pressure h
  dispatch-Kept s (joystick e) n t h =
      subst (λ r. Kept (plain o (record s { pads = r.0 }) (map by_device r.1)))
        (sym (jdevice_view s.pads e h.of_pads)) (h, tt)
  dispatch-Kept s (controller r p) n t h =
      subst (λ q. Kept (plain o (record s { pads = q.0 }) (map by_device q.1)))
        (sym (cdevice_view s.pads r p h.of_pads)) (h, tt)
  dispatch-Kept s (mouse_motion e) n t h =
      subst (λ r. Kept (plain o (record s { gesture = r.0 }) (map by_pointer r.1)))
        (sym (mmotion_view o.world s.gesture s.no_sdl_mouse e h.of_gesture)) (h, tt)
  dispatch-Kept s (mouse_wheel is_touch x y) n t h =
      then_of Kept (s.pads.view_only || s.no_sdl_mouse) _ (barred s h.of_pads) (h, tt)
  dispatch-Kept s (mouse_press b e) n t h =
      then_of Kept (s.pads.view_only || s.no_sdl_mouse) _ (barred s h.of_pads) (h, tt)
  dispatch-Kept s (text_input x) n t h = absurd (cc)
  dispatch-Kept s (finger k f x y pressure) n t h = (
    h,
    subst (λ cs. NothingSent F (map by_pointer cs))
        (sym (touch_view s.pads.view_only k f x y pressure h.of_pads)) tt,
  )
  dispatch-Kept s other_event n t h = (h, tt)

  -- The state after a list of events.
  abbrev pub run : InputState → List (InputEvent F) → InputState × List (OutCall F)
  run s [] = (s, [])
  run s (e ∷ es) =
      let r = handle_input_event o s e in let (s1, calls) = run r.state es in (s1, r.calls ++ calls)

  handle-Kept :
      (s : InputState) (e : InputEvent F)
      → o.vmouse_allowed ≡ false
      → is_text e ≡ false
      → IsViewOnly s
      → Kept (handle_input_event o s e)
  unfolding handle_input_event
  handle-Kept s e n t h =
      if_both Kept (not s.pads.started || o.blocked) (h, tt) (dispatch-Kept s e n t h)

  -- A view-only session in which the virtual mouse is off, has no button down and cannot be
  -- switched on sends the host nothing, whatever events come that are not texts: no key, no state
  -- of a gamepad, no arrival or removal, no sensor and no mouse or touch event; and it stays such
  -- a session.
  pub run-IsViewOnly :
      (s : InputState) (es : List (InputEvent F))
      → o.vmouse_allowed ≡ false
      → NoText es
      → IsViewOnly s
      → IsViewOnly (run s es).0 × NothingSent F (run s es).1
  run-IsViewOnly s [] n t h = (h, tt)
  run-IsViewOnly s (e ∷ es) n (t, ts) h =
      let r = handle-Kept s e n t h in
      let q = run-IsViewOnly (handle_input_event o s e).state es n ts r.0 in
      (
        q.0,
        NothingSent-append F (handle_input_event o s e).calls
            (run (handle_input_event o s e).state es).1 r.1 q.1,
      )

  -- In a view-only session that accepts input and counts no key, a text that is not empty is sent
  -- to the host.
  pub text_is_sent :
      (s : InputState) (c : ℕ) (cs : List ℕ)
      → s.pads.started ≡ true
      → o.blocked ≡ false
      → s.keyboard.keydown_count ≡ pos 0
      → IsViewOnly s
      → (handle_input_event o s (text_input (c ∷ cs))).calls ≡ by_key (send_text (c ∷ cs)) ∷ []
  unfolding handle_input_event dispatch handle_text
  text_is_sent s c cs st b k h =
      ap (λ g. gated g) (ap₂ (λ x y. not x || y) st b)
      ∙ ap (λ z. map by_key (text_when (c ∷ cs) z)) k
    where
      gated : Bool → List (OutCall F)
      gated g = (if g then shut s else dispatch o s (text_input (c ∷ cs))).calls
