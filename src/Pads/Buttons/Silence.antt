-- ===== src/Pads/Buttons/Silence.antt =====
-- What the handlers of buttons and axes keep: a gamepad that the host is not to hear of, the
-- combinations, and the range of the sticks.
use moonlight_tv.Base.{
  ℕ, zero, suc, ◌≤◌, List, [], ◌∷◌, ◌++◌, Option, none, some, Bool, false, not, ltb, ◌==◌,
  if◌then◌else◌, ◌≡◌, refl, sym, subst, arith, inl, inr, Bool-cases, if_both,
}
use moonlight_tv.Base.Int.{ℤ, pos, negsuc, pos_part}
use moonlight_tv.Pads.{Session, sends_moonlight}
use moonlight_tv.Pads.Buttons.{
  Flag, play, back, lb, rb, ls_clk, rs_clk, SdlButton, sdl_left_stick, PadState, Combos, Call,
  multi_controller, open_overlay, open_soft_keyboard, toggle_stats_pin, toggle_vmouse,
  vmouse_modifier, vmouse_state, flag_of, modifier_calls, cleared, send_state, release_buttons,
  combo_check, after_combos, with_button, record_button, handle_cbutton, Axis, axis_left_x,
  axis_left_y, axis_right_x, axis_right_y, axis_trigger_left, axis_trigger_right, unknown_axis,
  capped, negated, trigger_byte, magnitude, in_deadzone, filter_deadzone_2axis, with_axis,
  filter_sticks, handle_caxis,
}

-- No state of a gamepad is sent to the host or handed to the virtual mouse.
abbrev pub Silent : List Call → Type 0
Silent [] = Unit {0}
Silent (multi_controller i m p ∷ cs) = ⊥
Silent (vmouse_state p ∷ cs) = ⊥
Silent (_ ∷ cs) = Silent cs

send_state-Silent :
    (s : Session) (p : PadState) → sends_moonlight s p.gs_id ≡ false → Silent (send_state s p)
unfolding send_state
send_state-Silent s p h =
    subst (λ t. Silent (if t then multi_controller p.gs_id s.active_mask p ∷ [] else [])) (sym h) tt

Silent-append : (cs ds : List Call) → Silent cs → Silent ds → Silent (cs ++ ds)
Silent-append [] ds h k = k
Silent-append (multi_controller i m p ∷ cs) ds h k = h
Silent-append (open_overlay ∷ cs) ds h k = Silent-append cs ds h k
Silent-append (open_soft_keyboard ∷ cs) ds h k = Silent-append cs ds h k
Silent-append (toggle_stats_pin ∷ cs) ds h k = Silent-append cs ds h k
Silent-append (toggle_vmouse ∷ cs) ds h k = Silent-append cs ds h k
Silent-append (vmouse_modifier d ∷ cs) ds h k = Silent-append cs ds h k
Silent-append (vmouse_state d ∷ cs) ds h k = h

abbrev SilentResult : PadState × Combos × List Call → Type 0
SilentResult r = Silent r.2

module _ (bit : Flag → ℕ) (s : Session) where
  after_combos-Silent :
      (c : Combos) (p : PadState)
      → sends_moonlight s p.gs_id ≡ false
      → SilentResult (after_combos bit s c p)
  unfolding after_combos release_buttons cleared
  after_combos-Silent c p h =
      let quiet = send_state-Silent s (cleared p) h in
      let plain = send_state-Silent s p h in
      if_both SilentResult (not (p.buttons == 0)) plain (
        if_both SilentResult c.quit
          (Silent-append (send_state s (cleared p)) (open_overlay ∷ []) quiet tt)
          (if_both SilentResult c.vmouse
            (Silent-append (send_state s (cleared p)) (toggle_vmouse ∷ []) quiet tt)
            (if_both SilentResult c.keyboard
              (Silent-append (send_state s (cleared p)) (open_soft_keyboard ∷ []) quiet tt)
              (if_both SilentResult c.stats
                (Silent-append (send_state s (cleared p)) (toggle_stats_pin ∷ []) quiet tt)
                plain))))

  record_button-Silent :
      (c : Combos) (p : PadState)
      → sends_moonlight s p.gs_id ≡ false
      → SilentResult (record_button bit s c p)
  unfolding record_button
  record_button-Silent c p h =
      if_both SilentResult (combo_check bit p.buttons (play ∷ back ∷ lb ∷ rb ∷ [])) tt (
        if_both SilentResult (combo_check bit p.buttons (lb ∷ rs_clk ∷ [])) tt (
          if_both SilentResult (combo_check bit p.buttons (rb ∷ rs_clk ∷ [])) tt (
            if_both SilentResult (combo_check bit p.buttons (lb ∷ ls_clk ∷ [])) tt
              (after_combos-Silent c p h))))

modifier-Silent : (button : SdlButton) (d : Bool) → Silent (modifier_calls button d)
unfolding modifier_calls
modifier-Silent sdl_left_stick d = tt
modifier-Silent _ d = tt

-- Where a session is view-only or passes the gamepad through, no button sends its state to the
-- host, not even the release at the end of a combination.
pub handle_cbutton-Silent :
    (bit : Flag → ℕ) (swap : Bool) (s : Session) (c : Combos) (p : PadState) (button : SdlButton)
    (d : Bool)
    → sends_moonlight s p.gs_id ≡ false
    → Silent (handle_cbutton bit swap s c p button d).2
unfolding handle_cbutton with_button
handle_cbutton-Silent bit swap s c p button d h = go (flag_of swap button)
  where
    go :
        (o : Option Flag)
        → SilentResult (elim o [
          | none ↦ (p, c, [])
          | some f ↦
              let (p1, c1, calls) = record_button bit s c (with_button bit p f d) in
              (p1, c1, modifier_calls button d ++ calls)
        ])
    go none = tt
    go (some f) =
        Silent-append (modifier_calls button d) (record_button bit s c (with_button bit p f d)).2
          (modifier-Silent button d) (record_button-Silent bit s c (with_button bit p f d) h)

-- Both sticks are within 32767 of the middle.
pub record InRange (p : PadState) : Type 0 where
  pub left_x : magnitude p.left_x ≤ 32767
  pub left_y : magnitude p.left_y ≤ 32767
  pub right_x : magnitude p.right_x ≤ 32767
  pub right_y : magnitude p.right_y ≤ 32767

capped-le : (z : ℤ) → pos_part z ≤ 32767 → magnitude (capped z) ≤ 32767
unfolding capped
capped-le (pos n) h = omega arith
capped-le (negsuc n) h = elim (Bool-cases (ltb n 32767)) [
  | inl e ↦
      subst (λ t. magnitude (if t then negsuc n else negsuc 32766) ≤ 32767) (sym e) (ground arith)
  | inr e ↦
      subst (λ t. magnitude (if t then negsuc n else negsuc 32766) ≤ 32767) (sym e) (omega arith)
]

negated-magnitude : (z : ℤ) → magnitude (negated z) ≡ magnitude z
unfolding negated
negated-magnitude (pos zero) = refl
negated-magnitude (pos (suc n)) = omega arith
negated-magnitude (negsuc n) = omega arith

negated-le : (z : ℤ) → pos_part z ≤ 32767 → magnitude (negated (capped z)) ≤ 32767
negated-le z h = omega (arith, negated-magnitude (capped z), capped-le z h)

filter_sticks-InRange : (dz : ℕ) (p : PadState) → InRange p → InRange (filter_sticks dz p)
unfolding filter_sticks filter_deadzone_2axis
filter_sticks-InRange dz p h = record {
  left_x =
      if_both {A = ℤ × ℤ} (λ r. magnitude r.0 ≤ 32767) (in_deadzone dz p.left_x p.left_y)
        (omega arith) h.left_x;
  left_y =
      if_both {A = ℤ × ℤ} (λ r. magnitude r.1 ≤ 32767) (in_deadzone dz p.left_x p.left_y)
        (omega arith) h.left_y;
  right_x =
      if_both {A = ℤ × ℤ} (λ r. magnitude r.0 ≤ 32767) (in_deadzone dz p.right_x p.right_y)
        (omega arith) h.right_x;
  right_y =
      if_both {A = ℤ × ℤ} (λ r. magnitude r.1 ≤ 32767) (in_deadzone dz p.right_x p.right_y)
        (omega arith) h.right_y;
}

-- An axis event whose value is at most 32767 keeps the sticks within 32767 of the middle, where
-- they were so before.
pub handle_caxis-InRange :
    (active : Bool) (dz : ℕ) (s : Session) (p : PadState) (axis : Axis) (v : ℤ)
    → pos_part v ≤ 32767
    → InRange p
    → InRange (handle_caxis active dz s p axis v).0
unfolding handle_caxis with_axis
handle_caxis-InRange active dz s p axis_left_x v k h =
    filter_sticks-InRange dz (record p { left_x = capped v })
      (record {
        left_x = capped-le v k;
        left_y = h.left_y;
        right_x = h.right_x;
        right_y = h.right_y;
      })
handle_caxis-InRange active dz s p axis_left_y v k h =
    filter_sticks-InRange dz (record p { left_y = negated (capped v) })
      (record {
        left_x = h.left_x;
        left_y = negated-le v k;
        right_x = h.right_x;
        right_y = h.right_y;
      })
handle_caxis-InRange active dz s p axis_right_x v k h =
    filter_sticks-InRange dz (record p { right_x = capped v })
      (record {
        left_x = h.left_x;
        left_y = h.left_y;
        right_x = capped-le v k;
        right_y = h.right_y;
      })
handle_caxis-InRange active dz s p axis_right_y v k h =
    filter_sticks-InRange dz (record p { right_y = negated (capped v) })
      (record {
        left_x = h.left_x;
        left_y = h.left_y;
        right_x = h.right_x;
        right_y = negated-le v k;
      })
handle_caxis-InRange active dz s p axis_trigger_left v k h =
    filter_sticks-InRange dz (record p { left_trigger = trigger_byte v })
      (record { left_x = h.left_x; left_y = h.left_y; right_x = h.right_x; right_y = h.right_y })
handle_caxis-InRange active dz s p axis_trigger_right v k h =
    filter_sticks-InRange dz (record p { right_trigger = trigger_byte v })
      (record { left_x = h.left_x; left_y = h.left_y; right_x = h.right_x; right_y = h.right_y })
handle_caxis-InRange active dz s p unknown_axis v k h = h
