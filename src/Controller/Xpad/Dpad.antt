-- ===== src/Controller/Xpad/Dpad.antt =====
-- The four direction bits of the reports: `xpad_sync_hat_buttons`, `xpad_apply_hat` and
-- `xpad_map_button` of src/app/hid_passthrough/ctm/controllers/controller_common.c.
use moonlight_tv.Base.{
  ℕ, zero, suc, ◌-◌, ◌/◌, ◌%◌, ◌<◌, List, [], ◌∷◌, Option, some, ◌≡◌, ◌≢◌, refl, sym, subst,
  some_eq, arith, if_both, if_split, get_or, inl, inr, length, Option-cases, true, ◌==◌,
  if◌then◌else◌,
}
use moonlight_tv.Base.Int.{ℤ, pos, negsuc}
use moonlight_tv.Base.Bits.{set_bit, clear_bit}
use moonlight_tv.Controller.Xpad.{
  XpadState, blank, hat_bits, no_dpad, xpad_sync_hat_buttons, xpad_apply_hat, xpad_map_button,
  key_bit, is_zero, is_dpad, apply_axis, Event, key, axis, other, feed_event, fed_reports,
  xpad_build_hid_report, evdev_gamepad_reports, with_buttons,
}

-- Not up and down at once, and not left and right.
abbrev pub NotOpposed : ℕ → Type 0
NotOpposed b = (b % 4 ≢ 3) × (b / 4 % 4 ≢ 3)

-- Of a state: the type is its own, so that it can stand over a conditional.
pub record IsApart (st : XpadState) : Type 0 where
  pub apart : NotOpposed st.buttons

-- A report of 20 bytes whose direction bits are not opposed.
abbrev pub IsSteady : List ℕ → Type 0
IsSteady r = (length r ≡ 20) × NotOpposed (get_or r 2 0)

abbrev pub AllSteady : List (List ℕ) → Type 0
AllSteady [] = Unit {0}
AllSteady (r ∷ rs) = IsSteady r × AllSteady rs

-- At most one of two neighbouring bits of a cleared pad is set by a hat.
hat_x-NotOpposed :
    (z : ℤ) (b : ℕ)
    → (hat_bits z 2 3 (no_dpad b) % 4 ≡ 0) × (hat_bits z 2 3 (no_dpad b) / 4 % 4 ≢ 3)
unfolding set_bit
hat_x-NotOpposed (pos zero) b = (omega arith, omega arith)
hat_x-NotOpposed (pos (suc n)) b = (omega arith, omega arith)
hat_x-NotOpposed (negsuc n) b = (omega arith, omega arith)

hat_y-NotOpposed : (z : ℤ) (b : ℕ) → b % 4 ≡ 0 → b / 4 % 4 ≢ 3 → NotOpposed (hat_bits z 0 1 b)
unfolding set_bit
hat_y-NotOpposed (pos zero) b h k = (omega arith, omega arith)
hat_y-NotOpposed (pos (suc n)) b h k = (omega arith, omega arith)
hat_y-NotOpposed (negsuc n) b h k = (omega arith, omega arith)

sync-IsApart : (st : XpadState) → IsApart (xpad_sync_hat_buttons st)
unfolding xpad_sync_hat_buttons
sync-IsApart st =
    let (l, h) = hat_x-NotOpposed st.hat_x st.buttons in
    record { apart = hat_y-NotOpposed st.hat_y _ l h }

apply_hat-IsApart :
    (code : ℕ) (v : ℤ) (st : XpadState) → IsApart st → IsApart (xpad_apply_hat code v st)
unfolding xpad_apply_hat
apply_hat-IsApart code v st h =
    if_both IsApart (code == 0x10) (sync-IsApart _)
      (if_both IsApart (code == 0x11) (sync-IsApart _) h)

-- The keys of the switch are mapped to bits above the directions.
key_bit-high : (code i : ℕ) → key_bit code ≡ some i → 3 < i
unfolding key_bit
key_bit-high code i e = ground arith

set_bit-low : (b i : ℕ) → 3 < i → set_bit b i % 16 ≡ b % 16
unfolding set_bit
set_bit-low b (suc (suc (suc (suc i)))) h = omega arith
set_bit-low b zero h = absurd (omega arith)
set_bit-low b (suc zero) h = absurd (omega arith)
set_bit-low b (suc (suc zero)) h = absurd (omega arith)
set_bit-low b (suc (suc (suc zero))) h = absurd (omega arith)

clear_bit-low : (b i : ℕ) → 3 < i → clear_bit b i % 16 ≡ b % 16
unfolding clear_bit
clear_bit-low b (suc (suc (suc (suc i)))) h = omega arith
clear_bit-low b zero h = absurd (omega arith)
clear_bit-low b (suc zero) h = absurd (omega arith)
clear_bit-low b (suc (suc zero)) h = absurd (omega arith)
clear_bit-low b (suc (suc (suc zero))) h = absurd (omega arith)

same_low : (b c : ℕ) → b % 16 ≡ c % 16 → NotOpposed c → NotOpposed b
same_low b c e (k, l) = (omega arith, omega arith)

-- One direction alone.
one_direction : (b i : ℕ) → i < 4 → NotOpposed (set_bit (no_dpad b) i)
unfolding set_bit
one_direction b zero h = (omega arith, omega arith)
one_direction b (suc zero) h = (omega arith, omega arith)
one_direction b (suc (suc zero)) h = (omega arith, omega arith)
one_direction b (suc (suc (suc zero))) h = (omega arith, omega arith)
one_direction b (suc (suc (suc (suc i)))) h = absurd (omega arith)

-- What a key of the switch, and what a key of the pad does.
with_key-IsApart :
    (i : ℕ) (v : ℤ) (st : XpadState)
    → 3 < i
    → IsApart st
    → IsApart (with_buttons (if is_zero v then clear_bit st.buttons i else set_bit st.buttons i) st)
with_key-IsApart i v st g h = record {
  apart =
      if_both NotOpposed (is_zero v) (same_low _ _ (clear_bit-low st.buttons i g) h.apart)
        (same_low _ _ (set_bit-low st.buttons i g) h.apart);
}

pad_key-IsApart :
    (code : ℕ) (v : ℤ) (st : XpadState)
    → is_dpad code ≡ true
    → IsApart (record st {
      buttons =
          if is_zero v then no_dpad st.buttons else set_bit (no_dpad st.buttons) (code - 0x220);
      hat_x = pos 0;
      hat_y = pos 0;
    })
pad_key-IsApart code v st e = record {
  apart =
      if_both NotOpposed (is_zero v) (omega arith, omega arith)
        (one_direction st.buttons (code - 0x220) (ground arith));
}

map_button-IsApart :
    (code : ℕ) (v : ℤ) (st : XpadState) → IsApart st → IsApart (xpad_map_button code v st)
unfolding xpad_map_button
map_button-IsApart code v st h = elim (Option-cases (key_bit code)) [
  | inl e ↦
      simp (xpad_map_button, e)
        (if_split IsApart (is_dpad code) (pad_key-IsApart code v st) (λ _. h))
  | inr (i, e) ↦ simp (xpad_map_button, e) (with_key-IsApart i v st (key_bit-high code i e) h)
]

-- A state that an axis or an event leaves, if it sends a report.
record LeavesApart (o : Option XpadState) : Type 0 where
  left_apart : (st : XpadState) → o ≡ some st → IsApart st

leaves : (st : XpadState) → IsApart st → LeavesApart (some st)
leaves st h = record { left_apart = λ st' e. subst IsApart (some_eq e) h }

apply_axis-LeavesApart :
    (code : ℕ) (v : ℤ) (st : XpadState) → IsApart st → LeavesApart (apply_axis code v st)
unfolding apply_axis
apply_axis-LeavesApart code v st h =
    let same : (st' : XpadState) → st'.buttons ≡ st.buttons → LeavesApart (some st') =
      λ st' e. leaves st' (record { apart = subst NotOpposed (sym e) h.apart }) in
    let P : Option XpadState → Type 0 = LeavesApart in
    if_both P (code == 0) (same _ refl) (
      if_both P (code == 1) (same _ refl) (
        if_both P (code == 3) (same _ refl) (
          if_both P (code == 4) (same _ refl) (
            if_both P (code == 2) (same _ refl) (
              if_both P (code == 5) (same _ refl) (
                if_both P (code == 0x10) (leaves _ (apply_hat-IsApart 0x10 v st h)) (
                  if_both P (code == 0x11) (leaves _ (apply_hat-IsApart 0x11 v st h))
                    (record { left_apart = λ st' e. absurd (cc) }))))))))

feed_event-LeavesApart : (e : Event) (st : XpadState) → IsApart st → LeavesApart (feed_event e st)
unfolding feed_event
feed_event-LeavesApart (key code v) st h = leaves _ (map_button-IsApart code v st h)
feed_event-LeavesApart (axis code v) st h = apply_axis-LeavesApart code v st h
feed_event-LeavesApart other st h = record { left_apart = λ st' e. absurd (cc) }

build-IsSteady : (st : XpadState) → IsApart st → IsSteady (xpad_build_hid_report st)
unfolding xpad_build_hid_report
build-IsSteady st h = (refl, same_low _ _ (omega arith) h.apart)

fed_reports-AllSteady :
    (es : List Event) (st : XpadState) → IsApart st → AllSteady (fed_reports st es)
unfolding fed_reports
fed_reports-AllSteady [] st h = tt
fed_reports-AllSteady (e ∷ es) st h = elim (Option-cases (feed_event e st)) [
  | inl n ↦ simp (fed_reports, n) (fed_reports-AllSteady es st h)
  | inr (st', n) ↦
      let h' : IsApart st' = (feed_event-LeavesApart e st h).left_apart st' n in
      simp (fed_reports, n) (build-IsSteady st' h', fed_reports-AllSteady es st' h')
]

-- Every report of any run of evdev events has 20 bytes and does not show up with down or left
-- with right.
pub evdev_gamepad_reports-AllSteady : (es : List Event) → AllSteady (evdev_gamepad_reports es)
unfolding evdev_gamepad_reports
evdev_gamepad_reports-AllSteady es =
    let h : IsApart blank = record { apart = (omega arith, omega arith) } in
    (build-IsSteady blank h, fed_reports-AllSteady es blank h)
