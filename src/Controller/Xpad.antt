-- ===== src/Controller/Xpad.antt =====
-- The gamepad that is read from evdev and forwarded as an XInput report: the `xpad_` functions of
-- src/app/hid_passthrough/ctm/controllers/controller_common.c. Event codes are the kernel's.
use moonlight_tv.Base.{
  ℕ, zero, suc, ◌+◌, ◌-◌, ◌*◌, ◌/◌, ◌%◌, List, [], ◌∷◌, Option, none, some, Bool, true, false, not,
  ◌&&◌, ltb, leb, ◌==◌, if◌then◌else◌, replicate,
}
use moonlight_tv.Base.Int.{ℤ, pos, negsuc, low_word, to_short}
use moonlight_tv.Base.Bits.{set_bit, clear_bit}
pub mod Keys
pub mod Dpad
mod Examples

-- `xpad_evdev_state_t`
pub record XpadState : Type 0 where
  pub buttons : ℕ
  pub hat_x : ℤ
  pub hat_y : ℤ
  pub lt : ℕ
  pub rt : ℕ
  pub lx : ℤ
  pub ly : ℤ
  pub rx : ℤ
  pub ry : ℤ

abbrev pub blank : XpadState
blank = record {
  buttons = 0;
  hat_x = pos 0;
  hat_y = pos 0;
  lt = 0;
  rt = 0;
  lx = pos 0;
  ly = pos 0;
  rx = pos 0;
  ry = pos 0;
}

-- `(int8_t)`, and unary minus.
abbrev pub to_char : ℤ → ℤ
unfolding low_word
to_char z = let u : ℕ = low_word z % 256 in if ltb u 128 then pos u else negsuc (255 - u)

abbrev pub negate : ℤ → ℤ
negate (pos zero) = pos 0
negate (pos (suc n)) = negsuc n
negate (negsuc n) = pos (suc n)

-- The bit that one sign of a hat sets, and the bit of the other.
abbrev pub hat_bits : ℤ → ℕ → ℕ → ℕ → ℕ
hat_bits (pos zero) low high m = m
hat_bits (pos (suc n)) low high m = set_bit m high
hat_bits (negsuc n) low high m = set_bit m low

abbrev pub with_buttons : ℕ → XpadState → XpadState
with_buttons b st = record st { buttons = b }

-- `buttons & ~0x000f`
abbrev pub no_dpad : ℕ → ℕ
no_dpad b = b / 16 * 16

unfoldable pub xpad_sync_hat_buttons : XpadState → XpadState
xpad_sync_hat_buttons st =
    with_buttons (hat_bits st.hat_y 0 1 (hat_bits st.hat_x 2 3 (no_dpad st.buttons))) st

unfoldable pub xpad_apply_hat : ℕ → ℤ → XpadState → XpadState
unfolding xpad_sync_hat_buttons
xpad_apply_hat code value st =
    if code == 0x10
    then xpad_sync_hat_buttons (record st { hat_x = to_char value })
    else if code == 0x11
    then xpad_sync_hat_buttons (record st { hat_y = to_char value })
    else st

-- The position of the bit in the mask that the switch gives a key.
abbrev pub key_bits : List (ℕ × ℕ)
key_bits =
    (0x130, 12)
    ∷ (0x131, 13)
    ∷ (0x134, 15)
    ∷ (0x133, 14)
    ∷ (0x136, 8)
    ∷ (0x137, 9)
    ∷ (0x13a, 5)
    ∷ (0x13b, 4)
    ∷ (0x13c, 10)
    ∷ (0x13d, 6)
    ∷ (0x13e, 7)
    ∷ []

abbrev pub find_bit : List (ℕ × ℕ) → ℕ → Option ℕ
find_bit [] code = none
find_bit ((c, i) ∷ cs) code = if code == c then some i else find_bit cs code

unfoldable pub key_bit : ℕ → Option ℕ
key_bit code = find_bit key_bits code

abbrev pub is_zero : ℤ → Bool
is_zero (pos zero) = true
is_zero (pos (suc n)) = false
is_zero (negsuc n) = false

abbrev pub is_dpad : ℕ → Bool
is_dpad code = leb 0x220 code && leb code 0x223

unfoldable pub xpad_map_button : ℕ → ℤ → XpadState → XpadState
xpad_map_button code value st = elim (key_bit code) [
  | some i ↦
      with_buttons (if is_zero value then clear_bit st.buttons i else set_bit st.buttons i) st
  | none ↦
      if is_dpad code
      then record st {
        buttons =
            if is_zero value
            then no_dpad st.buttons
            else set_bit (no_dpad st.buttons) (code - 0x220);
        hat_x = pos 0;
        hat_y = pos 0;
      }
      else st
]

-- `(uint8_t)(value > 255 ? value >> 7 : value)`
unfoldable pub trigger_byte : ℤ → ℕ
unfolding low_word
trigger_byte (pos n) = if ltb 255 n then n / 128 % 256 else n
trigger_byte (negsuc n) = low_word (negsuc n) % 256

unfoldable pub xpad_build_hid_report : XpadState → List ℕ
unfolding low_word
xpad_build_hid_report st =
    0x00
    ∷ 0x14
    ∷ (st.buttons % 256)
    ∷ (st.buttons / 256 % 256)
    ∷ st.lt
    ∷ st.rt
    ∷ (low_word st.lx % 256)
    ∷ (low_word st.lx / 256)
    ∷ (low_word st.ly % 256)
    ∷ (low_word st.ly / 256)
    ∷ (low_word st.rx % 256)
    ∷ (low_word st.rx / 256)
    ∷ (low_word st.ry % 256)
    ∷ (low_word st.ry / 256)
    ∷ replicate 6 0

-- An event that evdev gives: a key or an axis, with its code and value, or another type.
pub data Event : Type 0 where
  key : ℕ → ℤ → Event
  axis : ℕ → ℤ → Event
  other : Event

-- The axes that the feeder knows; none for another code, which sends no report.
unfoldable pub apply_axis : ℕ → ℤ → XpadState → Option XpadState
unfolding trigger_byte xpad_apply_hat to_short
apply_axis code value st =
    if code == 0
    then some (record st { lx = to_short value })
    else if code == 1
    then some (record st { ly = to_short (negate value) })
    else if code == 3
    then some (record st { rx = to_short value })
    else if code == 4
    then some (record st { ry = to_short (negate value) })
    else if code == 2
    then some (record st { lt = trigger_byte value })
    else if code == 5
    then some (record st { rt = trigger_byte value })
    else if code == 0x10
    then some (xpad_apply_hat 0x10 value st)
    else if code == 0x11
    then some (xpad_apply_hat 0x11 value st)
    else none

-- One event of `evdev_gamepad_thread_main`: the state after it, none where no report is sent.
unfoldable pub feed_event : Event → XpadState → Option XpadState
unfolding xpad_map_button apply_axis
feed_event (key code value) st = some (xpad_map_button code value st)
feed_event (axis code value) st = apply_axis code value st
feed_event other st = none

-- The reports that are sent for a run of events, behind the first one of a blank state.
unfoldable pub fed_reports : XpadState → List Event → List (List ℕ)
unfolding xpad_build_hid_report
fed_reports st [] = []
fed_reports st (e ∷ es) = elim (feed_event e st) [
  | none ↦ fed_reports st es
  | some st' ↦ xpad_build_hid_report st' ∷ fed_reports st' es
]

unfoldable pub evdev_gamepad_reports : List Event → List (List ℕ)
unfolding fed_reports xpad_build_hid_report
evdev_gamepad_reports es = xpad_build_hid_report blank ∷ fed_reports blank es
