-- ===== src/Controller/Xpad/Keys.antt =====
-- The bits of the reports that the keys of the switch drive: `xpad_map_button` of
-- src/app/hid_passthrough/ctm/controllers/controller_common.c.
use moonlight_tv.Base.{
  ℕ, zero, suc, ◌+◌, ◌-◌, ◌*◌, ◌/◌, ◌%◌, ◌<◌, List, [], ◌∷◌, Option, none, some, Bool, not, true,
  false, ◌==◌, if◌then◌else◌, ◌≡◌, refl, sym, ap, ◌∙◌, arith, if_both, if_split, inl, inr,
  Option-cases, get_or, some_eq, subst, ==_iff,
}
use moonlight_tv.Base.Int.{ℤ, pos}
use moonlight_tv.Base.Bits.{
  test_bit, set_bit, clear_bit, test_bit-set_self, test_bit-set_ne, test_bit-clear_self,
  test_bit-clear_ne, test_bit-add_high,
}
use moonlight_tv.Controller.Xpad.{
  XpadState, blank, hat_bits, no_dpad, xpad_sync_hat_buttons, xpad_apply_hat, xpad_map_button,
  key_bit, is_zero, is_dpad, apply_axis, Event, key, axis, other, feed_event, fed_reports,
  xpad_build_hid_report, evdev_gamepad_reports,
}

-- What the events say of a bit: whether the last key that is mapped to it went down.
abbrev pub drives : Option ℕ → ℕ → Bool
drives none k = false
drives (some i) k = i == k

abbrev pub last_key : ℕ → Bool → List Event → Bool
last_key k down [] = down
last_key k down (key code v ∷ es) =
    last_key k (if drives (key_bit code) k then not (is_zero v) else down) es
last_key k down (axis code v ∷ es) = last_key k down es
last_key k down (other ∷ es) = last_key k down es

-- Above the directions a bit does not change with them.
high_bit-no_dpad : (b k : ℕ) → 3 < k → test_bit (no_dpad b) k ≡ test_bit b k
unfolding test_bit
high_bit-no_dpad b (suc (suc (suc (suc k)))) h = ap (λ m. test_bit m k) (omega arith)
high_bit-no_dpad b zero h = absurd (omega arith)
high_bit-no_dpad b (suc zero) h = absurd (omega arith)
high_bit-no_dpad b (suc (suc zero)) h = absurd (omega arith)
high_bit-no_dpad b (suc (suc (suc zero))) h = absurd (omega arith)

high_bit-set : (b i k : ℕ) → i < 4 → 3 < k → test_bit (set_bit b i) k ≡ test_bit b k
high_bit-set b i k l h = test_bit-set_ne b i k (omega arith)

high_bit-hat :
    (z : ℤ) (i j b k : ℕ) → i < 4 → j < 4 → 3 < k → test_bit (hat_bits z i j b) k ≡ test_bit b k
high_bit-hat (pos zero) i j b k l m h = refl
high_bit-hat (pos (suc n)) i j b k l m h = high_bit-set b j k m h
high_bit-hat (ℤ.negsuc n) i j b k l m h = high_bit-set b i k l h

-- The bit `k` of the buttons is `down`.
record Shows (k : ℕ) (down : Bool) (st : XpadState) : Type 0 where
  shown : test_bit st.buttons k ≡ down

sync-Shows :
    (k : ℕ) (down : Bool) (st : XpadState)
    → 3 < k
    → Shows k down st
    → Shows k down (xpad_sync_hat_buttons st)
unfolding xpad_sync_hat_buttons
sync-Shows k down st h s = record {
  shown =
      high_bit-hat st.hat_y 0 1 _ k (omega arith) (omega arith) h
      ∙ high_bit-hat st.hat_x 2 3 _ k (omega arith) (omega arith) h
      ∙ high_bit-no_dpad st.buttons k h
      ∙ s.shown;
}

apply_hat-Shows :
    (k : ℕ) (down : Bool) (code : ℕ) (v : ℤ) (st : XpadState)
    → 3 < k
    → Shows k down st
    → Shows k down (xpad_apply_hat code v st)
unfolding xpad_apply_hat
apply_hat-Shows k down code v st h s =
    if_both (Shows k down) (code == 0x10) (sync-Shows k down _ h (record { shown = s.shown }))
      (if_both (Shows k down) (code == 0x11) (sync-Shows k down _ h (record { shown = s.shown })) s)

with_key-bit :
    (i k b : ℕ) (up : Bool)
    → test_bit (if up then clear_bit b i else set_bit b i) k
      ≡ (if i == k then not up else test_bit b k)
with_key-bit i k b true =
    if_split (λ x. test_bit (clear_bit b i) k ≡ x) (i == k)
      (λ e. ap (test_bit (clear_bit b i)) (sym ((==_iff i k).0 e)) ∙ test_bit-clear_self b i)
      (λ e. test_bit-clear_ne b i k (ground arith))
with_key-bit i k b false =
    if_split (λ x. test_bit (set_bit b i) k ≡ x) (i == k)
      (λ e. ap (test_bit (set_bit b i)) (sym ((==_iff i k).0 e)) ∙ test_bit-set_self b i)
      (λ e. test_bit-set_ne b i k (ground arith))

map_button-Shows :
    (k : ℕ) (down : Bool) (code : ℕ) (v : ℤ) (st : XpadState)
    → 3 < k
    → Shows k down st
    → Shows k
        (if drives (key_bit code) k then not (is_zero v) else down)
        (xpad_map_button code v st)
unfolding xpad_map_button
map_button-Shows k down code v st h s = elim (Option-cases (key_bit code)) [
  | inl e ↦
      simp (xpad_map_button, e)
        (if_split (Shows k down) (is_dpad code)
          (λ d. record {
            shown =
                if_both (λ b. test_bit b k ≡ down) (is_zero v)
                  (high_bit-no_dpad st.buttons k h ∙ s.shown)
                  (high_bit-set _ (code - 0x220) k (ground arith) h
                    ∙ high_bit-no_dpad st.buttons k h
                    ∙ s.shown);
          })
          (λ _. s))
  | inr (i, e) ↦
      simp (xpad_map_button, e)
        (record {
          shown =
              with_key-bit i k st.buttons (is_zero v)
              ∙ ap (λ b. if i == k then not (is_zero v) else b) s.shown;
        })
]

-- An axis leaves the bit.
record LeavesShown (k : ℕ) (down : Bool) (o : Option XpadState) : Type 0 where
  left_shown : (st : XpadState) → o ≡ some st → Shows k down st

apply_axis-LeavesShown :
    (k : ℕ) (down : Bool) (code : ℕ) (v : ℤ) (st : XpadState)
    → 3 < k
    → Shows k down st
    → LeavesShown k down (apply_axis code v st)
unfolding apply_axis
apply_axis-LeavesShown k down code v st h s =
    let P : Option XpadState → Type 0 = LeavesShown k down in
    let leaves : (st' : XpadState) → Shows k down st' → P (some st') =
      λ st' t. record { left_shown = λ u e. subst (Shows k down) (some_eq e) t } in
    let same : (st' : XpadState) → st'.buttons ≡ st.buttons → P (some st') =
      λ st' e. leaves st' (record { shown = ap (λ b. test_bit b k) e ∙ s.shown }) in
    if_both P (code == 0) (same _ refl) (
      if_both P (code == 1) (same _ refl) (
        if_both P (code == 3) (same _ refl) (
          if_both P (code == 4) (same _ refl) (
            if_both P (code == 2) (same _ refl) (
              if_both P (code == 5) (same _ refl) (
                if_both P (code == 0x10) (leaves _ (apply_hat-Shows k down 0x10 v st h s)) (
                  if_both P (code == 0x11) (leaves _ (apply_hat-Shows k down 0x11 v st h s))
                    (record { left_shown = λ st' e. absurd cc }))))))))

-- The buttons that the host reads off a report, and the last report of a list.
abbrev pub host_buttons : List ℕ → ℕ
host_buttons r = get_or r 2 0 + 256 * get_or r 3 0

abbrev pub last_or : List ℕ → List (List ℕ) → List ℕ
last_or r [] = r
last_or r (s ∷ ss) = last_or s ss

host_buttons-build :
    (k : ℕ) (down : Bool) (st : XpadState)
    → k < 16
    → Shows k down st
    → test_bit (host_buttons (xpad_build_hid_report st)) k ≡ down
unfolding xpad_build_hid_report
host_buttons-build k down st h s =
    let e : st.buttons % 256 + 256 * (st.buttons / 256 % 256) ≡ st.buttons % 65536 = omega arith in
    let f : st.buttons / 65536 * 65536 + st.buttons % 65536 ≡ st.buttons = omega arith in
    ap (λ b. test_bit b k) e
    ∙ sym (test_bit-add_high 16 (st.buttons / 65536) (st.buttons % 65536) k h)
    ∙ ap (λ b. test_bit b k) f
    ∙ s.shown

feed_key :
    (code : ℕ) (v : ℤ) (st : XpadState)
    → feed_event (key code v) st ≡ some (xpad_map_button code v st)
unfolding feed_event
feed_key code v st = refl

feed_other : (st : XpadState) → feed_event other st ≡ none
unfolding feed_event
feed_other st = refl

feed_axis : (code : ℕ) (v : ℤ) (st : XpadState) → feed_event (axis code v) st ≡ apply_axis code v st
unfolding feed_event
feed_axis code v st = refl

module _ (k : ℕ) (low : 3 < k) (high : k < 16) where
  fed_reports-Show :
      (es : List Event) (down : Bool) (st : XpadState) (r : List ℕ)
      → Shows k down st
      → test_bit (host_buttons r) k ≡ down
      → test_bit (host_buttons (last_or r (fed_reports st es))) k ≡ last_key k down es
  unfolding fed_reports
  fed_reports-Show [] down st r s t = t
  fed_reports-Show (key code v ∷ es) down st r s t =
      let s' = map_button-Shows k down code v st low s in
      simp (fed_reports, feed_key code v st)
        (fed_reports-Show es _ _ _ s' (host_buttons-build k _ _ high s'))
  fed_reports-Show (other ∷ es) down st r s t =
      simp (fed_reports, feed_other st) (fed_reports-Show es down st r s t)
  fed_reports-Show (axis code v ∷ es) down st r s t = elim (Option-cases (apply_axis code v st)) [
    | inl n ↦ simp (fed_reports, feed_axis code v st, n) (fed_reports-Show es down st r s t)
    | inr (st', n) ↦
        let s' = (apply_axis-LeavesShown k down code v st low s).left_shown st' n in
        simp (fed_reports, feed_axis code v st, n)
          (fed_reports-Show es down st' _ s' (host_buttons-build k down st' high s'))
  ]

test_bit-zero : (k : ℕ) → test_bit 0 k ≡ false
unfolding test_bit
test_bit-zero zero = refl
test_bit-zero (suc k) = test_bit-zero k

-- After any run of evdev events, a bit of the buttons from 4 to 15 that the host reads off the
-- last report is set exactly if the last of the keys mapped to it went down.
pub evdev_gamepad_reports-Show :
    (k : ℕ) (es : List Event)
    → 3 < k
    → k < 16
    → test_bit (host_buttons (last_or [] (evdev_gamepad_reports es))) k ≡ last_key k false es
unfolding evdev_gamepad_reports
evdev_gamepad_reports-Show k es low high =
    let s : Shows k false blank = record { shown = test_bit-zero k } in
    fed_reports-Show k low high es false blank _ s (host_buttons-build k false blank high s)
