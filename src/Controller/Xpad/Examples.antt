-- ===== src/Controller/Xpad/Examples.antt =====
-- Tests and witnesses for the forwarded evdev gamepad.
use moonlight_tv.Base.{List, [], ◌∷◌, true, ◌≡◌, refl, arith}
use moonlight_tv.Base.Int.{pos, negsuc, low_word}
use moonlight_tv.Base.Bits.{test_bit, set_bit}
use moonlight_tv.Controller.Xpad.{
  Event, key, axis, other, evdev_gamepad_reports, fed_reports, feed_event, xpad_map_button, key_bit,
  xpad_build_hid_report, apply_axis, xpad_apply_hat, xpad_sync_hat_buttons,
}
use moonlight_tv.Controller.Xpad.Keys.{host_buttons, last_or, evdev_gamepad_reports-Show}
use moonlight_tv.Controller.Xpad.Dpad.{AllSteady, evdev_gamepad_reports-AllSteady}

-- South held down, the hat to the left, a tick of the bus.
abbrev left_and_south : List Event
left_and_south = key 0x130 (pos 1) ∷ axis 0x10 (negsuc 0) ∷ other ∷ []

shown_left : host_buttons (last_or [] (evdev_gamepad_reports left_and_south)) ≡ 0x1004
unfolding evdev_gamepad_reports fed_reports feed_event xpad_map_button key_bit xpad_build_hid_report
    apply_axis xpad_apply_hat xpad_sync_hat_buttons set_bit low_word
shown_left = refl

-- Two keys of the pad that are held together: the second takes the place of the first.
second_direction_wins :
    host_buttons (last_or [] (evdev_gamepad_reports (key 0x220 (pos 1) ∷ key 0x222 (pos 1) ∷ [])))
    ≡ 4
unfolding evdev_gamepad_reports fed_reports feed_event xpad_map_button key_bit xpad_build_hid_report
    set_bit low_word
second_direction_wins = refl

evdev_gamepad_reports-AllSteady_example : AllSteady (evdev_gamepad_reports left_and_south)
evdev_gamepad_reports-AllSteady_example = evdev_gamepad_reports-AllSteady left_and_south

evdev_gamepad_reports-Show_example :
    test_bit (host_buttons (last_or [] (evdev_gamepad_reports left_and_south))) 12 ≡ true
unfolding key_bit
evdev_gamepad_reports-Show_example =
    evdev_gamepad_reports-Show 12 left_and_south (omega arith) (omega arith)
