-- ===== src/Keyboard/Examples.antt =====
-- The theorems about the keyboard at concrete keys.
use moonlight_tv.Base.{[], ◌∷◌, none, false, ◌≡◌, refl}
use moonlight_tv.Base.Int.{pos, negsuc}
use moonlight_tv.Keyboard.{
  Keyboard, KeyEvent, no_mods, track, handle_code, handle_text, send_key_event, flush_pressed_keys,
}
use moonlight_tv.Keyboard.Codes.{letter_key}
use moonlight_tv.Keyboard.Count.{flush_then_release}
use moonlight_tv.Keyboard.Mirror.{Mirrors, keys_mirrored}

abbrev typing : Keyboard
typing = record {
  view_only = false;
  syskey_capture = false;
  pressed = 65 ∷ 160 ∷ [];
  keydown_count = pos 2;
  pending = none;
  ok_pressed = false;
  ok_pressed_at = 0;
  ok_modifiers = no_mods;
}

abbrev release_a : KeyEvent
release_a = record {
  is_down = false;
  repeat = false;
  mods = no_mods;
  scancode = letter_key 0;
  sym = 97;
  sym_is_enter = false;
  timestamp = 5;
  ticks = 5;
  any_down = false;
  preset = 0;
}

keys_mirrored_example :
    Mirrors typing (handle_code typing release_a no_mods 65)
    × Mirrors typing (send_key_event typing 65 false no_mods)
    × Mirrors typing (flush_pressed_keys typing)
    × ((flush_pressed_keys typing).0.pressed ≡ [])
keys_mirrored_example =
    keys_mirrored typing release_a no_mods 65 false refl (refl, (refl, tt)) tt tt

flush_then_release_example :
    let k1 = (track (flush_pressed_keys typing).0 false 65 no_mods).0 in
    (k1.keydown_count ≡ negsuc 0) × (k1.pressed ≡ []) × (handle_text k1 (104 ∷ []) ≡ [])
flush_then_release_example = flush_then_release typing 65 no_mods (104 ∷ []) refl
