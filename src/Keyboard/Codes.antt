-- ===== src/Keyboard/Codes.antt =====
-- The virtual key codes that the host is sent for the scancodes of SDL: the tables of
-- `stream_input_handle_key` in src/app/stream/input/session_keyboard.c, with the numbers of
-- src/app/stream/input/vk.h.
use moonlight_tv.Base.{ℕ, ◌+◌, Option, none, some, Bool, ◌==◌, if◌then◌else◌}

-- The scancodes up to the right Alt key, and those from the browser keys on.
pub data EditKey : Type 0 where
  k_backspace k_tab k_clear k_kp_enter k_return : EditKey
  k_pause k_capslock k_escape k_space k_pageup : EditKey
  k_pagedown k_end k_home k_left k_up : EditKey
  k_right k_down k_select k_execute k_printscreen : EditKey
  k_insert k_delete k_help k_kp_0 k_0 : EditKey
  k_kp_multiply k_kp_plus k_kp_comma k_kp_minus k_kp_period : EditKey
  k_kp_divide k_numlockclear k_scrolllock k_lshift k_rshift : EditKey
  k_lctrl k_rctrl k_lalt k_ralt : EditKey

pub data SymbolKey : Type 0 where
  k_ac_back k_ac_forward k_ac_refresh k_ac_stop k_ac_search : SymbolKey
  k_ac_bookmarks k_ac_home k_semicolon k_equals k_comma : SymbolKey
  k_minus k_period k_slash k_grave k_leftbracket : SymbolKey
  k_backslash k_rightbracket k_apostrophe k_nonusbackslash : SymbolKey

-- A scancode. The keys of a row that SDL numbers in sequence are named by their place in it, from 0:
-- 1 to 9, A to Z, F1 to F12, F13 to F24, and 1 to 9 of the keypad.
pub data Scancode : Type 0 where
  digit_key letter_key function_key high_function_key keypad_key : ℕ → Scancode
  edit_key : EditKey → Scancode
  symbol_key : SymbolKey → Scancode
  left_gui right_gui unhandled : Scancode

unfoldable pub edit_code : EditKey → ℕ
edit_code k_backspace = 8
edit_code k_tab = 9
edit_code k_clear = 12
edit_code k_kp_enter = 13
edit_code k_return = 13
edit_code k_pause = 19
edit_code k_capslock = 20
edit_code k_escape = 27
edit_code k_space = 32
edit_code k_pageup = 33
edit_code k_pagedown = 34
edit_code k_end = 35
edit_code k_home = 36
edit_code k_left = 37
edit_code k_up = 38
edit_code k_right = 39
edit_code k_down = 40
edit_code k_select = 41
edit_code k_execute = 43
edit_code k_printscreen = 44
edit_code k_insert = 45
edit_code k_delete = 46
edit_code k_help = 47
edit_code k_kp_0 = 96
edit_code k_0 = 48
edit_code k_kp_multiply = 106
edit_code k_kp_plus = 107
edit_code k_kp_comma = 108
edit_code k_kp_minus = 109
edit_code k_kp_period = 110
edit_code k_kp_divide = 111
edit_code k_numlockclear = 144
edit_code k_scrolllock = 145
edit_code k_lshift = 160
edit_code k_rshift = 161
edit_code k_lctrl = 162
edit_code k_rctrl = 163
edit_code k_lalt = 164
edit_code k_ralt = 165

unfoldable pub symbol_code : SymbolKey → ℕ
symbol_code k_ac_back = 166
symbol_code k_ac_forward = 167
symbol_code k_ac_refresh = 168
symbol_code k_ac_stop = 169
symbol_code k_ac_search = 170
symbol_code k_ac_bookmarks = 171
symbol_code k_ac_home = 172
symbol_code k_semicolon = 186
symbol_code k_equals = 187
symbol_code k_comma = 188
symbol_code k_minus = 189
symbol_code k_period = 190
symbol_code k_slash = 191
symbol_code k_grave = 192
symbol_code k_leftbracket = 219
symbol_code k_backslash = 220
symbol_code k_rightbracket = 221
symbol_code k_apostrophe = 222
symbol_code k_nonusbackslash = 226

-- The code of a key that has one whatever the settings are.
unfoldable pub fixed_code : Scancode → Option ℕ
unfolding edit_code symbol_code
fixed_code (digit_key i) = some (i + 48 + 1)
fixed_code (letter_key i) = some (i + 65)
fixed_code (function_key i) = some (i + 112)
fixed_code (high_function_key i) = some (i + 124)
fixed_code (keypad_key i) = some (i + 96 + 1)
fixed_code (edit_key k) = some (edit_code k)
fixed_code (symbol_key k) = some (symbol_code k)
fixed_code _ = none

-- The code that the handler goes on with, or none where it returns. `preset` is what the remote's
-- keys have set before, 0 for no code; `capture` is `syskey_capture`.
unfoldable pub key_code : Bool → ℕ → Scancode → Option ℕ
unfolding fixed_code
key_code capture preset left_gui = if capture then some 91 else none
key_code capture preset right_gui = if capture then some 92 else none
key_code capture preset unhandled = if preset == 0 then none else some preset
key_code capture preset k = fixed_code k
