-- ===== src/Keyboard.antt =====
-- The keyboard of a session: src/app/stream/input/session_keyboard.c, for the webOS build.
pub mod Codes
pub mod Count
pub mod Mirror
pub mod Remote
mod Examples
use moonlight_tv.Base.{
  ℕ, zero, suc, ◌+◌, ◌-◌, ◌%◌, ◌^◌, List, [], ◌∷◌, ◌++◌, Option, none, some, Bool, true, false, not,
  ◌&&◌, ◌||◌, leb, ◌==◌, if◌then◌else◌,
}
use moonlight_tv.Base.Int.{ℤ, pos, negsuc}
use moonlight_tv.Keyboard.Codes.{Scancode, letter_key, edit_key, k_return, k_kp_enter, key_code}

pub data Combo : Type 0 where
  quit ungrab_input toggle_full_screen toggle_stats_overlay toggle_mouse_mode : Combo
  toggle_cursor_hide toggle_minimize : Combo

-- `MODIFIER_*`, by name.
pub record Mods : Type 0 where
  pub ctrl : Bool
  pub alt : Bool
  pub shift : Bool
  pub meta : Bool

abbrev pub no_mods : Mods
no_mods = record { ctrl = false; alt = false; shift = false; meta = false }

-- The variables of the file, with the fields of `stream_input_t` for the remote's OK key.
-- `pressed` is the list `_pressed_keys`, and `pending` is none for `KeyComboMax`.
pub record Keyboard : Type 0 where
  pub view_only : Bool
  pub syskey_capture : Bool
  pub pressed : List ℕ
  pub keydown_count : ℤ
  pub pending : Option Combo
  pub ok_pressed : Bool
  pub ok_pressed_at : ℕ
  pub ok_modifiers : Mods

-- `SDL_KeyboardEvent`; `sym` is the character of the key and `sym_is_enter` whether it is one of
-- `SDLK_RETURN` and `SDLK_KP_ENTER`. The last three are what SDL and the remote's keys say at the
-- event: the clock, whether a key is still down, and the code that a key of the remote has set.
pub record KeyEvent : Type 0 where
  pub is_down : Bool
  pub repeat : Bool
  pub mods : Mods
  pub scancode : Scancode
  pub sym : ℕ
  pub sym_is_enter : Bool
  pub timestamp : ℕ
  pub ticks : ℕ
  pub any_down : Bool
  pub preset : ℕ

pub data KeyCall : Type 0 where
  send_key : ℕ → Bool → Mods → KeyCall
  right_button : Bool → KeyCall
  send_text : List ℕ → KeyCall
  interrupt_session open_overlay : KeyCall

-- `m_SpecialKeyCombos`, by the lower case letter of the key; all are enabled.
unfoldable pub combo_of_letter : ℕ → Option Combo
combo_of_letter c =
    if c == b'q'
    then some quit
    else if c == b'z'
    then some ungrab_input
    else if c == b'x'
    then some toggle_full_screen
    else if c == b's'
    then some toggle_stats_overlay
    else if c == b'm'
    then some toggle_mouse_mode
    else if c == b'c'
    then some toggle_cursor_hide
    else if c == b'd'
    then some toggle_minimize
    else none

unfoldable pub combo_of_scancode : Scancode → Option Combo
unfolding combo_of_letter
combo_of_scancode (letter_key i) = combo_of_letter (i + b'a')
combo_of_scancode _ = none

unfoldable pub or_combo : Option Combo → Option Combo → Option Combo
or_combo (some c) other = some c
or_combo none other = other

-- The combination pending after the tests at the head of the handler.
unfoldable pub pending_after : Keyboard → KeyEvent → Option Combo
unfolding or_combo combo_of_letter combo_of_scancode
pending_after k e =
    if e.is_down && e.mods.ctrl && e.mods.alt && e.mods.shift
    then or_combo k.pending (or_combo (combo_of_letter e.sym) (combo_of_scancode e.scancode))
    else k.pending

unfoldable pub is_pending : Option Combo → Bool
is_pending none = false
is_pending (some c) = true

unfoldable pub modifiers : Keyboard → KeyEvent → Mods
modifiers k e = record {
  ctrl = e.mods.ctrl;
  alt = e.mods.alt;
  shift = e.mods.shift;
  meta = e.mods.meta && k.syskey_capture;
}

unfoldable pub is_ok_scancode : Scancode → Bool
is_ok_scancode (edit_key k_return) = true
is_ok_scancode (edit_key k_kp_enter) = true
is_ok_scancode _ = false

unfoldable pub event_time : KeyEvent → ℕ
event_time e = if e.timestamp == 0 then e.ticks else e.timestamp

abbrev pub right_click_hold_ms : ℕ
right_click_hold_ms = 600

-- `stream_input_handle_remote_ok_long_press`; the flag is its result. 32781 is `0x8000 | VK_RETURN`.
unfoldable pub handle_ok_long_press : Keyboard → KeyEvent → Mods → Keyboard × Bool × List KeyCall
unfolding is_ok_scancode event_time
handle_ok_long_press k e m =
    let held : ℕ = (event_time e + 2 ^ 32 - k.ok_pressed_at) % 2 ^ 32 in
    let k1 : Keyboard = record k {
      ok_pressed = false;
      ok_pressed_at = 0;
      ok_modifiers = no_mods;
    } in
    if not (e.sym_is_enter || is_ok_scancode e.scancode)
    then (k, false, [])
    else if e.repeat
    then (k, true, [])
    else if e.is_down
    then (record k { ok_pressed = true; ok_pressed_at = event_time e; ok_modifiers = m }, true, [])
    else if not k.ok_pressed
    then (k, false, [])
    else if k.view_only
    then (k1, true, [])
    else if leb right_click_hold_ms held
    then (k1, true, right_button true ∷ right_button false ∷ [])
    else (k1, true, send_key 32781 true k.ok_modifiers ∷ send_key 32781 false k.ok_modifiers ∷ [])

unfoldable pub combo_calls : Option Combo → List KeyCall
combo_calls (some quit) = interrupt_session ∷ []
combo_calls (some toggle_stats_overlay) = open_overlay ∷ []
combo_calls _ = []

-- `keys_append`, and `keys_find_by` with `keys_remove`; the flag is whether the key was there.
unfoldable pub append_key : List ℕ → ℕ → List ℕ
append_key keys c = keys ++ (c ∷ [])

unfoldable pub remove_key : List ℕ → ℕ → List ℕ × Bool
remove_key [] c = ([], false)
remove_key (x ∷ xs) c =
    let (ys, found) = remove_key xs c in if x == c then (xs, true) else (x ∷ ys, found)

unfoldable pub increment : ℤ → ℤ
increment (pos n) = pos (n + 1)
increment (negsuc zero) = pos 0
increment (negsuc (suc n)) = negsuc n

unfoldable pub decrement : ℤ → ℤ
decrement (pos zero) = negsuc 0
decrement (pos (suc n)) = pos n
decrement (negsuc n) = negsuc (n + 1)

-- The tracking of the key and the event to the host.
unfoldable pub track : Keyboard → Bool → ℕ → Mods → Keyboard × List KeyCall
unfolding append_key remove_key increment decrement
track k down c m =
    let keys : List ℕ = if down then append_key k.pressed c else (remove_key k.pressed c).0 in
    if k.view_only then (record k { pressed = keys }, []) else (
      record k {
        pressed = keys;
        keydown_count = if down then increment k.keydown_count else decrement k.keydown_count;
      },
      send_key (32768 + c) down m ∷ [],
    )

abbrev pub is_empty : List ℕ → Bool
is_empty [] = true
is_empty (x ∷ xs) = false

-- The end of the handler: a pending combination is performed when all keys are up.
unfoldable pub perform : Bool → Keyboard → Keyboard × List KeyCall
unfolding combo_calls is_pending
perform any_down k =
    if is_pending k.pending && is_empty k.pressed && not any_down
    then (record k { pending = none }, combo_calls k.pending)
    else (k, [])

unfoldable pub handle_code : Keyboard → KeyEvent → Mods → ℕ → Keyboard × List KeyCall
unfolding track perform
handle_code k e m c =
    let (k1, calls1) = track k e.is_down c m in
    let (k2, calls2) = perform e.any_down k1 in (k2, calls1 ++ calls2)

unfoldable pub translate : Keyboard → KeyEvent → Mods → Keyboard × List KeyCall
unfolding key_code handle_code
translate k e m = elim (key_code k.syskey_capture e.preset e.scancode) [
  | none ↦ (k, [])
  | some c ↦ handle_code k e m c
]

-- `stream_input_handle_key`, for an event that the remote's keys have not taken.
unfoldable pub handle_key : Keyboard → KeyEvent → Keyboard × List KeyCall
unfolding pending_after is_pending modifiers handle_ok_long_press translate
handle_key k e =
    let k1 : Keyboard = record k { pending = pending_after k e } in
    let (k2, taken, calls) = handle_ok_long_press k1 e (modifiers k1 e) in
    let rest = translate k2 e (modifiers k1 e) in
    if e.is_down && is_pending k1.pending
    then (k1, [])
    else if e.repeat
    then (k1, [])
    else if taken
    then (k2, calls)
    else rest

unfoldable pub handle_text : Keyboard → List ℕ → List KeyCall
handle_text k [] = []
handle_text k (c ∷ cs) = elim k.keydown_count [ pos zero ↦ send_text (c ∷ cs) ∷ [] | _ ↦ [] ]

-- `stream_input_send_key_event`, for the on-screen keyboard.
unfoldable pub send_key_event : Keyboard → ℕ → Bool → Mods → Keyboard × List KeyCall
unfolding append_key remove_key increment decrement
send_key_event k c down m =
    let (keys, found) = remove_key k.pressed c in
    let calls : List KeyCall = send_key (32768 + c) down m ∷ [] in
    if k.view_only
    then (k, [])
    else if down
    then (
      record k { pressed = append_key k.pressed c; keydown_count = increment k.keydown_count },
      calls,
    )
    else if found
    then (record k { pressed = keys; keydown_count = decrement k.keydown_count }, calls)
    else (k, calls)

unfoldable pub release_calls : List ℕ → List KeyCall
release_calls [] = []
release_calls (c ∷ cs) = send_key (32768 + c) false no_mods ∷ release_calls cs

unfoldable pub flush_pressed_keys : Keyboard → Keyboard × List KeyCall
unfolding release_calls
flush_pressed_keys k =
    if k.view_only
    then (k, [])
    else (record k { pressed = []; keydown_count = pos 0; pending = none }, release_calls k.pressed)
