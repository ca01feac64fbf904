-- ===== src/Keyboard/Remote.antt =====
-- The keys of the remote during a session: src/app/platform/webos/keyboard_webos.c.
use moonlight_tv.Base.{ℕ, List, [], ◌∷◌, Option, none, some, Bool, not, ◌&&◌, ◌||◌, if◌then◌else◌}
use moonlight_tv.Keyboard.{Keyboard, KeyEvent, KeyCall, handle_key}

-- `SDL_SCANCODE_WEBOS_*`, those that the handler knows.
pub data RemoteKey : Type 0 where
  remote_exit remote_home remote_back remote_ch_up remote_ch_down remote_blue remote_red : RemoteKey

-- The events that are put on the bus, and the call of the system.
pub data RemoteCall : Type 0 where
  push_overlay push_soft_keyboard push_close_keyboard push_close_panel open_ribbon : RemoteCall

-- What the user interface says at the event.
pub record Screen : Type 0 where
  pub has_session : Bool
  pub keyboard_shown : Bool
  pub panel_shown : Bool
  pub blocks_input : Bool

-- `stream_input_webos_intercept_remote_keys`: the key code to go on with, or none where the key is
-- taken. The codes are those of src/app/stream/input/vk.h.
unfoldable pub intercept : Screen → Bool → Bool → RemoteKey → Option ℕ × List RemoteCall
intercept w view_only is_down remote_exit = (none, if is_down then push_overlay ∷ [] else [])
intercept w view_only is_down remote_home =
    if w.has_session && not view_only
    then (some 36, [])
    else (none, if is_down then [] else open_ribbon ∷ [])
intercept w view_only is_down remote_back =
    if w.keyboard_shown
    then (none, push_close_keyboard ∷ [])
    else if w.panel_shown
    then (none, push_close_panel ∷ [])
    else (some 27, [])
intercept w view_only is_down remote_ch_up =
    if not w.has_session || w.blocks_input then (none, []) else (some 33, [])
intercept w view_only is_down remote_ch_down =
    if not w.has_session || w.blocks_input then (none, []) else (some 34, [])
intercept w view_only is_down remote_blue =
    if view_only then (none, []) else (none, if is_down then push_soft_keyboard ∷ [] else [])
intercept w view_only is_down remote_red = (none, push_overlay ∷ [])

abbrev pub go_on : Keyboard → KeyEvent → Option ℕ → Keyboard × List KeyCall
go_on k e none = (k, [])
go_on k e (some code) = handle_key k (record e { preset = code })

-- The head of `stream_input_handle_key`, and the rest of it for a key that is not taken.
unfoldable pub handle_event :
    Screen → Keyboard → Option RemoteKey → KeyEvent → (Keyboard × List KeyCall) × List RemoteCall
unfolding intercept
handle_event w k none e = (go_on k e (some 0), [])
handle_event w k (some r) e =
    let (code, calls) = intercept w k.view_only e.is_down r in (go_on k e code, calls)
