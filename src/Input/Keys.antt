-- ===== src/Input/Keys.antt =====
-- The keyboard of a view-only session: src/app/stream/input/session_keyboard.c.
use moonlight_tv.Base.{
  ℕ, List, [], ◌∷◌, ◌++◌, Option, none, some, Bool, true, not, ◌&&◌, ◌||◌, ◌≡◌, if_both, then_of,
}
use moonlight_tv.Keyboard.{
  Keyboard, KeyEvent, KeyCall, Mods, interrupt_session, open_overlay, handle_key, is_pending,
  pending_after, modifiers, handle_ok_long_press, translate, handle_code, track, perform,
  combo_calls, is_empty, Combo, quit, toggle_stats_overlay, is_ok_scancode,
}
use moonlight_tv.Keyboard.Codes.{key_code}
use moonlight_tv.Keyboard.Remote.{RemoteKey, Screen, intercept, go_on, handle_event}

-- A key call that stays on this side.
abbrev pub KeyStays : KeyCall → Type 0
KeyStays interrupt_session = Unit {0}
KeyStays open_overlay = Unit {0}
KeyStays _ = ⊥

abbrev pub KeysStay : List KeyCall → Type 0
KeysStay [] = Unit {0}
KeysStay (c ∷ cs) = KeyStays c × KeysStay cs

KeysStay-append : (cs ds : List KeyCall) → KeysStay cs → KeysStay ds → KeysStay (cs ++ ds)
KeysStay-append [] ds h k = k
KeysStay-append (c ∷ cs) ds (x, h) k = (x, KeysStay-append cs ds h k)

-- A keyboard of a view-only session after a step that sends nothing.
abbrev pub KeyQuiet : Keyboard × List KeyCall → Type 0
KeyQuiet r = (r.0.view_only ≡ true) × KeysStay r.1

combo_calls-KeysStay : (c : Option Combo) → KeysStay (combo_calls c)
unfolding combo_calls
combo_calls-KeysStay none = tt
combo_calls-KeysStay (some quit) = (tt, tt)
combo_calls-KeysStay (some toggle_stats_overlay) = (tt, tt)
combo_calls-KeysStay (some _) = tt

perform-KeyQuiet : (d : Bool) (k : Keyboard) → k.view_only ≡ true → KeyQuiet (perform d k)
unfolding perform
perform-KeyQuiet d k v =
    if_both KeyQuiet (is_pending k.pending && is_empty k.pressed && not d)
      (v, combo_calls-KeysStay k.pending) (v, tt)

track-KeyQuiet :
    (k : Keyboard) (d : Bool) (c : ℕ) (m : Mods) → k.view_only ≡ true → KeyQuiet (track k d c m)
unfolding track
track-KeyQuiet k d c m v = then_of KeyQuiet k.view_only _ v (v, tt)

code-KeyQuiet :
    (k : Keyboard) (e : KeyEvent) (m : Mods) (c : ℕ)
    → k.view_only ≡ true
    → KeyQuiet (handle_code k e m c)
unfolding handle_code
code-KeyQuiet k e m c v =
    let a = track-KeyQuiet k e.is_down c m v in
    let b = perform-KeyQuiet e.any_down (track k e.is_down c m).0 a.0 in
    (
      b.0,
      KeysStay-append (track k e.is_down c m).1 (perform e.any_down (track k e.is_down c m).0).1 a.1
          b.1,
    )

translate-KeyQuiet :
    (k : Keyboard) (e : KeyEvent) (m : Mods) → k.view_only ≡ true → KeyQuiet (translate k e m)
unfolding translate
translate-KeyQuiet k e m v = go (key_code k.syskey_capture e.preset e.scancode)
  where
    go : (o : Option ℕ) → KeyQuiet (elim o [ none ↦ (k, []) | some c ↦ handle_code k e m c ])
    go none = (v, tt)
    go (some c) = code-KeyQuiet k e m c v

abbrev LongQuiet : Keyboard × Bool × List KeyCall → Type 0
LongQuiet r = (r.0.view_only ≡ true) × KeysStay r.2

long-LongQuiet :
    (k : Keyboard) (e : KeyEvent) (m : Mods)
    → k.view_only ≡ true
    → LongQuiet (handle_ok_long_press k e m)
unfolding handle_ok_long_press
long-LongQuiet k e m v =
    if_both LongQuiet (not (e.sym_is_enter || is_ok_scancode e.scancode)) (v, tt)
      (if_both LongQuiet e.repeat (v, tt)
        (if_both LongQuiet e.is_down (v, tt)
          (if_both LongQuiet (not k.ok_pressed) (v, tt)
            (then_of LongQuiet k.view_only _ v (v, tt)))))

handle_key-KeyQuiet : (k : Keyboard) (e : KeyEvent) → k.view_only ≡ true → KeyQuiet (handle_key k e)
unfolding handle_key
handle_key-KeyQuiet k e v =
    let k1 : Keyboard = record k { pending = pending_after k e } in
    let l = long-LongQuiet k1 e (modifiers k1 e) v in
    if_both KeyQuiet (e.is_down && is_pending k1.pending) (v, tt)
      (if_both KeyQuiet e.repeat (v, tt)
        (if_both KeyQuiet (handle_ok_long_press k1 e (modifiers k1 e)).1 (l.0, l.1)
          (translate-KeyQuiet (handle_ok_long_press k1 e (modifiers k1 e)).0 e (modifiers k1 e)
            l.0)))

go_on-KeyQuiet :
    (k : Keyboard) (e : KeyEvent) (c : Option ℕ) → k.view_only ≡ true → KeyQuiet (go_on k e c)
go_on-KeyQuiet k e none v = (v, tt)
go_on-KeyQuiet k e (some code) v = handle_key-KeyQuiet k (record e { preset = code }) v

pub handle_event-KeyQuiet :
    (w : Screen) (k : Keyboard) (r : Option RemoteKey) (e : KeyEvent)
    → k.view_only ≡ true
    → KeyQuiet (handle_event w k r e).0
unfolding handle_event
handle_event-KeyQuiet w k none e v = go_on-KeyQuiet k e (some 0) v
handle_event-KeyQuiet w k (some r) e v =
    go_on-KeyQuiet k e (intercept w k.view_only e.is_down r).0 v
