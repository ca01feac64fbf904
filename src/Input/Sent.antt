-- ===== src/Input/Sent.antt =====
-- The calls that do not reach the host.
use moonlight_tv.Base.{List, [], ◌∷◌, ◌++◌, map}
use moonlight_tv.Keyboard.{KeyCall}
use moonlight_tv.Pads.Buttons.{
  Flag, SdlButton, PadState, Combos, Call, Axis, multi_controller, open_soft_keyboard,
  toggle_stats_pin, toggle_vmouse, vmouse_modifier, vmouse_state, with_axis, filter_sticks, capped,
  negated, vmouse_intercepted, send_state, handle_cbutton, handle_caxis,
}
use moonlight_tv.Pads.Buttons
use moonlight_tv.Pads.Buttons.Silence.{Silent}
use moonlight_tv.Input.{
  OutCall, by_key, by_remote, by_pad, by_mouse, by_device, by_sensor, by_pointer,
}
use moonlight_tv.Input.Keys.{KeyStays, KeysStay}
use moonlight_tv.Keyboard.Remote.{RemoteCall}

module _ (F : Type 0) where
  -- A call that does not reach the host.
  abbrev pub Stays : OutCall F → Type 0
  Stays (by_key c) = KeyStays c
  Stays (by_remote c) = Unit {0}
  Stays (by_pad c) = Silent (c ∷ [])
  Stays (by_mouse c) = ⊥
  Stays (by_device c) = ⊥
  Stays (by_sensor c) = ⊥
  Stays (by_pointer c) = ⊥

  abbrev pub NothingSent : List (OutCall F) → Type 0
  NothingSent [] = Unit {0}
  NothingSent (c ∷ cs) = Stays c × NothingSent cs

  pub NothingSent-append :
      (cs ds : List (OutCall F)) → NothingSent cs → NothingSent ds → NothingSent (cs ++ ds)
  NothingSent-append [] ds h k = k
  NothingSent-append (c ∷ cs) ds (x, h) k = (x, NothingSent-append cs ds h k)

  pub keys-NothingSent : (cs : List KeyCall) → KeysStay cs → NothingSent (map by_key cs)
  keys-NothingSent [] h = tt
  keys-NothingSent (c ∷ cs) (x, h) = (x, keys-NothingSent cs h)

  pub pads-NothingSent : (cs : List Call) → Silent cs → NothingSent (map by_pad cs)
  pads-NothingSent [] h = tt
  pads-NothingSent (multi_controller i m p ∷ cs) h = elim h [ ]
  pads-NothingSent (Buttons.open_overlay ∷ cs) h = (tt, pads-NothingSent cs h)
  pads-NothingSent (open_soft_keyboard ∷ cs) h = (tt, pads-NothingSent cs h)
  pads-NothingSent (toggle_stats_pin ∷ cs) h = (tt, pads-NothingSent cs h)
  pads-NothingSent (toggle_vmouse ∷ cs) h = (tt, pads-NothingSent cs h)
  pads-NothingSent (vmouse_modifier b ∷ cs) h = (tt, pads-NothingSent cs h)
  pads-NothingSent (vmouse_state p ∷ cs) h = elim h [ ]

  pub remote-NothingSent : (cs : List RemoteCall) → NothingSent (map by_remote cs)
  remote-NothingSent [] = tt
  remote-NothingSent (c ∷ cs) = (tt, remote-NothingSent cs)
