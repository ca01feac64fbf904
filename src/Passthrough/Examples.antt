-- ===== src/Passthrough/Examples.antt =====
-- A gamepad that is handed over to its HID device, found by its address.
use moonlight_tv.Passthrough.Autoplug.{
  Item, reconcile, reconcile_items, entry_for, usage_is_input_peripheral,
}
use moonlight_tv.Passthrough.Autoplug.Gentle.{IsGentle, reconcile-IsGentle}
use moonlight_tv.Base.{ℕ, List, [], ◌∷◌, Option, none, some, true, false, ◌≡◌, refl}
use moonlight_tv.Base.Bits.{test_bit}
use moonlight_tv.Text.{codes, lower, str_eq}
use moonlight_tv.Pads.{ps5, Session}
use moonlight_tv.Prefs.{normalize_mac}
use moonlight_tv.Prefs.Ids.{
  Logical, Joystick, id_for_logical, id_for_gamepad, valid_bt_address, bt_bytes, is_hex,
}
use moonlight_tv.Passthrough.{
  Player, Players, ids_equal, matches, first_slot, cached_gamepad, search_gamepad, find_gamepad,
  moonlight_exclude, moonlight_restore,
}
use moonlight_tv.Passthrough.Match.{Remembers, find_gamepad-Remembers}
use moonlight_tv.Passthrough.Handover.{IsPlaying, IsHandedOver, moonlight_exclude-IsHandedOver}

abbrev no_hex : List ℕ → Option ℕ
no_hex s = none

abbrev joystick : Joystick
joystick = record {
  serial = some (codes "A4-AE-11-22-33-44");
  guid_text = codes "0500";
  vendor = 1356;
  product = 3302;
  joy_name = codes "DualSense";
}

abbrev player : Player
player = record {
  pad = record {
    gs_id = 1;
    controller_type = ps5;
    has_rumble = true;
    has_rumble_triggers = false;
    has_accel = true;
    has_gyro = true;
    has_led = true;
  };
  joystick = some joystick;
}

abbrev players : Players
players = record { slots = none ∷ some player ∷ []; gamepads_count = 2 }

abbrev device : Logical
device = record {
  key = codes "usb-1";
  name = codes "Wireless Controller";
  vid = codes "054c";
  pid = codes "0ce6";
  mac = codes "a4:ae:11:22:33:44";
  moonlight_gs_id = none;
}

abbrev session : Session
session = record { started = true; view_only = false; active_mask = 3; announced = 3; excluded = 0 }

found : (find_gamepad no_hex players device).1 ≡ some player
unfolding find_gamepad cached_gamepad search_gamepad first_slot matches ids_equal id_for_logical
    id_for_gamepad normalize_mac valid_bt_address bt_bytes is_hex lower str_eq
found = refl

playing : IsPlaying session 1
unfolding test_bit
playing = record { running = refl; sending = refl; known = refl; streamed = refl }

moonlight_exclude-IsHandedOver_example :
    IsHandedOver session 1 (moonlight_exclude no_hex players session device).1
    × ((moonlight_restore no_hex players
          (moonlight_exclude no_hex players session device).1.0
          (moonlight_exclude no_hex players session device).0).1.0
        ≡ session)
moonlight_exclude-IsHandedOver_example =
    moonlight_exclude-IsHandedOver no_hex players session device player found playing

find_gamepad-Remembers_example : Remembers players (find_gamepad no_hex players device)
find_gamepad-Remembers_example = find_gamepad-Remembers no_hex players device

abbrev waiting_pad : Item
waiting_pad = record {
  item_key = 1 ∷ [];
  plugged = false;
  auto_plugin = true;
  is_plain_hid = false;
  is_puck = false;
  usage_page = 1;
  usage = 5;
}

reconcile-IsGentle_example :
    IsGentle 0 (reconcile (λ key. false) 64 0 (waiting_pad ∷ waiting_pad ∷ []) [])
reconcile-IsGentle_example =
    reconcile-IsGentle (λ key. false) 64 0 (waiting_pad ∷ waiting_pad ∷ []) []

-- The first failure ends the round, and the next attempt waits for four polls.
one_attempt :
    (reconcile (λ key. false) 64 0 (waiting_pad ∷ waiting_pad ∷ []) []).attempts
    ≡ (1 ∷ [], false) ∷ []
unfolding reconcile reconcile_items entry_for usage_is_input_peripheral
one_attempt = refl
