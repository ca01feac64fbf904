-- ===== src/Prefs/Ids.antt =====
-- The stable ids that preferences go by: `hid_pt_stable_id_for_logical` and
-- `hid_pt_stable_id_for_gamepad` of src/app/hid_passthrough/hid_pt_device_prefs.c, for the library
-- SDL 2.0.14 and later.
use moonlight_tv.Base.{
  ℕ, ◌+◌, ◌-◌, ◌/◌, ◌%◌, List, [], ◌∷◌, ◌++◌, Option, none, some, Bool, true, not, ◌&&◌, ◌||◌, leb,
  ltb, ◌==◌, if◌then◌else◌, length, take,
}
use moonlight_tv.Text.{codes}
use moonlight_tv.Prefs.{Table, id_len, is_blank, normalize_mac, get_auto_plugin}

-- The identifying fields of `logical_device_t`, with its cached slot.
pub record Logical : Type 0 where
  pub key : List ℕ
  pub name : List ℕ
  pub vid : List ℕ
  pub pid : List ℕ
  pub mac : List ℕ
  pub moonlight_gs_id : Option ℕ

-- What SDL reports of a joystick: its serial number, if it has one, its GUID as text, its vendor,
-- its product and its name.
pub record Joystick : Type 0 where
  pub serial : Option (List ℕ)
  pub guid_text : List ℕ
  pub vendor : ℕ
  pub product : ℕ
  pub joy_name : List ℕ

unfoldable pub is_hex : ℕ → Bool
is_hex c = (leb b'0' c && leb c b'9') || (leb b'a' c && leb c b'f') || (leb b'A' c && leb c b'F')

-- The loop of `valid_bt_address` from place `i` on.
unfoldable pub bt_bytes : ℕ → List ℕ → Bool
unfolding is_hex
bt_bytes i [] = true
bt_bytes i (c ∷ cs) = (if (i + 1) % 3 == 0 then c == b':' else is_hex c) && bt_bytes (i + 1) cs

unfoldable pub valid_bt_address : List ℕ → Bool
unfolding bt_bytes
valid_bt_address s = length s == 17 && bt_bytes 0 s

unfoldable pub id_for_logical : Logical → List ℕ
unfolding valid_bt_address normalize_mac
id_for_logical item =
    let by_mac = normalize_mac id_len item.mac in
    if valid_bt_address item.mac
    then by_mac
    else if not (is_blank item.mac) && not (is_blank by_mac)
    then by_mac
    else take id_len item.key

-- `%04x` of a number of 16 bits.
abbrev pub hex_digit : ℕ → ℕ
hex_digit n = if ltb n 10 then b'0' + n else b'a' + (n - 10)

abbrev pub hex_word : ℕ → List ℕ
hex_word n =
    hex_digit (n / 4096 % 16)
    ∷ hex_digit (n / 256 % 16)
    ∷ hex_digit (n / 16 % 16)
    ∷ hex_digit (n % 16)
    ∷ []

abbrev pub sdl_id : Joystick → List ℕ
sdl_id j = take id_len (
    codes "sdl:"
    ++ hex_word (j.vendor % 65536)
    ++ codes ":"
    ++ hex_word (j.product % 65536)
    ++ codes ":"
    ++ j.guid_text)

abbrev pub serial_id : List ℕ → List ℕ
serial_id serial =
    let by_mac = normalize_mac id_len serial in
    if length by_mac == 12 then by_mac else take id_len serial

-- A gamepad without an open controller has no id.
unfoldable pub id_for_gamepad : Option Joystick → List ℕ
unfolding normalize_mac
id_for_gamepad none = []
id_for_gamepad (some j) = elim j.serial [
  | none ↦ sdl_id j
  | some serial ↦ if is_blank serial then sdl_id j else serial_id serial
]

unfoldable pub auto_plugin_for_logical : Table → Logical → Bool
unfolding id_for_logical get_auto_plugin
auto_plugin_for_logical t item = get_auto_plugin t (id_for_logical item)

unfoldable pub auto_plugin_for_gamepad : Table → Option Joystick → Bool
unfolding id_for_gamepad get_auto_plugin
auto_plugin_for_gamepad t g = get_auto_plugin t (id_for_gamepad g)
