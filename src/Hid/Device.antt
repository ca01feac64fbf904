-- ===== src/Hid/Device.antt =====
-- Which HID devices are taken for gamepads, and what a device does with the host's messages:
-- src/app/hid_passthrough/hid_device.c.
use moonlight_tv.Base.{
  ℕ, List, [], ◌∷◌, ◌++◌, Option, none, some, Bool, true, false, not, ◌&&◌, ◌||◌, leb, ◌==◌,
  if◌then◌else◌, ◌≡◌, arith, length, take,
}
use moonlight_tv.Ctmb.{
  Header, flag_ok, msg_output_report, msg_feature_get, msg_feature_report, msg_feature_set,
  le_bytes,
}
use moonlight_tv.Text.{codes, contains_ci}

abbrev pub lg_vendor : ℕ
lg_vendor = 0x005d

abbrev pub max_report : ℕ
max_report = 4096

abbrev pub any_of : List ℕ → ℕ → Bool
any_of [] v = false
any_of (w ∷ ws) v = v == w || any_of ws v

-- The vendors of controllers that are accepted where the descriptor could not be read.
abbrev pub pad_vendors : List ℕ
pad_vendors =
    0x045e ∷ 0x054c ∷ 0x057e ∷ 0x04b4 ∷ 0x3537 ∷ 0x2dc8 ∷ 0x0e6f ∷ 0x1532 ∷ 0x0738 ∷ 0x046d ∷ 0x20d6
    ∷ 0x24c6 ∷ 0x2563 ∷ 0x28de ∷ 0x0079 ∷ 0x0810 ∷ 0x1038 ∷ 0x146b ∷ 0x1949 ∷ 0x1bad ∷ 0x2378 ∷ []

unfoldable pub is_gamepad_candidate : ℕ → ℕ → ℕ → Bool
is_gamepad_candidate vendor page usage =
    if vendor == lg_vendor
    then false
    else if page == 1 && (usage == 4 || usage == 5)
    then true
    else if page == 1 && (usage == 2 || usage == 6)
    then false
    else if leb 0xff00 page
    then true
    else if page == 1 && usage == 8
    then true
    else page == 0 && usage == 0 && any_of pad_vendors vendor

-- None for the score -1.
unfoldable pub gamepad_score : ℕ → ℕ → ℕ → Option ℕ
unfolding is_gamepad_candidate
gamepad_score vendor page usage =
    if not (is_gamepad_candidate vendor page usage)
    then none
    else if page == 1 && usage == 5
    then some 100
    else if page == 1 && usage == 4
    then some 90
    else if leb 0xff00 page
    then some 50
    else if page == 1 && usage == 8
    then some 40
    else some 10

abbrev pub names_any : List (List ℕ) → Option (List ℕ) → Bool
names_any [] name = false
names_any (n ∷ ns) name = contains_ci name n || names_any ns name

abbrev pub other_names : List (List ℕ)
other_names =
    codes "remote"
    ∷ codes "keyboard"
    ∷ codes "mouse"
    ∷ codes "touch"
    ∷ codes "webos"
    ∷ codes "lge"
    ∷ []

abbrev pub pad_names : List (List ℕ)
pad_names =
    codes "controller"
    ∷ codes "gamepad"
    ∷ codes "xbox"
    ∷ codes "dualshock"
    ∷ codes "dualsense"
    ∷ codes "playstation"
    ∷ codes "wireless controller"
    ∷ codes "8bitdo"
    ∷ codes "flydigi"
    ∷ codes "gamesir"
    ∷ codes "gulikit"
    ∷ codes "pro controller"
    ∷ codes "joystick"
    ∷ []

unfoldable pub name_suggests_gamepad : Option (List ℕ) → Bool
name_suggests_gamepad none = false
name_suggests_gamepad (some []) = false
name_suggests_gamepad (some (c ∷ cs)) =
    if names_any other_names (some (c ∷ cs)) then false else names_any pad_names (some (c ∷ cs))

-- The test by which `hid_device_open` keeps a device.
unfoldable pub keeps_device : ℕ → ℕ → ℕ → List ℕ → Bool
unfolding is_gamepad_candidate name_suggests_gamepad
keeps_device vendor page usage product =
    is_gamepad_candidate vendor page usage || name_suggests_gamepad (some product)

-- The payload of `hid_device_send_hello`: the capabilities as bytes, the length of the descriptor with
-- 28 reserved bytes, and the descriptor.
unfoldable pub hello_payload : List ℕ → List ℕ → List ℕ
hello_payload caps desc = caps ++ (le_bytes 4 (length desc) ++ (le_bytes 28 0 ++ desc))

-- What a message makes the device do: a write to hidraw, its two calls on feature reports, and an
-- answer with its type, flags, request and payload.
pub data DeviceCall : Type 0 where
  write_output : List ℕ → DeviceCall
  get_feature : List ℕ → DeviceCall
  set_feature : List ℕ → DeviceCall
  answer : ℕ → ℕ → ℕ → List ℕ → DeviceCall

-- `hid_device_handle_host_message`. `is_open` says whether hidraw is open, `got` is the report that
-- reading a feature gives, none where it fails, and `set_ok` whether setting one succeeds.
unfoldable pub handle_host_message :
    Bool → Option (List ℕ) → Bool → Header → List ℕ → List DeviceCall
handle_host_message is_open got set_ok h payload =
    let wanted : List ℕ = take max_report payload in
    let answered : DeviceCall = elim got [
      | none ↦ answer msg_feature_report 0 h.h_request_id []
      | some report ↦ answer msg_feature_report flag_ok h.h_request_id report
    ] in
    let usable : Bool = not (h.h_payload_len == 0) && is_open in
    let set_answer : DeviceCall =
      answer msg_feature_report (if usable && set_ok then flag_ok else 0) h.h_request_id [] in
    if h.h_type == msg_output_report
    then (if usable then write_output payload ∷ [] else [])
    else if h.h_type == msg_feature_get
    then (if usable then get_feature wanted ∷ answered ∷ [] else [])
    else if h.h_type == msg_feature_set
    then (if usable then set_feature payload ∷ set_answer ∷ [] else set_answer ∷ [])
    else []

-- The requests that a list of calls answers.
abbrev pub answered_requests : List DeviceCall → List ℕ
answered_requests [] = []
answered_requests (answer type flags request_id payload ∷ cs) = request_id ∷ answered_requests cs
answered_requests (write_output bs ∷ cs) = answered_requests cs
answered_requests (get_feature bs ∷ cs) = answered_requests cs
answered_requests (set_feature bs ∷ cs) = answered_requests cs

-- While the device is open, a request to read a feature with a payload and one to set a feature
-- are answered once, under their own number, whether the device obeys or not; no other message is
-- answered.
pub handle_host_message-answers :
    (got : Option (List ℕ)) (set_ok : Bool) (h : Header) (payload : List ℕ)
    → answered_requests (handle_host_message true got set_ok h payload) ≡ (
        if (h.h_type == msg_feature_get && not (h.h_payload_len == 0))
          || h.h_type == msg_feature_set
        then h.h_request_id ∷ []
        else [])
unfolding handle_host_message
handle_host_message-answers none set_ok h payload = ground arith
handle_host_message-answers (some r) set_ok h payload = ground arith
