-- ===== src/Hid/Descriptor.antt =====
-- The two walks over a report descriptor in src/app/hid_passthrough/ctm_hid.c.
use moonlight_tv.Base.{
  ℕ, zero, suc, ◌+◌, ◌*◌, ◌/◌, ◌%◌, ◌^◌, List, [], ◌∷◌, Option, none, some, Bool, true, false, not,
  ◌&&◌, ◌||◌, leb, ltb, ◌==◌, if◌then◌else◌, length, take, drop,
}
use moonlight_tv.Ctmb.{le_value}
use moonlight_tv.Text.{codes}

-- A short item: its type, its tag and its value.
pub record Item : Type 0 where
  pub kind : ℕ
  pub tag : ℕ
  pub value : ℕ

-- What one round of the loop does at the bytes that are left: it stops, skips a long item, or reads
-- a short one.
pub data Next : Type 0 where
  stop : Next
  skipped : List ℕ → Next
  read : Item → List ℕ → Next

-- `hid_item_u32`: the bytes do not overlap, so that `|` adds them.
unfoldable pub item_u32 : List ℕ → ℕ
item_u32 p = le_value 4 p

unfoldable pub item_len : ℕ → ℕ
item_len size_code = if size_code == 3 then 4 else size_code

unfoldable pub long_item : List ℕ → Next
long_item [] = stop
long_item (long_len ∷ []) = stop
long_item (long_len ∷ long_tag ∷ rest) =
    if ltb (length rest) long_len then stop else skipped (drop long_len rest)

unfoldable pub short_item : ℕ → List ℕ → Next
unfolding item_u32 item_len
short_item b rest =
    let len : ℕ = item_len (b % 4) in
    if ltb (length rest) len
    then stop
    else read (record { kind = b / 4 % 4; tag = b / 16 % 16; value = item_u32 (take len rest) })
        (drop len rest)

unfoldable pub next_item : List ℕ → Next
unfolding long_item short_item
next_item [] = stop
next_item (b ∷ rest) = if b == 0xfe then long_item rest else short_item b rest

-- The loop, with as many rounds as its first argument at most; none if they do not suffice.
unfoldable pub walk {ℓ} : {S : Type ℓ} → ℕ → (S → Item → S) → S → List ℕ → Option S
unfolding next_item
walk zero step s bs = none
walk (suc fuel) step s bs = elim (next_item bs) [
  | stop ↦ some s
  | skipped rest ↦ walk fuel step s rest
  | read item rest ↦ walk fuel step (step s item) rest
]

-- The bytes of a report of these many fields of this size.
unfoldable pub report_bytes : ℕ → ℕ → ℕ → ℕ
report_bytes size count id = (size * count % 2 ^ 32 + 7) % 2 ^ 32 / 8 + (if id == 0 then 0 else 1)

-- The variables of `derive_report_lengths`.
pub record Lengths : Type 0 where
  pub report_size : ℕ
  pub report_count : ℕ
  pub report_id : ℕ
  pub max_in : ℕ
  pub max_out : ℕ
  pub max_feature : ℕ

abbrev pub no_lengths : Lengths
no_lengths = record {
  report_size = 0;
  report_count = 0;
  report_id = 0;
  max_in = 0;
  max_out = 0;
  max_feature = 0;
}

-- An input, output or feature item.
unfoldable pub is_report : Item → Bool
is_report i = i.kind == 0 && (i.tag == 8 || i.tag == 9 || i.tag == 11)

unfoldable pub length_global : Lengths → ℕ → ℕ → Lengths
length_global s tag value =
    if tag == 7
    then record s { report_size = value }
    else if tag == 8
    then record s { report_id = value % 256 }
    else if tag == 9
    then record s { report_count = value }
    else s

unfoldable pub length_report : Lengths → ℕ → ℕ → Lengths
length_report s tag bytes =
    if tag == 8 && ltb s.max_in bytes
    then record s { max_in = bytes }
    else if tag == 9 && ltb s.max_out bytes
    then record s { max_out = bytes }
    else if tag == 11 && ltb s.max_feature bytes
    then record s { max_feature = bytes }
    else s

unfoldable pub length_step : Lengths → Item → Lengths
length_step s i =
    if i.kind == 1
    then length_global s i.tag i.value
    else if is_report i
    then length_report s i.tag (report_bytes s.report_size s.report_count s.report_id)
    else s

unfoldable pub scan_lengths : List ℕ → Option Lengths
unfolding walk length_step
scan_lengths desc = walk (length desc + 1) length_step no_lengths desc

-- The lengths of `ctmb_device_caps_t`.
pub record Caps : Type 0 where
  pub input_report_len : ℕ
  pub output_report_len : ℕ
  pub feature_report_len : ℕ

abbrev pub kept : ℕ → ℕ → ℕ
kept new old = if not (new == 0) && ltb new 65536 then new else old

unfoldable pub derive_report_lengths : List ℕ → Caps → Option Caps
unfolding scan_lengths
derive_report_lengths desc caps = elim (scan_lengths desc) [
  | none ↦ none
  | some s ↦ some (record {
    input_report_len = kept s.max_in caps.input_report_len;
    output_report_len = kept s.max_out caps.output_report_len;
    feature_report_len = kept s.max_feature caps.feature_report_len;
  })
]

-- The variables of `ctm_hid_top_usage`; an unset usage is 0.
pub record Usage : Type 0 where
  pub usage_page : ℕ
  pub usage : ℕ
  pub have_page : Bool
  pub have_usage : Bool
  pub report_size : ℕ
  pub report_count : ℕ
  pub report_id : ℕ
  pub max_bytes : ℕ

abbrev pub no_usage : Usage
no_usage = record {
  usage_page = 0;
  usage = 0;
  have_page = false;
  have_usage = false;
  report_size = 0;
  report_count = 0;
  report_id = 0;
  max_bytes = 0;
}

unfoldable pub usage_global : Usage → ℕ → ℕ → Usage
usage_global s tag value =
    if tag == 0
    then (if s.have_page then s else record s { usage_page = value % 65536; have_page = true })
    else if tag == 7
    then record s { report_size = value }
    else if tag == 8
    then record s { report_id = value % 256 }
    else if tag == 9
    then record s { report_count = value }
    else s

unfoldable pub usage_local : Usage → ℕ → ℕ → Usage
usage_local s tag value =
    if tag == 0 && not s.have_usage
    then record s { usage = value % 65536; have_usage = true }
    else s

unfoldable pub usage_report : Usage → ℕ → Usage
usage_report s bytes = if ltb s.max_bytes bytes then record s { max_bytes = bytes } else s

unfoldable pub usage_step : Usage → Item → Usage
usage_step s i =
    if i.kind == 1
    then usage_global s i.tag i.value
    else if i.kind == 2
    then usage_local s i.tag i.value
    else if is_report i
    then usage_report s (report_bytes s.report_size s.report_count s.report_id)
    else s

unfoldable pub top_usage : List ℕ → Option Usage
unfolding walk usage_step
top_usage desc = walk (length desc + 1) usage_step no_usage desc

unfoldable pub usage_label : ℕ → ℕ → List ℕ
usage_label page usage =
    if leb 0xff00 page
    then codes "vendor"
    else if page == 1
    then (if usage == 2
        then codes "mouse"
        else if usage == 4
        then codes "joystick"
        else if usage == 5
        then codes "gamepad"
        else if usage == 6
        then codes "keyboard"
        else if usage == 7
        then codes "keypad"
        else if usage == 8
        then codes "multiaxis"
        else if usage == 0x80
        then codes "system"
        else codes "desktop")
    else if page == 0x0b
    then codes "telephony"
    else if page == 0x0c
    then codes "consumer"
    else if page == 0x0d
    then codes "digitizer"
    else codes "other"
