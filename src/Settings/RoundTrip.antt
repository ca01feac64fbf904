-- ===== src/Settings/RoundTrip.antt =====
-- What is saved is what is read back.
use moonlight_tv.Base.{
  [], ℕ, ◌^◌, List, ◌∷◌, Option, none, some, Bool, true, false, not, ◌&&◌, ◌||◌, ltb, ◌==◌, ◌≡◌,
  refl, ap, ◌∙◌,
}
use moonlight_tv.Base.Int.{ℤ, pos, negsuc}
use moonlight_tv.Text.{str_eq}
use moonlight_tv.Settings.{
  Line, key_of, first_match, Audio, stereo, surround_51, surround_71, Settings, is_true,
  serialize_audio_config, parse_audio_config, clamp_idr, clamp_to, clamp_port, set_int, assign,
  parse_line, parse_lines,
}
use moonlight_tv.Settings.Save.{write_bool, device_lines, window_lines, saved_lines}

audio_back : (a : Audio) → parse_audio_config (serialize_audio_config a) ≡ a
unfolding parse_audio_config serialize_audio_config str_eq
audio_back stereo = refl
audio_back surround_51 = refl
audio_back surround_71 = refl

-- A value of C's `int`, and the numbers of the settings that are saved, all of which are such.
abbrev pub is_int : ℤ → Bool
is_int (pos n) = ltb n (2 ^ 31)
is_int (negsuc n) = ltb n (2 ^ 31)

pub record AreInts (c : Settings) : Type 0 where
  pub width_int : is_int c.width ≡ true
  pub height_int : is_int c.height ≡ true
  pub fps_int : is_int c.fps ≡ true
  pub bitrate_int : is_int c.bitrate ≡ true
  pub packet_size_int : is_int c.packet_size ≡ true
  pub debug_level_int : is_int c.debug_level ≡ true
  pub rotate_int : is_int c.rotate ≡ true
  pub port_int : is_int c.hid_passthrough_port ≡ true
  pub idr_int : is_int c.idr_refresh_interval_sec ≡ true
  pub deadzone_int : is_int c.stick_deadzone ≡ true
  pub refresh_int : is_int c.client_refresh_rate_x100 ≡ true

-- A text that an ini file takes as a name or a value: no blanks and none of the bytes
-- `" # : ; = [ ]`.
abbrev pub is_plain_byte : ℕ → Bool
is_plain_byte b =
    ltb 32 b
    && not (b == b'"' || b == b'#' || b == b':' || b == b';' || b == b'=' || b == b'[' || b == b']')

abbrev pub is_plain : List ℕ → Bool
is_plain [] = true
is_plain (b ∷ bs) = is_plain_byte b && is_plain bs

abbrev pub all_plain : List Line → Bool
all_plain [] = true
all_plain ((section, name, value) ∷ ls) =
    (is_plain section && is_plain name && is_plain value) && all_plain ls

-- The texts of the settings that are saved.
abbrev pub device_text : Option (List ℕ) → List ℕ
device_text none = []
device_text (some d) = d

pub record ArePlain (c : Settings) : Type 0 where
  pub language_plain : is_plain c.language ≡ true
  pub decoder_plain : is_plain c.decoder ≡ true
  pub backend_plain : is_plain c.audio_backend ≡ true
  pub device_plain : is_plain (device_text c.audio_device) ≡ true

-- What is taken from the C library and from the library of ini files: `%d` writes an `int` as a
-- plain text, which the reader of numbers reads back, and a file of lines with plain texts is
-- parsed into these lines. `write` is what the calls of the writer leave in the file.
pub record IsIni (to_int : List ℕ → Option ℤ) (print : ℤ → List ℕ) (write : List Line → List ℕ)
    (parse : List ℕ → List Line) : Type 0 where
  pub reads_int : (z : ℤ) → is_int z ≡ true → to_int (print z) ≡ some z
  pub prints_plain : (z : ℤ) → is_int z ≡ true → is_plain (print z) ≡ true
  pub reads_lines : (ls : List Line) → all_plain ls ≡ true → parse (write ls) ≡ ls

bool_back : (print : ℤ → List ℕ) (b : Bool) → is_true (write_bool print b) ≡ b
unfolding is_true write_bool str_eq
bool_back print true = refl
bool_back print false = refl

bool_plain : (print : ℤ → List ℕ) (b : Bool) → is_plain (write_bool print b) ≡ true
unfolding write_bool
bool_plain print true = refl
bool_plain print false = refl

audio_plain : (a : Audio) → is_plain (serialize_audio_config a) ≡ true
unfolding serialize_audio_config
audio_plain stereo = refl
audio_plain surround_51 = refl
audio_plain surround_71 = refl

int_back :
    (to_int : List ℕ → Option ℤ) (print : ℤ → List ℕ) (z : ℤ)
    → to_int (print z) ≡ some z
    → set_int to_int (print z) ≡ z
unfolding set_int
int_back to_int print z back = ap (λ o. elim o [ none ↦ pos 0 | some n ↦ n ]) back

-- The numbers that are clamped when they are read are within their bounds.
pub record Clamped (c : Settings) : Type 0 where
  pub idr : clamp_idr c.idr_refresh_interval_sec ≡ c.idr_refresh_interval_sec
  pub refresh : clamp_to 24000 c.client_refresh_rate_x100 ≡ c.client_refresh_rate_x100
  pub deadzone : clamp_to 100 c.stick_deadzone ≡ c.stick_deadzone
  pub port : clamp_port c.hid_passthrough_port ≡ c.hid_passthrough_port

-- The settings `c` as they are read back over `d`: `unsupported` and the window of a full screen are
-- not written, and neither is an audio device that is not set.
abbrev device_over : Option (List ℕ) → Option (List ℕ) → Option (List ℕ)
device_over old none = old
device_over old (some []) = old
device_over old (some (x ∷ xs)) = some (x ∷ xs)

abbrev pub read_over : Settings → Settings → Settings
read_over d c = record c {
  unsupported = d.unsupported;
  audio_device = device_over d.audio_device c.audio_device;
  window_x = d.window_x;
  window_y = d.window_y;
  window_w = d.window_w;
  window_h = d.window_h;
}

module _ (to_int : List ℕ → Option ℤ) (print : ℤ → List ℕ) (write : List Line → List ℕ)
    (parse : List ℕ → List Line) (ini : IsIni to_int print write parse) (d c : Settings)
    (ints : AreInts c) (full : c.fullscreen ≡ true) where
  back : (z : ℤ) → is_int z ≡ true → set_int to_int (print z) ≡ z
  back z h = int_back to_int print z (ini.reads_int z h)

  plain : (z : ℤ) → is_int z ≡ true → is_plain (print z) ≡ true
  plain z h = ini.prints_plain z h

  same_lines :
      (o : Option (List ℕ))
      → c.audio_device ≡ o
      → Clamped c
      → parse_lines to_int d (saved_lines print c) ≡ read_over d c
  unfolding parse_lines parse_line assign saved_lines key_of first_match str_eq device_lines
      window_lines
  same_lines none device h = simp (
    full,
    device,
    bool_back print,
    audio_back,
    h.idr,
    h.refresh,
    h.deadzone,
    h.port,
    back c.width ints.width_int,
    back c.height ints.height_int,
    back c.fps ints.fps_int,
    back c.bitrate ints.bitrate_int,
    back c.packet_size ints.packet_size_int,
    back c.debug_level ints.debug_level_int,
    back c.rotate ints.rotate_int,
    back c.hid_passthrough_port ints.port_int,
    back c.idr_refresh_interval_sec ints.idr_int,
    back c.stick_deadzone ints.deadzone_int,
    back c.client_refresh_rate_x100 ints.refresh_int,
  )
  same_lines (some []) device h = simp (
    full,
    device,
    bool_back print,
    audio_back,
    h.idr,
    h.refresh,
    h.deadzone,
    h.port,
    back c.width ints.width_int,
    back c.height ints.height_int,
    back c.fps ints.fps_int,
    back c.bitrate ints.bitrate_int,
    back c.packet_size ints.packet_size_int,
    back c.debug_level ints.debug_level_int,
    back c.rotate ints.rotate_int,
    back c.hid_passthrough_port ints.port_int,
    back c.idr_refresh_interval_sec ints.idr_int,
    back c.stick_deadzone ints.deadzone_int,
    back c.client_refresh_rate_x100 ints.refresh_int,
  )
  same_lines (some (x ∷ xs)) device h = simp (
    full,
    device,
    bool_back print,
    audio_back,
    h.idr,
    h.refresh,
    h.deadzone,
    h.port,
    back c.width ints.width_int,
    back c.height ints.height_int,
    back c.fps ints.fps_int,
    back c.bitrate ints.bitrate_int,
    back c.packet_size ints.packet_size_int,
    back c.debug_level ints.debug_level_int,
    back c.rotate ints.rotate_int,
    back c.hid_passthrough_port ints.port_int,
    back c.idr_refresh_interval_sec ints.idr_int,
    back c.stick_deadzone ints.deadzone_int,
    back c.client_refresh_rate_x100 ints.refresh_int,
  )

  plain_lines :
      (o : Option (List ℕ))
      → c.audio_device ≡ o
      → is_plain (device_text o) ≡ true
      → ArePlain c
      → all_plain (saved_lines print c) ≡ true
  unfolding saved_lines device_lines window_lines
  plain_lines none device n p = simp (
    full,
    device,
    bool_plain print,
    audio_plain,
    p.language_plain,
    p.decoder_plain,
    p.backend_plain,
    plain c.width ints.width_int,
    plain c.height ints.height_int,
    plain c.fps ints.fps_int,
    plain c.bitrate ints.bitrate_int,
    plain c.packet_size ints.packet_size_int,
    plain c.debug_level ints.debug_level_int,
    plain c.rotate ints.rotate_int,
    plain c.hid_passthrough_port ints.port_int,
    plain c.idr_refresh_interval_sec ints.idr_int,
    plain c.stick_deadzone ints.deadzone_int,
    plain c.client_refresh_rate_x100 ints.refresh_int,
  )
  plain_lines (some []) device n p = simp (
    full,
    device,
    bool_plain print,
    audio_plain,
    p.language_plain,
    p.decoder_plain,
    p.backend_plain,
    plain c.width ints.width_int,
    plain c.height ints.height_int,
    plain c.fps ints.fps_int,
    plain c.bitrate ints.bitrate_int,
    plain c.packet_size ints.packet_size_int,
    plain c.debug_level ints.debug_level_int,
    plain c.rotate ints.rotate_int,
    plain c.hid_passthrough_port ints.port_int,
    plain c.idr_refresh_interval_sec ints.idr_int,
    plain c.stick_deadzone ints.deadzone_int,
    plain c.client_refresh_rate_x100 ints.refresh_int,
  )
  plain_lines (some (x ∷ xs)) device n p = simp (
    n,
    full,
    device,
    bool_plain print,
    audio_plain,
    p.language_plain,
    p.decoder_plain,
    p.backend_plain,
    plain c.width ints.width_int,
    plain c.height ints.height_int,
    plain c.fps ints.fps_int,
    plain c.bitrate ints.bitrate_int,
    plain c.packet_size ints.packet_size_int,
    plain c.debug_level ints.debug_level_int,
    plain c.rotate ints.rotate_int,
    plain c.hid_passthrough_port ints.port_int,
    plain c.idr_refresh_interval_sec ints.idr_int,
    plain c.stick_deadzone ints.deadzone_int,
    plain c.client_refresh_rate_x100 ints.refresh_int,
  )

  -- If the reader of numbers reads back each int that the printer writes, as a plain text, and
  -- the parser of ini files the lines of plain texts that the writer writes, then for full-screen
  -- settings of ints and plain texts whose clamped numbers are within bounds, what is parsed from
  -- the file written with their saved lines gives these settings, whatever the settings were
  -- before, in all fields but those that are not written, which keep their values: `unsupported`,
  -- an audio device that is not set, and the window.
  pub parse_lines-saved_lines :
      Clamped c
      → ArePlain c
      → parse_lines to_int d (parse (write (saved_lines print c))) ≡ read_over d c
  parse_lines-saved_lines h p =
      ap (parse_lines to_int d)
        (ini.reads_lines (saved_lines print c) (plain_lines c.audio_device refl p.device_plain p))
      ∙ same_lines c.audio_device refl h
