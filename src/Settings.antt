-- ===== src/Settings.antt =====
-- The settings of src/app/app_settings.c: reading `moonlight.ini` line by line, what it writes, and
-- the reconciliation of the frame rate with the refresh rate, for the webOS build, which
-- forces the full screen and has the hardware mouse.
mod Keys
pub mod Save
pub mod Clamp
pub mod RoundTrip
pub mod Sample
pub mod Session
mod Examples
unfoldable pub use Keys.*
use Prim.Native.String.{String}
use moonlight_tv.Base.{
  ℕ, ◌+◌, ◌-◌, ◌/◌, ◌%◌, List, [], ◌∷◌, ◌++◌, Option, none, some, Bool, true, false, not, ◌&&◌,
  ◌||◌, ltb, leb, ◌==◌, if◌then◌else◌,
}
use moonlight_tv.Base.Int.{ℤ, pos, negsuc}
use moonlight_tv.Text.{codes, str_eq}

-- `AUDIO_CONFIGURATION_*`, whose values belong to the streaming library.
pub data Audio : Type 0 where
  stereo surround_51 surround_71 : Audio

-- `app_settings_t`, with the fields of its `STREAM_CONFIGURATION` and of its window state that the
-- program sets, without the paths.
pub record Settings : Type 0 where
  pub width : ℤ
  pub height : ℤ
  pub fps : ℤ
  pub bitrate : ℤ
  pub packet_size : ℤ
  pub audio : Audio
  pub debug_level : ℤ
  pub decoder : List ℕ
  pub audio_backend : List ℕ
  pub audio_device : Option (List ℕ)
  pub language : List ℕ
  pub sops : Bool
  pub localaudio : Bool
  pub fullscreen : Bool
  pub window_x : ℤ
  pub window_y : ℤ
  pub window_w : ℤ
  pub window_h : ℤ
  pub rotate : ℤ
  pub unsupported : Bool
  pub quitappafter : Bool
  pub autoresume : Bool
  pub viewonly : Bool
  pub absmouse : Bool
  pub hardware_mouse : Bool
  pub virtual_mouse : Bool
  pub swap_abxy : Bool
  pub syskey_capture : Bool
  pub hid_passthrough : Bool
  pub hid_passthrough_port : ℤ
  pub hid_passthrough_autoplug : Bool
  pub hdr : Bool
  pub force_full_color_range : Bool
  pub hevc : Bool
  pub idr_refresh_interval_sec : ℤ
  pub av1 : Bool
  pub show_stats_on_start : Bool
  pub show_stats_compact : Bool
  pub stick_deadzone : ℤ
  pub client_refresh_rate_x100 : ℤ

-- `z < n`, `z > n` and `z == n` for a natural number `n`.
unfoldable pub less_than : ℤ → ℕ → Bool
less_than (pos a) n = ltb a n
less_than (negsuc a) n = true

unfoldable pub more_than : ℤ → ℕ → Bool
more_than (pos a) n = ltb n a
more_than (negsuc a) n = false

unfoldable pub equals : ℤ → ℕ → Bool
equals (pos a) n = a == n
equals (negsuc a) n = false

unfoldable pub ntsc_refresh_rate_x100_for_fps : ℤ → ℕ
unfolding equals
ntsc_refresh_rate_x100_for_fps fps =
    if equals fps 30
    then 2997
    else if equals fps 60
    then 5994
    else if equals fps 120
    then 11988
    else if equals fps 240
    then 23976
    else 0

-- `(x100 + 50) / 100 != fps`, for an `x100` above 0.
unfoldable pub implies_other_fps : ℤ → ℤ → Bool
unfolding equals
implies_other_fps (pos x100) fps = not (equals fps ((x100 + 50) / 100))
implies_other_fps (negsuc x100) fps = true

unfoldable pub reconcile_refresh_rate : Settings → Settings
unfolding ntsc_refresh_rate_x100_for_fps implies_other_fps more_than
reconcile_refresh_rate c =
    let ntsc : ℕ = ntsc_refresh_rate_x100_for_fps c.fps in
    if ltb 0 ntsc
    then record c { client_refresh_rate_x100 = pos ntsc }
    else if more_than c.client_refresh_rate_x100 0
        && implies_other_fps c.client_refresh_rate_x100 c.fps
    then record c { client_refresh_rate_x100 = pos 0 }
    else c

-- The settings of a first start.
unfoldable pub initialize : Settings
unfolding reconcile_refresh_rate
initialize = reconcile_refresh_rate (record {
  width = pos 1280;
  height = pos 720;
  fps = pos 60;
  bitrate = pos 300000;
  packet_size = pos 1392;
  audio = stereo;
  debug_level = pos 0;
  decoder = codes "auto";
  audio_backend = codes "auto";
  audio_device = none;
  language = codes "auto";
  sops = true;
  localaudio = false;
  fullscreen = true;
  window_x = pos 0;
  window_y = pos 0;
  window_w = pos 0;
  window_h = pos 0;
  rotate = pos 0;
  unsupported = true;
  quitappafter = false;
  autoresume = false;
  viewonly = false;
  absmouse = true;
  hardware_mouse = false;
  virtual_mouse = false;
  swap_abxy = false;
  syskey_capture = false;
  hid_passthrough = false;
  hid_passthrough_port = pos 48054;
  hid_passthrough_autoplug = true;
  hdr = false;
  force_full_color_range = false;
  hevc = true;
  idr_refresh_interval_sec = pos 0;
  av1 = false;
  show_stats_on_start = false;
  show_stats_compact = false;
  stick_deadzone = pos 7;
  client_refresh_rate_x100 = pos 0;
})

unfoldable pub clamp_idr : ℤ → ℤ
unfolding less_than more_than equals
clamp_idr z =
    if less_than z 0
    then pos 0
    else if more_than z 60
    then pos 60
    else if equals z 1
    then pos 2
    else z

-- The bounds of the refresh rate (24000) and of the dead zone (100).
unfoldable pub clamp_to : ℕ → ℤ → ℤ
unfolding less_than more_than
clamp_to top z = if less_than z 0 then pos 0 else if more_than z top then pos top else z

unfoldable pub clamp_port : ℤ → ℤ
unfolding less_than more_than
clamp_port z = if less_than z 1 || more_than z 65535 then pos 48054 else z

unfoldable pub is_true : List ℕ → Bool
is_true value = str_eq (codes "true") value

unfoldable pub serialize_audio_config : Audio → List ℕ
serialize_audio_config stereo = codes "stereo"
serialize_audio_config surround_51 = codes "5.1ch"
serialize_audio_config surround_71 = codes "7.1ch"

unfoldable pub parse_audio_config : List ℕ → Audio
unfolding serialize_audio_config
parse_audio_config value =
    if str_eq (serialize_audio_config stereo) value
    then stereo
    else if str_eq (serialize_audio_config surround_51) value
    then surround_51
    else if str_eq (serialize_audio_config surround_71) value
    then surround_71
    else stereo

-- A line of the file: its section, its name and its value.
abbrev pub Line : Type 0
Line = List ℕ × List ℕ × List ℕ

-- `strtol` and the cast to `int` are an argument, with `none` for an error of range.
module _ (to_int : List ℕ → Option ℤ) where
  unfoldable pub set_int : List ℕ → ℤ
  set_int value = elim (to_int value) [ none ↦ pos 0 | some z ↦ z ]

  -- The branches of `settings_parse`, one for each setting it knows.
  unfoldable pub assign : Settings → Key → List ℕ → Settings
  unfolding set_int is_true clamp_idr clamp_to clamp_port parse_audio_config
  assign c k_width v = record c { width = set_int v }
  assign c k_height v = record c { height = set_int v }
  assign c k_fps v = record c { fps = set_int v }
  assign c k_bitrate v = record c { bitrate = set_int v }
  assign c k_packet_size v = record c { packet_size = set_int v }
  assign c k_rotate v = record c { rotate = set_int v }
  assign c k_idr v = record c { idr_refresh_interval_sec = clamp_idr (set_int v) }
  assign c k_hevc v = record c { hevc = is_true v }
  assign c k_av1 v = record c { av1 = is_true v }
  assign c k_legacy v = c
  assign c k_show_stats_on_start v = record c { show_stats_on_start = is_true v }
  assign c k_show_stats_compact v = record c { show_stats_compact = is_true v }
  assign c k_hdr v = record c { hdr = is_true v }
  assign c k_refresh v = record c { client_refresh_rate_x100 = clamp_to 24000 (set_int v) }
  assign c k_full_range v = record c { force_full_color_range = is_true v }
  assign c k_surround v = record c { audio = parse_audio_config v }
  assign c k_sops v = record c { sops = is_true v }
  assign c k_localaudio v = record c { localaudio = is_true v }
  assign c k_quitappafter v = record c { quitappafter = is_true v }
  assign c k_autoresume v = record c { autoresume = is_true v }
  assign c k_viewonly v = record c { viewonly = is_true v }
  assign c k_absmouse v = record c { absmouse = is_true v }
  assign c k_hardware_mouse v = record c { hardware_mouse = is_true v }
  assign c k_virtual_mouse v = record c { virtual_mouse = is_true v }
  assign c k_stick_deadzone v = record c { stick_deadzone = clamp_to 100 (set_int v) }
  assign c k_swap_abxy v = record c { swap_abxy = is_true v }
  assign c k_syskey_capture v = record c { syskey_capture = is_true v }
  assign c k_hid_passthrough v = record c { hid_passthrough = is_true v }
  assign c k_autoplug v = record c { hid_passthrough_autoplug = is_true v }
  assign c k_port v = record c { hid_passthrough_port = clamp_port (set_int v) }
  assign c k_decoder v = record c { decoder = v }
  assign c k_backend v = record c { audio_backend = v }
  assign c k_device v = record c { audio_device = some v }
  assign c k_language v = record c { language = v }
  assign c k_fullscreen v = record c { fullscreen = true }
  assign c k_debug_level v = record c { debug_level = set_int v }
  assign c k_window_x v = record c { window_x = set_int v }
  assign c k_window_y v = record c { window_y = set_int v }
  assign c k_window_w v = record c { window_w = set_int v }
  assign c k_window_h v = record c { window_h = set_int v }

  unfoldable pub parse_line : Settings → Line → Settings
  unfolding assign
  parse_line c (section, name, value) = elim (key_of section name) [
    | none ↦ c
    | some k ↦ assign c k value
  ]

  unfoldable pub parse_lines : Settings → List Line → Settings
  unfolding parse_line
  parse_lines c [] = c
  parse_lines c (l ∷ ls) = parse_lines (parse_line c l) ls

  -- `settings_read`, for the lines that `ini_parse` hands over; the flag is whether it returned 0.
  unfoldable pub read : Settings → List Line → Bool → Settings
  unfolding parse_lines reconcile_refresh_rate
  read c lines ok = if ok then reconcile_refresh_rate (parse_lines c lines) else parse_lines c lines
