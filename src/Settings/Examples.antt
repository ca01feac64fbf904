-- ===== src/Settings/Examples.antt =====
-- The theorems about settings at concrete files.
use moonlight_tv.Base.{
  ℕ, zero, suc, List, [], ◌∷◌, Option, none, some, true, false, ◌≡◌, refl, arith, inl,
}
use moonlight_tv.Base.Int.{ℤ, pos, negsuc}
use moonlight_tv.Settings.{
  more_than, Settings, Line, initialize, reconcile_refresh_rate, parse_lines, read,
  ntsc_refresh_rate_x100_for_fps, clamp_idr, clamp_to, clamp_port,
}
use moonlight_tv.Settings.Save.{line, saved_lines}
use moonlight_tv.Settings.Clamp.{Between, InBounds, read-InBounds}
use moonlight_tv.Settings.Session.{Drivers, Formats, is_empty, session_config, session_config-fits}
use moonlight_tv.Settings.RoundTrip.{AreInts, ArePlain, Clamped, read_over, parse_lines-saved_lines}
use moonlight_tv.Settings.Sample.{
  read_sample, print_sample, write_lines, parse_sample, sample-IsIni,
}

-- A number as its sign and its amount.
abbrev print_plain : ℤ → List ℕ
print_plain (pos n) = zero ∷ n ∷ []
print_plain (negsuc n) = suc zero ∷ n ∷ []

abbrev read_plain : List ℕ → Option ℤ
read_plain (zero ∷ n ∷ []) = some (pos n)
read_plain (suc zero ∷ n ∷ []) = some (negsuc n)
read_plain _ = none

plain_back : (z : ℤ) → read_plain (print_plain z) ≡ some z
plain_back (pos n) = refl
plain_back (negsuc n) = refl

initialize-InBounds : InBounds initialize
unfolding initialize reconcile_refresh_rate ntsc_refresh_rate_x100_for_fps
initialize-InBounds = record {
  idr = inl refl;
  refresh = (5994, (refl, omega arith, omega arith));
  deadzone = (7, (refl, omega arith, omega arith));
  port = (48054, (refl, omega arith, omega arith));
}

abbrev wild_lines : List Line
wild_lines =
    line print_plain "input" "stick_deadzone" (print_plain (pos 900))
    ∷ line print_plain "input" "hid_passthrough_port" (print_plain (negsuc 4))
    ∷ line print_plain "video" "idr_refresh_interval_sec" (print_plain (pos 1))
    ∷ []

read-InBounds_example : InBounds (read read_plain initialize wild_lines true)
read-InBounds_example = read-InBounds read_plain initialize wild_lines true initialize-InBounds

abbrev odd_rate : Settings
odd_rate = record initialize { fps = pos 90; client_refresh_rate_x100 = pos 11994 }

abbrev drivers : Drivers
drivers = record {
  has_h264 = true;
  has_h265 = true;
  has_av1 = false;
  has_hdr = true;
  has_bt2020 = true;
  has_bt709 = true;
  max_channels = 2;
}

abbrev no_formats : Formats
no_formats = record {
  h264 = false;
  h265 = false;
  h265_main10 = false;
  av1_main8 = false;
  av1_main10 = false;
}

session_config-fits_example :
    ((session_config odd_rate drivers no_formats (pos 300000)).fps ≡ odd_rate.fps)
    × (is_empty (session_config odd_rate drivers no_formats (pos 300000)).formats ≡ false)
    × Between 0 100 (session_config odd_rate drivers no_formats (pos 300000)).stick_deadzone
    × (more_than (session_config odd_rate drivers no_formats (pos 300000)).hid_passthrough_port 0
        ≡ true)
session_config-fits_example = session_config-fits odd_rate drivers no_formats (pos 300000)

abbrev with_device : Settings
with_device = record initialize { hardware_mouse = true; audio_device = some (112 ∷ []) }

with_device-Clamped : Clamped with_device
unfolding initialize reconcile_refresh_rate ntsc_refresh_rate_x100_for_fps clamp_idr clamp_to
    clamp_port
with_device-Clamped = record { idr = refl; refresh = refl; deadzone = refl; port = refl }

with_device-fullscreen : with_device.fullscreen ≡ true
unfolding initialize reconcile_refresh_rate ntsc_refresh_rate_x100_for_fps
with_device-fullscreen = refl

with_device-AreInts : AreInts with_device
unfolding initialize reconcile_refresh_rate ntsc_refresh_rate_x100_for_fps
with_device-AreInts = record {
  width_int = refl;
  height_int = refl;
  fps_int = refl;
  bitrate_int = refl;
  packet_size_int = refl;
  debug_level_int = refl;
  rotate_int = refl;
  port_int = refl;
  idr_int = refl;
  deadzone_int = refl;
  refresh_int = refl;
}

with_device-ArePlain : ArePlain with_device
unfolding initialize reconcile_refresh_rate ntsc_refresh_rate_x100_for_fps
with_device-ArePlain = record {
  language_plain = refl;
  decoder_plain = refl;
  backend_plain = refl;
  device_plain = refl;
}

parse_lines-saved_lines_example :
    parse_lines read_sample initialize
      (parse_sample (write_lines (saved_lines print_sample with_device)))
    ≡ read_over initialize with_device
parse_lines-saved_lines_example =
    parse_lines-saved_lines read_sample print_sample write_lines parse_sample sample-IsIni
      initialize with_device with_device-AreInts with_device-fullscreen with_device-Clamped
      with_device-ArePlain
