-- ===== src/Settings/Save.antt =====
-- What `settings_save` of src/app/app_settings.c writes, line by line.
use Prim.Native.String.{String}
use moonlight_tv.Base.{ℕ, List, [], ◌∷◌, ◌++◌, Option, none, some, Bool, if◌then◌else◌}
use moonlight_tv.Base.Int.{ℤ}
use moonlight_tv.Text.{codes}
use moonlight_tv.Settings.{Settings, Line, serialize_audio_config, reconcile_refresh_rate}

-- `ini_write_int` prints a number as `%d`, which is an argument.
module _ (print : ℤ → List ℕ) where
  unfoldable pub write_bool : Bool → List ℕ
  write_bool b = if b then codes "true" else codes "false"

  abbrev pub line : String → String → List ℕ → Line
  line section name value = (codes section, codes name, value)

  unfoldable pub device_lines : Option (List ℕ) → List Line
  device_lines none = []
  device_lines (some []) = []
  device_lines (some (c ∷ cs)) = line "audio" "device" (c ∷ cs) ∷ []

  unfoldable pub window_lines : Settings → List Line
  window_lines c =
      if c.fullscreen
      then []
      else line "window" "x" (print c.window_x)
        ∷ line "window" "y" (print c.window_y)
        ∷ line "window" "width" (print c.window_w)
        ∷ line "window" "height" (print c.window_h)
        ∷ []

  -- The lines that `settings_save` writes after it has reconciled the settings.
  unfoldable pub saved_lines : Settings → List Line
  unfolding write_bool device_lines window_lines serialize_audio_config
  saved_lines c =
      line "" "language" c.language
      ∷ line "" "fullscreen" (write_bool c.fullscreen)
      ∷ line "" "debug_level" (print c.debug_level)
      ∷ line "streaming" "width" (print c.width)
      ∷ line "streaming" "height" (print c.height)
      ∷ line "streaming" "net_fps" (print c.fps)
      ∷ line "streaming" "bitrate" (print c.bitrate)
      ∷ line "streaming" "packetsize" (print c.packet_size)
      ∷ line "streaming" "rotate" (print c.rotate)
      ∷ line "host" "sops" (write_bool c.sops)
      ∷ line "host" "localaudio" (write_bool c.localaudio)
      ∷ line "host" "quitappafter" (write_bool c.quitappafter)
      ∷ line "host" "autoresume" (write_bool c.autoresume)
      ∷ line "host" "viewonly" (write_bool c.viewonly)
      ∷ line "input" "absmouse" (write_bool c.absmouse)
      ∷ line "input" "virtual_mouse" (write_bool c.virtual_mouse)
      ∷ line "input" "hardware_mouse" (write_bool c.hardware_mouse)
      ∷ line "input" "swap_abxy" (write_bool c.swap_abxy)
      ∷ line "input" "stick_deadzone" (print c.stick_deadzone)
      ∷ line "input" "syskey_capture" (write_bool c.syskey_capture)
      ∷ line "input" "hid_passthrough" (write_bool c.hid_passthrough)
      ∷ line "input" "hid_passthrough_port" (print c.hid_passthrough_port)
      ∷ line "input" "hid_passthrough_autoplug" (write_bool c.hid_passthrough_autoplug)
      ∷ line "video" "decoder" c.decoder
      ∷ line "video" "hdr" (write_bool c.hdr)
      ∷ line "video" "force_full_color_range" (write_bool c.force_full_color_range)
      ∷ line "video" "hevc" (write_bool c.hevc)
      ∷ line "video" "idr_refresh_interval_sec" (print c.idr_refresh_interval_sec)
      ∷ line "video" "av1" (write_bool c.av1)
      ∷ line "video" "show_stats_on_start" (write_bool c.show_stats_on_start)
      ∷ line "video" "show_stats_compact" (write_bool c.show_stats_compact)
      ∷ line "video" "client_refresh_rate_x100" (print c.client_refresh_rate_x100)
      ∷ line "audio" "backend" c.audio_backend
      ∷ (device_lines c.audio_device
          ++ (line "audio" "surround" (serialize_audio_config c.audio) ∷ window_lines c))

  unfoldable pub save : Settings → List Line
  unfolding saved_lines reconcile_refresh_rate
  save c = saved_lines (reconcile_refresh_rate c)
