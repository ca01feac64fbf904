-- ===== src/Settings/Keys.antt =====
-- Which setting a line of the file names: the tests of `settings_parse`, in its order.
use Prim.Native.String.{String}
use moonlight_tv.Base.{ℕ, List, [], ◌∷◌, Option, none, some, ◌&&◌, if◌then◌else◌}
use moonlight_tv.Text.{codes, str_eq}

pub data Key : Type 0 where
  k_width k_height k_fps k_bitrate k_packet_size k_rotate k_idr k_hevc k_av1 k_legacy : Key
  k_show_stats_on_start k_show_stats_compact k_hdr k_refresh k_full_range k_surround k_sops : Key
  k_localaudio k_quitappafter k_autoresume k_viewonly k_absmouse k_virtual_mouse k_hardware_mouse :
      Key
  k_stick_deadzone k_swap_abxy k_syskey_capture k_hid_passthrough k_autoplug k_port : Key
  k_decoder k_backend k_device k_language k_fullscreen k_debug_level : Key
  k_window_x k_window_y k_window_w k_window_h : Key

-- `INI_FULL_MATCH` asks for the section too, `INI_NAME_MATCH` for the name only.
pub data Test : Type 0 where
  full_match : String → String → Key → Test
  name_match : String → Key → Test

abbrev pub tests : List Test
tests =
    full_match "streaming" "width" k_width
    ∷ full_match "streaming" "height" k_height
    ∷ full_match "streaming" "net_fps" k_fps
    ∷ full_match "streaming" "bitrate" k_bitrate
    ∷ full_match "streaming" "packetsize" k_packet_size
    ∷ full_match "streaming" "rotate" k_rotate
    ∷ full_match "video" "idr_refresh_interval_sec" k_idr
    ∷ name_match "hevc" k_hevc
    ∷ full_match "video" "av1" k_av1
    ∷ full_match "video" "video_simple_sdp" k_legacy
    ∷ full_match "video" "presentation_offset_ms" k_legacy
    ∷ name_match "show_stats_on_start" k_show_stats_on_start
    ∷ name_match "show_stats_compact" k_show_stats_compact
    ∷ name_match "hdr" k_hdr
    ∷ full_match "video" "client_refresh_rate_x100" k_refresh
    ∷ full_match "video" "force_full_color_range" k_full_range
    ∷ name_match "surround" k_surround
    ∷ name_match "sops" k_sops
    ∷ name_match "localaudio" k_localaudio
    ∷ name_match "quitappafter" k_quitappafter
    ∷ name_match "autoresume" k_autoresume
    ∷ name_match "viewonly" k_viewonly
    ∷ name_match "absmouse" k_absmouse
    ∷ name_match "virtual_mouse" k_virtual_mouse
    ∷ name_match "hardware_mouse" k_hardware_mouse
    ∷ name_match "stick_deadzone" k_stick_deadzone
    ∷ name_match "swap_abxy" k_swap_abxy
    ∷ name_match "syskey_capture" k_syskey_capture
    ∷ name_match "hid_passthrough" k_hid_passthrough
    ∷ name_match "hid_passthrough_autoplug" k_autoplug
    ∷ name_match "hid_passthrough_port" k_port
    ∷ full_match "video" "decoder" k_decoder
    ∷ full_match "audio" "backend" k_backend
    ∷ full_match "audio" "device" k_device
    ∷ name_match "language" k_language
    ∷ name_match "fullscreen" k_fullscreen
    ∷ name_match "debug_level" k_debug_level
    ∷ full_match "window" "x" k_window_x
    ∷ full_match "window" "y" k_window_y
    ∷ full_match "window" "width" k_window_w
    ∷ full_match "window" "height" k_window_h
    ∷ []

unfoldable pub first_match : List Test → List ℕ → List ℕ → Option Key
first_match [] section name = none
first_match (full_match s n k ∷ ts) section name =
    let rest = first_match ts section name in
    if str_eq section (codes s) && str_eq name (codes n) then some k else rest
first_match (name_match n k ∷ ts) section name =
    let rest = first_match ts section name in if str_eq name (codes n) then some k else rest

-- The lines of the per-device preferences are taken by `hid_pt_prefs_ini_handler` before.
unfoldable pub key_of : List ℕ → List ℕ → Option Key
unfolding first_match
key_of section name =
    if str_eq section (codes "hid_pt_devices") then none else first_match tests section name
