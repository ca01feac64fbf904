-- ===== src/Settings/Session.antt =====
-- The configuration of a session from the settings: `session_config_init` of src/app/stream/session.c,
-- for the webOS build with surround sound.
use moonlight_tv.Base.{
  ℕ, ◌+◌, ◌/◌, Bool, true, false, not, ◌&&◌, ◌||◌, ltb, ◌==◌, if◌then◌else◌, ◌≡◌, refl, sym, subst,
  ap, ◌∙◌, arith, inl, inr, Bool-cases, if_both,
}
use moonlight_tv.Base.Int.{ℤ, pos, negsuc}
use moonlight_tv.Settings.{
  Audio, stereo, surround_51, surround_71, Settings, less_than, more_than, equals,
  ntsc_refresh_rate_x100_for_fps, implies_other_fps, reconcile_refresh_rate,
}
use moonlight_tv.Settings.Clamp.{Between, Agrees, reconcile_refresh_rate-twice}

-- The bits of `supportedVideoFormats`.
pub record Formats : Type 0 where
  pub h264 : Bool
  pub h265 : Bool
  pub h265_main10 : Bool
  pub av1_main8 : Bool
  pub av1_main10 : Bool

pub data ColorSpace : Type 0 where
  rec_601 rec_709 rec_2020 : ColorSpace

-- What the video and audio drivers support.
pub record Drivers : Type 0 where
  pub has_h264 : Bool
  pub has_h265 : Bool
  pub has_av1 : Bool
  pub has_hdr : Bool
  pub has_bt2020 : Bool
  pub has_bt709 : Bool
  pub max_channels : ℕ

-- `session_config_t`
pub record Config : Type 0 where
  pub width : ℤ
  pub height : ℤ
  pub fps : ℤ
  pub bitrate : ℤ
  pub client_refresh_rate_x100 : ℤ
  pub formats : Formats
  pub color_space : ColorSpace
  pub full_range : Bool
  pub audio : Audio
  pub sops : Bool
  pub view_only : Bool
  pub local_audio : Bool
  pub hardware_mouse : Bool
  pub vmouse : Bool
  pub stick_deadzone : ℤ
  pub hid_passthrough : Bool
  pub hid_passthrough_port : ℤ
  pub hid_passthrough_autoplug : Bool

-- `(x100 + 50) / 100`, for an `x100` above 0.
abbrev pub rounded_fps : ℤ → ℤ
rounded_fps (pos x100) = pos ((x100 + 50) / 100)
rounded_fps (negsuc x100) = pos 0

unfoldable pub session_deadzone : ℤ → ℤ
session_deadzone z = if less_than z 0 then pos 0 else if more_than z 100 then pos 100 else z

abbrev pub is_empty : Formats → Bool
is_empty f = not (f.h264 || f.h265 || f.h265_main10 || f.av1_main8 || f.av1_main10)

unfoldable pub offered : Settings → Drivers → Formats → Formats
offered c d f = record {
  h264 = f.h264 || d.has_h264;
  h265 = f.h265 || (c.hevc && d.has_h265);
  h265_main10 = f.h265_main10 || (c.hevc && d.has_h265 && c.hdr && d.has_hdr);
  av1_main8 = f.av1_main8 || (c.av1 && d.has_av1);
  av1_main10 = f.av1_main10 || (c.av1 && d.has_av1 && c.hdr && d.has_hdr);
}

unfoldable pub supported : Settings → Drivers → Formats → Formats
unfolding offered
supported c d f =
    if is_empty (offered c d f) then record (offered c d f) { h264 = true } else offered c d f

unfoldable pub color_space_of : Drivers → Formats → ColorSpace
color_space_of d f =
    if d.has_bt2020 && (f.h265 || f.h265_main10 || f.av1_main8 || f.av1_main10)
    then rec_2020
    else if d.has_bt709
    then rec_709
    else rec_601

abbrev pub channels : Audio → ℕ
channels stereo = 2
channels surround_51 = 6
channels surround_71 = 8

unfoldable pub fitting_audio : ℕ → Audio → Audio
fitting_audio max_channels a =
    if not (ltb max_channels (channels a))
    then a
    else if max_channels == 2
    then stereo
    else if max_channels == 6
    then surround_51
    else if max_channels == 8
    then surround_71
    else a

-- `initial` are the formats that the streaming library's initialiser leaves, and `optimal` is the
-- bitrate of `settings_optimal_bitrate`.
unfoldable pub session_config : Settings → Drivers → Formats → ℤ → Config
unfolding session_deadzone supported color_space_of fitting_audio reconcile_refresh_rate
session_config c d initial optimal =
    let resolved = reconcile_refresh_rate c in
    let rated = more_than resolved.client_refresh_rate_x100 0 in
    record {
      width = resolved.width;
      height = resolved.height;
      fps = if rated then rounded_fps resolved.client_refresh_rate_x100 else resolved.fps;
      bitrate = if less_than resolved.bitrate 0 then optimal else resolved.bitrate;
      client_refresh_rate_x100 = if rated then resolved.client_refresh_rate_x100 else pos 0;
      formats = supported c d initial;
      color_space = color_space_of d (supported c d initial);
      full_range = not c.hdr && c.force_full_color_range;
      audio = fitting_audio d.max_channels resolved.audio;
      sops = c.sops;
      view_only = c.viewonly;
      local_audio = c.localaudio;
      hardware_mouse = c.hardware_mouse;
      vmouse = c.virtual_mouse;
      stick_deadzone = session_deadzone c.stick_deadzone;
      hid_passthrough = c.hid_passthrough;
      hid_passthrough_port =
          if more_than c.hid_passthrough_port 0 then c.hid_passthrough_port else pos 48054;
      hid_passthrough_autoplug = c.hid_passthrough_autoplug;
    }

ntsc_rounds :
    (fps : ℤ)
    → (if more_than (pos (ntsc_refresh_rate_x100_for_fps fps)) 0
        then rounded_fps (pos (ntsc_refresh_rate_x100_for_fps fps))
        else fps)
      ≡ fps
unfolding ntsc_refresh_rate_x100_for_fps more_than equals
ntsc_rounds (pos n) = ground arith
ntsc_rounds (negsuc n) = refl

rate_rounds :
    (x fps : ℤ)
    → (more_than x 0 && implies_other_fps x fps) ≡ false
    → (if more_than x 0 then rounded_fps x else fps) ≡ fps
unfolding more_than implies_other_fps equals
rate_rounds (pos m) (pos n) h = ground (arith, h)
rate_rounds (pos m) (negsuc n) h = ground (arith, h)
rate_rounds (negsuc m) fps h = refl

agreed_fps :
    (c : Settings)
    → Agrees c
    → (if more_than c.client_refresh_rate_x100 0
        then rounded_fps c.client_refresh_rate_x100
        else c.fps)
      ≡ c.fps
agreed_fps c (inl e) =
    subst (λ x. (if more_than x 0 then rounded_fps x else c.fps) ≡ c.fps) (sym e)
      (ntsc_rounds c.fps)
agreed_fps c (inr h) = rate_rounds c.client_refresh_rate_x100 c.fps h

reconcile-fps : (c : Settings) → (reconcile_refresh_rate c).fps ≡ c.fps
unfolding reconcile_refresh_rate
reconcile-fps c =
    if_both {A = Settings} (λ r. r.fps ≡ c.fps) (ltb 0 (ntsc_refresh_rate_x100_for_fps c.fps)) refl
      (if_both {A = Settings} (λ r. r.fps ≡ c.fps) _ refl refl)

supported-some : (c : Settings) (d : Drivers) (f : Formats) → is_empty (supported c d f) ≡ false
unfolding supported
supported-some c d f = elim (Bool-cases (is_empty (offered c d f))) [
  | inl e ↦ subst (λ g. is_empty g ≡ false) (sym (pick true e)) refl
  | inr e ↦ subst (λ g. is_empty g ≡ false) (sym (pick false e)) e
]
  where
    pick :
        (b : Bool)
        → is_empty (offered c d f) ≡ b
        → (if is_empty (offered c d f)
            then record (offered c d f) { h264 = true }
            else offered c d f)
          ≡ (if b then record (offered c d f) { h264 = true } else offered c d f)
    pick b e = ap (λ x. if x then record (offered c d f) { h264 = true } else offered c d f) e

deadzone-Between : (z : ℤ) → Between 0 100 (session_deadzone z)
unfolding session_deadzone less_than more_than
deadzone-Between (negsuc n) = (0, (refl, omega arith, omega arith))
deadzone-Between (pos n) =
    if_both (Between 0 100) (ltb n 0) (0, (refl, omega arith, omega arith))
      (elim (Bool-cases (ltb 100 n)) [
        | inl e ↦ subst (Between 0 100) (sym (capped e)) (100, (refl, omega arith, omega arith))
        | inr e ↦ subst (Between 0 100) (sym (capped e)) (n, (refl, omega arith, ground (arith, e)))
      ])
  where
    capped :
        {b : Bool}
        → ltb 100 n ≡ b
        → (if ltb 100 n then pos 100 else pos n) ≡ (if b then pos 100 else pos n)
    capped e = ap (λ x. if x then pos 100 else pos n) e

positive_port : (z : ℤ) → more_than (if more_than z 0 then z else pos 48054) 0 ≡ true
unfolding more_than
positive_port (pos n) = ground arith
positive_port (negsuc n) = refl

-- Whatever the settings, the drivers and the formats that the library starts with, the
-- configuration of a session has the frame rate of the settings, at least one video format, a
-- dead zone of 0 to 100 percent and a port above 0.
pub session_config-fits :
    (c : Settings) (d : Drivers) (initial : Formats) (optimal : ℤ)
    → ((session_config c d initial optimal).fps ≡ c.fps)
      × (is_empty (session_config c d initial optimal).formats ≡ false)
      × Between 0 100 (session_config c d initial optimal).stick_deadzone
      × (more_than (session_config c d initial optimal).hid_passthrough_port 0 ≡ true)
unfolding session_config
session_config-fits c d initial optimal = (
  agreed_fps (reconcile_refresh_rate c) (reconcile_refresh_rate-twice c).1 ∙ reconcile-fps c,
  supported-some c d initial,
  deadzone-Between c.stick_deadzone,
  positive_port c.hid_passthrough_port,
)
