-- ===== src/Controller/Ds5/Reference.antt =====
-- What the patch of src/app/hid_passthrough/ctm/controllers/controller_ds5.c makes of a
-- block of a DualSense report, by patterns on the payload.
use moonlight_tv.Base.{ℕ, List, ◌∷◌, map, not, ◌&&◌, leb, ◌==◌, if◌then◌else◌, min, max, ◌%◌}
use moonlight_tv.Base.Int.{ℤ}
use moonlight_tv.Base.Bits.{set_bit}
use moonlight_tv.Controller.Patch.{
  AudioMode, audio_speaker, audio_headset, audio_both, WorkerSettings,
}
use moonlight_tv.Controller.Ds5.{Block, is_auto, sample_byte, sample_of}

-- The bytes that carry the route of a mode: the volumes of the headset and of the speaker, the flags,
-- and the number of an audio block, which for a mode without sound is left as it is.
pub record Route : Type 0 where
  pub headset : ℕ
  pub speaker : ℕ
  pub flags : ℕ
  pub block : ℕ → ℕ

abbrev pub route : AudioMode → ℕ → ℕ → Route
route audio_speaker h s = record {
  headset = 0;
  speaker = min s 100;
  flags = 0x30;
  block = λ id. 0x93;
}
route audio_headset h s = record { headset = min h 100; speaker = 0; flags = 0; block = λ id. 0x96 }
route audio_both h s = record {
  headset = min h 100;
  speaker = min s 100;
  flags = 0x30;
  block = λ id. 0x95;
}
route _ h s = record { headset = 0; speaker = 0; flags = 0; block = λ id. id }

abbrev pub route_of : WorkerSettings → Route
route_of s = route s.audio_mode s.headset_volume_percent s.speaker_volume_percent

-- The payloads of the blocks 0x90, 0x91 and 0x92; too short ones stay.
abbrev pub with_route : Route → List ℕ → List ℕ
with_route r (a ∷ b ∷ c ∷ d ∷ e ∷ f ∷ g ∷ h ∷ ps) =
    set_bit (set_bit (set_bit a 4) 5) 7
    ∷ set_bit b 7
    ∷ c
    ∷ d
    ∷ r.headset
    ∷ r.speaker
    ∷ g
    ∷ r.flags
    ∷ ps
with_route r ps = ps

abbrev pub with_latency : ℕ → List ℕ → List ℕ
with_latency v (a ∷ b ∷ c ∷ d ∷ e ∷ f ∷ ps) = a ∷ v ∷ v ∷ v ∷ v ∷ v ∷ ps
with_latency v ps = ps

abbrev pub with_gain : (ℤ → ℤ) → List ℕ → List ℕ
with_gain gain (a ∷ b ∷ ps) = map (λ p. sample_byte (gain (sample_of p))) (a ∷ b ∷ ps)
with_gain gain ps = ps

abbrev pub latency_of : WorkerSettings → ℕ
latency_of s = max 20 (s.latency_ms % 256)

-- A block after the patch: where it is of no kind of audio, in a mode that is not automatic, and in
-- any mode.
abbrev pub rest_block : (ℕ → ℤ → ℤ) → WorkerSettings → Block → Block
rest_block scale s (id, ps) =
    if id == 0x91
    then (id, with_latency (latency_of s) ps)
    else if id == 0x92 && not (s.haptics_gain_centi == 100)
    then (id, with_gain (scale s.haptics_gain_centi) ps)
    else (id, ps)

abbrev pub manual_block : (ℕ → ℤ → ℤ) → WorkerSettings → Block → Block
manual_block scale s (id, ps) =
    if id == 0x90
    then (id, with_route (route_of s) ps)
    else if leb 0x93 id && leb id 0x96
    then ((route_of s).block id, ps)
    else rest_block scale s (id, ps)

unfoldable pub new_block : (ℕ → ℤ → ℤ) → WorkerSettings → Block → Block
new_block scale s (id, ps) =
    if is_auto s.audio_mode
    then (if id == 0x91 then (id, with_latency (latency_of s) ps) else (id, ps))
    else manual_block scale s (id, ps)
