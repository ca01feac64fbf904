-- ===== src/Controller/Ds5.antt =====
-- The patch of a DualSense report: src/app/hid_passthrough/ctm/controllers/controller_ds5.c. The
-- gain of the haptics is computed in floating point, so the product of a sample with it, rounded by
-- `lrint`, is the parameter `scale` of the gain in hundredths and the sample.
use moonlight_tv.Base.{
  ℕ, zero, suc, ◌+◌, ◌-◌, ◌≤◌, ◌<◌, List, [], ◌∷◌, ◌++◌, Bool, true, false, not, ◌||◌, ◌&&◌, ltb,
  leb, ◌==◌, if◌then◌else◌, ◌≡◌, ◌≢◌, refl, sym, ap, ◌∙◌, arith, length, get_or, take, drop,
  if_both, ◌%◌, replicate,
}
use moonlight_tv.Base.Int.{ℤ, pos, negsuc}
use moonlight_tv.Base.Bits.{set_bit}
use moonlight_tv.Controller.Patch.{
  AudioMode, audio_auto, audio_off, audio_speaker, audio_headset, audio_both, WorkerSettings,
  Patched, unpatched, store, stores, signed_if_patched,
}
mod Blocks
pub mod Report
pub mod Reference
mod Stores
mod Rewrites
pub mod Whole
unfoldable pub use Blocks.*

unfoldable pub ds5_audio_block_for_mode : AudioMode → ℕ
ds5_audio_block_for_mode audio_speaker = 0x93
ds5_audio_block_for_mode audio_headset = 0x96
ds5_audio_block_for_mode audio_both = 0x95
ds5_audio_block_for_mode _ = 0x00

abbrev pub ds5_volume_raw_byte : ℕ → ℕ
ds5_volume_raw_byte v = if ltb 0x64 v then 0x64 else v

-- `(uint8_t)settings->latency_ms`, at least 20.
abbrev pub latency_byte : ℕ → ℕ
latency_byte ms = if ltb (ms % 256) 20 then 20 else ms % 256

-- The volume of the headset, that of the speaker, and the flags of a mode.
abbrev pub target_headset_volume : WorkerSettings → AudioMode → ℕ
target_headset_volume s audio_headset = ds5_volume_raw_byte s.headset_volume_percent
target_headset_volume s audio_both = ds5_volume_raw_byte s.headset_volume_percent
target_headset_volume s _ = 0

abbrev pub target_speaker_volume : WorkerSettings → AudioMode → ℕ
target_speaker_volume s audio_speaker = ds5_volume_raw_byte s.speaker_volume_percent
target_speaker_volume s audio_both = ds5_volume_raw_byte s.speaker_volume_percent
target_speaker_volume s _ = 0

abbrev pub target_audio_flags : AudioMode → ℕ
target_audio_flags audio_speaker = 0x30
target_audio_flags audio_both = 0x30
target_audio_flags _ = 0

abbrev pub latency_writes : ℕ → List (ℕ × ℕ)
latency_writes v = (3, v) ∷ (4, v) ∷ (5, v) ∷ (6, v) ∷ (7, v) ∷ []

-- `(int8_t)` of a byte, and the byte of a value that is first kept within -128 and 127.
abbrev pub sample_of : ℕ → ℤ
sample_of b = if ltb b 128 then pos b else negsuc (255 - b)

abbrev pub sample_byte : ℤ → ℕ
sample_byte (pos n) = if ltb 127 n then 127 else n
sample_byte (negsuc n) = if ltb 127 n then 128 else 255 - n

abbrev pub haptic_writes : (ℤ → ℤ) → ℕ → List ℕ → List (ℕ × ℕ)
haptic_writes gain i [] = []
haptic_writes gain i (b ∷ bs) =
    (i, sample_byte (gain (sample_of b))) ∷ haptic_writes gain (suc i) bs

-- The block at `pos` in the loop of the automatic mode, and in that of the others.
unfoldable pub patch_auto_block : WorkerSettings → List ℕ → Patched
patch_auto_block s block =
    if get_or block 0 0 == 0x91 && leb 6 (get_or block 1 0)
    then stores (latency_writes (latency_byte s.latency_ms)) (unpatched block)
    else unpatched block

unfoldable pub patch_block : (ℕ → ℤ → ℤ) → WorkerSettings → List ℕ → Patched
patch_block scale s block =
    let id : ℕ = get_or block 0 0 in
    let payload_len : ℕ = get_or block 1 0 in
    let audio_block : ℕ = ds5_audio_block_for_mode s.audio_mode in
    if id == 0x90 && leb 8 payload_len
    then stores
        ((2, set_bit (set_bit (set_bit (get_or block 2 0) 4) 5) 7)
          ∷ (3, set_bit (get_or block 3 0) 7)
          ∷ (6, target_headset_volume s s.audio_mode)
          ∷ (7, target_speaker_volume s s.audio_mode)
          ∷ (9, target_audio_flags s.audio_mode)
          ∷ [])
        (unpatched block)
    else if leb 0x93 id && leb id 0x96 && not (audio_block == 0)
    then stores ((0, audio_block) ∷ []) (unpatched block)
    else if id == 0x91 && leb 6 payload_len
    then stores (latency_writes (latency_byte s.latency_ms)) (unpatched block)
    else if id == 0x92 && leb 2 payload_len && not (s.haptics_gain_centi == 100)
    then stores (haptic_writes (scale s.haptics_gain_centi) 2 (drop 2 block)) (unpatched block)
    else unpatched block

abbrev pub is_auto : AudioMode → Bool
is_auto audio_auto = true
is_auto _ = false

abbrev pub block_patch : (ℕ → ℤ → ℤ) → WorkerSettings → List ℕ → Patched
block_patch scale s block =
    if is_auto s.audio_mode then patch_auto_block s block else patch_block scale s block

-- The bytes between the first two and the checksum, which are the blocks.
abbrev pub block_part : List ℕ → List ℕ
block_part bs = drop 2 (take (length bs - 4) bs)

abbrev pub rejoin : List ℕ → Patched → Patched
rejoin bs p = record {
  bytes = take 2 bs ++ (p.bytes ++ drop (length bs - 4) bs);
  patched = p.patched;
}

unfoldable pub ds5_patch_output : (ℕ → ℤ → ℤ) → WorkerSettings → List ℕ → List ℕ
ds5_patch_output scale s bs =
    let head : ℕ = get_or bs 0 0 in
    let body : List ℕ = block_part bs in
    if ltb (length bs) 12 || not (head == 0x36 || head == 0x32)
    then bs
    else signed_if_patched (rejoin bs (walk_blocks (block_patch scale s) (length body) body))

-- The report of `ds5_on_plug_init`, which is sent where the Bluetooth sink is to be blocked.
unfoldable pub ds5_on_plug_init : WorkerSettings → List (List ℕ)
ds5_on_plug_init s = if s.block_bt_audio_sink then (0x05 ∷ 0x18 ∷ replicate 62 0) ∷ [] else []
