-- ===== src/Controller/Ds5/Rewrites.antt =====
-- The patch of a block in src/app/hid_passthrough/ctm/controllers/controller_ds5.c against the
-- reference.
use moonlight_tv.Base.{
  ℕ, List, [], ◌∷◌, Bool, true, false, not, ◌&&◌, leb, ◌==◌, if◌then◌else◌, ◌≡◌, inl, inr, refl,
  sym, subst, ap, arith, length, get_or, Bool-cases,
}
use moonlight_tv.Base.Int.{ℤ}
use moonlight_tv.Base.Bits.{set_bit}
use moonlight_tv.Controller.Patch.{
  AudioMode, audio_auto, audio_off, audio_speaker, audio_headset, audio_both, WorkerSettings,
  Patched, unpatched, stores,
}
use moonlight_tv.Controller.Ds5.{
  Block, encode_block, block_patch, patch_block, patch_auto_block, is_auto, latency_writes,
  haptic_writes, ds5_audio_block_for_mode, latency_byte, target_headset_volume,
  target_speaker_volume, target_audio_flags,
}
use moonlight_tv.Controller.Ds5.Reference.{
  Route, route, route_of, with_route, with_latency, with_gain, latency_of, rest_block, manual_block,
  new_block,
}
use moonlight_tv.Controller.Ds5.Stores.{
  Rewrites, stores-Rewrites, same-Rewrites, tables, latency-Rewrites, short_latency,
  haptic-Rewrites,
}

pub route-Rewrites :
    (s : WorkerSettings) (id : ℕ) (ps : List ℕ)
    → leb 8 (length ps) ≡ true
    → let block = encode_block (id, ps) in
      Rewrites
        (id, ps)
        (stores
          ((2, set_bit (set_bit (set_bit (get_or block 2 0) 4) 5) 7)
            ∷ (3, set_bit (get_or block 3 0) 7)
            ∷ (6, target_headset_volume s s.audio_mode)
            ∷ (7, target_speaker_volume s s.audio_mode)
            ∷ (9, target_audio_flags s.audio_mode)
            ∷ [])
          (unpatched block))
        (id, with_route (route_of s) ps)
route-Rewrites s id (a ∷ b ∷ c ∷ d ∷ e ∷ f ∷ g ∷ h ∷ ps) l =
    let (hs, sp, fl) = tables s s.audio_mode in
    stores-Rewrites _ (id, a ∷ b ∷ c ∷ d ∷ e ∷ f ∷ g ∷ h ∷ ps) _ (omega arith)
      (rw (hs, sp, fl) refl)
route-Rewrites s id [] l = absurd cc
route-Rewrites s id (a ∷ []) l = absurd cc
route-Rewrites s id (a ∷ b ∷ []) l = absurd cc
route-Rewrites s id (a ∷ b ∷ c ∷ []) l = absurd cc
route-Rewrites s id (a ∷ b ∷ c ∷ d ∷ []) l = absurd cc
route-Rewrites s id (a ∷ b ∷ c ∷ d ∷ e ∷ []) l = absurd cc
route-Rewrites s id (a ∷ b ∷ c ∷ d ∷ e ∷ f ∷ []) l = absurd cc
route-Rewrites s id (a ∷ b ∷ c ∷ d ∷ e ∷ f ∷ g ∷ []) l = absurd cc

pub short_route : (r : Route) (ps : List ℕ) → leb 8 (length ps) ≡ false → with_route r ps ≡ ps
short_route r [] l = refl
short_route r (a ∷ []) l = refl
short_route r (a ∷ b ∷ []) l = refl
short_route r (a ∷ b ∷ c ∷ []) l = refl
short_route r (a ∷ b ∷ c ∷ d ∷ []) l = refl
short_route r (a ∷ b ∷ c ∷ d ∷ e ∷ []) l = refl
short_route r (a ∷ b ∷ c ∷ d ∷ e ∷ f ∷ []) l = refl
short_route r (a ∷ b ∷ c ∷ d ∷ e ∷ f ∷ g ∷ []) l = refl
short_route r (a ∷ b ∷ c ∷ d ∷ e ∷ f ∷ g ∷ h ∷ ps) l = absurd (ground arith)

pub short_gain : (gain : ℤ → ℤ) (ps : List ℕ) → leb 2 (length ps) ≡ false → with_gain gain ps ≡ ps
short_gain gain [] l = refl
short_gain gain (a ∷ []) l = refl
short_gain gain (a ∷ b ∷ ps) l = absurd (ground arith)

-- A payload that is long enough, or one that is too short and stays.
pub if_long :
    (c : Bool) (b b' : Block) (p : Patched)
    → (c ≡ true → Rewrites b p b')
    → (c ≡ false → b' ≡ b)
    → Rewrites b (if c then p else unpatched (encode_block b)) b'
if_long true b b' p f g = f refl
if_long false b b' p f g =
    subst (Rewrites b (unpatched (encode_block b))) (sym (g refl)) (same-Rewrites b)

pub audio-Rewrites :
    (m : AudioMode) (h v id : ℕ) (ps : List ℕ)
    → let block = encode_block (id, ps) in
      Rewrites
        (id, ps)
        (if not (ds5_audio_block_for_mode m == 0)
          then stores ((0, ds5_audio_block_for_mode m) ∷ []) (unpatched block)
          else unpatched block)
        ((route m h v).block id, ps)
unfolding ds5_audio_block_for_mode
audio-Rewrites audio_auto h v id ps = same-Rewrites (id, ps)
audio-Rewrites audio_off h v id ps = same-Rewrites (id, ps)
audio-Rewrites audio_speaker h v id ps = stores-Rewrites _ (id, ps) _ (omega arith) refl
audio-Rewrites audio_headset h v id ps = stores-Rewrites _ (id, ps) _ (omega arith) refl
audio-Rewrites audio_both h v id ps = stores-Rewrites _ (id, ps) _ (omega arith) refl

pub auto-Rewrites :
    (s : WorkerSettings) (id : ℕ) (ps : List ℕ)
    → Rewrites
        (id, ps)
        (patch_auto_block s (encode_block (id, ps)))
        (if id == 0x91 then (id, with_latency (latency_of s) ps) else (id, ps))
unfolding patch_auto_block
auto-Rewrites s id ps = elim (Bool-cases (id == 0x91)) [
  | inl e ↦ rw e (
      if_long (leb 6 (length ps)) (id, ps) _ _ (latency-Rewrites s id ps)
        (λ l. ap (λ q. (id, q)) (short_latency (latency_of s) ps l)))
  | inr e ↦ rw e (same-Rewrites (id, ps))
]

pub rest-Rewrites :
    (scale : ℕ → ℤ → ℤ) (s : WorkerSettings) (id : ℕ) (ps : List ℕ)
    → let block = encode_block (id, ps) in
      let gain = s.haptics_gain_centi in
      Rewrites
        (id, ps)
        (if id == 0x91 && leb 6 (length ps)
          then stores (latency_writes (latency_byte s.latency_ms)) (unpatched block)
          else if id == 0x92 && leb 2 (length ps) && not (gain == 100)
          then stores (haptic_writes (scale gain) 2 ps) (unpatched block)
          else unpatched block)
        (rest_block scale s (id, ps))
rest-Rewrites scale s id ps = elim (Bool-cases (id == 0x91)) [
  | inl e ↦
      let e2 : (id == 0x92) ≡ false = ground arith in
      rw (e, e2)
        (if_long (leb 6 (length ps)) (id, ps) _ _ (latency-Rewrites s id ps)
          (λ l. ap (λ q. (id, q)) (short_latency (latency_of s) ps l)))
  | inr e ↦ elim (Bool-cases (id == 0x92 && not (s.haptics_gain_centi == 100))) [
    | inl a ↦
        let a2 : (id == 0x92) ≡ true = ground arith in
        let a3 : (s.haptics_gain_centi == 100) ≡ false = ground arith in
        rw (e, a2, a3)
          (elim (Bool-cases (leb 2 (length ps))) [
            | inl l ↦ rw l (haptic-Rewrites (scale s.haptics_gain_centi) id ps l)
            | inr l ↦ rw (l, short_gain (scale s.haptics_gain_centi) ps l) (same-Rewrites (id, ps))
          ])
    | inr a ↦
        let n : (id == 0x92 && leb 2 (length ps) && not (s.haptics_gain_centi == 100)) ≡ false =
          ground arith in
        rw (e, n, a) (same-Rewrites (id, ps))
  ]
]

pub manual-Rewrites :
    (scale : ℕ → ℤ → ℤ) (s : WorkerSettings) (id : ℕ) (ps : List ℕ)
    → Rewrites
        (id, ps)
        (patch_block scale s (encode_block (id, ps)))
        (manual_block scale s (id, ps))
unfolding patch_block
manual-Rewrites scale s id ps = elim (Bool-cases (id == 0x90)) [
  | inl e ↦
      let e3 : leb 0x93 id ≡ false = ground arith in
      let e1 : (id == 0x91) ≡ false = ground arith in
      let e2 : (id == 0x92) ≡ false = ground arith in
      rw (e, e3, e1, e2)
        (if_long (leb 8 (length ps)) (id, ps) _ _ (route-Rewrites s id ps)
          (λ l. ap (λ q. (id, q)) (short_route (route_of s) ps l)))
  | inr e ↦ elim (Bool-cases (leb 0x93 id && leb id 0x96)) [
    | inl a ↦
        let a3 : leb 0x93 id ≡ true = ground arith in
        let a6 : leb id 0x96 ≡ true = ground arith in
        let e1 : (id == 0x91) ≡ false = ground arith in
        let e2 : (id == 0x92) ≡ false = ground arith in
        rw (e, a3, a6, e1, e2)
          (audio-Rewrites s.audio_mode s.headset_volume_percent s.speaker_volume_percent id ps)
    | inr a ↦
        let n : (leb 0x93 id && leb id 0x96 && not (ds5_audio_block_for_mode s.audio_mode == 0))
            ≡ false =
          ground arith in
        rw (e, n, a) (rest-Rewrites scale s id ps)
  ]
]

pub block_patch-Rewrites :
    (scale : ℕ → ℤ → ℤ) (s : WorkerSettings) (b : Block)
    → Rewrites b (block_patch scale s (encode_block b)) (new_block scale s b)
unfolding new_block
block_patch-Rewrites scale s (id, ps) = elim (Bool-cases (is_auto s.audio_mode)) [
  | inl e ↦ rw e (auto-Rewrites s id ps)
  | inr e ↦ rw e (manual-Rewrites scale s id ps)
]
