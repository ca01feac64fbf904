-- ===== src/Controller/Ds4.antt =====
-- The patch of a DualShock 4 report: src/app/hid_passthrough/ctm/controllers/controller_ds4.c.
use moonlight_tv.Base.{
  ℕ, ◌-◌, ◌<◌, List, [], ◌∷◌, Bool, true, false, not, ◌||◌, ltb, ◌==◌, if◌then◌else◌, ◌≡◌, ◌⊎◌,
  refl, sym, subst, ap, ◌∙◌, arith, length, get_or, ◌≤◌, ◌≢◌, inl, inr, Bool-cases, if_split,
  ==_iff,
}
use moonlight_tv.Base.Bits.{
  set_bit, clear_bit, test_bit, set_bit_of_set, test_bit-set_self, test_bit-set_ne,
}
use moonlight_tv.Controller.Sign.{IsSigned}
use moonlight_tv.Controller.Patch.{
  AudioMode, audio_auto, audio_off, audio_speaker, audio_headset, audio_both, WorkerSettings,
  Patched, unpatched, stores, AreApart, AllHold, length-stores, get-stores, stores-AllHold,
  stores_of_held, signed_if_patched, length-signed_if_patched, get-signed_if_patched,
  AllHold-signed_if_patched, signed_if_patched-IsSigned,
}

unfoldable pub ds4_audio_target_for_mode : AudioMode → ℕ
ds4_audio_target_for_mode audio_speaker = 0x02
ds4_audio_target_for_mode audio_headset = 0x24
ds4_audio_target_for_mode audio_both = 0x26
ds4_audio_target_for_mode _ = 0x00

abbrev pub ds4_volume_raw_byte : ℕ → ℕ
ds4_volume_raw_byte v = if ltb 0x4f v then 0x4f else v

abbrev pub is_audible : AudioMode → Bool
is_audible audio_auto = false
is_audible audio_off = false
is_audible _ = true

-- `| 0xb0` and `& ~0xb0`
abbrev pub assert_audio : ℕ → ℕ
assert_audio b = set_bit (set_bit (set_bit b 4) 5) 7

abbrev pub clear_audio : ℕ → ℕ
clear_audio b = clear_bit (clear_bit (clear_bit b 4) 5) 7

abbrev pub other_bytes : WorkerSettings → List (ℕ × ℕ)
other_bytes s =
    let headset : ℕ = ds4_volume_raw_byte s.headset_volume_percent in
    (2, 0xa8)
    ∷ (80, ds4_audio_target_for_mode s.audio_mode)
    ∷ (21, headset)
    ∷ (22, headset)
    ∷ (24, ds4_volume_raw_byte s.speaker_volume_percent)
    ∷ (25, if is_audible s.audio_mode then 0x85 else 0x00)
    ∷ []

-- The bytes of the report and their values, in the order in which they are compared.
abbrev pub ds4_bytes : WorkerSettings → ℕ → List (ℕ × ℕ)
ds4_bytes s enable =
    let audible : Bool = is_audible s.audio_mode in
    (3, if audible then assert_audio enable else clear_audio enable) ∷ other_bytes s

abbrev pub passes_through : AudioMode → Bool
passes_through audio_auto = true
passes_through audio_off = true
passes_through _ = false

unfoldable pub ds4_patch_output : WorkerSettings → List ℕ → List ℕ
unfolding stores signed_if_patched
ds4_patch_output s bs =
    if ltb (length bs) 84 || not (get_or bs 0 0 == 0x15)
    then bs
    else if passes_through s.audio_mode
    then bs
    else signed_if_patched (stores (ds4_bytes s (get_or bs 3 0)) (unpatched bs))

-- Asserting the bits again changes nothing.
assert_audio_again : (b : ℕ) → assert_audio (assert_audio b) ≡ assert_audio b
assert_audio_again b =
    let c : ℕ = set_bit (set_bit b 4) 5 in
    let t7 = test_bit-set_self c 7 in
    let t5 = test_bit-set_ne c 7 5 (omega arith) ∙ test_bit-set_self (set_bit b 4) 5 in
    let t4 =
      test_bit-set_ne c 7 4 (omega arith)
      ∙ test_bit-set_ne (set_bit b 4) 5 4 (omega arith)
      ∙ test_bit-set_self b 4 in
    ap (λ m. set_bit (set_bit m 5) 7) (set_bit_of_set (assert_audio b) 4 t4)
    ∙ ap (λ m. set_bit m 7) (set_bit_of_set (assert_audio b) 5 t5)
    ∙ set_bit_of_set (assert_audio b) 7 t7

-- The byte 80 for a mode, a volume that is cut at 79, and the places that are written.
abbrev pub IsTarget : AudioMode → ℕ → Type 0
IsTarget m b =
    ((m ≡ audio_speaker) × (b ≡ 0x02))
    ⊎ ((m ≡ audio_headset) × (b ≡ 0x24))
    ⊎ ((m ≡ audio_both) × (b ≡ 0x26))

abbrev pub IsVolume : ℕ → ℕ → Type 0
IsVolume v b = ((v ≤ 79) × (b ≡ v)) ⊎ ((79 < v) × (b ≡ 79))

abbrev pub IsKeptPlace : ℕ → Type 0
IsKeptPlace i = (i ≢ 2) × (i ≢ 3) × (i ≢ 21) × (i ≢ 22) × (i ≢ 24) × (i ≢ 25) × (i ≢ 80)

-- What the patch promises of a report: the bytes of the route, all other bytes but the checksum as
-- they were, and a right checksum where anything changed.
pub record IsRouted (s : WorkerSettings) (bs out : List ℕ) : Type 0 where
  pub same_length : length out ≡ length bs
  pub valid : get_or out 2 0 ≡ 0xa8
  pub enabled :
      (i : ℕ)
      → test_bit (get_or out 3 0) i ≡ (i == 4 || i == 5 || i == 7 || test_bit (get_or bs 3 0) i)
  pub headset : IsVolume s.headset_volume_percent (get_or out 21 0)
  pub headset_again : get_or out 22 0 ≡ get_or out 21 0
  pub speaker : IsVolume s.speaker_volume_percent (get_or out 24 0)
  pub sounds : get_or out 25 0 ≡ 0x85
  pub target : IsTarget s.audio_mode (get_or out 80 0)
  pub others_kept : (i : ℕ) → i < length bs - 4 → IsKeptPlace i → get_or out i 0 ≡ get_or bs i 0
  pub checked : (out ≡ bs) ⊎ IsSigned out

ds4_volume_raw_byte-IsVolume : (v : ℕ) → IsVolume v (ds4_volume_raw_byte v)
ds4_volume_raw_byte-IsVolume v =
    if_split (IsVolume v) (ltb 0x4f v) (λ e. inr (ground arith, refl))
      (λ e. inl (ground arith, refl))

ds4_audio_target_for_mode-IsTarget :
    (m : AudioMode) → passes_through m ≡ false → IsTarget m (ds4_audio_target_for_mode m)
unfolding ds4_audio_target_for_mode
ds4_audio_target_for_mode-IsTarget audio_auto h = absurd cc
ds4_audio_target_for_mode-IsTarget audio_off h = absurd cc
ds4_audio_target_for_mode-IsTarget audio_speaker h = inl (refl, refl)
ds4_audio_target_for_mode-IsTarget audio_headset h = inr (inl (refl, refl))
ds4_audio_target_for_mode-IsTarget audio_both h = inr (inr (refl, refl))

audible_mode : (m : AudioMode) → passes_through m ≡ false → is_audible m ≡ true
audible_mode audio_auto h = cc
audible_mode audio_off h = cc
audible_mode audio_speaker h = refl
audible_mode audio_headset h = refl
audible_mode audio_both h = refl

-- A bit that is set, or one that is as it was.
test_bit-set_bit : (m k i : ℕ) → test_bit (set_bit m k) i ≡ (i == k || test_bit m i)
test_bit-set_bit m k i = elim (Bool-cases (i == k)) [
  | inl e ↦
      ap (test_bit (set_bit m k)) ((==_iff i k).0 e)
      ∙ test_bit-set_self m k
      ∙ ap (λ b. b || test_bit m i) (sym e)
  | inr e ↦
      test_bit-set_ne m k i (λ q. ground (arith, (==_iff i k).1 (sym q)))
      ∙ ap (λ b. b || test_bit m i) (sym e)
]

test_bit-assert_audio :
    (b i : ℕ) → test_bit (assert_audio b) i ≡ (i == 4 || i == 5 || i == 7 || test_bit b i)
test_bit-assert_audio b i = ground (
  arith,
  test_bit-set_bit (set_bit (set_bit b 4) 5) 7 i,
  test_bit-set_bit (set_bit b 4) 5 i,
  test_bit-set_bit b 4 i,
)

ds4_bytes-AreApart : (s : WorkerSettings) (b n : ℕ) → 80 < n → AreApart n (ds4_bytes s b)
ds4_bytes-AreApart s b n h = omega arith

flip : {i j : ℕ} → i ≢ j → j ≢ i
flip h e = h (sym e)

module _ (s : WorkerSettings) (bs : List ℕ) (long : 84 < length bs) (kind : get_or bs 0 0 ≡ 0x15)
    (mode : passes_through s.audio_mode ≡ false) where
  written : Patched
  written = stores (ds4_bytes s (get_or bs 3 0)) (unpatched bs)

  patch_lem : ds4_patch_output s bs ≡ signed_if_patched written
  unfolding ds4_patch_output written
  patch_lem = ground arith

  written-AllHold : AllHold (ds4_bytes s (get_or bs 3 0)) (signed_if_patched written)
  unfolding written
  written-AllHold =
      let ws : List (ℕ × ℕ) = ds4_bytes s (get_or bs 3 0) in
      let l = length-stores ws (unpatched bs) in
      AllHold-signed_if_patched ws written
        (ds4_bytes-AreApart s (get_or bs 3 0) _ (omega (arith, l)))
        (stores-AllHold ws (unpatched bs) (ds4_bytes-AreApart s (get_or bs 3 0) _ (omega arith)))

  -- A DualShock 4 report of more than 84 bytes has, after the patch for a mode with sound, 0xa8
  -- in byte 2, the bits 4, 5 and 7 set in byte 3 and its other bits as before, the headset's
  -- volume, at most 79, in bytes 21 and 22, the speaker's in byte 24, 0x85 in byte 25, and in
  -- byte 80 the target 0x02, 0x24 or 0x26 of the mode; all other bytes but the checksum and its
  -- length are as before, and it is either unchanged or signed.
  pub ds4_patch_output-IsRouted : IsRouted s bs (ds4_patch_output s bs)
  unfolding written
  ds4_patch_output-IsRouted =
      let ws : List (ℕ × ℕ) = ds4_bytes s (get_or bs 3 0) in
      let l = length-stores ws (unpatched bs) in
      let on = audible_mode s.audio_mode mode in
      let (enable, (valid, (target, (volume, (again, (speaker, (sounds, end))))))) =
        written-AllHold in
      rw patch_lem (record {
        same_length = length-signed_if_patched written ∙ l;
        valid = valid;
        enabled = λ i.
            ap (λ b. test_bit b i) (enable ∙ rw on refl) ∙ test_bit-assert_audio (get_or bs 3 0) i;
        headset =
            subst (IsVolume s.headset_volume_percent) (sym volume)
              (ds4_volume_raw_byte-IsVolume s.headset_volume_percent);
        headset_again = again ∙ sym volume;
        speaker =
            subst (IsVolume s.speaker_volume_percent) (sym speaker)
              (ds4_volume_raw_byte-IsVolume s.speaker_volume_percent);
        sounds = sounds ∙ rw on refl;
        target =
            subst (IsTarget s.audio_mode) (sym target)
              (ds4_audio_target_for_mode-IsTarget s.audio_mode mode);
        others_kept = λ i h (n2, n3, n21, n22, n24, n25, n80).
            get-signed_if_patched written i (omega (arith, l))
            ∙ get-stores ws (unpatched bs) i (
              flip n3,
              (flip n2, (flip n80, (flip n21, (flip n22, (flip n24, (flip n25, tt)))))),
            );
        checked = signed_if_patched-IsSigned ws bs (omega arith);
      })

route_byte :
    (s : WorkerSettings) (b c : ℕ)
    → is_audible s.audio_mode ≡ true
    → assert_audio c ≡ assert_audio b
    → (if is_audible s.audio_mode then assert_audio b else clear_audio b)
      ≡ (if is_audible s.audio_mode then assert_audio c else clear_audio c)
route_byte s b c a f = rw a (sym f)

signed_if_unpatched : (bs : List ℕ) → signed_if_patched (unpatched bs) ≡ bs
unfolding signed_if_patched
signed_if_unpatched bs = refl

-- A patch of a patched report changes nothing.
pub ds4_patch_output_again :
    (s : WorkerSettings) (bs : List ℕ)
    → 84 < length bs
    → get_or bs 0 0 ≡ 0x15
    → passes_through s.audio_mode ≡ false
    → ds4_patch_output s (ds4_patch_output s bs) ≡ ds4_patch_output s bs
unfolding written
ds4_patch_output_again s bs long kind mode =
    let out : List ℕ = ds4_patch_output s bs in
    let r = ds4_patch_output-IsRouted s bs long kind mode in
    let a = audible_mode s.audio_mode mode in
    let w : AllHold (ds4_bytes s (get_or bs 3 0)) out =
      subst (AllHold (ds4_bytes s (get_or bs 3 0))) (sym (patch_lem s bs long kind mode))
        (written-AllHold s bs long kind mode) in
    let e : get_or out 3 0 ≡ assert_audio (get_or bs 3 0) = ground (arith, w.0, a) in
    let f : assert_audio (get_or out 3 0) ≡ assert_audio (get_or bs 3 0) =
      ap assert_audio e ∙ assert_audio_again (get_or bs 3 0) in
    let h : AllHold (ds4_bytes s (get_or out 3 0)) out =
      subst (λ v. AllHold ((3, v) ∷ other_bytes s) out) (route_byte s _ _ a f) w in
    patch_lem s out (omega (arith, r.same_length))
      (r.others_kept 0 (omega arith) (
        omega arith,
        omega arith,
        omega arith,
        omega arith,
        omega arith,
        omega arith,
        omega arith,
      )
        ∙ kind)
      mode
    ∙ ap signed_if_patched (stores_of_held (ds4_bytes s (get_or out 3 0)) (unpatched out) h)
    ∙ signed_if_unpatched out
