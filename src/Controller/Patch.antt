-- ===== src/Controller/Patch.antt =====
-- What the patches of the two Sony controllers share: the settings of
-- src/app/hid_passthrough/ctm/ctm_settings.h that they read, and a byte that is written where it
-- differs, as both do it in src/app/hid_passthrough/ctm/controllers.
use moonlight_tv.Base.{
  ℕ, ◌-◌, ◌≤◌, ◌<◌, List, [], ◌∷◌, Bool, true, false, ◌==◌, if◌then◌else◌, ◌≡◌, ◌≢◌, refl, sym,
  subst, ap, ◌∙◌, arith, length, get_or, set, length-set, get_or-set_self, get_or-set_ne, if_split,
  if_both, ==_iff, ◌⊎◌, inl, inr,
}
use moonlight_tv.Controller.Sign.{
  bt_sign_output, bt_sign_output-IsSigned, get-bt_sign_output, length-bt_sign_output, IsSigned,
}

pub data AudioMode : Type 0 where
  audio_auto : AudioMode
  audio_off : AudioMode
  audio_speaker : AudioMode
  audio_headset : AudioMode
  audio_both : AudioMode

pub record WorkerSettings : Type 0 where
  pub audio_mode : AudioMode
  pub latency_ms : ℕ
  pub haptics_gain_centi : ℕ
  pub headset_volume_percent : ℕ
  pub speaker_volume_percent : ℕ
  pub block_bt_audio_sink : Bool

-- A report under a patch, and the flag `patched`.
pub record Patched : Type 0 where
  pub bytes : List ℕ
  pub patched : Bool

abbrev pub unpatched : List ℕ → Patched
unpatched bs = record { bytes = bs; patched = false }

-- `if (data[i] != v) { data[i] = v; patched = 1; }`
unfoldable pub store : ℕ → ℕ → Patched → Patched
store i v p =
    if get_or p.bytes i 0 == v then p else record { bytes = set p.bytes i v; patched = true }

unfoldable pub stores : List (ℕ × ℕ) → Patched → Patched
unfolding store
stores [] p = p
stores ((i, v) ∷ ws) p = stores ws (store i v p)

-- The checksum is written anew where a byte was.
unfoldable pub signed_if_patched : Patched → List ℕ
unfolding bt_sign_output
signed_if_patched p = if p.patched then bt_sign_output p.bytes else p.bytes

abbrev pub NotIn : ℕ → List (ℕ × ℕ) → Type 0
NotIn j [] = Unit {0}
NotIn j ((i, v) ∷ ws) = (i ≢ j) × NotIn j ws

-- The writes go to different places, all in the report.
abbrev pub AreApart : ℕ → List (ℕ × ℕ) → Type 0
AreApart n [] = Unit {0}
AreApart n ((i, v) ∷ ws) = (i < n) × NotIn i ws × AreApart n ws

abbrev pub AllHold : List (ℕ × ℕ) → List ℕ → Type 0
AllHold [] bs = Unit {0}
AllHold ((i, v) ∷ ws) bs = (get_or bs i 0 ≡ v) × AllHold ws bs

length-store : (i v : ℕ) (p : Patched) → length (store i v p).bytes ≡ length p.bytes
unfolding store
length-store i v p =
    if_split (λ (q : Patched). length q.bytes ≡ length p.bytes) (get_or p.bytes i 0 == v)
      {y = record { bytes = set p.bytes i v; patched = true }} (λ _. refl)
      (λ _. length-set p.bytes i v)

get-store_self : (i v : ℕ) (p : Patched) → i < length p.bytes → get_or (store i v p).bytes i 0 ≡ v
unfolding store
get-store_self i v p h =
    if_split (λ (q : Patched). get_or q.bytes i 0 ≡ v) (get_or p.bytes i 0 == v) {x = p}
      {y = record { bytes = set p.bytes i v; patched = true }} (λ e. (==_iff _ v).0 e)
      (λ _. get_or-set_self p.bytes i v 0 h)

get-store_ne :
    (i j v : ℕ) (p : Patched) → i ≢ j → get_or (store i v p).bytes j 0 ≡ get_or p.bytes j 0
unfolding store
get-store_ne i j v p h =
    if_split (λ (q : Patched). get_or q.bytes j 0 ≡ get_or p.bytes j 0) (get_or p.bytes i 0 == v)
      {x = p} {y = record { bytes = set p.bytes i v; patched = true }} (λ _. refl)
      (λ _. get_or-set_ne p.bytes i j v 0 h)

store_of_held : (i v : ℕ) (p : Patched) → get_or p.bytes i 0 ≡ v → store i v p ≡ p
unfolding store
store_of_held i v p h = ground arith

store_unchanged : (i v : ℕ) (p : Patched) → (store i v p).patched ≡ false → store i v p ≡ p
unfolding store
store_unchanged i v p h = ground arith

pub length-stores : (ws : List (ℕ × ℕ)) (p : Patched) → length (stores ws p).bytes ≡ length p.bytes
unfolding stores
length-stores [] p = refl
length-stores ((i, v) ∷ ws) p = length-stores ws (store i v p) ∙ length-store i v p

pub get-stores :
    (ws : List (ℕ × ℕ)) (p : Patched) (j : ℕ)
    → NotIn j ws
    → get_or (stores ws p).bytes j 0 ≡ get_or p.bytes j 0
unfolding stores
get-stores [] p j h = refl
get-stores ((i, v) ∷ ws) p j (h, k) = get-stores ws (store i v p) j k ∙ get-store_ne i j v p h

pub stores-AllHold :
    (ws : List (ℕ × ℕ)) (p : Patched)
    → AreApart (length p.bytes) ws
    → AllHold ws (stores ws p).bytes
unfolding stores
stores-AllHold [] p h = tt
stores-AllHold ((i, v) ∷ ws) p (h, k, l) = (
  get-stores ws (store i v p) i k ∙ get-store_self i v p h,
  stores-AllHold ws (store i v p) (subst (λ n. AreApart n ws) (sym (length-store i v p)) l),
)

-- Bytes that are in place are not written.
pub stores_of_held : (ws : List (ℕ × ℕ)) (p : Patched) → AllHold ws p.bytes → stores ws p ≡ p
unfolding stores
stores_of_held [] p h = refl
stores_of_held ((i, v) ∷ ws) p (h, k) =
    ap (stores ws) (store_of_held i v p h) ∙ stores_of_held ws p k

-- The flag tells whether anything was written.
pub stores_unchanged :
    (ws : List (ℕ × ℕ)) (p : Patched) → (stores ws p).patched ≡ false → stores ws p ≡ p
unfolding stores
stores_unchanged [] p h = refl
stores_unchanged ((i, v) ∷ ws) p h =
    let e = stores_unchanged ws (store i v p) h in
    e ∙ store_unchanged i v p (ap (λ (q : Patched). q.patched) (sym e) ∙ h)

pub length-signed_if_patched : (p : Patched) → length (signed_if_patched p) ≡ length p.bytes
unfolding signed_if_patched
length-signed_if_patched p =
    if_both (λ (o : List ℕ). length o ≡ length p.bytes) p.patched {x = bt_sign_output p.bytes}
      {y = p.bytes} (length-bt_sign_output p.bytes) refl

pub get-signed_if_patched :
    (p : Patched) (i : ℕ)
    → i < length p.bytes - 4
    → get_or (signed_if_patched p) i 0 ≡ get_or p.bytes i 0
unfolding signed_if_patched
get-signed_if_patched p i h =
    if_both (λ (o : List ℕ). get_or o i 0 ≡ get_or p.bytes i 0) p.patched
      {x = bt_sign_output p.bytes} {y = p.bytes} (get-bt_sign_output p.bytes i h) refl

pub AllHold-signed_if_patched :
    (ws : List (ℕ × ℕ)) (p : Patched)
    → AreApart (length p.bytes - 4) ws
    → AllHold ws p.bytes
    → AllHold ws (signed_if_patched p)
AllHold-signed_if_patched [] p h k = tt
AllHold-signed_if_patched ((i, v) ∷ ws) p (h, n, l) (e, k) =
    (get-signed_if_patched p i h ∙ e, AllHold-signed_if_patched ws p l k)

-- A patched report is signed, another is as it was.
pub signed_if_patched-IsSigned :
    (ws : List (ℕ × ℕ)) (bs : List ℕ)
    → 8 ≤ length bs
    → let out = signed_if_patched (stores ws (unpatched bs)) in (out ≡ bs) ⊎ IsSigned out
unfolding signed_if_patched
signed_if_patched-IsSigned ws bs h =
    let p : Patched = stores ws (unpatched bs) in
    if_split (λ (o : List ℕ). (o ≡ bs) ⊎ IsSigned o) p.patched {x = bt_sign_output p.bytes}
      {y = p.bytes}
      (λ e.
        inr ((bt_sign_output-IsSigned p.bytes (omega (arith, length-stores ws (unpatched bs)))).2))
      (λ e. inl (ap (λ (q : Patched). q.bytes) (stores_unchanged ws (unpatched bs) e)))
