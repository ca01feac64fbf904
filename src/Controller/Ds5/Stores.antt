-- ===== src/Controller/Ds5/Stores.antt =====
-- Lists of bytes that are stored in a block, as src/app/hid_passthrough/ctm/controllers/controller_ds5.c
-- does it, against the block that they make.
use moonlight_tv.Base.{
  ℕ, zero, suc, ◌+◌, ◌≤◌, ◌<◌, List, [], ◌∷◌, ◌++◌, map, true, false, leb, ◌==◌, ◌≡◌, inl, inr,
  refl, sym, subst, ap, ◌∙◌, arith, length, get_or, set, drop, min, Bool-cases, length-append,
  ==_iff,
}
use moonlight_tv.Base.Int.{ℤ}
use moonlight_tv.Controller.Patch.{
  AudioMode, audio_auto, audio_off, audio_speaker, audio_headset, audio_both, WorkerSettings,
  Patched, unpatched, store, stores, NotIn, AreApart, AllHold, stores-AllHold, stores_of_held,
  stores_unchanged,
}
use moonlight_tv.Controller.Ds5.{
  Block, encode_block, latency_writes, haptic_writes, sample_byte, sample_of, latency_byte,
  target_headset_volume, target_speaker_volume, target_audio_flags, ds5_volume_raw_byte,
  append_assoc,
}
use moonlight_tv.Controller.Ds5.Reference.{route, with_latency, with_gain, latency_of}

-- A patch of a block makes it another one, and its flag is set exactly if the two differ.
pub record Rewrites (b : Block) (p : Patched) (b' : Block) : Type 0 where
  pub bytes_of : p.bytes ≡ encode_block b'
  pub unset : p.patched ≡ false → b' ≡ b
  pub unchanged : b' ≡ b → p.patched ≡ false

abbrev pub sets : List (ℕ × ℕ) → List ℕ → List ℕ
sets [] bs = bs
sets ((i, v) ∷ ws) bs = sets ws (set bs i v)

pub set_same : (bs : List ℕ) (i v : ℕ) → get_or bs i 0 ≡ v → set bs i v ≡ bs
set_same [] i v h = refl
set_same (b ∷ bs) zero v h = ap (λ w. w ∷ bs) (sym h)
set_same (b ∷ bs) (suc i) v h = ap (λ l. b ∷ l) (set_same bs i v h)

pub bytes-store : (i v : ℕ) (p : Patched) → (store i v p).bytes ≡ set p.bytes i v
unfolding store
bytes-store i v p = elim (Bool-cases (get_or p.bytes i 0 == v)) [
  | inl e ↦ rw e (sym (set_same p.bytes i v ((==_iff _ v).0 e)))
  | inr e ↦ rw e refl
]

pub bytes-stores : (ws : List (ℕ × ℕ)) (p : Patched) → (stores ws p).bytes ≡ sets ws p.bytes
unfolding stores
bytes-stores [] p = refl
bytes-stores ((i, v) ∷ ws) p = bytes-stores ws (store i v p) ∙ ap (sets ws) (bytes-store i v p)

pub encode_block_inj : (a b : Block) → encode_block a ≡ encode_block b → a ≡ b
encode_block_inj (i, p) (j, q) h = ap (λ (l : List ℕ). (get_or l 0 0, drop 2 l)) h

pub stores-Rewrites :
    (ws : List (ℕ × ℕ)) (b b' : Block)
    → AreApart (length (encode_block b)) ws
    → sets ws (encode_block b) ≡ encode_block b'
    → Rewrites b (stores ws (unpatched (encode_block b))) b'
stores-Rewrites ws b b' apart e =
    let start : Patched = unpatched (encode_block b) in
    let now = bytes-stores ws start ∙ e in
    record {
      bytes_of = now;
      unset = λ h.
          encode_block_inj b' b
            (sym now ∙ ap (λ (q : Patched). q.bytes) (stores_unchanged ws start h));
      unchanged = λ h.
          ap (λ (q : Patched). q.patched)
            (stores_of_held ws start
              (subst (AllHold ws) (now ∙ ap encode_block h) (stores-AllHold ws start apart)));
    }

pub same-Rewrites : (b : Block) → Rewrites b (unpatched (encode_block b)) b
same-Rewrites b = record { bytes_of = refl; unset = λ h. refl; unchanged = λ h. refl }

-- The tables of the program against the route.
pub volume_lem : (v : ℕ) → ds5_volume_raw_byte v ≡ min v 100
volume_lem v = ground arith

pub tables :
    (s : WorkerSettings) (m : AudioMode)
    → let r = route m s.headset_volume_percent s.speaker_volume_percent in
      (target_headset_volume s m ≡ r.headset)
      × (target_speaker_volume s m ≡ r.speaker)
      × (target_audio_flags m ≡ r.flags)
tables s audio_auto = (refl, refl, refl)
tables s audio_off = (refl, refl, refl)
tables s audio_speaker = (refl, volume_lem s.speaker_volume_percent, refl)
tables s audio_headset = (volume_lem s.headset_volume_percent, refl, refl)
tables s audio_both =
    (volume_lem s.headset_volume_percent, volume_lem s.speaker_volume_percent, refl)

pub latency_lem : (s : WorkerSettings) → latency_byte s.latency_ms ≡ latency_of s
latency_lem s = ground arith

pub latency_apart : (n v : ℕ) → 8 ≤ n → AreApart n (latency_writes v)
latency_apart n v h = omega arith

pub latency-Rewrites :
    (s : WorkerSettings) (id : ℕ) (ps : List ℕ)
    → leb 6 (length ps) ≡ true
    → let block = encode_block (id, ps) in
      Rewrites
        (id, ps)
        (stores (latency_writes (latency_byte s.latency_ms)) (unpatched block))
        (id, with_latency (latency_of s) ps)
latency-Rewrites s id (a ∷ b ∷ c ∷ d ∷ e ∷ f ∷ ps) h =
    stores-Rewrites _ (id, a ∷ b ∷ c ∷ d ∷ e ∷ f ∷ ps) _
      (latency_apart _ (latency_byte s.latency_ms) (omega arith))
      (ap (λ v. encode_block (id, with_latency v (a ∷ b ∷ c ∷ d ∷ e ∷ f ∷ ps))) (latency_lem s))
latency-Rewrites s id [] h = absurd cc
latency-Rewrites s id (a ∷ []) h = absurd cc
latency-Rewrites s id (a ∷ b ∷ []) h = absurd cc
latency-Rewrites s id (a ∷ b ∷ c ∷ []) h = absurd cc
latency-Rewrites s id (a ∷ b ∷ c ∷ d ∷ []) h = absurd cc
latency-Rewrites s id (a ∷ b ∷ c ∷ d ∷ e ∷ []) h = absurd cc

pub short_latency : (v : ℕ) (ps : List ℕ) → leb 6 (length ps) ≡ false → with_latency v ps ≡ ps
short_latency v [] h = refl
short_latency v (a ∷ []) h = refl
short_latency v (a ∷ b ∷ []) h = refl
short_latency v (a ∷ b ∷ c ∷ []) h = refl
short_latency v (a ∷ b ∷ c ∷ d ∷ []) h = refl
short_latency v (a ∷ b ∷ c ∷ d ∷ e ∷ []) h = refl
short_latency v (a ∷ b ∷ c ∷ d ∷ e ∷ f ∷ ps) h = absurd (ground arith)

-- The samples behind a part of a block that stays.
pub NotIn-haptic_writes :
    (gain : ℤ → ℤ) (xs : List ℕ) (i j : ℕ) → j < i → NotIn j (haptic_writes gain i xs)
NotIn-haptic_writes gain [] i j h = tt
NotIn-haptic_writes gain (x ∷ xs) i j h =
    (omega arith, NotIn-haptic_writes gain xs (suc i) j (omega arith))

pub haptic_apart :
    (gain : ℤ → ℤ) (xs : List ℕ) (i n : ℕ)
    → i + length xs ≤ n
    → AreApart n (haptic_writes gain i xs)
haptic_apart gain [] i n h = tt
haptic_apart gain (x ∷ xs) i n h = (
  omega arith,
  NotIn-haptic_writes gain xs (suc i) i (omega arith),
  haptic_apart gain xs (suc i) n (omega arith),
)

pub set_behind :
    (front : List ℕ) (x y : ℕ) (xs : List ℕ)
    → set (front ++ (x ∷ xs)) (length front) y ≡ (front ++ (y ∷ [])) ++ xs
set_behind [] x y xs = refl
set_behind (a ∷ front) x y xs = ap (λ l. a ∷ l) (set_behind front x y xs)

pub sets-haptic_writes :
    (gain : ℤ → ℤ) (xs front : List ℕ) (i : ℕ)
    → i ≡ length front
    → sets (haptic_writes gain i xs) (front ++ xs)
      ≡ front ++ map (λ p. sample_byte (gain (sample_of p))) xs
sets-haptic_writes gain [] front i h = refl
sets-haptic_writes gain (x ∷ xs) front i h =
    let y : ℕ = sample_byte (gain (sample_of x)) in
    ap (sets (haptic_writes gain (suc i) xs))
      (ap (λ n. set (front ++ (x ∷ xs)) n y) h ∙ set_behind front x y xs)
    ∙ sets-haptic_writes gain xs (front ++ (y ∷ [])) (suc i)
        (omega (arith, length-append front (y ∷ [])))
    ∙ append_assoc front (y ∷ []) (map (λ p. sample_byte (gain (sample_of p))) xs)

pub length-map : (f : ℕ → ℕ) (xs : List ℕ) → length (map f xs) ≡ length xs
length-map f [] = refl
length-map f (x ∷ xs) = ap suc (length-map f xs)

pub haptic-Rewrites :
    (gain : ℤ → ℤ) (id : ℕ) (ps : List ℕ)
    → leb 2 (length ps) ≡ true
    → let block = encode_block (id, ps) in
      Rewrites (id, ps) (stores (haptic_writes gain 2 ps) (unpatched block)) (id, with_gain gain ps)
haptic-Rewrites gain id [] h = absurd cc
haptic-Rewrites gain id (a ∷ []) h = absurd cc
haptic-Rewrites gain id (a ∷ b ∷ ps) h =
    let xs : List ℕ = a ∷ b ∷ ps in
    let f : ℕ → ℕ = λ p. sample_byte (gain (sample_of p)) in
    stores-Rewrites _ (id, xs) _ (haptic_apart gain xs 2 _ (omega arith))
      (sets-haptic_writes gain xs (id ∷ length xs ∷ []) 2 refl
        ∙ ap (λ n. id ∷ (n ∷ map f xs)) (sym (length-map f xs)))
