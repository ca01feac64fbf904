-- ===== src/Controller/Plc/Quiet.antt =====
-- How often a report is given audio in a row: `ds5_audio_plc` of
-- src/app/hid_passthrough/ctm/controllers/controller_common.c.
use moonlight_tv.Base.{
  ℕ, zero, suc, ◌+◌, ◌-◌, ◌≤◌, ◌<◌, List, [], ◌∷◌, ◌++◌, Bool, true, false, not, ◌||◌, ◌&&◌, ltb,
  leb, ◌==◌, if◌then◌else◌, ◌≡◌, ◌⊎◌, inl, inr, refl, sym, ap, ◌∙◌, arith, length, get_or, take,
  drop, length-take, take-append-drop, if_both, if_split, Bool-cases, ==_iff,
}
use moonlight_tv.Controller.Ds5.{Block, encode_block, encode_blocks, append_assoc}
use moonlight_tv.Controller.Plc.{
  Plc, silent, Scan, is_audio, scan_audio, keep_scan, conceal, ds5_audio_plc, plc_run,
}
use moonlight_tv.Controller.Plc.Bounds.{IsBounded, SameLengths, plc_run-IsBounded, plc_run-Sound}

-- Blocks as they are written of which one is a block of audio, with whatever follows it.
pub record HasAudio (body : List ℕ) : Type 0 where
  pub before : List Block
  pub id : ℕ
  pub payload : List ℕ
  pub following : List ℕ
  pub is_body : body ≡ encode_blocks before ++ (encode_block (id, payload) ++ following)
  pub is_audio_id : (0x93 ≤ id) × (id ≤ 0x96)
  pub is_long : 100 ≤ length payload

-- A report none of whose blocks, between its two first bytes and the checksum, is one of audio.
abbrev pub IsQuiet : List ℕ → Type 0
IsQuiet r = HasAudio (drop 2 (take (length r - 4) r)) → ⊥

abbrev pub AllQuiet : List (List ℕ) → Type 0
AllQuiet [] = Unit {0}
AllQuiet (r ∷ rs) = IsQuiet r × AllQuiet rs

-- How many reports leave with other bytes than they had.
abbrev pub differ : List ℕ → List ℕ → Bool
differ [] [] = false
differ (x ∷ xs) (y ∷ ys) = not (x == y) || differ xs ys
differ _ _ = true

abbrev pub count_changed : List (List ℕ) → List (List ℕ) → ℕ
count_changed (r ∷ rs) (s ∷ ss) = (if differ r s then 1 else 0) + count_changed rs ss
count_changed _ _ = 0

differ_self : (bs : List ℕ) → differ bs bs ≡ false
differ_self [] = refl
differ_self (b ∷ bs) = rw ((==_iff b b).1 refl) (differ_self bs)

-- The first block of a body that is long enough for it.
first_block :
    (id n : ℕ) (more : List ℕ)
    → n ≤ length more
    → id ∷ (n ∷ more) ≡ encode_block (id, take n more) ++ drop n more
first_block id n more h =
    ap (λ l. id ∷ (n ∷ l)) (sym (take-append-drop n more))
    ∙ ap (λ m. id ∷ (m ∷ (take n more ++ drop n more))) (omega (arith, length-take n more))

behind_block :
    (id n : ℕ) (more : List ℕ)
    → n ≤ length more
    → HasAudio (drop n more)
    → HasAudio (id ∷ (n ∷ more))
behind_block id n more h a = record {
  before = (id, take n more) ∷ a.before;
  id = a.id;
  payload = a.payload;
  following = a.following;
  is_body =
      first_block id n more h
      ∙ ap (λ l. encode_block (id, take n more) ++ l) a.is_body
      ∙ sym (append_assoc (encode_block (id, take n more)) (encode_blocks a.before) _);
  is_audio_id = a.is_audio_id;
  is_long = a.is_long;
}

audio_block :
    (id n : ℕ) (more : List ℕ) → n ≤ length more → is_audio id n ≡ true → HasAudio (id ∷ (n ∷ more))
audio_block id n more h a = record {
  before = [];
  id = id;
  payload = take n more;
  following = drop n more;
  is_body = first_block id n more h;
  is_audio_id = (ground arith, ground arith);
  is_long = ground (arith, length-take n more);
}

-- What the loop has seen is in the body.
record IsSeen (present : Bool) (body : List ℕ) (s : Scan) : Type 0 where
  seen : s.audio_present ≡ true → (present ≡ true) ⊎ HasAudio body

seen_here :
    (id n : ℕ) (more : List ℕ) (present : Bool)
    → n ≤ length more
    → ((is_audio id n || present) ≡ true) ⊎ HasAudio (drop n more)
    → (present ≡ true) ⊎ HasAudio (id ∷ (n ∷ more))
seen_here id n more present fits (inr a) = inr (behind_block id n more fits a)
seen_here id n more present fits (inl p) = elim (Bool-cases (is_audio id n)) [
  | inl a ↦ inr (audio_block id n more fits a)
  | inr a ↦ inl (ground (arith, p, a))
]

scan_audio-IsSeen :
    (fuel : ℕ) (kept : Bool × List ℕ) (present : Bool) (end : ℕ) (bs : List ℕ)
    → IsSeen present bs (scan_audio fuel kept present end bs)
unfolding scan_audio
scan_audio-IsSeen zero kept present end bs = record { seen = λ h. inl h }
scan_audio-IsSeen (suc fuel) kept present end [] = record { seen = λ h. inl h }
scan_audio-IsSeen (suc fuel) kept present end (b ∷ []) = record { seen = λ h. inl h }
scan_audio-IsSeen (suc fuel) kept present end (id ∷ (n ∷ more)) =
    if_both (IsSeen present (id ∷ (n ∷ more))) (id == 0 && n == 0) (record { seen = λ h. inl h })
      (if_split (IsSeen present (id ∷ (n ∷ more))) (ltb (length more) n)
        (λ e. record { seen = λ h. inl h })
        (λ e.
          let fits : n ≤ length more = ground arith in
          let ih = scan_audio-IsSeen fuel _ (is_audio id n || present) _ (drop n more) in
          record { seen = λ h. seen_here id n more present fits (ih.seen h) }))

-- A report that leaves with other bytes is counted, both as repeated in a row and as concealed.
record IsCounted (c : Plc) (r : List ℕ) (out : Plc × List ℕ) : Type 0 where
  repeated : (if differ r out.1 then 1 else 0) + c.plc_repeat ≤ out.0.plc_repeat
  concealed : (if differ r out.1 then 1 else 0) + c.audio_conceal ≤ out.0.audio_conceal

one_at_most : (b : Bool) (n : ℕ) → (if b then 1 else 0) + n ≤ n + 1
one_at_most true n = omega arith
one_at_most false n = omega arith

unchanged-IsCounted :
    (c d : Plc) (r : List ℕ)
    → c.plc_repeat ≤ d.plc_repeat
    → c.audio_conceal ≤ d.audio_conceal
    → IsCounted c r (d, r)
unchanged-IsCounted c d r h k = record {
  repeated = rw (differ_self r) (omega (arith, h));
  concealed = rw (differ_self r) (omega (arith, k));
}

conceal-IsCounted : (c : Plc) (end : ℕ) (bs : List ℕ) → IsCounted c bs (conceal c end bs)
unfolding conceal
conceal-IsCounted c end bs =
    let dropped : IsCounted c bs
        (record c { audio_omit = c.audio_omit + 1; audio_capdrop = c.audio_capdrop + 1 }, bs) =
      unchanged-IsCounted c _ bs (omega arith) (omega arith) in
    if_both (IsCounted c bs) (not c.plc_have || leb 12 c.plc_repeat) dropped (
      if_both (IsCounted c bs) (ltb (length bs - 4) (end + length c.plc_audio)) dropped (record {
        repeated = one_at_most (differ bs _) c.plc_repeat;
        concealed = one_at_most (differ bs _) c.audio_conceal;
      }))

ds5_audio_plc-IsCounted : (c : Plc) (bs : List ℕ) → IsQuiet bs → IsCounted c bs (ds5_audio_plc c bs)
unfolding ds5_audio_plc
ds5_audio_plc-IsCounted c bs q =
    let body : List ℕ = drop 2 (take (length bs - 4) bs) in
    let s : Scan = scan_audio (length body) (c.plc_have, c.plc_audio) false 2 body in
    let look = (scan_audio-IsSeen (length body) (c.plc_have, c.plc_audio) false 2 body).seen in
    let same = unchanged-IsCounted c c bs (omega arith) (omega arith) in
    let kept = unchanged-IsCounted c (keep_scan c s) bs (omega arith) (omega arith) in
    if_both (IsCounted c bs)
      (not c.plc_enabled || ltb (length bs) 12 || not (get_or bs 0 0 == 0x36)) same
      (if_both (IsCounted c bs) s.overruns kept (
        if_split (IsCounted c bs) s.audio_present
          (λ e. elim (look e) [ inl f ↦ absurd cc | inr a ↦ absurd (q a) ])
          (λ e.
            let r = conceal-IsCounted (keep_scan c s) s.blocks_end bs in
            record { repeated = r.repeated; concealed = r.concealed })))

plc_run-counted :
    (rs : List (List ℕ)) (c : Plc)
    → AllQuiet rs
    → let (d, ss) = plc_run c rs in
      (count_changed rs ss + c.plc_repeat ≤ d.plc_repeat)
      × (count_changed rs ss + c.audio_conceal ≤ d.audio_conceal)
unfolding plc_run
plc_run-counted [] c q = (omega arith, omega arith)
plc_run-counted (r ∷ rs) c (q, qs) =
    let s = ds5_audio_plc-IsCounted c r q in
    let (a, b) = plc_run-counted rs (ds5_audio_plc c r).0 qs in
    (omega (arith, a, s.repeated), omega (arith, b, s.concealed))

-- After any run of reports through a new concealment, of any further reports without a block of
-- audio at most twelve leave with other bytes than they had, and no more than are counted as
-- concealed; then the kept audio has at most 260 bytes, the count of reports without audio is the
-- sum of those concealed and dropped, and every report has kept its length.
pub plc_run-changes_at_most_twelve :
    (before quiet : List (List ℕ))
    → AllQuiet quiet
    → let c = (plc_run silent before).0 in
      let (d, out) = plc_run c quiet in
      (count_changed quiet out ≤ 12)
      × (count_changed quiet out ≤ d.audio_conceal - c.audio_conceal)
      × IsBounded d
      × SameLengths quiet out
plc_run-changes_at_most_twelve before quiet q =
    let c : Plc = (plc_run silent before).0 in
    let (b, l) = plc_run-Sound quiet c (plc_run-IsBounded before).0 in
    let (n, m) = plc_run-counted quiet c q in
    (omega (arith, n, b.at_most_twelve), omega (arith, m), b, l)

-- Bytes none of which can be the number of a block of audio hold no such block.
abbrev pub all_low : List ℕ → Bool
all_low [] = true
all_low (b ∷ bs) = ltb b 0x93 && all_low bs

all_low-append : (xs : List ℕ) (y : ℕ) (ys : List ℕ) → all_low (xs ++ (y ∷ ys)) ≡ true → y < 0x93
all_low-append [] y ys h = ground arith
all_low-append (x ∷ xs) y ys h = all_low-append xs y ys (ground arith)

pub low_is_quiet : (body : List ℕ) → all_low body ≡ true → HasAudio body → ⊥
low_is_quiet body h a =
    let l = all_low-append (encode_blocks a.before) a.id _ (ap all_low (sym a.is_body) ∙ h) in
    let low = a.is_audio_id.0 in omega (arith, l, low)
