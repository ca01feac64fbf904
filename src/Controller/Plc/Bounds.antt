-- ===== src/Controller/Plc/Bounds.antt =====
-- The bounds of the concealed audio: `ds5_audio_plc` of
-- src/app/hid_passthrough/ctm/controllers/controller_common.c.
use moonlight_tv.Base.{
  ℕ, zero, suc, ◌+◌, ◌-◌, ◌≤◌, List, [], ◌∷◌, ◌++◌, Bool, true, false, not, ◌||◌, ◌&&◌, ltb, leb,
  ◌==◌, ◌≡◌, refl, ◌∙◌, arith, length, get_or, take, drop, length-append, length-take, length-drop,
  if_both, if_split,
}
use moonlight_tv.Controller.Sign.{length-bt_sign_output}
use moonlight_tv.Controller.Plc.{
  Plc, silent, Scan, is_audio, keep_audio, scan_audio, write_at, keep_scan, conceal, ds5_audio_plc,
  plc_run,
}

-- The count of reports that repeat the same audio in a row is at most twelve, the kept audio fits
-- its buffer, and the count of reports without audio is the sum of those concealed and dropped.
pub record IsBounded (c : Plc) : Type 0 where
  pub at_most_twelve : c.plc_repeat ≤ 12
  pub fits : length c.plc_audio ≤ 260
  pub accounted : c.audio_omit ≡ c.audio_conceal + c.audio_capdrop

record FitsKept (s : Scan) : Type 0 where
  kept_fits : length s.kept.1 ≤ 260

keep_audio-fits :
    (id n : ℕ) (more : List ℕ) (kept : Bool × List ℕ)
    → length kept.1 ≤ 260
    → length (keep_audio n (id ∷ (n ∷ take n more)) kept).1 ≤ 260
keep_audio-fits id n more kept h =
    if_split (λ (k : Bool × List ℕ). length k.1 ≤ 260) (leb (n + 2) 260)
      {x = (true, id ∷ (n ∷ take n more))} {y = kept} (λ e. ground (arith, length-take n more))
      (λ _. h)

scan_audio-FitsKept :
    (fuel : ℕ) (kept : Bool × List ℕ) (present : Bool) (end : ℕ) (bs : List ℕ)
    → length kept.1 ≤ 260
    → FitsKept (scan_audio fuel kept present end bs)
unfolding scan_audio
scan_audio-FitsKept zero kept present end bs h = record { kept_fits = h }
scan_audio-FitsKept (suc fuel) kept present end [] h = record { kept_fits = h }
scan_audio-FitsKept (suc fuel) kept present end (b ∷ []) h = record { kept_fits = h }
scan_audio-FitsKept (suc fuel) kept present end (id ∷ (n ∷ more)) h =
    if_both FitsKept (id == 0 && n == 0) (record { kept_fits = h })
      (if_both FitsKept (ltb (length more) n) (record { kept_fits = h })
        (scan_audio-FitsKept fuel _ _ (end + n + 2) (drop n more) (
          if_both (λ (k : Bool × List ℕ). length k.1 ≤ 260) (is_audio id n)
            {x = keep_audio n (id ∷ (n ∷ take n more)) kept} {y = kept}
            (keep_audio-fits id n more kept h) h)))

length-write_at :
    (at : ℕ) (ws bs : List ℕ) → at + length ws ≤ length bs → length (write_at at ws bs) ≡ length bs
length-write_at at ws bs h = omega (
  arith,
  length-append (take at bs) (ws ++ drop (at + length ws) bs),
  length-append ws (drop (at + length ws) bs),
  length-take at bs,
  length-drop (at + length ws) bs,
)

-- What holds of the state and the report after a call.
record Sound (bs : List ℕ) (out : Plc × List ℕ) : Type 0 where
  bounded : IsBounded out.0
  same_length : length out.1 ≡ length bs

conceal-Sound : (c : Plc) (end : ℕ) (bs : List ℕ) → IsBounded c → Sound bs (conceal c end bs)
unfolding conceal
conceal-Sound c end bs b =
    let limit : ℕ = length bs - 4 in
    let al : ℕ = length c.plc_audio in
    let audible : List ℕ = write_at end c.plc_audio bs in
    let dropped : Sound bs
        (record c { audio_omit = c.audio_omit + 1; audio_capdrop = c.audio_capdrop + 1 }, bs) =
      record {
        bounded = record {
          at_most_twelve = b.at_most_twelve;
          fits = b.fits;
          accounted = omega (arith, b.accounted);
        };
        same_length = refl;
      } in
    if_split (Sound bs) (not c.plc_have || leb 12 c.plc_repeat) (λ _. dropped)
      (λ t.
        if_split (Sound bs) (ltb limit (end + al)) (λ _. dropped)
          (λ u.
            let l = length-write_at end c.plc_audio bs (ground arith) in
            record {
              bounded = record {
                at_most_twelve = ground arith;
                fits = b.fits;
                accounted = omega (arith, b.accounted);
              };
              same_length =
                  length-bt_sign_output _
                  ∙ if_split (λ (o : List ℕ). length o ≡ length bs) (leb (end + al + 2) limit)
                      {x = write_at (end + al) (0 ∷ 0 ∷ []) audible} {y = audible}
                      (λ w. length-write_at (end + al) (0 ∷ 0 ∷ []) audible (ground (arith, l)) ∙ l)
                      (λ _. l);
            }))

ds5_audio_plc-Sound : (c : Plc) (bs : List ℕ) → IsBounded c → Sound bs (ds5_audio_plc c bs)
unfolding ds5_audio_plc
ds5_audio_plc-Sound c bs b =
    let body : List ℕ = drop 2 (take (length bs - 4) bs) in
    let s : Scan = scan_audio (length body) (c.plc_have, c.plc_audio) false 2 body in
    let f =
      (scan_audio-FitsKept (length body) (c.plc_have, c.plc_audio) false 2 body b.fits).kept_fits in
    let kept : IsBounded (keep_scan c s) = record {
      at_most_twelve = b.at_most_twelve;
      fits = f;
      accounted = b.accounted;
    } in
    if_both (Sound bs) (not c.plc_enabled || ltb (length bs) 12 || not (get_or bs 0 0 == 0x36))
      (record { bounded = b; same_length = refl })
      (if_both (Sound bs) s.overruns (record { bounded = kept; same_length = refl })
        (if_both (Sound bs) s.audio_present
          (record {
            bounded = record { at_most_twelve = omega arith; fits = f; accounted = b.accounted };
            same_length = refl;
          })
          (conceal-Sound (keep_scan c s) s.blocks_end bs kept)))

abbrev pub SameLengths : List (List ℕ) → List (List ℕ) → Type 0
SameLengths [] [] = Unit {0}
SameLengths (r ∷ rs) (s ∷ ss) = (length s ≡ length r) × SameLengths rs ss
SameLengths _ _ = ⊥

pub plc_run-Sound :
    (rs : List (List ℕ)) (c : Plc)
    → IsBounded c
    → IsBounded (plc_run c rs).0 × SameLengths rs (plc_run c rs).1
unfolding plc_run
plc_run-Sound [] c b = (b, tt)
plc_run-Sound (r ∷ rs) c b =
    let s = ds5_audio_plc-Sound c r b in
    let (p, q) = plc_run-Sound rs (ds5_audio_plc c r).0 s.bounded in (p, (s.same_length, q))

-- Over any run of reports through a new concealment the counters and the kept audio keep these
-- bounds, and every report keeps its length.
pub plc_run-IsBounded :
    (rs : List (List ℕ)) → IsBounded (plc_run silent rs).0 × SameLengths rs (plc_run silent rs).1
plc_run-IsBounded rs =
    plc_run-Sound rs silent
      (record { at_most_twelve = omega arith; fits = omega arith; accounted = refl })
