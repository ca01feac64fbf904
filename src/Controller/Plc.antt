-- ===== src/Controller/Plc.antt =====
-- The audio that is put into a DualSense report which lacks it: `ds5_audio_plc` of
-- src/app/hid_passthrough/ctm/controllers/controller_common.c.
use moonlight_tv.Base.{
  ℕ, zero, suc, ◌+◌, ◌-◌, ◌≤◌, ◌<◌, List, [], ◌∷◌, ◌++◌, Bool, true, false, not, ◌||◌, ◌&&◌, ltb,
  leb, ◌==◌, if◌then◌else◌, ◌≡◌, refl, sym, ap, ◌∙◌, arith, length, get_or, take, drop,
  length-append, length-take, length-drop, if_both, if_split, min,
}
use moonlight_tv.Controller.Sign.{bt_sign_output}
pub mod Bounds
pub mod Quiet

-- The fields `plc_` of a controller and its three counters. An empty `plc_audio` with `plc_have`
-- false is the state of a new one.
pub record Plc : Type 0 where
  pub plc_enabled : Bool
  pub plc_have : Bool
  pub plc_repeat : ℕ
  pub plc_audio : List ℕ
  pub audio_omit : ℕ
  pub audio_conceal : ℕ
  pub audio_capdrop : ℕ

abbrev pub silent : Plc
silent = record {
  plc_enabled = true;
  plc_have = false;
  plc_repeat = 0;
  plc_audio = [];
  audio_omit = 0;
  audio_conceal = 0;
  audio_capdrop = 0;
}

-- What the loop over the blocks finds: the kept audio, whether a block of audio was present, the end
-- of the blocks, and whether a block goes past the limit.
pub record Scan : Type 0 where
  pub kept : Bool × List ℕ
  pub audio_present : Bool
  pub blocks_end : ℕ
  pub overruns : Bool

abbrev pub is_audio : ℕ → ℕ → Bool
is_audio id payload_len = leb 0x93 id && leb id 0x96 && leb 100 payload_len

-- `plc_audio` has room for 260 bytes.
abbrev pub keep_audio : ℕ → List ℕ → Bool × List ℕ → Bool × List ℕ
keep_audio n block kept = if leb (n + 2) 260 then (true, block) else kept

unfoldable pub scan_audio : ℕ → Bool × List ℕ → Bool → ℕ → List ℕ → Scan
scan_audio zero kept present end bs = record {
  kept = kept;
  audio_present = present;
  blocks_end = end;
  overruns = false;
}
scan_audio (suc fuel) kept present end (id ∷ (n ∷ more)) =
    let audio : Bool = is_audio id n in
    let kept' : Bool × List ℕ = keep_audio n (id ∷ (n ∷ take n more)) kept in
    let rest : Scan =
      scan_audio fuel (if audio then kept' else kept) (audio || present) (end + n + 2)
        (drop n more) in
    if id == 0 && n == 0
    then record { kept = kept; audio_present = present; blocks_end = end; overruns = false }
    else if ltb (length more) n
    then record { kept = kept; audio_present = present; blocks_end = end; overruns = true }
    else rest
scan_audio (suc fuel) kept present end bs = record {
  kept = kept;
  audio_present = present;
  blocks_end = end;
  overruns = false;
}

-- `memcpy(&data[at], bytes, …)`
abbrev pub write_at : ℕ → List ℕ → List ℕ → List ℕ
write_at at bytes bs = take at bs ++ (bytes ++ drop (at + length bytes) bs)

abbrev pub keep_scan : Plc → Scan → Plc
keep_scan c s = record c { plc_have = s.kept.0; plc_audio = s.kept.1 }

-- A report without audio, whose blocks end at `end`.
unfoldable pub conceal : Plc → ℕ → List ℕ → Plc × List ℕ
conceal c end bs =
    let limit : ℕ = length bs - 4 in
    let al : ℕ = length c.plc_audio in
    let omitted : ℕ = c.audio_omit + 1 in
    let dropped : Plc = record c { audio_omit = omitted; audio_capdrop = c.audio_capdrop + 1 } in
    let concealed : Plc = record c {
      audio_omit = omitted;
      plc_repeat = c.plc_repeat + 1;
      audio_conceal = c.audio_conceal + 1;
    } in
    let with_audio : List ℕ = write_at end c.plc_audio bs in
    if not c.plc_have || leb 12 c.plc_repeat
    then (dropped, bs)
    else if ltb limit (end + al)
    then (dropped, bs)
    else (
      concealed,
      bt_sign_output (
          if leb (end + al + 2) limit
          then write_at (end + al) (0 ∷ 0 ∷ []) with_audio
          else with_audio),
    )

unfoldable pub ds5_audio_plc : Plc → List ℕ → Plc × List ℕ
ds5_audio_plc c bs =
    let body : List ℕ = drop 2 (take (length bs - 4) bs) in
    let s : Scan = scan_audio (length body) (c.plc_have, c.plc_audio) false 2 body in
    let c' : Plc = keep_scan c s in
    if not c.plc_enabled || ltb (length bs) 12 || not (get_or bs 0 0 == 0x36)
    then (c, bs)
    else if s.overruns
    then (c', bs)
    else if s.audio_present
    then (record c' { plc_repeat = 0 }, bs)
    else conceal c' s.blocks_end bs

-- A run of reports: the state and the reports that leave.
unfoldable pub plc_run : Plc → List (List ℕ) → Plc × List (List ℕ)
plc_run c [] = (c, [])
plc_run c (r ∷ rs) =
    let out = ds5_audio_plc c r in let rest = plc_run out.0 rs in (rest.0, out.1 ∷ rest.1)
