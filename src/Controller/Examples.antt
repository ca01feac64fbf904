-- ===== src/Controller/Examples.antt =====
-- Tests and witnesses for the jobs of a controller's session.
use moonlight_tv.Base.{
  ℕ, List, [], ◌∷◌, none, true, false, ◌≡◌, ◌-◌, refl, arith, replicate, length, ◌+◌, map, ◌≤◌,
}
use moonlight_tv.Base.Int.{ℤ}
use moonlight_tv.Controller.Patch.{AudioMode, audio_speaker, audio_auto, WorkerSettings}
use moonlight_tv.Controller.Ds4.{ds4_patch_output, IsRouted, ds4_patch_output-IsRouted}
use moonlight_tv.Controller.Ds5.{Block, ds5_patch_output}
use moonlight_tv.Controller.Ds5.Reference.{new_block}
use moonlight_tv.Controller.Ds5.Whole.{IsPatched, ds5_patch_output-IsPatched}
use moonlight_tv.Controller.Ds5.Report.{report_of}
use moonlight_tv.Controller.Plc.{silent, plc_run}
use moonlight_tv.Controller.Plc.Bounds.{IsBounded, SameLengths}
use moonlight_tv.Controller.Plc.Quiet.{count_changed, low_is_quiet, plc_run-changes_at_most_twelve}
use moonlight_tv.Controller.Battery.{
  Battery, unknown, ds5_on_input_report, read_raw, after_samples, newest_reading, shows,
  after_samples-newest_reading,
}
use moonlight_tv.Controller.Coalesce.{
  drain_burst, keep_report, forward_slots, input_burst, InputSide,
}
use moonlight_tv.Controller.Coalesce.Latest.{
  lookup, slot_reports, count_ids, IsLatest, IsSent, input_burst-IsLatest,
}
use moonlight_tv.Controller.Pace.{
  no_reports, queue_paced, waiting, drain_paced, IsDrained, drain_paced-IsDrained,
}
use moonlight_tv.Controller.Pace.Queue.{IsValid, enqueued, waiting-queue_paced, no_reports-IsValid}
use moonlight_tv.Controller.Lifecycle.{
  Grants, Course, handshake_fails, runs, feeder_fails, plugged_once, plug_in, plug_out,
  session_main, session_rounds, session_round, run_session,
}
use moonlight_tv.Controller.Lifecycle.Release.{IsReleased, plugged_once-IsReleased}

abbrev loud : AudioMode → WorkerSettings
loud mode = record {
  audio_mode = mode;
  latency_ms = 40;
  haptics_gain_centi = 100;
  headset_volume_percent = 70;
  speaker_volume_percent = 90;
  block_bt_audio_sink = false;
}

abbrev ds4_report : List ℕ
ds4_report = 0x15 ∷ replicate 99 0

ds4_patch_output-IsRouted_example :
    IsRouted (loud audio_speaker) ds4_report (ds4_patch_output (loud audio_speaker) ds4_report)
ds4_patch_output-IsRouted_example =
    ds4_patch_output-IsRouted (loud audio_speaker) ds4_report (omega arith) refl refl

abbrev unity : ℕ → ℤ → ℤ
unity gain z = z

-- A latency block, and the two zeros behind it.
abbrev latency_report : List ℕ
latency_report = report_of 0x36 0 ((0x91, replicate 6 0) ∷ []) (0 ∷ 0 ∷ []) (1 ∷ 2 ∷ 3 ∷ 4 ∷ [])

ds5_patch_output-IsPatched_example :
    let bs : List Block = (0x91, replicate 6 0) ∷ [] in
    let bs' = map (new_block unity (loud audio_auto)) bs in
    IsPatched
      (bs' ≡ bs)
      latency_report
      (report_of 0x36 0 bs' (0 ∷ 0 ∷ []) (1 ∷ 2 ∷ 3 ∷ 4 ∷ []))
      (ds5_patch_output unity (loud audio_auto) latency_report)
ds5_patch_output-IsPatched_example =
    ds5_patch_output-IsPatched unity (loud audio_auto) 0x36 0 ((0x91, replicate 6 0) ∷ [])
      (0 ∷ 0 ∷ []) (1 ∷ 2 ∷ 3 ∷ 4 ∷ []) refl (refl, tt) refl refl (omega arith)

-- The latency of 40 ms in its five bytes.
latency_is_written :
    new_block unity (loud audio_auto) (0x91, replicate 6 0) ≡ (0x91, 0 ∷ replicate 5 40)
unfolding new_block
latency_is_written = refl

-- A report with a block of audio of 102 bytes, and one without, which has room for it.
abbrev with_audio : List ℕ
with_audio = report_of 0x36 0 ((0x93, replicate 100 5) ∷ []) (0 ∷ 0 ∷ []) (1 ∷ 2 ∷ 3 ∷ 4 ∷ [])

abbrev without_audio : List ℕ
without_audio = 0x36 ∷ (0 ∷ replicate 120 0)

plc_run-changes_at_most_twelve_example :
    let quiet = without_audio ∷ (without_audio ∷ []) in
    let c = (plc_run silent (with_audio ∷ [])).0 in
    let (d, out) = plc_run c quiet in
    (count_changed quiet out ≤ 12)
    × (count_changed quiet out ≤ d.audio_conceal - c.audio_conceal)
    × IsBounded d
    × SameLengths quiet out
plc_run-changes_at_most_twelve_example =
    plc_run-changes_at_most_twelve (with_audio ∷ []) (without_audio ∷ (without_audio ∷ []))
      (low_is_quiet (replicate 116 0) refl, (low_is_quiet (replicate 116 0) refl, tt))

-- Level 7, charging, in three samples after one of noise.
abbrev samples : List (ℕ × ℕ)
samples = (0x17, 40) ∷ (0x17, 30) ∷ (0x17, 20) ∷ (0xff, 10) ∷ []

shows_seven : newest_reading samples ≡ (7, 1, 40)
unfolding read_raw
shows_seven = refl

after_samples-newest_reading_example : shows (after_samples samples) ≡ newest_reading samples
after_samples-newest_reading_example = after_samples-newest_reading samples

abbrev burst : List (List ℕ)
burst = (1 ∷ 10 ∷ []) ∷ (2 ∷ 20 ∷ []) ∷ (1 ∷ 11 ∷ []) ∷ []

abbrev listening : InputSide
listening = record { sent = []; stop = false; battery = unknown; reports_in = 0; coalesced = 0 }

-- The hook of a DualSense at the time 50.
abbrev battery_hook : Battery → List ℕ → Battery
unfolding ds5_on_input_report
battery_hook b r = ds5_on_input_report b r 50

burst_sends :
    (input_burst (λ _. true) battery_hook burst listening).sent ≡ (1 ∷ 11 ∷ []) ∷ (2 ∷ 20 ∷ []) ∷ []
unfolding input_burst drain_burst keep_report forward_slots battery_hook ds5_on_input_report
burst_sends = refl

input_burst-IsLatest_example :
    let ss = drain_burst [] burst in
    let t = input_burst (λ _. true) battery_hook burst listening in
    IsLatest burst ss
    × IsSent battery_hook (slot_reports ss) listening t
    × (t.coalesced ≡ 0 + (length burst - count_ids [] burst))
input_burst-IsLatest_example = input_burst-IsLatest battery_hook burst listening refl (omega arith)

-- With seven kinds of reports in a burst the sixth is lost.
seventh_takes_the_place_of_the_sixth :
    lookup 6 (
      drain_burst []
        ((1 ∷ []) ∷ (2 ∷ []) ∷ (3 ∷ []) ∷ (4 ∷ []) ∷ (5 ∷ []) ∷ (6 ∷ []) ∷ (7 ∷ []) ∷ []))
    ≡ none
unfolding drain_burst keep_report
seventh_takes_the_place_of_the_sixth = refl

waiting-queue_paced_example :
    (waiting (queue_paced no_reports (0x36 ∷ [])) ≡ enqueued (waiting no_reports) (0x36 ∷ []))
    × IsValid (queue_paced no_reports (0x36 ∷ []))
waiting-queue_paced_example =
    waiting-queue_paced no_reports (0x36 ∷ []) no_reports-IsValid (omega arith)

drain_paced-IsDrained_example :
    IsDrained
      (waiting (queue_paced no_reports (0x36 ∷ [])))
      (drain_paced (queue_paced no_reports (0x36 ∷ [])) 0 8000 100 (150 ∷ []))
drain_paced-IsDrained_example =
    drain_paced-IsDrained (queue_paced no_reports (0x36 ∷ [])) 0 8000 100 (150 ∷ [])

abbrev all_granted : Grants
all_granted = record { log_opens = true; enet_ok = true; thread_ok = true }

abbrev two_sessions : Course
two_sessions = record {
  acl_starts = true;
  hid_opens = true;
  with_dummy = false;
  pipe_ok = true;
  rounds = (2, handshake_fails) ∷ (2, runs 3 true false 3) ∷ [];
  connects_late = true;
}

plugged_once-IsReleased_example : IsReleased (plugged_once all_granted two_sessions)
plugged_once-IsReleased_example = plugged_once-IsReleased all_granted two_sessions refl refl

-- The forwarder outlives a controller whose hidraw node did not open.
forwarder_outlives :
    (plugged_once all_granted (record two_sessions { hid_opens = false })).acl_tx ≡ true
unfolding plugged_once plug_in plug_out session_main
forwarder_outlives = refl

-- Siblings stay open where the feeder of an XInput gamepad fails.
siblings_stay_open :
    (plugged_once all_granted
      (record two_sessions { rounds = (0, feeder_fails 2) ∷ [] })).comp_count
    ≡ 2
unfolding plugged_once plug_in plug_out session_main session_rounds session_round run_session
siblings_stay_open = refl
