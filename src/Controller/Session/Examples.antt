-- ===== src/Controller/Session/Examples.antt =====
-- Tests and witnesses for the sessions of controllers and the reports that they write.
use moonlight_tv.Base.{
  if◌then◌else◌, ℕ, List, [], ◌∷◌, none, some, Bool, true, false, ◌≡◌, ◌<◌, refl, arith, replicate,
}
use moonlight_tv.Base.Int.{ℤ}
use moonlight_tv.Ctmb.{Header, le_value, msg_feature_get, msg_host_config, magic, version}
use moonlight_tv.Controller.Plc.{silent, ds5_audio_plc}
use moonlight_tv.Controller.Output.{
  verbatim, Kernel, Output, Written, wrote, again, accepted, hid_write_report,
  apply_output_settings, dedup_or_deliver, deliver_by, write_hidraw,
}
use moonlight_tv.Controller.Output.Accounts.{IsCounted, hid_write_report-IsCounted}
use moonlight_tv.Controller.Pace.{HostConfig}
use moonlight_tv.Controller.Session.{
  Ports, Answers, handle_message, ready, Poll, nothing, arrived, handshake, await_host_config,
  read_host_config, eff_pace_us,
}
use moonlight_tv.Controller.Session.Requests.{replied, handle_message-replied}
use moonlight_tv.Controller.Session.Running.{
  IsRunning, run_messages, starts_with, run_messages-IsRunning,
}

abbrev unity : ℕ → ℤ → ℤ
unity gain z = z

abbrev answering : Bool → Kernel
answering ok = record {
  first_write = if ok then wrote else again;
  poll_ready = false;
  second_wrote = false;
  sendto = accepted;
}

abbrev fresh_output : Output
fresh_output = record {
  hid_open = true;
  plc = silent;
  dedup_enabled = true;
  last31 = [];
  acl = none;
  hid_wait_ms = 3;
  reports_out = 0;
  hid_ok = 0;
  hid_eagain = 0;
  hid_recovered = 0;
  hid_dropped = 0;
  dedup_skipped = 0;
}

abbrev rumble_report : List ℕ
rumble_report = 0x31 ∷ 0x10 ∷ 3 ∷ 0 ∷ 200 ∷ 200 ∷ replicate 8 0

-- The output state after a report that the device did not take.
abbrev after_loss : Written
unfolding hid_write_report apply_output_settings ds5_audio_plc dedup_or_deliver deliver_by
    write_hidraw
after_loss = hid_write_report unity verbatim (answering false) fresh_output rumble_report

-- A report that was lost is remembered as if it had been written: the same report, sent again, is
-- passed over, although the device is ready and never got it.
lost_report_is_not_sent_again :
    (after_loss.is_ok ≡ false)
    × ((hid_write_report unity verbatim (answering true) after_loss.output rumble_report).to_device
        ≡ none)
unfolding after_loss hid_write_report apply_output_settings ds5_audio_plc dedup_or_deliver
    deliver_by write_hidraw
lost_report_is_not_sent_again = (refl, refl)

hid_write_report-IsCounted_example :
    IsCounted fresh_output
      (hid_write_report unity verbatim (answering true) fresh_output rumble_report)
hid_write_report-IsCounted_example =
    hid_write_report-IsCounted unity verbatim (answering true) fresh_output rumble_report refl
      (omega arith) (omega arith)

abbrev one_port : Ports
one_port = record {
  composite = false;
  evdev_gamepad = false;
  xpad_out_ep = 0;
  primary_out_ep = 0;
  primary_iface = 0;
  siblings = [];
  hook = verbatim;
}

abbrev answers : Answers
answers = record {
  kernel = answering true;
  raw_ok = λ node bs. true;
  feature_of = λ node bs. some bs;
  feature_set = λ node bs. true;
  send_ok = true;
}

abbrev header_of : ℕ → ℕ → ℕ → Header
header_of kind id n = record {
  h_magic = magic;
  h_version = version;
  h_type = kind;
  h_flags = 0;
  h_sequence = 0;
  h_timestamp_us = 0;
  h_request_id = id;
  h_payload_len = n;
}

abbrev no_config : HostConfig
no_config = record { bt_pace_us = 0; paced_report_count = 0; paced_report_ids = [] }

abbrev asks_feature : Header
asks_feature = header_of msg_feature_get 7 2

handle_message-replied_example :
    replied
      (handle_message unity one_port answers
        (starts_with fresh_output no_config)
        asks_feature
        (0x05 ∷ 0 ∷ [])).1
    ≡ 7 ∷ []
handle_message-replied_example =
    handle_message-replied unity one_port answers (starts_with fresh_output no_config) asks_feature
      (0x05 ∷ 0 ∷ []) refl

-- A configuration that asks for a pace of 5 ms, after a second without an answer.
abbrev configuration : List ℕ
configuration = 0x88 ∷ 0x13 ∷ 0 ∷ 0 ∷ replicate 54 0

abbrev config_polls : List Poll
config_polls = nothing 1000000 ∷ arrived (header_of msg_host_config 0 58) configuration ∷ []

abbrev five_ms : HostConfig
five_ms = record { bt_pace_us = 5000; paced_report_count = 0; paced_report_ids = replicate 16 0 }

config_arrives : handshake (λ kind. true) true none no_config config_polls ≡ ready five_ms
unfolding handshake await_host_config read_host_config le_value
config_arrives = refl

run_messages-IsRunning_example :
    let s =
      run_messages unity one_port
        (starts_with fresh_output five_ms)
        ((answers, asks_feature, 0x05 ∷ []) ∷ []) in
    IsRunning s × (0 < eff_pace_us s.output.acl s.host_cfg.bt_pace_us)
run_messages-IsRunning_example =
    run_messages-IsRunning unity one_port (λ kind. true) true none no_config five_ms config_polls
      fresh_output ((answers, asks_feature, 0x05 ∷ []) ∷ []) config_arrives
