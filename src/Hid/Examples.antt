-- ===== src/Hid/Examples.antt =====
-- The theorems about HID devices at a concrete descriptor and message.
use moonlight_tv.Base.{List, [], ◌∷◌, some, ◌≡◌, refl, arith}
use moonlight_tv.Ctmb.{Header, le_value}
use moonlight_tv.Hid.Descriptor.{
  item_len, is_report, length_report, length_global, report_bytes, scan_lengths, top_usage,
  length_step, no_lengths, usage_step, no_usage, derive_report_lengths,
}
use moonlight_tv.Hid.Encode.{
  Raw, short_raw, long_raw, encode, items, AllRaw, run_items, scan_lengths-encode,
}

-- A gamepad with an input report of 64 fields of 8 bits, after a long item.
abbrev pad : List Raw
pad =
    long_raw 9 (1 ∷ 2 ∷ [])
    ∷ short_raw 1 0 1 (1 ∷ [])
    ∷ short_raw 2 0 1 (5 ∷ [])
    ∷ short_raw 1 8 1 (1 ∷ [])
    ∷ short_raw 1 7 1 (8 ∷ [])
    ∷ short_raw 1 9 1 (64 ∷ [])
    ∷ short_raw 0 8 1 (2 ∷ [])
    ∷ []

pad-AllRaw : AllRaw pad
unfolding item_len
pad-AllRaw = ground arith

pad_lengths :
    derive_report_lengths
      (encode pad)
      (record { input_report_len = 0; output_report_len = 7; feature_report_len = 0 })
    ≡ some (record { input_report_len = 65; output_report_len = 7; feature_report_len = 0 })
unfolding derive_report_lengths is_report length_report length_global report_bytes le_value
pad_lengths = refl

scan_lengths-encode_example :
    (scan_lengths (encode pad) ≡ some (run_items length_step no_lengths (items pad)))
    × (top_usage (encode pad) ≡ some (run_items usage_step no_usage (items pad)))
scan_lengths-encode_example = scan_lengths-encode pad pad-AllRaw

abbrev feature_request : Header
feature_request = record {
  h_magic = 0;
  h_version = 0;
  h_type = 5;
  h_flags = 0;
  h_sequence = 0;
  h_timestamp_us = 0;
  h_request_id = 41;
  h_payload_len = 3;
}
