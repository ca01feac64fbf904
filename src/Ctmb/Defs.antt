-- ===== src/Ctmb/Defs.antt =====
-- Constants, header and byte layout of src/app/hid_passthrough/ctm_bridge_protocol.h.
use moonlight_tv.Base.{
  ℕ, zero, suc, ◌+◌, ◌*◌, ◌/◌, ◌%◌, List, [], ◌∷◌, ◌++◌, Bool, ◌||◌, not, ◌==◌, leb,
}

-- A byte, an unsigned word: natural numbers, reduced where the code stores them.
abbrev pub magic : ℕ
magic = 0x54424d43

abbrev pub version : ℕ
version = 1

abbrev pub flag_ok : ℕ
flag_ok = 1

abbrev pub max_payload : ℕ
max_payload = 65536

abbrev pub header_size : ℕ
header_size = 32

-- `enum ctmb_message_type`
abbrev pub msg_hello : ℕ
msg_hello = 1

abbrev pub msg_input_report : ℕ
msg_input_report = 3

abbrev pub msg_output_report : ℕ
msg_output_report = 4

abbrev pub msg_feature_get : ℕ
msg_feature_get = 5

abbrev pub msg_feature_report : ℕ
msg_feature_report = 6

abbrev pub msg_host_config : ℕ
msg_host_config = 2

abbrev pub msg_feature_set : ℕ
msg_feature_set = 9

abbrev pub msg_enum : ℕ
msg_enum = 10

-- `ctmb_header_t`
pub record Header : Type 0 where
  pub h_magic : ℕ
  pub h_version : ℕ
  pub h_type : ℕ
  pub h_flags : ℕ
  pub h_sequence : ℕ
  pub h_timestamp_us : ℕ
  pub h_request_id : ℕ
  pub h_payload_len : ℕ

-- The `n` bytes of a word, lowest first, and back.
unfoldable pub le_bytes : ℕ → ℕ → List ℕ
le_bytes zero w = []
le_bytes (suc n) w = (w % 256) ∷ le_bytes n (w / 256)

unfoldable pub le_value : ℕ → List ℕ → ℕ
le_value zero bs = 0
le_value (suc n) [] = 0
le_value (suc n) (b ∷ bs) = b + 256 * le_value n bs

unfoldable pub skip : ℕ → List ℕ → List ℕ
skip zero bs = bs
skip (suc n) [] = []
skip (suc n) (b ∷ bs) = skip n bs

-- The bytes of a header in the order of its fields, and behind them the payload.
unfoldable pub frame : Header → List ℕ → List ℕ
frame h payload =
    le_bytes 4 h.h_magic
    ++ (le_bytes 2 h.h_version
        ++ (le_bytes 2 h.h_type
            ++ (le_bytes 4 h.h_flags
                ++ (le_bytes 4 h.h_sequence
                    ++ (le_bytes 8 h.h_timestamp_us
                        ++ (le_bytes 4 h.h_request_id
                            ++ (le_bytes 4 h.h_payload_len ++ payload)))))))

-- `memcpy(&header, data, sizeof(header))`, field by field, and the bytes behind it.
unfoldable pub unframe : List ℕ → Header × List ℕ
unframe bs =
    let b1 = skip 4 bs in
    let b2 = skip 2 b1 in
    let b3 = skip 2 b2 in
    let b4 = skip 4 b3 in
    let b5 = skip 4 b4 in
    let b6 = skip 8 b5 in
    let b7 = skip 4 b6 in
    (
      record {
        h_magic = le_value 4 bs;
        h_version = le_value 2 b1;
        h_type = le_value 2 b2;
        h_flags = le_value 4 b3;
        h_sequence = le_value 4 b4;
        h_timestamp_us = le_value 8 b5;
        h_request_id = le_value 4 b6;
        h_payload_len = le_value 4 b7;
      },
      skip 4 b7,
    )

-- The test that both transports make of a received header.
unfoldable pub rejects : Header → Bool
rejects h =
    not (h.h_magic == magic)
    || (not (h.h_version == version) || not (leb h.h_payload_len max_payload))
