-- ===== src/Ctmb/RoundTrip.antt =====
-- What is written as a header is read back: every field in the range of its type survives.
use native.Mathlib.Nat.{pow-suc}
use moonlight_tv.Base.{
  ℕ, zero, suc, ◌+◌, ◌/◌, ◌^◌, ◌<◌, List, ◌++◌, ◌≡◌, refl, ap, arith, length, length-append,
}
use moonlight_tv.Ctmb.Defs.{Header, le_bytes, le_value, skip, frame, unframe, header_size}

-- Every field fits the width that the struct gives it.
pub record Fits (h : Header) : Type 0 where
  pub magic_fits : h.h_magic < 256 ^ 4
  pub version_fits : h.h_version < 256 ^ 2
  pub type_fits : h.h_type < 256 ^ 2
  pub flags_fits : h.h_flags < 256 ^ 4
  pub sequence_fits : h.h_sequence < 256 ^ 4
  pub timestamp_fits : h.h_timestamp_us < 256 ^ 8
  pub request_fits : h.h_request_id < 256 ^ 4
  pub len_fits : h.h_payload_len < 256 ^ 4

pub length-le_bytes : (n w : ℕ) → length (le_bytes n w) ≡ n
unfolding le_bytes
length-le_bytes zero w = refl
length-le_bytes (suc n) w = ap suc (length-le_bytes n (w / 256))

pub le_value-le_bytes :
    (n w : ℕ) (rest : List ℕ) → w < 256 ^ n → le_value n (le_bytes n w ++ rest) ≡ w
unfolding le_value le_bytes
le_value-le_bytes zero w rest h = omega arith
le_value-le_bytes (suc n) w rest h =
    omega (arith, le_value-le_bytes n (w / 256) rest (omega (arith, pow-suc 256 n)))

skip-le_bytes : (n w : ℕ) (rest : List ℕ) → skip n (le_bytes n w ++ rest) ≡ rest
unfolding skip le_bytes
skip-le_bytes zero w rest = refl
skip-le_bytes (suc n) w rest = skip-le_bytes n (w / 256) rest

-- Reading a frame back gives the header and the payload that it was made of, if the header's
-- fields fit their widths.
pub unframe-frame :
    (h : Header) (payload : List ℕ) → Fits h → unframe (frame h payload) ≡ (h, payload)
unfolding unframe frame
unframe-frame h payload v = simp (
  skip-le_bytes, le_value-le_bytes, v.magic_fits, v.version_fits, v.type_fits, v.flags_fits,
  v.sequence_fits, v.timestamp_fits, v.request_fits, v.len_fits,
)

pub length-frame :
    (h : Header) (payload : List ℕ) → length (frame h payload) ≡ header_size + length payload
unfolding frame
length-frame h payload = simp (length-append, length-le_bytes) (omega arith)
