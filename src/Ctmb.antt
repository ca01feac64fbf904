-- ===== src/Ctmb.antt =====
-- The CTM bridge wire format: src/app/hid_passthrough/ctm_bridge_protocol.h. `ctmb_header_t` is
-- packed, 32 bytes, and copied byte for byte (`memcpy`), little-endian on every target.
mod Defs
pub mod RoundTrip
unfoldable pub use Defs.*
