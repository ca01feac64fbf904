-- ===== src/Controller.antt =====
-- The sessions of bridged controllers: src/app/hid_passthrough/ctm/controllers, one module for each
-- of the jobs of a session.
pub mod Xpad
pub mod Coalesce
pub mod Battery
pub mod Sign
pub mod Patch
pub mod Ds4
pub mod Ds5
pub mod Plc
pub mod Output
pub mod Pace
pub mod Session
pub mod Lifecycle
mod Examples
