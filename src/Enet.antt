-- ===== src/Enet.antt =====
-- The ENet transport: src/app/hid_passthrough/enet_transport.c.
pub mod Ring
pub mod Client
pub mod Samples
mod Examples
