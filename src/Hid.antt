-- ===== src/Hid.antt =====
-- HID devices: the report descriptors of src/app/hid_passthrough/ctm_hid.c, and what
-- src/app/hid_passthrough/hid_device.c makes of a device and of the host's messages.
pub mod Descriptor
pub mod Walk
pub mod Encode
pub mod Device
mod Examples
