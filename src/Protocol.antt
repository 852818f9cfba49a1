-- ===== src/Protocol.antt =====
-- main/ac_protocol.h and main/ac_protocol.c: the frames of the appliance, and the control requests
-- that are written into them.
pub mod Types
pub mod Wire
pub mod Frame
pub mod Parse
pub mod Checksum
pub mod Control
pub mod Flags
pub mod Bytes
pub mod Written
pub mod Readback
pub mod ReadbackMain
