-- ===== src/Capture.antt =====
-- main/capture_store.h and main/capture_store.c: the log of records in a flash partition.
pub mod Crc
pub mod Detect
pub mod Layout
pub mod Flash
pub mod Store
pub mod Write
pub mod Init
pub mod RoundTrip
pub mod Summary
pub mod Inv
pub mod Mirror
pub mod Next
pub mod Start
pub mod Prepare
pub mod Keep
pub mod Answer
pub mod Deliver
pub mod Recover
pub mod Queue
