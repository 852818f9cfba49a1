-- ===== src/Bridge.antt =====
-- main/bridge_service.c: the bridge between the panel and the main board, and the command overlay.
pub mod Types
pub mod Match
pub mod Mirror
pub mod Update
pub mod Queue
pub mod Merge
pub mod Tasks
pub mod Frames
pub mod Stream
pub mod Command
pub mod Invariant
pub mod Handlers
pub mod Hybrid
pub mod Framing
pub mod Steps
pub mod Boot
pub mod Round
pub mod Reach
pub mod Deadline
pub mod Gate
pub mod View
pub mod Rollback
pub mod Conflict
pub mod Codes
pub mod Shown
pub mod Publish
pub mod Health
