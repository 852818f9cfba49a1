-- ===== src/Tests.antt =====
-- The theorems at concrete inputs: frames that were captured from the appliance, and short runs.
mod Frames
mod Runs
mod Parts
mod Log
mod Commands
mod Server
mod Broker
