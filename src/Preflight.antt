-- ===== src/Preflight.antt =====
-- main/nts0104_preflight.c and the use that main/main.c makes of it: the interlock of the level
-- translator's output enable.
pub mod Interlock
pub mod Inv
pub mod Startup
