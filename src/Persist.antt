-- ===== src/Persist.antt =====
-- The records that survive a power cycle: src/persist/.
pub mod Crc
pub mod Bytes
pub mod Flash
pub mod Pingpong
pub mod Slot
pub mod CrashState
pub mod Authlist
pub mod BootConfig
pub mod OtaStage
pub mod Log
pub mod Calibration
pub mod BootCount
pub mod Footprint
